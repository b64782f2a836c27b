-- ===== src/Melsec/Client/Permitted.antt =====
-- Which requests drivers/rx-melsec-mc/src/client.rs sends.
use rx_solutions.Base.{
  ℕ, ◌≡◌, refl, ap, sym, subst, ◌∙◌, arith, Bool, true, false, List, [], ◌∷◌, Result, ok, err,
  contains, any, Bool-cases, Result-cases, inl, inr,
}
use rx_solutions.Melsec.{Error}
use rx_solutions.Melsec.Profile.{Configuration, validate, permits, within}
use rx_solutions.Melsec.Codec.{Request, read_m, read_d, write_m, encode, bits}
use rx_solutions.Melsec.Client.{
  Failure, Client, connect, Exchange, finish, sent, enter, exchange, then_bits, then_words,
  acknowledged, read_bits, read_words, write_bit,
}
use rx_solutions.Melsec.Client.Streams.{is_prefix, write_until-prefix}
use rx_solutions.Melsec.Client.Faults.{
  Call, reads_bits, reads_words, writes_bit, call, run, exchange-faulted, exchange-enter,
}

abbrev pub is_permitted : Configuration → Request → Bool
is_permitted config (read_m first count) = permits config.access.read_m first count 64
is_permitted config (read_d first count) = permits config.access.read_d first count 32
is_permitted config (write_m address value) = contains address config.access.write_m

-- A point of a request lies in the profile.
abbrev pub covers : Configuration → Request → ℕ → Bool
covers config (read_m first count) n = any (within n n) config.access.read_m
covers config (read_d first count) n = any (within n n) config.access.read_d
covers config (write_m address value) n = contains n config.access.write_m

-- What the stream took is the start of the frame of a permitted request.
abbrev pub IsAllowed : Configuration → List ℕ → Type 0
IsAllowed config taken =
    (r : Request) × (is_permitted config r ≡ true)
    × (is_prefix taken (encode r config.route config.monitoring_timer) ≡ true)

abbrev pub AllAllowed : Configuration → List (List ℕ) → Type 0
AllAllowed config [] = Unit {0}
AllAllowed config (taken ∷ wire) = IsAllowed config taken × AllAllowed config wire

abbrev pub Keeps : Client → Client → Type 0
Keeps c after =
    (after.config ≡ c.config) × (AllAllowed c.config c.wire → AllAllowed c.config after.wire)

Keeps-self : (c : Client) → Keeps c c
Keeps-self c = (refl, λ a. a)

finish-Keeps :
    (r : Request) (c after : Client) (outcome : Result Error (List ℕ))
    → Keeps c after
    → Keeps c (finish after r outcome).1
finish-Keeps r c after (ok answer) k = k
finish-Keeps r c after (err e) k = k

enter-Keeps :
    (r : Request) (x : Exchange) (c : Client)
    → is_permitted c.config r ≡ true
    → Keeps c (enter r x c).1
unfolding enter
enter-Keeps r x c p =
    finish-Keeps r c (sent c _) _ (refl, λ a. ((r, p, write_until-prefix x.time x.writes _), a))

exchange-Keeps :
    (r : Request) (x : Exchange) (c : Client)
    → is_permitted c.config r ≡ true
    → Keeps c (exchange r x c).1
exchange-Keeps r x c p = elim (Bool-cases c.is_faulted) [
  | inl k ↦ rw (exchange-faulted r x c k) (Keeps-self c)
  | inr k ↦ rw (exchange-enter r x c k) (enter-Keeps r x c p)
]

bits-Keeps :
    (count : ℕ) (c : Client) (r : Result Failure (List ℕ) × Client)
    → Keeps c r.1
    → Keeps c (then_bits count r).1
bits-Keeps count c (err e, after) k = k
bits-Keeps count c (ok answer, after) k = elim (Result-cases (bits answer count)) [
  | inl (values, e) ↦ rw e k
  | inr (e, h) ↦ rw h k
]

words-Keeps :
    (c : Client) (r : Result Failure (List ℕ) × Client) → Keeps c r.1 → Keeps c (then_words r).1
words-Keeps c (err e, after) k = k
words-Keeps c (ok answer, after) k = k

acknowledged-Keeps :
    (address : ℕ) (value : Bool) (c : Client) (r : Result Failure (List ℕ) × Client)
    → Keeps c r.1
    → Keeps c (acknowledged address value r).1
acknowledged-Keeps address value c (err e, after) k = k
acknowledged-Keeps address value c (ok answer, after) k = k

call-Keeps : (k : Call) (c : Client) → Keeps c (call k c).1
unfolding call read_bits read_words write_bit
call-Keeps (reads_bits first count x) c =
    elim (Bool-cases (permits c.config.access.read_m first count 64)) [
      | inr p ↦ rw p (Keeps-self c)
      | inl p ↦ rw p (
          bits-Keeps count c (exchange (read_m first count) x c)
            (exchange-Keeps (read_m first count) x c p))
    ]
call-Keeps (reads_words first count x) c =
    elim (Bool-cases (permits c.config.access.read_d first count 32)) [
      | inr p ↦ rw p (Keeps-self c)
      | inl p ↦ rw p (
          words-Keeps c (exchange (read_d first count) x c)
            (exchange-Keeps (read_d first count) x c p))
    ]
call-Keeps (writes_bit address value x) c =
    elim (Bool-cases (contains address c.config.access.write_m)) [
      | inr p ↦ rw p (Keeps-self c)
      | inl p ↦ rw p (
          acknowledged-Keeps address value c (exchange (write_m address value) x c)
            (exchange-Keeps (write_m address value) x c p))
    ]

run_keeps :
    (config : Configuration) (ks : List Call) (c : Client)
    → c.config ≡ config
    → AllAllowed config c.wire
    → AllAllowed config (run ks c).wire
unfolding run
run_keeps config [] c e a = a
run_keeps config (k ∷ ks) c e a =
    let (same, kept) = call-Keeps k c in
    run_keeps config ks (call k c).1 (same ∙ e) (
      subst (λ d. AllAllowed d (call k c).1.wire) e
        (kept (subst (λ d. AllAllowed d c.wire) (sym e) a)))

connect-new :
    (config : Configuration) (opens : Bool) (c : Client)
    → connect config opens ≡ ok c
    → (validate config ≡ ok tt) × (c ≡ record { config = config; is_faulted = false; wire = [] })
unfolding connect
connect-new config opens c h = elim (Result-cases (validate config)) [
  | inl (tt, e) ↦ (e, ground (arith, h, e))
  | inr (x, e) ↦ absurd (ground (arith, h, e))
]

-- Whatever is called on a client and whatever the stream does, the controller is sent nothing but the
-- frames of requests that the access profile permits, or the starts of such frames.
pub run-AllAllowed :
    (config : Configuration) (opens : Bool) (c : Client) (ks : List Call)
    → connect config opens ≡ ok c
    → AllAllowed config (run ks c).wire
run-AllAllowed config opens c ks h =
    let (valid, new) = connect-new config opens c h in
    run_keeps config ks c (ap (λ (x : Client). x.config) new) (rw new tt)
