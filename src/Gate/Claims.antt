-- ===== src/Gate/Claims.antt =====
-- runtime/rx-host/src/gate/mod.rs: `claim_rpc`, which binds a request key and an effect to one meaning.
-- The rows of the two kinds of key are a table each; a key stands for the digest of the peer, the
-- method and the identifier or the effect.
mod Tests
use rx_solutions.Base.{
  ℕ, ◌≡◌, ◌≢◌, refl, Bool, Option, none, some, arith, ◌==◌, if◌then◌else◌, Result, ok, err, lookup,
  inl, inr, Bool-cases, Option-cases, Result-cases,
}
use rx_solutions.Domain.Types.{Digest}
use rx_solutions.Gate.Model.{Caller, HostError, store, StoreError, key_conflict}
use rx_solutions.Gate.Core.{Core, authorized}
use rx_solutions.Gate.Store.{Row, Table, put}
use rx_solutions.Gate.Store.Laws.{document_of, document_at, put-document_at}

pub record Claims : Type 0 where
  pub keys : Table Digest
  pub effects : Table Digest

-- One turn of the loop: a key that is claimed must have the same meaning.
unfoldable pub claim_key : ℕ → Digest → Table Digest → Result StoreError (Table Digest)
claim_key k semantic t = elim (lookup k t) [
  | some row ↦ if row.document == semantic then ok t else err key_conflict
  | none ↦ put k none semantic t
]

abbrev claim_effect : Option ℕ → Digest → Table Digest → Result StoreError (Table Digest)
claim_effect none semantic t = ok t
claim_effect (some e) semantic t = claim_key e semantic t

-- The transaction of `claim_rpc`; what it writes is kept when both claims hold.
unfoldable pub claim_tx : ℕ → Option ℕ → Digest → Claims → Result StoreError Claims
claim_tx key effect semantic s = elim (claim_key key semantic s.keys) [
  | err e ↦ err e
  | ok ks ↦ elim (claim_effect effect semantic s.effects) [
    | err e ↦ err e
    | ok es ↦ ok (record { keys = ks; effects = es })
  ]
]

-- `claim_rpc`.
unfoldable pub claim_rpc :
    Caller → ℕ → Option ℕ → Digest → Core → Claims → Result HostError (Unit {0}) × Claims
claim_rpc caller key effect semantic c s = elim (authorized caller c) [
  | err e ↦ (err e, s)
  | ok _ ↦ elim (claim_tx key effect semantic s) [
    | err e ↦ (err (store e), s)
    | ok s' ↦ (ok tt, s')
  ]
]

claim_key-kept :
    (j k : ℕ) (semantic : Digest) (t : Table Digest) {t' : Table Digest}
    → claim_key k semantic t ≡ ok t'
    → document_at j t' ≡ (if j == k then some semantic else document_at j t)
unfolding claim_key
claim_key-kept j k semantic t {t'} h = elim (Option-cases (lookup k t)) [
  | inl e ↦ put-document_at j k none semantic t {t' = t'} (rw (e, claim_key) at h)
  | inr (row, e) ↦ ground (arith, e, h)
]

claim_key-again :
    (k : ℕ) (semantic : Digest) (t : Table Digest)
    → document_at k t ≡ some semantic
    → claim_key k semantic t ≡ ok t
unfolding claim_key
claim_key-again k semantic t h = ground (arith, h)

claim_key-other :
    (k : ℕ) (semantic other : Digest) (t : Table Digest)
    → document_at k t ≡ some semantic
    → other ≢ semantic
    → claim_key k other t ≡ err key_conflict
unfolding claim_key
claim_key-other k semantic other t h n = ground (arith, h, n)

claim_tx-effects :
    (key e : ℕ) (semantic : Digest) (s : Claims) {s' : Claims}
    → claim_tx key (some e) semantic s ≡ ok s'
    → (document_at key s'.keys ≡ some semantic) × (document_at e s'.effects ≡ some semantic)
unfolding claim_tx
claim_tx-effects key e semantic s {s'} h = elim (Result-cases (claim_key key semantic s.keys)) [
  | inr (x, a) ↦ absurd (ground (arith, a, h))
  | inl (ks, a) ↦ elim (Result-cases (claim_key e semantic s.effects)) [
    | inr (x, b) ↦ absurd (ground (arith, a, b, h))
    | inl (es, b) ↦ (
      ground (arith, a, b, h, claim_key-kept key key semantic s.keys a),
      ground (arith, a, b, h, claim_key-kept e e semantic s.effects b),
    )
  ]
]

-- When a request key and an effect are claimed for a meaning, the same claim holds again and changes
-- nothing, and a claim of the key, or of the effect under a key that is free or claimed for that other
-- meaning, is refused under another meaning.
pub claim_tx-once :
    (key e : ℕ) (semantic other : Digest) (s : Claims) {s' : Claims}
    → claim_tx key (some e) semantic s ≡ ok s'
    → other ≢ semantic
    → (claim_tx key (some e) semantic s' ≡ ok s')
      × ((effect : Option ℕ) → claim_tx key effect other s' ≡ err key_conflict)
      × ((key' : ℕ) (ks : Table Digest)
          → claim_key key' other s'.keys ≡ ok ks
          → claim_tx key' (some e) other s' ≡ err key_conflict)
unfolding claim_tx
claim_tx-once key e semantic other s {s'} h n =
    let (kept, effect) = claim_tx-effects key e semantic s h in
    (
      rw (claim_key-again key semantic s'.keys kept, claim_tx)
          (rw (claim_key-again e semantic s'.effects effect) refl),
      λ f. rw (claim_key-other key semantic other s'.keys kept n, claim_tx) refl,
      λ key' ks k.
          rw (k, claim_tx) (rw (claim_key-other e semantic other s'.effects effect n) refl),
    )
