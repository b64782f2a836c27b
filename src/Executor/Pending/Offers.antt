-- ===== src/Executor/Pending/Offers.antt =====
-- `next` of runtime/rx-executor/src/pending.rs and what holds of the queue.
use rx_solutions.Base.{
  ℕ, ◌+◌, ◌≤◌, ◌≡◌, refl, Bool, true, false, not, ◌||◌, some, List, [], ◌∷◌, arith, any, all,
  length, Bool-cases, Option-cases, inl, inr, ap, ◌∙◌,
}
use rx_solutions.Domain.Types.{Name}
use rx_solutions.Executor.Frame.{same_identity, is_pause, Request}
use rx_solutions.Executor.Pending.{is_stopped, Pending, PendingRequests, is_flying, offer, next}
use rx_solutions.Executor.Pending.Items.{has_key, is_keyed, flights, asks_pause, any-is_flying}
use rx_solutions.Executor.Pending.Sound.{is_lone_pause, IsSound, going-cases}

has_key-offer :
    (k : Request) (now : ℕ) (busy : Bool) (ps : List Pending) (r : Request) (qs : List Pending)
    → offer now busy ps ≡ some (r, qs)
    → has_key k qs ≡ has_key k ps
unfolding offer
has_key-offer k now busy [] r qs h = cc
has_key-offer k now busy (p ∷ ps) r qs h = elim (Option-cases (offer now busy ps)) [
  | inl e ↦ ground (arith, h, e)
  | inr ((r', qs'), e) ↦ ground (arith, h, e, has_key-offer k now busy ps r' qs' e)
]

pub offer-keeps :
    (now : ℕ) (busy : Bool) (ps : List Pending) (r : Request) (qs : List Pending)
    → offer now busy ps ≡ some (r, qs)
    → (length qs ≡ length ps)
      × (is_keyed qs ≡ is_keyed ps)
      × (flights qs ≡ flights ps + 1)
      × ((is_pause r.kind || not busy) ≡ true)
unfolding offer
offer-keeps now busy [] r qs h = cc
offer-keeps now busy (p ∷ ps) r qs h = elim (Option-cases (offer now busy ps)) [
  | inl e ↦ ground (arith, h, e)
  | inr ((r', qs'), e) ↦
      ground (
        arith,
        h,
        e,
        has_key-offer p.request now busy ps r' qs' e,
        offer-keeps now busy ps r' qs' e,
      )
]

-- What reads an item's request alone is the same after an offer.
offer-all :
    (f : Request → Bool) (now : ℕ) (busy : Bool) (ps : List Pending) (r : Request)
    (qs : List Pending)
    → offer now busy ps ≡ some (r, qs)
    → (all (λ p. f p.request) qs ≡ all (λ p. f p.request) ps)
      × (any (λ p. f p.request) qs ≡ any (λ p. f p.request) ps)
unfolding offer
offer-all f now busy [] r qs h = cc
offer-all f now busy (p ∷ ps) r qs h = elim (Option-cases (offer now busy ps)) [
  | inl e ↦ ground (arith, h, e)
  | inr ((r', qs'), e) ↦ ground (arith, h, e, offer-all f now busy ps r' qs' e)
]

offer-lone :
    (root : Name) (now : ℕ) (busy : Bool) (ps : List Pending) (r : Request) (qs : List Pending)
    → offer now busy ps ≡ some (r, qs)
    → is_lone_pause root ps ≡ true
    → is_lone_pause root qs ≡ true
unfolding offer
offer-lone root now busy [] r qs h l = cc
offer-lone root now busy (p ∷ []) r qs h l = ground (arith, h, l)
offer-lone root now busy (p ∷ x ∷ xs) r qs h l = cc

offer-not_pause :
    (now : ℕ) (busy : Bool) (ps : List Pending) (r : Request) (qs : List Pending)
    → offer now busy ps ≡ some (r, qs)
    → any asks_pause ps ≡ false
    → is_pause r.kind ≡ false
unfolding offer
offer-not_pause now busy [] r qs h n = cc
offer-not_pause now busy (p ∷ ps) r qs h n = elim (Option-cases (offer now busy ps)) [
  | inl e ↦ ground (arith, h, e, n)
  | inr ((r', qs'), e) ↦ ground (arith, h, e, n, offer-not_pause now busy ps r' qs' e)
]

flights-le-length : (ps : List Pending) → flights ps ≤ length ps
flights-le-length [] = omega arith
flights-le-length (p ∷ ps) = ground (arith, flights-le-length ps)

pub is_lone_pause-length :
    (root : Name) (ps : List Pending) → is_lone_pause root ps ≡ true → length ps ≡ 1
is_lone_pause-length root [] h = cc
is_lone_pause-length root (p ∷ []) h = omega arith
is_lone_pause-length root (p ∷ x ∷ xs) h = cc

nil_of_length : (ps qs : List Pending) → length qs ≡ length ps → ps ≡ [] → qs ≡ []
nil_of_length ps [] h e = refl
nil_of_length ps (q ∷ qs) h e = absurd (ground (arith, h, e))

next_flight :
    (now : ℕ) (q : PendingRequests)
    → IsSound q
    → (r : Request) (qs : List Pending) → offer now (any is_flying q.items) q.items ≡ some (r, qs)
    → flights qs ≤ 1
next_flight now q v r qs e =
    let (len, keyed, flying, alone) = offer-keeps now (any is_flying q.items) q.items r qs e in
    elim (Bool-cases (is_stopped q.stop)) [
      | inl s ↦ omega (arith, len, flights-le-length qs, ap length (v.nothing_left s))
      | inr s ↦ elim (going-cases q.stop s) [
        | inl k ↦
            let n = offer-not_pause now _ q.items r qs e (v.no_pause (ground (arith, k))) in
            ground (arith, alone, n, flying, any-is_flying q.items)
        | inr k ↦
            omega (
              arith,
              len,
              flights-le-length qs,
              is_lone_pause-length q.root q.items (v.only_pause k),
            )
      ]
    ]

pub next-IsSound : (now : ℕ) (q : PendingRequests) → IsSound q → IsSound (next now q).1
unfolding next
next-IsSound now q v = elim (Option-cases (offer now (any is_flying q.items) q.items)) [
  | inl e ↦ rw (e, next) v
  | inr ((r, qs), e) ↦
      let (len, keyed, flying, alone) = offer-keeps now (any is_flying q.items) q.items r qs e in
      rw (e, next)
        (record {
          bounded = omega (arith, len, v.bounded);
          keyed = keyed ∙ v.keyed;
          one_flight = next_flight now q v r qs e;
          contextual =
              (offer-all (λ r. same_identity r.identity q.identity) now _ q.items r qs e).0
              ∙ v.contextual;
          no_pause = λ k. (offer-all (λ r. is_pause r.kind) now _ q.items r qs e).1 ∙ v.no_pause k;
          only_pause = λ k. offer-lone q.root now _ q.items r qs e (v.only_pause k);
          nothing_left = λ k. nil_of_length q.items qs len (v.nothing_left k);
        })
]
