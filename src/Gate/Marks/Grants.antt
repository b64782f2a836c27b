-- ===== src/Gate/Marks/Grants.antt =====
-- `acquire_grant` and `renew_grant` of runtime/rx-host/src/gate/grants.rs and the marks.
use rx_solutions.Base.{
  ℕ, ◌+◌, ◌≡◌, ◌≤◌, ◌<◌, Bool, true, false, not, ◌||◌, none, some, List, [], ◌∷◌, arith, ◌==◌,
  if◌then◌else◌, ok, is_empty, any, contains, sort, lookup, inl, inr, Bool-cases, Option-cases,
  Result-cases,
}
use rx_solutions.Domain.Types.{Uuid, Digest, Name, Counter, TimePoint, checked_add}
use rx_solutions.Gate.Model.{Caller, StoredGrant, ResourceFence}
use rx_solutions.Gate.Store.{Store, Table, put}
use rx_solutions.Gate.Store.Laws.{document_at, put-document_at}
use rx_solutions.Gate.Core.{Core, Hashes, authorized, require_admission}
use rx_solutions.Gate.Grants.{
  has_equal_neighbours, declared, overlaps, revision_of, is_stale_fence, write_fences, grant_tx,
  acquire_new, acquire_sorted, acquire_grant, renew_tx, renew_grant,
}
use rx_solutions.Gate.Marks.{maximum_of, maximum, Rises, stays, transact-Rises}

write_fences-maximum :
    (fence : Counter) (xs : List Name) (t : Table ResourceFence) (x : Name)
    {t' : Table ResourceFence}
    → write_fences fence xs t ≡ ok t'
    → maximum_of (document_at x t')
      ≡ (if contains x xs then fence else maximum_of (document_at x t))
unfolding write_fences contains
write_fences-maximum fence [] t x h = ground (arith, h)
write_fences-maximum fence (y ∷ ys) t x {t'} h =
    let f : ResourceFence = record { resource = y; maximum = fence } in
    elim (Result-cases (put y (revision_of (lookup y t)) f t)) [
      | inr (e, w) ↦ absurd (ground (arith, w, h))
      | inl (u, w) ↦ ground (
        arith,
        put-document_at x y (revision_of (lookup y t)) f t w,
        write_fences-maximum fence ys u x (rw (w, write_fences) at h),
      )
    ]

any_stale :
    (fence : Counter) (t : Table ResourceFence) (xs : List Name) (x : Name)
    → any (λ y. is_stale_fence fence (lookup y t)) xs ≡ false
    → contains x xs ≡ true
    → maximum_of (document_at x t) ≤ fence
unfolding contains
any_stale fence t [] x h e = cc
any_stale fence t (y ∷ ys) x h e = ground (arith, any_stale fence t ys x)

pub any_stale-lt :
    (fence : Counter) (t : Table ResourceFence) (xs : List Name) (x : Name)
    → 0 < fence
    → any (λ y. is_stale_fence fence (lookup y t)) xs ≡ false
    → contains x xs ≡ true
    → maximum_of (document_at x t) < fence
unfolding contains
any_stale-lt fence t [] x p h e = cc
any_stale-lt fence t (y ∷ ys) x p h e = ground (arith, any_stale-lt fence t ys x)

put-absent :
    {V : Type 0} (k : ℕ) (v : V) (t : Table V) {t' : Table V}
    → put k none v t ≡ ok t'
    → lookup k t ≡ none
unfolding put
put-absent k v t h = ground arith

-- What the transaction of a new grant leaves, when it succeeds.
pub grant_tx-marks :
    (request : Uuid) (fingerprint : Digest) (g : StoredGrant) (s : Store) {a : StoredGrant}
    → (grant_tx request fingerprint g s).0 ≡ ok a
    → let s' = (grant_tx request fingerprint g s).1 in
      Rises s s'
      × ((x : Name) → maximum x s' ≡ (if contains x g.resources then g.fence else maximum x s))
      × (a ≡ g)
unfolding grant_tx
grant_tx-marks request fingerprint g s h =
    elim (Bool-cases (any (λ x. is_stale_fence g.fence (lookup x s.resources)) g.resources)) [
      | inl e ↦ absurd (ground (arith, e, h))
      | inr e ↦ elim (Result-cases (write_fences g.fence g.resources s.resources)) [
        | inr (x, w) ↦ absurd (ground (arith, e, w, h))
        | inl (rs, w) ↦ elim (Result-cases (put g.id none g s.grants)) [
          | inr (x, p) ↦ absurd (ground (arith, e, w, p, h))
          | inl (gs, p) ↦ elim (Result-cases (put request none (fingerprint, g) s.grant_requests)) [
            | inr (x, q) ↦ absurd (ground (arith, e, w, p, q, h))
            | inl (qs, q) ↦
                rw (e, grant_tx)
                  (rw w (
                    rw p (
                      rw q (
                        record {
                          maxima = λ x. ground (
                            arith,
                            write_fences-maximum g.fence g.resources s.resources x w,
                            any_stale g.fence s.resources g.resources x e,
                          );
                          epochs = λ cell. omega arith;
                          fences = λ i f k. ground (
                            arith,
                            put-document_at i g.id none g s.grants p,
                            put-absent g.id g s.grants p,
                            k,
                          );
                        },
                        λ x. write_fences-maximum g.fence g.resources s.resources x w,
                        ground (arith, e, w, p, q, h),
                      ))))
          ]
        ]
      ]
    ]

renew_tx-Rises :
    (boot : Uuid) (caller : Caller) (id : Uuid) (sequence : Counter) (now : TimePoint) (s : Store)
    {a : StoredGrant}
    → (renew_tx boot caller id sequence now s).0 ≡ ok a
    → Rises s (renew_tx boot caller id sequence now s).1
unfolding renew_tx
renew_tx-Rises boot caller id sequence now s h = elim (Option-cases (lookup id s.grants)) [
  | inl e ↦ absurd (ground (arith, e, h))
  | inr (row, e) ↦ record {
    maxima = λ x. ground (arith, e);
    epochs = λ cell. ground (arith, e);
    fences = λ i f k. ground (
      arith,
      e,
      k,
      put-document_at i id (some row.revision)
          (record (row.document) {
            renew_seq = sequence;
            expires_at = record (row.document.expires_at) {
              ticks_ns = now.ticks_ns + row.document.ttl_ns;
            };
          })
          s.grants {t' = (renew_tx boot caller id sequence now s).1.grants},
    );
  }
]

pub renew_grant-Rises :
    (caller : Caller) (id : Uuid) (sequence : Counter) (now : TimePoint) (c : Core)
    → Rises c.durable (renew_grant caller id sequence now c).1.durable
unfolding renew_grant
renew_grant-Rises caller id sequence now c = elim (Result-cases (authorized caller c)) [
  | inr (x, e) ↦ rw (e, renew_grant) (stays c.durable)
  | inl (u, e) ↦ elim (Result-cases (require_admission c)) [
    | inr (x, f) ↦ rw (e, renew_grant) (rw f (stays c.durable))
    | inl (y, f) ↦
        rw (e, renew_grant)
          (rw f
            (transact-Rises _ c (λ a w. renew_tx-Rises c.boot caller id sequence now c.durable w)))
  ]
]

acquire_new-Rises :
    (caller : Caller) (request : Uuid) (fingerprint : Digest) (resources : List Name)
    (fence ttl : Counter) (now : TimePoint) (can_handover : Bool) (id : Uuid) (c : Core)
    → Rises c.durable
        (acquire_new caller request fingerprint resources fence ttl now can_handover id c).1.durable
unfolding acquire_new
acquire_new-Rises caller request fingerprint resources fence ttl now can_handover id c =
    elim (Bool-cases can_handover) [
      | inr e ↦ rw (e, acquire_new) (stays c.durable)
      | inl e ↦ elim (Bool-cases (overlaps resources c.durable.deliveries)) [
        | inl f ↦ rw (e, acquire_new) (rw f (stays c.durable))
        | inr f ↦ elim (Option-cases (checked_add now.ticks_ns ttl)) [
          | inl w ↦ rw (e, acquire_new) (rw f (rw w (stays c.durable)))
          | inr (t, w) ↦
              rw (e, acquire_new)
                (rw f (
                  rw w (
                    transact-Rises _ c
                      (λ a q. (grant_tx-marks request fingerprint _ c.durable q).0))))
        ]
      ]
    ]

acquire_sorted-Rises :
    (h : Hashes) (caller : Caller) (request : Uuid) (rs : List Name) (fence ttl : Counter)
    (now : TimePoint) (can_handover : Bool) (id : Uuid) (c : Core)
    → Rises c.durable (acquire_sorted h caller request rs fence ttl now can_handover id c).1.durable
unfolding acquire_sorted
acquire_sorted-Rises h caller request rs fence ttl now can_handover id c =
    elim (Bool-cases (is_empty rs || ttl == 0 || fence == 0 || has_equal_neighbours rs)) [
      | inl e ↦ rw (e, acquire_sorted) (stays c.durable)
      | inr e ↦ elim (Bool-cases (any (λ r. not (contains r (declared c.bindings))) rs)) [
        | inl f ↦ rw (e, acquire_sorted) (rw f (stays c.durable))
        | inr f ↦ elim (Option-cases (lookup request c.durable.grant_requests)) [
          | inr (row, w) ↦ rw (e, acquire_sorted) (rw f (rw w (stays c.durable)))
          | inl w ↦
              rw (e, acquire_sorted)
                (rw f
                  (rw w (acquire_new-Rises caller request _ rs fence ttl now can_handover id c)))
        ]
      ]
    ]

pub acquire_grant-Rises :
    (h : Hashes) (caller : Caller) (request : Uuid) (resources : List Name) (fence ttl : Counter)
    (now : TimePoint) (can_handover : Bool) (id : Uuid) (c : Core)
    → Rises c.durable
        (acquire_grant h caller request resources fence ttl now can_handover id c).1.durable
unfolding acquire_grant
acquire_grant-Rises h caller request resources fence ttl now can_handover id c =
    elim (Result-cases (authorized caller c)) [
      | inr (x, e) ↦ rw (e, acquire_grant) (stays c.durable)
      | inl (u, e) ↦ elim (Result-cases (require_admission c)) [
        | inr (x, f) ↦ rw (e, acquire_grant) (rw f (stays c.durable))
        | inl (y, f) ↦
            rw (e, acquire_grant)
              (rw f (
                acquire_sorted-Rises h caller request (sort resources) fence ttl now can_handover id
                  c))
      ]
    ]
