-- ===== src/Gate/Marks/Acquired.antt =====
-- What a new grant of runtime/rx-host/src/gate/grants.rs does to the fences.
use rx_solutions.Base.{
  ◌≡◌, ◌<◌, refl, Bool, true, false, not, ◌||◌, none, List, arith, ◌==◌, if◌then◌else◌, ok,
  is_empty, any, contains, sort, contains-sort, lookup, inl, inr, Bool-cases, Option-cases,
  Result-cases,
}
use rx_solutions.Domain.Types.{Uuid, Digest, Name, Counter, TimePoint, checked_add}
use rx_solutions.Gate.Model.{Caller, StoredGrant}
use rx_solutions.Gate.Store.{Store}
use rx_solutions.Gate.Core.{Core, Hashes, authorized, require_admission, transact}
use rx_solutions.Gate.Grants.{
  has_equal_neighbours, declared, overlaps, is_stale_fence, grant_tx, acquire_new, acquire_sorted,
  acquire_grant,
}
use rx_solutions.Gate.Once.{transact-ok, transact-err}
use rx_solutions.Gate.Marks.{maximum}
use rx_solutions.Gate.Marks.Grants.{any_stale-lt, grant_tx-marks}

-- Every resource of the grant has the fence, which is above what it had, and no other fence moved.
abbrev pub Fences : (Name → Bool) → Counter → StoredGrant → Store → Store → Type 0
Fences named fence g s s' =
    (g.fence ≡ fence)
    × ((x : Name) → maximum x s' ≡ (if named x then fence else maximum x s))
    × ((x : Name) → named x ≡ true → maximum x s < fence)

grant_tx-not_stale :
    (request : Uuid) (fingerprint : Digest) (g : StoredGrant) (s : Store) {a : StoredGrant}
    → (grant_tx request fingerprint g s).0 ≡ ok a
    → any (λ x. is_stale_fence g.fence (lookup x s.resources)) g.resources ≡ false
unfolding grant_tx
grant_tx-not_stale request fingerprint g s h =
    elim (Bool-cases (any (λ x. is_stale_fence g.fence (lookup x s.resources)) g.resources)) [
      | inl e ↦ absurd (ground (arith, e, h))
      | inr e ↦ e
    ]

acquire_new-Fences :
    (caller : Caller) (request : Uuid) (fingerprint : Digest) (resources : List Name)
    (fence ttl : Counter) (now : TimePoint) (can_handover : Bool) (id : Uuid) (c : Core)
    {a : StoredGrant}
    → 0 < fence
    → (acquire_new caller request fingerprint resources fence ttl now can_handover id c).0 ≡ ok a
    → Fences
        (λ x. contains x resources)
        fence
        a
        c.durable
        (acquire_new caller request fingerprint resources fence ttl now can_handover id c).1.durable
unfolding acquire_new
acquire_new-Fences caller request fingerprint resources fence ttl now can_handover id c {a} p h =
    elim (Bool-cases can_handover) [
      | inr e ↦ absurd (ground (arith, e, h))
      | inl e ↦ elim (Bool-cases (overlaps resources c.durable.deliveries)) [
        | inl f ↦ absurd (ground (arith, e, f, h))
        | inr f ↦ elim (Option-cases (checked_add now.ticks_ns ttl)) [
          | inl w ↦ absurd (ground (arith, e, f, w, h))
          | inr (t, w) ↦
              rw (e, acquire_new)
                (rw f (
                  rw w (
                    made
                      (record {
                        id = id;
                        host_boot = c.boot;
                        owner = caller.peer;
                        session = caller.session;
                        resources = resources;
                        fence = fence;
                        expires_at = record now { ticks_ns = t };
                        renew_seq = 0;
                        ttl_ns = ttl;
                      })
                      refl refl (rw w at (rw f at (rw (e, acquire_new) at h))))))
        ]
      ]
    ]
  where
    made :
        (g : StoredGrant)
        → g.resources ≡ resources
        → g.fence ≡ fence
        → (transact (grant_tx request fingerprint g) c).0 ≡ ok a
        → Fences
            (λ x. contains x resources)
            fence
            a
            c.durable
            (transact (grant_tx request fingerprint g) c).1.durable
    made g rs fs h = elim (Result-cases (grant_tx request fingerprint g c.durable).0) [
      | inr (x, e) ↦ absurd (ground (arith, transact-err (grant_tx request fingerprint g) c e, h))
      | inl (b, e) ↦
          let (rises, at, same) = grant_tx-marks request fingerprint g c.durable e in
          rw (transact-ok (grant_tx request fingerprint g) c e) (
            ground (arith, transact-ok (grant_tx request fingerprint g) c e, h, same, fs),
            λ x. ground (arith, at x, rs, fs),
            λ x n. ground (
              arith,
              rs,
              fs,
              any_stale-lt g.fence c.durable.resources g.resources x (omega (arith, p, fs))
                  (grant_tx-not_stale request fingerprint g c.durable e) (rw rs n),
            ),
          )
    ]

acquire_sorted-Fences :
    (h : Hashes) (caller : Caller) (request : Uuid) (rs : List Name) (fence ttl : Counter)
    (now : TimePoint) (can_handover : Bool) (id : Uuid) (c : Core) {a : StoredGrant}
    → lookup request c.durable.grant_requests ≡ none
    → (acquire_sorted h caller request rs fence ttl now can_handover id c).0 ≡ ok a
    → Fences
        (λ x. contains x rs)
        fence
        a
        c.durable
        (acquire_sorted h caller request rs fence ttl now can_handover id c).1.durable
unfolding acquire_sorted
acquire_sorted-Fences h caller request rs fence ttl now can_handover id c w k =
    elim (Bool-cases (is_empty rs || ttl == 0 || fence == 0 || has_equal_neighbours rs)) [
      | inl e ↦ absurd (ground (arith, e, k))
      | inr e ↦ elim (Bool-cases (any (λ r. not (contains r (declared c.bindings))) rs)) [
        | inl f ↦ absurd (ground (arith, e, f, k))
        | inr f ↦
            rw (e, acquire_sorted)
              (rw f (
                rw w (
                  acquire_new-Fences caller request _ rs fence ttl now can_handover id c
                    (ground (arith, e)) (rw w at (rw f at (rw (e, acquire_sorted) at k))))))
      ]
    ]

-- When `acquire_grant` grants a request that it has not answered before, the grant has the asked
-- fence, every resource asked for had a lower highest fence and now has this one, and the highest
-- fence of every other resource is as it was.
pub acquire_grant-Fences :
    (h : Hashes) (caller : Caller) (request : Uuid) (resources : List Name) (fence ttl : Counter)
    (now : TimePoint) (can_handover : Bool) (id : Uuid) (c : Core) {a : StoredGrant}
    → lookup request c.durable.grant_requests ≡ none
    → (acquire_grant h caller request resources fence ttl now can_handover id c).0 ≡ ok a
    → Fences
        (λ x. contains x resources)
        fence
        a
        c.durable
        (acquire_grant h caller request resources fence ttl now can_handover id c).1.durable
unfolding acquire_grant
acquire_grant-Fences h caller request resources fence ttl now can_handover id c w k =
    elim (Result-cases (authorized caller c)) [
      | inr (x, e) ↦ absurd (ground (arith, e, k))
      | inl (u, e) ↦ elim (Result-cases (require_admission c)) [
        | inr (x, f) ↦ absurd (ground (arith, e, f, k))
        | inl (y, f) ↦
            let (same, marks, below) =
              acquire_sorted-Fences h caller request (sort resources) fence ttl now can_handover id
                c w (rw f at (rw (e, acquire_grant) at k)) in
            rw (e, acquire_grant)
              (rw f (
                same,
                λ x. ground (arith, marks x, contains-sort x resources),
                λ x n. below x (rw (contains-sort x resources) n),
              ))
      ]
    ]
