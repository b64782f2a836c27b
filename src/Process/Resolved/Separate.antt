-- ===== src/Process/Resolved/Separate.antt =====
-- The resources of parallel parts in sdk/crates/rx-process-contract/src/validation.rs.
use rx_solutions.Base.{
  ℕ, suc, ◌≡◌, refl, ◌∙◌, arith, Bool, true, false, not, ◌&&◌, ◌||◌, Option, none, some, List, [],
  ◌∷◌, ◌++◌, ltb, leb, ok, length, contains, lookup, to_set, contains-to_set, contains-append,
  Bool-cases, Option-cases, Result-cases, inl, inr, has,
}
use rx_solutions.Domain.Types.{Name}
use rx_solutions.Domain.Intent.{normalized}
use rx_solutions.Process.{
  ActionBinding, SourceLocation, CompiledNode, compiled, CompiledBody, sequence, parallel_all,
  branch, operation, wait, intervention, Children, no_child, child, ResolvedProcess,
}
use rx_solutions.Process.Resolved.{
  Seen, is_disjoint, extend, visit_operation, identity_fault, visit, visit_body, visit_children,
  validate,
}

contains-extend :
    (x : Name) (xs ys : List Name) → contains x (extend xs ys) ≡ (contains x xs || contains x ys)
contains-extend x xs ys = contains-to_set x (xs ++ ys) ∙ contains-append x xs ys

disjoint_once :
    (x : Name) (xs ys : List Name)
    → is_disjoint xs ys ≡ true
    → contains x xs ≡ true
    → contains x ys ≡ false
unfolding contains
disjoint_once x [] ys d c = cc
disjoint_once x (z ∷ xs) ys d c = ground (arith, d, c, disjoint_once x xs ys)

module _ (node_id : Name → SourceLocation → Option Name) (process : ResolvedProcess) where
  -- The specification: whether an operation of the tree claims the resource.
  abbrev binding_uses : Name → Option ActionBinding → Bool
  binding_uses x none = false
  binding_uses x (some action) = contains x action.intent.resource_set

  unfoldable mutual
    pub uses : Name → CompiledNode → Bool
    uses x (compiled id source body) = body_uses x body

    pub body_uses : Name → CompiledBody → Bool
    body_uses x (operation b) = binding_uses x (lookup b process.bindings)
    body_uses x (sequence cs) = any_uses x cs
    body_uses x (parallel_all cs) = any_uses x cs
    body_uses x (branch c t e) = uses x t || uses x e
    body_uses x (wait c t) = false
    body_uses x (intervention p) = false

    pub any_uses : Name → Children → Bool
    any_uses x no_child = false
    any_uses x (child c cs) = uses x c || any_uses x cs

  -- No resource is claimed by two parts of one parallel node.
  unfoldable mutual
    pub IsSeparate : CompiledNode → Type 0
    IsSeparate (compiled id source body) = SeparateBody body

    pub SeparateBody : CompiledBody → Type 0
    SeparateBody (operation b) = Unit {0}
    SeparateBody (sequence cs) = SeparateEach cs
    SeparateBody (parallel_all cs) = SeparateEach cs × Apart cs
    SeparateBody (branch c t e) = IsSeparate t × IsSeparate e
    SeparateBody (wait c t) = Unit {0}
    SeparateBody (intervention p) = Unit {0}

    pub SeparateEach : Children → Type 0
    SeparateEach no_child = Unit {0}
    SeparateEach (child c cs) = IsSeparate c × SeparateEach cs

    pub Apart : Children → Type 0
    Apart no_child = Unit {0}
    Apart (child c cs) = ((x : Name) → uses x c ≡ true → any_uses x cs ≡ false) × Apart cs

  operation-uses :
      (x b : Name) (a : Option ActionBinding) (seen after : Seen) (rs : List Name)
      → visit_operation b a seen ≡ ok (rs, after)
      → contains x rs ≡ binding_uses x a
  operation-uses x b none seen after rs h = cc
  operation-uses x b (some action) seen after rs h =
      elim (Result-cases (normalized action.intent)) [
        | inr (e, k) ↦ absurd (ground (arith, h, k))
        | inl (i, k) ↦ ground (arith, h, k, contains-to_set x action.intent.resource_set)
      ]

  -- What a visit that succeeds says of the resources and of the parts that it went through.
  record Visited (n : CompiledNode) (rs : List Name) : Type 0 where
    claims : (x : Name) → contains x rs ≡ uses x n
    separate : IsSeparate n

  record VisitedEach (parallel : Bool) (cs : Children) (before rs : List Name) : Type 0 where
    claims : (x : Name) → contains x rs ≡ (contains x before || any_uses x cs)
    separate : SeparateEach cs
    apart : parallel ≡ true → Apart cs
    new : parallel ≡ true → (x : Name) → contains x before ≡ true → any_uses x cs ≡ false

  record VisitedBody (body : CompiledBody) (rs : List Name) : Type 0 where
    claims : (x : Name) → contains x rs ≡ body_uses x body
    separate : SeparateBody body

  joined_claims :
      (cs : Children) (parallel : Bool) (rs : List Name)
      → VisitedEach parallel cs [] rs
      → (x : Name) → contains x rs ≡ any_uses x cs
  unfolding contains
  joined_claims cs parallel rs v x = v.claims x

  mutual
    unfolding visit uses contains IsSeparate

    visit-Visited :
        (n : CompiledNode) (seen after : Seen) (depth : ℕ) (rs : List Name)
        → visit node_id process n seen depth ≡ ok (rs, after)
        → Visited n rs
    visit-Visited (compiled id source body) seen after depth rs h =
        elim (Bool-cases (ltb 64 depth || leb 4096 (length seen.nodes) || has id seen.nodes)) [
          | inl t ↦ absurd (ground (arith, h, t))
          | inr t ↦
              elim (Option-cases
                (identity_fault node_id process id (node_id process.process source))) [
                  | inr (x, e) ↦ absurd (ground (arith, h, t, e))
                  | inl e ↦
                      let v =
                        body-Visited body (record seen { nodes = (id, body) ∷ seen.nodes }) after
                          (suc depth) rs (ground (arith, h, t, e)) in
                      record { claims = v.claims; separate = v.separate }
                ]
        ]

    body-Visited :
        (body : CompiledBody) (seen after : Seen) (depth : ℕ) (rs : List Name)
        → visit_body node_id process body seen depth ≡ ok (rs, after)
        → VisitedBody body rs
    body-Visited (operation b) seen after depth rs h = record {
      claims = λ x. operation-uses x b (lookup b process.bindings) seen after rs h;
      separate = tt;
    }
    body-Visited (sequence cs) seen after depth rs h =
        let v = children-Visited false cs [] seen after depth rs (ground (arith, h)) in
        record { claims = joined_claims cs false rs v; separate = v.separate }
    body-Visited (parallel_all cs) seen after depth rs h =
        let v = children-Visited true cs [] seen after depth rs (ground (arith, h)) in
        record { claims = joined_claims cs true rs v; separate = (v.separate, v.apart refl) }
    body-Visited (branch c t e) seen after depth rs h =
        elim (Result-cases (visit node_id process t seen depth)) [
          | inr (x, k) ↦ absurd (ground (arith, h, k))
          | inl ((left, more), k) ↦ elim (Result-cases (visit node_id process e more depth)) [
            | inr (x, l) ↦ absurd (ground (arith, h, k, l))
            | inl ((right, most), l) ↦
                let v = visit-Visited t seen more depth left k in
                let w = visit-Visited e more most depth right l in
                let same : extend (to_set left) right ≡ rs = ground (arith, h, k, l) in
                record {
                  claims = λ x. rw (← same) (
                      ground (
                        arith,
                        contains-extend x (to_set left) right,
                        contains-to_set x left,
                        v.claims x,
                        w.claims x,
                      ));
                  separate = (v.separate, w.separate);
                }
          ]
        ]
    body-Visited (wait c timeout) seen after depth rs h = record {
      claims = λ x. ground (arith, h);
      separate = tt;
    }
    body-Visited (intervention p) seen after depth rs h = record {
      claims = λ x. ground (arith, h);
      separate = tt;
    }

    children-Visited :
        (parallel : Bool) (cs : Children) (before : List Name) (seen after : Seen) (depth : ℕ)
        (rs : List Name)
        → visit_children node_id process parallel cs before seen depth ≡ ok (rs, after)
        → VisitedEach parallel cs before rs
    children-Visited parallel no_child before seen after depth rs h =
        let same : before ≡ rs = ground (arith, h) in
        record {
          claims = λ x. rw (← same) (ground arith);
          separate = tt;
          apart = λ p. tt;
          new = λ p x c. refl;
        }
    children-Visited parallel (child c cs) before seen after depth rs h =
        elim (Result-cases (visit node_id process c seen depth)) [
          | inr (x, k) ↦ absurd (ground (arith, h, k))
          | inl ((subset, more), k) ↦
              elim (Bool-cases (parallel && not (is_disjoint before subset))) [
                | inl o ↦ absurd (ground (arith, h, k, o))
                | inr o ↦
                    let v = visit-Visited c seen more depth subset k in
                    let w =
                      children-Visited parallel cs (extend before subset) more after depth rs
                        (ground (arith, h, k, o)) in
                    record {
                      claims = λ x.
                          ground (arith, w.claims x, v.claims x, contains-extend x before subset);
                      separate = (v.separate, w.separate);
                      apart = λ p. (
                        λ x u.
                            w.new p x
                              (ground (arith, contains-extend x before subset, v.claims x, u)),
                        w.apart p,
                      );
                      new = λ p x b.
                          let free = disjoint_once x before subset (ground (arith, o, p)) b in
                          ground (
                            arith,
                            free,
                            v.claims x,
                            w.new p x,
                            contains-extend x before subset,
                            b,
                          );
                    }
              ]
        ]

  -- In a resolved process that is accepted no two parts of a parallel node, at whatever depth their
  -- operations stand, claim a resource together.
  pub validate-IsSeparate :
      (schema_known : Bool)
      → validate node_id process schema_known ≡ ok tt
      → IsSeparate process.root
  unfolding validate
  validate-IsSeparate schema_known h =
      elim (Result-cases
        (visit node_id process process.root (record { nodes = []; used = [] }) 0)) [
          | inr (x, k) ↦ absurd (ground (arith, h, k))
          | inl ((rs, after), k) ↦ (visit-Visited process.root _ after 0 rs k).separate
        ]
