-- ===== src/Process/Source/Expanded.antt =====
-- The size of the plans that sdk/crates/rx-process-contract/src/source_validation.rs accepts.
use rx_solutions.Base.{
  ℕ, zero, suc, ◌+◌, ◌-◌, ◌*◌, ◌≤◌, ◌≡◌, refl, ap, ◌∙◌, arith, true, not, none, some, List, [], ◌∷◌,
  ◌==◌, Result, ok, err, is_empty, length, contains, Bool-cases, Option-cases, Result-cases, inl,
  inr,
}
use rx_solutions.Domain.Types.{Name}
use rx_solutions.Process.Source.{
  NodeBody, sequence, parallel_all, branch, repeat, calls_flow, operation, wait, intervention, Flow,
  ProcessSource, at_source, at_name, IssueCode, Report, find_node, find_flow, panics,
}
use rx_solutions.Process.Source.Expand.{
  Expand, Expansion, expand, expand_all, expand_times, expand_body, pop_call, spend,
}
use rx_solutions.Process.Source.Validate.{
  check_source, check_expansion, expanded, expansion_if_clean, at_start, validate,
}
use rx_solutions.Process.Source.Sound.{issue_if-clean, valid-source, before_expansion, issue-dirty}

-- The number of nodes of the plan that a node expands to.
unfoldable pub weight_all : (Name → ℕ) → List Name → ℕ
weight_all w [] = 0
weight_all w (c ∷ cs) = w c + weight_all w cs

unfoldable pub body_weight : (Flow → Name → ℕ) → List Flow → Flow → NodeBody → ℕ
body_weight w flows flow (calls_flow target) = elim (find_flow target flows) [
  | none ↦ 0
  | some next ↦ w next next.root
]
body_weight w flows flow (repeat n c) = n * w flow c
body_weight w flows flow (sequence cs) = weight_all (w flow) cs
body_weight w flows flow (parallel_all cs) = weight_all (w flow) cs
body_weight w flows flow (branch c t e) = weight_all (w flow) (t ∷ e ∷ [])
body_weight w flows flow (operation b) = 0
body_weight w flows flow (wait c t) = 0
body_weight w flows flow (intervention p) = 0

unfoldable pub weight : List Flow → ℕ → Flow → Name → ℕ
weight flows zero flow node = 0
weight flows (suc levels) flow node = elim (find_node node flow.nodes) [
  | none ↦ 1
  | some body ↦ suc (body_weight (weight flows levels) flows flow body)
]

-- An expansion that spends as many nodes as a weight says.
abbrev Spends : Expand → ℕ → Type 0
Spends f w = (s s' : Expansion) → f s ≡ (ok tt, s') → s'.remaining + w ≡ s.remaining

expand_all-Spends :
    (f : Name → Expand) (w : Name → ℕ)
    → ((c : Name) → Spends (f c) (w c))
    → (cs : List Name) → Spends (expand_all f cs) (weight_all w cs)
unfolding expand_all weight_all
expand_all-Spends f w each [] s s' h = ground (arith, h)
expand_all-Spends f w each (c ∷ cs) s s' h = elim (Result-cases (f c s).0) [
  | inr (e, k) ↦ absurd (ground (arith, h, k))
  | inl (tt, k) ↦ omega (
    arith,
    each c s (f c s).1 (ground (arith, k)),
    expand_all-Spends f w each cs (f c s).1 s' (ground (arith, h, k)),
  )
]

expand_times-Spends :
    (f : Expand) (w : ℕ) → Spends f w → (n : ℕ) → Spends (expand_times f n) (n * w)
unfolding expand_times
expand_times-Spends f w each zero s s' h = ground (arith, h)
expand_times-Spends f w each (suc n) s s' h = elim (Result-cases (f s).0) [
  | inr (e, k) ↦ absurd (ground (arith, h, k))
  | inl (tt, k) ↦ omega (
    arith,
    each s (f s).1 (ground (arith, k)),
    expand_times-Spends f w each n (f s).1 s' (ground (arith, h, k)),
  )
]

pop-Spends :
    (r : Result IssueCode (Unit {0}) × Expansion) (s' : Expansion)
    → pop_call r ≡ (ok tt, s')
    → (r.0 ≡ ok tt) × (s'.remaining ≡ r.1.remaining)
pop-Spends (err e, s) s' h = absurd (ground (arith, h))
pop-Spends (ok tt, s) s' h = (refl, ground (arith, h))

expand_body-Spends :
    (f : Flow → Name → Expand) (w : Flow → Name → ℕ)
    → ((flow : Flow) (c : Name) → Spends (f flow c) (w flow c))
    → (flows : List Flow) (flow : Flow) (body : NodeBody)
    → Spends (expand_body f flows flow body) (body_weight w flows flow body)
unfolding expand_body body_weight
expand_body-Spends f w each flows flow (repeat n c) =
    expand_times-Spends (f flow c) (w flow c) (each flow c) n
expand_body-Spends f w each flows flow (sequence cs) =
    expand_all-Spends (f flow) (w flow) (each flow) cs
expand_body-Spends f w each flows flow (parallel_all cs) =
    expand_all-Spends (f flow) (w flow) (each flow) cs
expand_body-Spends f w each flows flow (branch c t e) =
    expand_all-Spends (f flow) (w flow) (each flow) (t ∷ e ∷ [])
expand_body-Spends f w each flows flow (operation b) = λ s s' h. ground (arith, h)
expand_body-Spends f w each flows flow (wait c t) = λ s s' h. ground (arith, h)
expand_body-Spends f w each flows flow (intervention p) = λ s s' h. ground (arith, h)
expand_body-Spends f w each flows flow (calls_flow target) = λ s s' h.
    elim (Bool-cases (contains target s.calls)) [
      | inl k ↦ absurd (ground (arith, h, k))
      | inr k ↦ elim (Option-cases (find_flow target flows)) [
        | inl e ↦ absurd (ground (arith, h, k, e))
        | inr (next, e) ↦
            let start = record s { calls = target ∷ s.calls } in
            let (good, same) = pop-Spends (f next next.root start) s' (ground (arith, h, k, e)) in
            ground (
              arith,
              e,
              same,
              each next next.root start (f next next.root start).1 (ground (arith, good)),
            )
      ]
    ]

expand-Spends :
    (flows : List Flow) (levels : ℕ) (flow : Flow) (node : Name)
    → Spends (expand flows levels flow node) (weight flows levels flow node)
unfolding expand weight
expand-Spends flows zero flow node s s' h = absurd (ground (arith, h))
expand-Spends flows (suc levels) flow node s s' h = elim (Bool-cases (s.remaining == 0)) [
  | inl k ↦ absurd (ground (arith, h, k))
  | inr k ↦ elim (Option-cases (find_node node flow.nodes)) [
    | inl e ↦ absurd (ground (arith, h, k, e))
    | inr (body, e) ↦
        let spent =
          expand_body-Spends (expand flows levels) (weight flows levels)
            (expand-Spends flows levels) flows flow body (spend flow s) s'
            (ground (arith, h, k, e)) in
        ground (arith, k, e, spent)
  ]
]

expanded-clean :
    (source : ProcessSource) (r : Report) (x : Result IssueCode (Unit {0}) × Expansion)
    → is_empty (expanded source r x).issues ≡ true
    → (x.0 ≡ ok tt)
      × (length x.1.visited ≡ length source.flows)
      × ((expanded source r x).expanded_nodes ≡ 4096 - x.1.remaining)
expanded-clean source r (err e, s) h =
    absurd (ground (arith, h, issue-dirty (at_name source.entry) e r))
expanded-clean source r (ok tt, s) h =
    let (clean, all_visited) =
      issue_if-clean (not (length s.visited == length source.flows)) at_source _ r h in
    (refl, ground (arith, all_visited), refl)

expansion-clean :
    (source : ProcessSource) (r : Report)
    → is_empty (expansion_if_clean source r).issues ≡ true
    → (entry : Flow) × (s : Expansion) × (find_flow source.entry source.flows ≡ some entry)
      × (expand source.flows 65 entry entry.root (at_start source.entry) ≡ (ok tt, s))
      × ((expansion_if_clean source r).expanded_nodes ≡ 4096 - s.remaining)
      × (length s.visited ≡ length source.flows)
unfolding check_expansion
expansion-clean source r h =
    let made : is_empty r.issues ≡ true = before_expansion source r h in
    elim (Option-cases (find_flow source.entry source.flows)) [
      | inl e ↦ absurd (ground (arith, h, made, e, issue-dirty (at_name source.entry) panics r))
      | inr (entry, e) ↦
          let x = expand source.flows 65 entry entry.root (at_start source.entry) in
          let (good, visits, counts) = expanded-clean source r x (ground (arith, h, made, e)) in
          (entry, x.1, e, ground (arith, good), ground (arith, made, e, counts), visits)
    ]

-- The reported size of a source that is structurally valid is that of the plan it expands to from its
-- entry flow, at most 4096 nodes, and as many flows are visited on the way as the source has.
pub validate-expands :
    (source : ProcessSource)
    → (validate source).structurally_valid ≡ true
    → (entry : Flow) × (s : Expansion) × (find_flow source.entry source.flows ≡ some entry)
      × (expand source.flows 65 entry entry.root (at_start source.entry) ≡ (ok tt, s))
      × ((validate source).expanded_nodes ≡ weight source.flows 65 entry entry.root)
      × ((validate source).expanded_nodes ≤ 4096)
      × (length s.visited ≡ length source.flows)
unfolding check_source
validate-expands source h =
    let (clean, same) = valid-source source h in
    let (entry, s, found, ran, counts, visits) = expansion-clean source _ clean in
    let spent = expand-Spends source.flows 65 entry entry.root (at_start source.entry) s ran in
    let nodes : (validate source).expanded_nodes ≡ 4096 - s.remaining =
      ap (λ (r : Report). r.expanded_nodes) same ∙ counts in
    (entry, s, found, ran, omega (arith, nodes, spent), omega (arith, nodes), visits)
