-- ===== src/Process/Frontier/Nodes.antt =====
-- The nodes that `collect` of sdk/crates/rx-process-contract/src/frontier.rs accepts.
use rx_solutions.Base.{
  ℕ, suc, ◌+◌, ◌≤◌, ◌≡◌, refl, max, arith, Bool-cases, Result-cases, inl, inr, distinct, true, ◌||◌,
  List, [], ◌∷◌, leb, ltb, ok, length, contains, has,
}
use rx_solutions.Domain.Types.{Name}
use rx_solutions.Process.{
  CompiledNode, compiled, CompiledBody, sequence, parallel_all, branch, operation, wait,
  intervention, Children, no_child, child,
}
use rx_solutions.Process.Frontier.{}
use rx_solutions.Process.Frontier.Plan.{Nodes, collect, collect_body, collect_each}

abbrev pub keys : {A : Type 0} → List (Name × A) → List Name
keys [] = []
keys ((k, a) ∷ m) = k ∷ keys m

-- The number of nodes and the nesting of a tree.
unfoldable mutual
  pub node_count : CompiledNode → ℕ
  node_count (compiled id source body) = suc (body_count body)

  pub body_count : CompiledBody → ℕ
  body_count (sequence cs) = child_count cs
  body_count (parallel_all cs) = child_count cs
  body_count (branch c t f) = node_count t + node_count f
  body_count (operation b) = 0
  body_count (wait c n) = 0
  body_count (intervention p) = 0

  pub child_count : Children → ℕ
  child_count no_child = 0
  child_count (child c cs) = node_count c + child_count cs

unfoldable mutual
  pub node_height : CompiledNode → ℕ
  node_height (compiled id source body) = suc (body_height body)

  pub body_height : CompiledBody → ℕ
  body_height (sequence cs) = child_height cs
  body_height (parallel_all cs) = child_height cs
  body_height (branch c t f) = max (node_height t) (node_height f)
  body_height (operation b) = 0
  body_height (wait c n) = 0
  body_height (intervention p) = 0

  pub child_height : Children → ℕ
  child_height no_child = 0
  child_height (child c cs) = max (node_height c) (child_height cs)

has-keys : {A : Type 0} (k : Name) (m : List (Name × A)) → contains k (keys m) ≡ has k m
unfolding contains
has-keys k [] = refl
has-keys k ((j, a) ∷ m) = ground (arith, has-keys k m)

-- What holds of the map before and after a part of the tree is collected.
record Collected (before after : Nodes) (count height depth : ℕ) : Type 0 where
  counted : length after ≡ length before + count
  bounded : length after ≤ 4096
  shallow : depth + height ≤ 65
  separate : distinct (keys after) ≡ true

unchanged :
    (nodes after : Nodes) (depth : ℕ)
    → nodes ≡ after
    → distinct (keys nodes) ≡ true
    → length nodes ≤ 4096
    → depth ≤ 65
    → Collected nodes after 0 0 depth
unchanged nodes after depth same d l b = record {
  counted = ground (arith, same);
  bounded = ground (arith, same, l);
  shallow = omega (arith, b);
  separate = ground (arith, same, d);
}

mutual
  unfolding collect node_count node_height distinct

  collect-Collected :
      (n : CompiledNode) (nodes after : Nodes) (depth : ℕ)
      → collect n nodes depth ≡ ok after
      → distinct (keys nodes) ≡ true
      → Collected nodes after (node_count n) (node_height n) depth
  collect-Collected (compiled id source body) nodes after depth h d =
      elim (Bool-cases (ltb 64 depth || leb 4096 (length nodes) || has id nodes)) [
        | inl t ↦ absurd (ground (arith, h, t))
        | inr t ↦
            let r =
              collect_body-Collected body ((id, body) ∷ nodes) after (suc depth)
                (ground (arith, h, t)) (ground (arith, d, t, has-keys id nodes)) (ground (arith, t))
                (ground (arith, t)) in
            record {
              counted = omega (arith, r.counted);
              bounded = r.bounded;
              shallow = omega (arith, r.shallow);
              separate = r.separate;
            }
      ]

  collect_body-Collected :
      (body : CompiledBody) (nodes after : Nodes) (depth : ℕ)
      → collect_body body nodes depth ≡ ok after
      → distinct (keys nodes) ≡ true
      → length nodes ≤ 4096
      → depth ≤ 65
      → Collected nodes after (body_count body) (body_height body) depth
  collect_body-Collected (sequence cs) nodes after depth h d l b =
      collect_each-Collected cs nodes after depth (ground (arith, h)) d l b
  collect_body-Collected (parallel_all cs) nodes after depth h d l b =
      collect_each-Collected cs nodes after depth (ground (arith, h)) d l b
  collect_body-Collected (branch c t f) nodes after depth h d l b =
      elim (Result-cases (collect t nodes depth)) [
        | inr (x, e) ↦ absurd (ground (arith, h, e))
        | inl (more, e) ↦
            let r = collect-Collected t nodes more depth e d in
            let s = collect-Collected f more after depth (ground (arith, h, e)) r.separate in
            record {
              counted = omega (arith, r.counted, s.counted);
              bounded = s.bounded;
              shallow = omega (arith, r.shallow, s.shallow);
              separate = s.separate;
            }
      ]
  collect_body-Collected (operation b') nodes after depth h d l b =
      unchanged nodes after depth (ground (arith, h)) d l b
  collect_body-Collected (wait c n) nodes after depth h d l b =
      unchanged nodes after depth (ground (arith, h)) d l b
  collect_body-Collected (intervention p) nodes after depth h d l b =
      unchanged nodes after depth (ground (arith, h)) d l b

  collect_each-Collected :
      (cs : Children) (nodes after : Nodes) (depth : ℕ)
      → collect_each cs nodes depth ≡ ok after
      → distinct (keys nodes) ≡ true
      → length nodes ≤ 4096
      → depth ≤ 65
      → Collected nodes after (child_count cs) (child_height cs) depth
  collect_each-Collected no_child nodes after depth h d l b =
      unchanged nodes after depth (ground (arith, h)) d l b
  collect_each-Collected (child c cs) nodes after depth h d l b =
      elim (Result-cases (collect c nodes depth)) [
        | inr (x, e) ↦ absurd (ground (arith, h, e))
        | inl (more, e) ↦
            let r = collect-Collected c nodes more depth e d in
            let s =
              collect_each-Collected cs more after depth (ground (arith, h, e)) r.separate r.bounded
                b in
            record {
              counted = omega (arith, r.counted, s.counted);
              bounded = s.bounded;
              shallow = omega (arith, r.shallow, s.shallow);
              separate = s.separate;
            }
      ]

-- A process whose nodes are collected has at most 4096 nodes, at most 65 levels of them, and a name of
-- its own for each node.
pub collect-bounds :
    (n : CompiledNode) (nodes : Nodes)
    → collect n [] 0 ≡ ok nodes
    → (length nodes ≡ node_count n)
      × (node_count n ≤ 4096)
      × (node_height n ≤ 65)
      × (distinct (keys nodes) ≡ true)
unfolding distinct
collect-bounds n nodes h =
    let r = collect-Collected n [] nodes 0 h refl in
    (
      omega (arith, r.counted),
      omega (arith, r.counted, r.bounded),
      omega (arith, r.shallow),
      r.separate,
    )
