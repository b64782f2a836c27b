-- ===== src/Process/Source.antt =====
-- sdk/crates/rx-process-contract/src/source_validation.rs over the sources of model.rs. A location and a
-- code of an issue are constructors and its message is left out, as are the name and the digest of the
-- validator. `parents` is the list of the keys, each as often as it was counted.
pub mod Expand
pub mod Validate
pub mod Shapes
pub mod Sound
pub mod Expanded
mod Tests
use rx_solutions.Base.{
  ℕ, suc, ◌+◌, Bool, true, false, not, ◌&&◌, ◌||◌, Option, none, some, List, [], ◌∷◌, ◌++◌, ltb,
  leb, ◌==◌, if◌then◌else◌, Result, ok, err, is_empty, length, contains, lookup, distinct,
}
use rx_solutions.Domain.Types.{Name, Counter, ArtifactRef}
use rx_solutions.Domain.Condition.{Condition}

pub data NodeBody : Type 0 where
  sequence parallel_all : List Name → NodeBody
  branch : Name → Name → Name → NodeBody
  repeat : Counter → Name → NodeBody
  calls_flow operation : Name → NodeBody
  wait : Name → Counter → NodeBody
  intervention : ArtifactRef → NodeBody

pub record Node : Type 0 where
  pub id : Name
  pub body : NodeBody

pub record Flow : Type 0 where
  pub id : Name
  pub root : Name
  pub nodes : List Node

-- `schema_known` says whether the schema is "rx.process-source.v1".
pub record ProcessSource : Type 0 where
  pub schema_known : Bool
  pub process : Name
  pub entry : Name
  pub flows : List Flow
  pub conditions : List (Name × Condition)

-- `NodeBody::children`.
unfoldable pub children : NodeBody → List Name
children (sequence cs) = cs
children (parallel_all cs) = cs
children (branch c t f) = t ∷ f ∷ []
children (repeat n c) = c ∷ []
children _ = []

pub data Location : Type 0 where
  at_source : Location
  at_name : Name → Location
  at_node : Name → Name → Location

pub data IssueCode : Type 0 where
  source_shape duplicate_flow entry_missing node_limit duplicate_node root_missing child_missing
        empty_control :
      IssueCode
  repeat_limit call_missing condition_missing wait_limit shared_or_cyclic_node tree_depth_or_cycle
        unreachable_node :
      IssueCode
  condition_shape_code expansion_limit call_cycle unreachable_flow : IssueCode
  -- What the code takes for granted by an index or an `expect`.
  panics : IssueCode

pub record Issue : Type 0 where
  pub location : Location
  pub code : IssueCode

pub record Report : Type 0 where
  pub structurally_valid : Bool
  pub issues : List Issue
  pub required_bindings : List Name
  pub procedure_references : List ArtifactRef
  pub expanded_nodes : Counter

-- `Report::empty` and `Report::issue`.
abbrev pub empty : Report
empty = record {
  structurally_valid = false;
  issues = [];
  required_bindings = [];
  procedure_references = [];
  expanded_nodes = 0;
}

unfoldable pub issue : Location → IssueCode → Report → Report
issue at code r =
    if ltb (length r.issues) 128
    then record r { issues = r.issues ++ record { location = at; code = code } ∷ [] }
    else r

abbrev pub issue_if : Bool → Location → IssueCode → Report → Report
issue_if wrong at code r = if wrong then issue at code r else r

-- The entries of the maps over `nodes` and `flows`, by name.
unfoldable pub find_node : Name → List Node → Option NodeBody
find_node k [] = none
find_node k (n ∷ ns) = if n.id == k then some n.body else find_node k ns

unfoldable pub find_flow : Name → List Flow → Option Flow
find_flow k [] = none
find_flow k (f ∷ fs) = if f.id == k then some f else find_flow k fs

abbrev pub present : {A : Type 0} → Option A → Bool
present none = false
present (some a) = true

abbrev pub has_condition : Name → List (Name × Condition) → Bool
has_condition k m = present (lookup k m)
