-- ===== src/Process.antt =====
-- sdk/crates/rx-process-contract/src/model.rs: resolved processes. A map is the list of its entries, and
-- a text stands for its position in the order of texts.
pub mod Frontier
pub mod Source
pub mod Resolved
use rx_solutions.Base.{ℕ, Bool, true, false, Option, List}
use rx_solutions.Domain.Types.{Name, Digest, Counter, ArtifactRef}
use rx_solutions.Domain.Intent.{Intent}
use rx_solutions.Domain.Condition.{Condition}

pub record ActionBinding : Type 0 where
  pub host : Name
  pub intent : Intent

pub record SourceLocation : Type 0 where
  pub flow : Name
  pub node : Name
  pub instantiation : List ℕ

mutual
  pub data CompiledNode : Type 0 where
    compiled : Name → SourceLocation → CompiledBody → CompiledNode

  pub data CompiledBody : Type 0 where
    sequence parallel_all : Children → CompiledBody
    branch : Name → CompiledNode → CompiledNode → CompiledBody
    operation : Name → CompiledBody
    wait : Name → Counter → CompiledBody
    intervention : ArtifactRef → CompiledBody

  pub data Children : Type 0 where
    no_child : Children
    child : CompiledNode → Children → Children

abbrev pub is_no_child : Children → Bool
is_no_child no_child = true
is_no_child (child c cs) = false

pub record ResolvedProcess : Type 0 where
  pub schema : Name
  pub package_digest : Option Digest
  pub source_digest : Digest
  pub process : Name
  pub root : CompiledNode
  pub bindings : List (Name × ActionBinding)
  pub conditions : List (Name × Condition)
