-- ===== src/Gate/Model.antt =====
-- runtime/rx-host/src/model.rs: the records that the gate keeps, takes and returns.
use rx_solutions.Base.{ℕ, List, Option}
use rx_solutions.Domain.Types.{Uuid, Digest, Name, Counter, TimePoint, ArtifactRef}
use rx_solutions.Domain.Intent.{Intent}

pub record Caller : Type 0 where
  pub peer : Name
  pub session : Uuid

pub data Environment : Type 0 where
  simulation physical : Environment

pub data Purpose : Type 0 where
  production setup recovery : Purpose

-- `purposes` is a set: only membership is asked.
pub record Binding : Type 0 where
  pub host : Name
  pub platform : Name
  pub cell : Name
  pub definition : ArtifactRef
  pub envelope : ArtifactRef
  pub qualification : Uuid
  pub qualification_revision : Counter
  pub allowed_intents : List Intent
  pub scope_ids : List Name
  pub condition_ids : List Name
  pub environment : Environment
  pub purposes : List Purpose

pub data PermitParent : Type 0 where
  mandate : Uuid → PermitParent
  recovery_step : Uuid → Digest → Name → Counter → PermitParent

pub record HostMeta : Type 0 where
  pub delivery_journal : Uuid
  pub evidence_journal : Uuid
  pub delivery_seq : Counter

-- `scopes` is a map and `blocked` a set, both in their order.
pub record CellState : Type 0 where
  pub epoch : Counter
  pub scopes : List (Name × Counter)
  pub blocked : List Uuid

pub data ReceiptState : Type 0 where
  prepared send_entered native_rejected native_accepted result_captured voided_before_send :
      ReceiptState

pub record DeliveryRecord : Type 0 where
  pub operation : Uuid
  pub digest : Digest
  pub invocation : Option Uuid
  pub state : ReceiptState
  pub journal_seq : Counter
  pub prepared_boot : Uuid
  pub prepare_until : TimePoint
  pub cell : Name
  pub intent : Intent
  pub permit : Uuid
  pub device_session : Uuid
  pub evidence_ids : List Uuid
  pub permit_digest : Digest

pub record StoredGrant : Type 0 where
  pub id : Uuid
  pub host_boot : Uuid
  pub owner : Name
  pub session : Uuid
  pub resources : List Name
  pub fence : Counter
  pub expires_at : TimePoint
  pub renew_seq : Counter
  pub ttl_ns : Counter

pub record GateReceipt : Type 0 where
  pub id : Uuid
  pub host_boot : Uuid
  pub journal : Uuid
  pub sequence : Counter
  pub cell : Name
  pub state : CellState

pub record VoidRecord : Type 0 where
  pub operation : Uuid
  pub digest : Digest
  pub sequence : Counter

pub record ResourceFence : Type 0 where
  pub resource : Name
  pub maximum : Counter

pub record Permit : Type 0 where
  pub id : Uuid
  pub operation : Uuid
  pub digest : Digest
  pub cell : Name
  pub epoch : Counter
  pub scopes : List (Name × Counter)
  pub envelope : Digest
  pub qualification : Uuid
  pub qualification_revision : Counter
  pub grant : Uuid
  pub host_boot : Uuid
  pub conditions : List Name
  pub expires_at : TimePoint
  pub purpose : Purpose
  pub parent : PermitParent
  pub source_digest : Option Digest

pub record Request : Type 0 where
  pub operation : Uuid
  pub intent : Intent
  pub digest : Digest
  pub grant : Uuid
  pub permit : Permit

pub record Guard : Type 0 where
  pub device_session : Uuid
  pub valid_until : TimePoint
  pub satisfied : List Name

pub record NativeCapture : Type 0 where
  pub status_schema : Name
  pub status : ℕ  -- the bit pattern of an `i64`
  pub native_id : Option Name
  pub captured_at : TimePoint
  pub device_session : Uuid

pub record EvidenceRecord : Type 0 where
  pub evidence_id : Uuid
  pub operation : Uuid
  pub invocation : Uuid
  pub profile_digest : Digest
  pub capture : NativeCapture

pub data ProtectionIncident : Type 0 where
  store_fault owner_lost expired : ProtectionIncident

-- The kinds of `StoreError` that the gate raises or passes on.
pub data StoreError : Type 0 where
  integrity revision_conflict key_conflict invalid_document : StoreError

pub data HostError : Type 0 where
  store : StoreError → HostError
  invalid conflict forbidden stale guard busy not_found voided native_unknown : HostError

-- `rx_domain::host_qualification::CellTarget`, as far as the gate reads it.
pub record CellTarget : Type 0 where
  pub qualification : Uuid
  pub qualification_revision : Counter
  pub allowed_intents : List Digest
  pub purposes : List Purpose
