-- ===== src/Executor/Frame.antt =====
-- runtime/rx-executor/src/frame.rs and worker.rs: requests of the behaviour tree, and what the worker
-- made of them.
use rx_solutions.Base.{ℕ, Bool, ◌&&◌, ◌==◌}
use rx_solutions.Domain.Types.{Uuid, Digest, Name, Counter}

pub record Identity : Type 0 where
  pub run : Uuid
  pub executor_session : Uuid
  pub resolved_digest : Digest
  pub visit : Counter
  pub epoch : Counter

abbrev pub same_identity : Identity → Identity → Bool
same_identity a b =
    a.run == b.run
    && a.executor_session == b.executor_session
    && a.resolved_digest == b.resolved_digest
    && a.visit == b.visit
    && a.epoch == b.epoch

pub data RequestKind : Type 0 where
  submit_operation resolve_branch begin_wait request_intervention request_handover pause_executor :
      RequestKind

unfoldable pub kind_code : RequestKind → ℕ
kind_code submit_operation = 0
kind_code resolve_branch = 1
kind_code begin_wait = 2
kind_code request_intervention = 3
kind_code request_handover = 4
kind_code pause_executor = 5

abbrev pub same_kind : RequestKind → RequestKind → Bool
same_kind a b = kind_code a == kind_code b

abbrev pub is_pause : RequestKind → Bool
is_pause k = kind_code k == 5

-- The argument is a text, of which 0 is the empty one.
pub record Request : Type 0 where
  pub identity : Identity
  pub node : Name
  pub kind : RequestKind
  pub argument : ℕ
  pub timeout_ns : Counter

pub data CheckpointAction : Type 0 where
  choose_branch start_wait check_wait : CheckpointAction

pub data Outcome : Type 0 where
  checkpoint_observed checkpoint_committed : Name → CheckpointAction → Outcome
  waiting_condition : Outcome
  observed_operation admitted : Uuid → Outcome
  refresh_required waiting_for_authority context_changed : Outcome
  attention : Name → Outcome
  unsupported : RequestKind → Outcome
  reconciliation_pending resources_released : Uuid → Outcome
  paused : Uuid → Counter → Outcome

-- The codes of `tonic::Code`.
pub data Code : Type 0 where
  code_ok cancelled unknown invalid_argument deadline_exceeded not_found already_exists
        permission_denied :
      Code
  resource_exhausted failed_precondition aborted out_of_range unimplemented internal : Code
  unavailable data_loss unauthenticated : Code

-- `client::Error`, without its texts.
pub data ExecutorError : Type 0 where
  transport invalid store expired : ExecutorError
  rpc : Code → ExecutorError
