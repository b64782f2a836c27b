-- ===== src/Gate/Core.antt =====
-- runtime/rx-host/src/gate/mod.rs: the state behind the gate's lock, and its entry checks.
use rx_solutions.Base.{
  Bool, true, false, not, ◌&&◌, Option, none, some, List, [], ◌∷◌, ltb, ◌==◌, if◌then◌else◌, Result,
  ok, err, Action,
}
use rx_solutions.Domain.Types.{Uuid, Digest, Name, Counter, TimePoint}
use rx_solutions.Domain.Intent.{Intent}
use rx_solutions.Gate.Model.{
  Caller, Binding, Permit, HostError, store, forbidden, guard, ProtectionIncident,
}
use rx_solutions.Gate.Store.{Store, Tx}

-- `native` is what the adapter was asked to do: the operations submitted to it, newest first.
-- `incidents` are the calls of the local protection, newest first.
pub record Core : Type 0 where
  pub durable : Store
  pub native : List Uuid
  pub boot : Uuid
  pub bindings : List (Name × Binding)
  pub caller : Option Caller
  pub armed : List Name
  pub accepting : Bool
  pub incidents : List ProtectionIncident

-- `canonical::digest` over each kind of value: SHA-256 of the canonical text.
pub record Hashes : Type 0 where
  pub intent_hash : Intent → Digest
  pub permit_hash : Permit → Digest
  pub grant_hash : Name → List Name → Counter → Counter → Digest
  pub fence_hash : Name → Counter → List (Name × Counter) → List Uuid → Digest
  pub arm_hash : Name → Counter → List (Name × Counter) → List Uuid → Digest

abbrev pub Method : Type 0 → Type 0
Method A = Action Core HostError A

-- `store.transact`: the writes of a transaction that fails are rolled back.
unfoldable pub transact : {A : Type 0} → Tx A → Method A
transact t c =
    let (r, s) = t c.durable in
    elim r [ ok a ↦ (ok a, record c { durable = s }) | err e ↦ (err (store e), c) ]

abbrev pub is_caller : Option Caller → Caller → Bool
is_caller none caller = false
is_caller (some c) caller = c.peer == caller.peer && c.session == caller.session

-- `authorized`.
unfoldable pub authorized : Caller → Core → Result HostError (Unit {0})
authorized caller c = if is_caller c.caller caller then ok tt else err forbidden

-- `require_admission`.
unfoldable pub require_admission : Core → Result HostError (Unit {0})
require_admission c = if c.accepting then ok tt else err guard

-- `before`.
unfoldable pub before : TimePoint → TimePoint → Bool
before now until = now.clock_id == until.clock_id && ltb now.ticks_ns until.ticks_ns

abbrev pub serves : Name → List (Name × Binding) → Bool
serves peer [] = true
serves peer ((cell, b) ∷ rest) = b.platform == peer && serves peer rest

abbrev pub other_session : Option Caller → Caller → Bool
other_session none caller = false
other_session (some old) caller = not (old.session == caller.session)

-- `bind_platform`.
unfoldable pub bind_platform : Caller → Method (Unit {0})
bind_platform caller c = if not (serves caller.peer c.bindings) then (err forbidden, c) else (
  ok tt,
  record c { caller = some caller; armed = if other_session c.caller caller then [] else c.armed },
)

-- `request_service_stop`. It stores an atomic flag and takes no lock; here it is a step of its own
-- between the locked methods, and `require_admission` reads the flag where a method begins.
unfoldable pub request_service_stop : Core → Core
request_service_stop c = record c { accepting = false }
