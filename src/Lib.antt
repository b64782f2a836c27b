-- ===== src/Lib.antt =====
-- Verification of RX Solutions: the command gate of device hosts, the queue and the planner that drive
-- a process, the checks of process sources, a device driver, and the domain rules that they share. The
-- theorems are about pure models of the Rust sources; each file says which code it is about.
--
-- A process source is checked (Process/Source), compiled to a resolved process, which is checked again
-- (Process/Resolved), and planned from the progress of its operations (Process/Frontier). The requests
-- that follow from a plan wait in the executor's queue (Executor/Pending); an operation that is admitted
-- reaches a device host, whose gate (Gate) alone lets it through to the native side, of which the MC 3E
-- driver (Melsec) is an example. Conditions, intents and operations are those of Domain throughout.
--
-- Domain (sdk/crates/rx-domain/src) holds the rules that need no transport, storage or device.
--   Domain/Types: the identifiers, counters, time points and errors of types.rs and lib.rs.
--   Domain/Operation: operation.rs. `Operation` is the record; a method that takes `&mut self` is an
--     `Action`, which returns the result and the record as the method left it, also after an error.
--     `Call` names the methods, `call` runs one and `run` a history of them.
--   Domain/Epoch: epoch.rs, the map of scope epochs, as an ordered association list.
--   Domain/Budget: budget.rs, the budget of a run and its stored form.
--   Domain/Intent: intent.rs, intents and their normal form.
--   Domain/Condition: condition.rs. In Evaluate, `eval` is an action on the budget of nodes; Value
--     holds the meaning and the shape of a condition apart.
-- Process (sdk/crates/rx-process-contract/src) holds the resolved process of model.rs, and in
--   Process/Frontier the planner of frontier.rs: Evaluate, and Plan with the checks of a view. A tree that
--   holds lists of itself is a mutual block of nodes, bodies and children. Process/Source is
--   source_validation.rs: Validate with its walks over flows, Expand, which recurs on the levels that
--   the limit of the code still allows, and Shapes. Process/Resolved is validation.rs.
-- Executor (runtime/rx-executor/src) is the side that drives a process: Executor/Frame has the requests
--   of frame.rs and the worker's outcomes, Executor/Pending the queue of pending.rs. `Call` names its
--   methods with their arguments, and `run` is a history of them. Executor/Pending/Stops has the moves
--   that each of them can make the stop of the queue do.
-- Gate (runtime/rx-host/src) is the command gate of a device host, the only way to the native side.
--   Gate/Model: model.rs. Gate/Store: journal.rs over the entities of sdk/crates/rx-storage/src/lib.rs;
--     a key is a kind and the digest of a value, so each kind of key is a table of its own, and a
--     transaction is an action on the tables that `transact` rolls back when it fails.
--   Gate/Core: gate/mod.rs, the state behind the gate's lock, with a log of what the adapter was
--     asked to do (`native`). A method holds the lock to its end. `request_service_stop` takes
--     no lock: it stores an atomic flag, which is here a step of its own between the methods.
--   Gate/Validation, Gate/Grants, Gate/Scopes, Gate/Dispatch, Gate/Receipts: the files of these names
--     in gate/. A method that holds the lock is one action; `authorize` is `enter`, which ends with
--     the commit of the send, and `proceed`, so that a process can also end between the two.
--   Gate/Once: what an operation has behind it. `Call` names the methods with their arguments and the
--     answers of the world, `call` runs one and `run` a history of them.
--   Gate/Start: `with_hooks` of gate/mod.rs, the opening of the gate over a store; `reopen` is a
--     new process with bindings of its own over the store that an earlier one left. Gate/Claims:
--     `claim_rpc` of the same file.
--   Gate/Current: the state of the gate in which `validate_current` lets a command through.
--   Gate/Work: what the calls on deliveries leave alone. Gate/Marks: the highest fences, the epochs
--     and the arming of cells along histories.
-- Melsec (drivers/rx-melsec-mc/src) is the MC 3E driver: Melsec/Profile, Melsec/Codec and Melsec/Client
--   are the files of these names. The client keeps the bytes that the stream took of each request; the
--   stream is a list of events, and the deadline a number of readings of the clock that find time left, on
--   which the loops over the stream recur.
-- Base holds what the parts share: tests, lists, ordered sets and maps, and the actions.
--
-- Numbers are native. A `u64` is a number, and each checked operation is written with its bound.
-- Identifiers, digests and names are only copied, compared and sorted by this code, so each is a
-- number that stands for its place in the order. The texts of error messages are left out.
--
-- What lies outside is an argument: the hashes over canonical texts (`Hashes`), fresh identifiers,
-- readings of the clock, the answers of the adapter, and the qualified target of a cell, which
-- gate/qualification.rs finds. Rows are read back as they were written: the schema tag and the JSON
-- of a document, and failures of SQLite itself, are left out. The lock serialises the methods of the gate.
-- Not modelled are the services, the user interface, the native adapters and the deployment files.
-- The digests of processes, intents and nodes are arguments of Process, as are the events of the stream and
-- the readings of the clock of Melsec. Whether a schema is the known one is a truth value of the source.
-- No definition takes fuel of its own: every loop runs over a list or a tree, until a deadline, or down
-- the levels that a limit of the code allows (65 for `visit` and `expand` of source_validation.rs).
mod Base
pub mod Domain
pub mod Gate
pub mod Executor
pub mod Process
pub mod Melsec
