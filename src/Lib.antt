-- ===== src/Lib.antt =====
-- OneCompany: a company of agents whose work on GitHub is planned, gated and merged by scripts. This
-- library models the decision core of its L5 controller, pure functions from evidence to decisions and
-- guarded writes of shared state, the execution core, which runs one piece of work at a time and keeps
-- its files, and the dependencies of planning.
--
-- The parts, and the files that model them:
--
--   * Json: the values of Python's json, which all evidence is made of. A mapping is a list of fields
--     whose first match counts; a float is a whole multiple m of 2^-1074, so that `==` between
--     integers and floats is exact. Infinities and NaN are left out.
--   * StateMachine (scripts/l5_state_machine.py): `reduce_evidence` makes one state and one next
--     action of a snapshot. The model cuts it into `read_stream`, which reads the fields that are
--     always read, and `decide…`, one function for each subject of the guards, in the source's order.
--     A ValueError is `err`.
--   * Recovery (scripts/l5_recovery.py): `plan_recovery` makes a plan of the state machine's answer,
--     within a retry budget for each scope; `journal_record` is what the journal keeps of it.
--   * Kernel (scripts/l5_kernel.py): leases with fencing epochs and write-ahead intents over a
--     compare-and-swap store (Store, Memory, Lease), the mode of a repository (Governance), and the
--     gates of a merge: checks and reviews (Checks), the attestation of engineering intent
--     (Restraint), the merge predicate and the classification of an item (Merge).
--   * Ledger (scripts/l5_ledger.py): the durable document of leases, budgets and the mode, on the
--     plain mappings of the source: its validation (Validate), the writes that are guarded by a
--     revision (Write), what they commit (Commit, Succession) and histories of them (History). The
--     expected revisions and versions are natural numbers, and the keys of a mapping are distinct.
--   * Liveness (scripts/l5_liveness.py): `check_liveness` over a trace of runs, with the two mappings
--     of the source as the record `Stagnation`, and a recursion for its loop.
--   * Execution (scripts/execution_core.py): one bounded run of work. Context is its identity and state,
--     Board the objective, tasks, evidence and lessons, Guard the limits, Completion the gate before
--     COMPLETE, Transition the lifecycle commands and the supervisor. A method that changes the context
--     is a function from the context to the next one, or to what it raises (`edit` may do both). Steps
--     makes one step function of all the calls, and Histories lists of calls by any workers. Proven,
--     Accepted, Moves, Commands, Stalls and Supervision are proofs. A guard decision is one that `check` makes, a
--     generation is a natural number, and the keys of a mapping are distinct.
--   * Execution also has the files of a run. Codec and Codec.Read are `to_dict` and `from_dict`; Journal
--     is the hash-chained journal, a list of the objects that its lines hold; Store has the state, the
--     journal and the marker of a pending write, with the operations under the lock of a work unit.
--     A replacement or a removal of a file is one step of `Io`, and an appended line is three: a part of
--     the record, all of it, and its line feed. `power` counts the steps before a crash, and six are
--     enough for a write or a recovery. A line that is cut off is none, which `verify` refuses; a record that
--     lacks its line feed only is read, and a line appended after it is glued to it (`glued`).
--     `hash` stands for canonical_hash. Roundtrip, Chain, Loads and Crash are proofs.
--   * Planning (scripts/planning_lib.py): `dependency_closure` and `dependency_ready` over a work map.
--     `close` is the loop over the stack, in as many turns at most as the work units have
--     dependencies, those of the start twice. Closure shows that they are enough, on cycles too.
--   * Controller (scripts/l5_controller.py): one invocation of `run_once`. Io has the store with the
--     mode's guarded write, the world behind `ControllerIO`, each call of which may change the world
--     and the store, and the monad of the state and the failures; what was written stays when the code
--     raises. Choice is `_select` and what it asks, Recovery `_sync_mode` and `_recover_pending`,
--     PostMerge the verification after a merge, Evidence and Run the stages of `run_once` in their order (an early
--     return is the branch of an if), Bridge is `GuardedWriteBridge`. The state lists the calls of
--     `execute_guarded` with the store and the world that each was made in. Careful, Quiet, Permitted,
--     Rules, Writes, Revert, Stages, Safety, Idle, Answers and Candid are proofs. A trusted time is in ticks. Other
--     controllers act within the calls of `ControllerIO` only, never between two operations of the store
--     that follow each other.
--   * Planning also has Scopes, Conflicts and Admission: the overlap of write scopes and of locks (with
--     `scope_covers_path` of scripts/scope_guard.py), `work_units_conflict` and
--     `implementation_admission_violations`. Symmetry, Admissible and Admitted are proofs; the last one is
--     about sequences of claims and releases. fnmatchcase is a parameter.
--
-- Recovery calls the state machine. In the kernel, the lease operations take any store that meets the
-- laws of Kernel.Store, of which `MemoryCASStore` is one; the fence reads a lease and the mode
-- from the store, and Merge calls Checks and Restraint. Interleavings of several controllers are
-- lists of operations in Kernel.Lease.Fencing, each with whatever lease its caller holds.
--
-- Parameters stand for what the scripts import: `digest` and `idem_key` for SHA-256 over a canonical
-- text, `dumps` for json.dumps, `lower` for str.lower, `repr` for str on values that are no texts,
-- `plus` for the addition of floats; a fresh identifier is an argument. Times are whole ticks of the
-- server's clock. `str` of an integer is `decimal`, which recurses on fuel: the number itself, which
-- has fewer digits than that, or one. The loop of `dependency_closure` recurses on its turns, and all
-- others on their lists.
--
-- Not modelled: command lines, self-tests, files and network calls, and the other scripts of the
-- repository.
pub mod Prelude
pub mod Json
pub mod StateMachine
pub mod Recovery
pub mod Kernel
pub mod Ledger
pub mod Liveness
pub mod Execution
pub mod Planning
pub mod Controller
