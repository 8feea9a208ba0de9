-- ===== src/Lib.antt =====
-- The queue of research loops, and what its runner concludes from an iteration.
--
-- The program keeps a queue of items, each a research topic or a command, in a state file under a
-- lock. Stations (workers) claim items from it, run one iteration of the claimed item as a process,
-- and finalize the run; operators pause, resume, reorder and reassign items.
--
-- - Prelude: numbers, texts, lists and dictionaries, as Python's.
-- - Queue: research_loops/queue.py, `QueueStore` without a control store. Queue/Types is the state
--   document; Queue/Store is `_locked` (an operation is a function from a world, the state and the
--   STOP files on the disk, to a result and a new world, or to an error, which writes nothing);
--   Queue/Validate the checks of ids and settings; Queue/Add and Queue/Operations the operators'
--   operations; Queue/Cycle `find_dependency_cycle`, Queue/Definition `_definition_from` and
--   Queue/Sync `sync`, the reconciliation with a manifest of JSON entries, and Queue/Configure
--   `configure_topic`; Queue/Records what an iteration records; Queue/Claim and its children
--   `claim_next`, in the order of its body (Claim: the rules; Claim/Select: the walk down the queue
--   with its fairness between stations; Claim/Next: the whole); Queue/Finalize `finalize_run`;
--   Queue/Machine a history of calls. Queue/Transitions has what each operation assigns to an item.
-- - Runner: research_loops/runner.py. Runner/Patterns has the patterns for log tails with the
--   matcher that they need; Runner/Failure `classify_failure` and `retry_delay`; Runner/Saturation
--   `saturation_decision`; Runner/Decision what `run_once` decides when a process has ended, from
--   the record `Iteration` of what it read (Runner/Decision/Evidence). Its result is what
--   `finalize_run` is called with; a message is a value of `Message`, not its text.
-- - Control: research_loops/control_store.py, the managed controller, which deals topics to five
--   stations. Control/Types is the logical state (configuration, queue, work records);
--   Control/Store the transaction, a function from a state to a result and a new state or to an
--   error, which writes nothing; Control/Configuration the validation of a state before it is
--   written; Control/Profiles the agent profiles of stations and reviews; Control/Schedule
--   `reconcile_state`; Control/Claim, Control/Finalize and Control/Operator the operations of
--   `ControlScheduler`; Control/Compact the retention of work records; Control/Machine a history of
--   operations. The queue's items are those of Queue/Types. JSON of another shape than
--   the records' is no value of the model; the new lease's id is an
--   argument.
-- - Checkpoint: research_loops/checkpoints/service.py (and the check of results of its runner.py),
--   the accounting of research and the reviews of a topic, on the logical state of Control, whose
--   transaction they use; its records are in Control/Types/Reviews and Control/Proposals.
--   Checkpoint/Episodes opens and joins episodes; Checkpoint/Completion is
--   `accept_research_completion` and `trigger_stall_checkpoint`; Checkpoint/Delegate the launches of
--   delegates; Checkpoint/Result and Checkpoint/Review the start and the end of a review;
--   Checkpoint/Decision `apply_decision`, whose two transactions are two steps; Checkpoint/Machine a
--   history that mixes these operations with the scheduler's. A run's state and an episode's fields
--   are always there, as the code writes them.
-- - Gateway: gateway/research_gateway/core/queue.py, the gateway's jobs. Gateway/Jobs has the table
--   and what each function commits; Gateway/Jobs/Rows the rows by their ids; Gateway/Jobs/Retention
--   the deletion of ended jobs in gateway/research_gateway/core/alerts.py; Gateway/Jobs/Final the
--   history of all these commits. What other connections do between two statements is an argument
--   (`others`), any change of the table.
--
-- Times are seconds; an operation reads the clock once. Integers are natural numbers, and ℤ of
-- Prelude/Int where a negative one can reach a check. Loops recurse on a list; the bound of
-- `enqueue` is the source's own ten attempts; the search for a cycle is on fuel, one more than the
-- ids of the graph, since every nested visit enters an id of the graph that no visit around it
-- entered, and the visit of another id goes no deeper.
--
-- Arguments that stand for code outside the repository: the interpreter's table of word characters
-- (`is_word`), the key that JSON gives a source's older blocker (`legacy_key`), a resolved path and
-- a generated id (`add`), Python's `str` of a JSON value (`shown`), and the digest of a job's
-- identity (`payload_hash`); in the reviews, the digest of a trigger (`Digest`) and of a topic's
-- material (`Context`), the text of an invocation's id (`Naming`), and the publisher of contracts.
--
-- Not modelled: the queue's own reading of a managed control store (queue.py); the SQLite file, its
-- audit rows and the legacy migration of control_store.py; process handling, logs and the usage
-- ledger of runner.py, which are input and output; the processes and report files of the reviews'
-- delegates and the lock file of publications; the other services.
pub mod Prelude
pub mod Queue
pub mod Runner
pub mod Control
pub mod Checkpoint
pub mod Gateway
