-- ===== src/Lib.antt =====
-- distllm: language models whose layers run on several machines behind one relay.
--
-- The relay (src/distllm/relay.py) keeps tasks for roles. Clients submit a task, workers of its role
-- poll for it and post a result or a failure, and a result may go on along the task's route to the
-- next role. Sessions bind a role's tasks to the worker that has their cache. A janitor re-queues
-- what silent workers hold and drops what is old. The generators (src/distllm/hf.py) run on the
-- client: they call the stages of a model through the relay, keep the stages' caches in step with
-- the sequence, and replay the sequence when a stage has lost its cache.
--
-- Files:
-- - Prelude and its children: shared names, the interface of decidable equality `Eq`, tests on
--   Booleans and options, lists measured by native numbers.
-- - Dict, Text: Python's dict as a list of entries with one entry for a key, and the string methods
--   that the code calls.
-- - Relay/State, Relay/Tasks, Relay/Sweep, Relay/Api, Relay/Queues, Relay/Poll: relay.py's state and
--   each of its functions, under the function's name: Tasks has `_bound_worker`, `_enqueue`,
--   `_requeue`, `_take`, `_stops_chain`, `_check_worker`, `_finish`; Sweep `_forget_worker`,
--   `_drop_node`, `cleanup_stuck_tasks`, `cleanup_old_tasks`, `relay_janitor`; Api the endpoints;
--   Queues `_queue_get_first`; Poll `/poll`. Relay/Status has the counts of `/status`.
-- - Relay/Step: one event of the relay, and the states that events reach.
-- - Relay/Lifecycle, Relay/Refines: the life of one task as an abstract machine, and its refinement
--   by the operations. Relay/Invariant, Relay/Delivery, Relay/Outcomes, Relay/Affinity,
--   Relay/Lossless, Relay/Routes: the invariants and what single operations do. Relay/Examples: small runs.
-- - Hf/Stage: `PipelineStage`: its sessions and `handle`. Hf/Stage/Table: the table of sessions.
--   Hf/Stage/Tokens, Hf/Stage/Kept, Hf/Stage/Bounds: what a stage promises and keeps.
--   Hf/Stage/Examples: a stage whose cache is a list.
-- - Hf/Batch: `_batchable`, `handle_batch` and `_decode_batch` of `PipelineStage`. Hf/Batch/Served:
--   requests one after the other. Hf/Batch/Rows, Hf/Batch/Order, Hf/Batch/Decode, Hf/Batch/Kept,
--   Hf/Batch/Lost: their proofs. Hf/Batch/Examples: two batches.
-- - Hf/Pipeline: what the generators rely on, as a record of operations and laws. Hf/Generate:
--   `PipelineGenerator.generate` and the unsplit model. Hf/Draft, Hf/Speculative: `_DraftModel` and
--   `SpeculativeGenerator.generate`. Hf/Replay, Hf/Reference, Hf/Termination, Hf/Greedy, Hf/Verified,
--   Hf/Speculation, Hf/Finishing: their proofs. Hf/Examples: a pipeline that loses its cache now and
--   then.
-- - Hf/Through: `_through` and `_step` of `PipelineGenerator`, over stages as states with a call.
--   Hf/Through/Laws: what stages promise, and a chain of them as one. Hf/Through/Retry: the second
--   attempt, and a chain as a Pipeline. Hf/Through/Prefixes, Hf/Through/Stages: `PipelineStage.handle`
--   as a stage whose tasks may be lost. Hf/Through/Examples: two stages.
-- - Hf/Audit: `_run_fresh` and `_check`. Hf/Audit/Locate: its proof. Hf/Audit/Examples: a check.
-- - Worker: `Worker` of src/distllm/worker.py: `_track_sessions`, `_run_func` with `_process`, and
--   `_post_result`. Worker/Claims, Worker/Batch, Worker/Posting: their proofs. Worker/Registration: the
--   sessions that `register` claims, at the relay. Worker/Examples: a
--   small batch.
-- - Client: `Cluster.wait_for` of src/distllm/worker.py. Client/Submit: the uploads of
--   `Cluster.submit`. Client/Deadline, Client/Retries: their proofs. Client/Examples: a wait and a
--   submission.
-- - Auth: src/distllm/auth.py, `_http_client` of src/distllm/worker.py, and `set_auth_tokens`, `_side`
--   and `require_token` of relay.py. Auth/Tokens, Auth/Access, Auth/Rotation, Auth/Agreement: their
--   proofs. Text/Strip: `strip` done twice. Auth/Examples: a relay with a token file.
-- - Sealed: src/distllm/crypto.py, and of src/distllm/worker.py the bodies that `Cluster.submit`,
--   `Cluster._result`, `Worker._decode`, `_process` and `_report` seal and open, with their request ids.
--   Sealed/Frames, Sealed/Keys, Sealed/Replies: their proofs. Sealed/Examples: a toy cipher.
-- - Planner: `plan` of examples/plan_split.py. Planner/Shares: the stages with their weights and
--   first counts. Planner/Balance: the two while loops. Planner/Layers: the ranges, and `plan` as a
--   whole. Planner/Best, Planner/Loops, Planner/Ranges: the proofs. Planner/Examples: a plan for
--   three machines.
--
-- How the model stands to the code:
-- - The relay runs on one event loop: what stands between two suspension points is one step. A put
--   into an unbounded queue does not suspend, so each endpoint is one step, but for three: `/poll`
--   may wait (`poll_task`; then its getters, `get_own` and `get_shared`; then `wake_poll`), `/fail` waits for its body between its checks and its
--   end (`check_failure`, `end_failure`), and `/get_result` looks again after its wait. Of a body
--   that arrives late at `/result`, the case is left out that its task is dropped meanwhile.
--   Steps of the janitor's round come together.
-- - The state is passed along, and an operation returns its reply with the new state. `time.time()`
--   is an argument in whole milliseconds, uuid4 is an argument too, and `IsFresh` says that no task
--   has that id yet. An event that is set is the field `done`.
-- - A queue that a defaultdict has not made yet reads as the empty queue. A poll's two
--   queues are the ones under their keys, or an empty one where the worker's queue was popped since the
--   poll began. Two polls of one worker that share a popped queue are left out.
-- - `msgpack.unpackb` is a parameter `unpack`: the truth of the value at "stop_chain" where the body
--   is a dict. Bodies of failures come decoded.
-- - In `generate` the call of the stages, the choice of a token from logits and the random state
--   are parameters. A call either answers or misses; a call that raises ends the generator and is
--   left out, as are audits, times and callbacks.
-- - In `handle` the layers and what follows them (`_output`) are parameters that may raise; a cache
--   advances in place also where they raise. `Lawful` says what the layers' cache does when they do
--   not. The clock is read once; positions are natural numbers.
-- - In `handle_batch` a cache is a list of entries, each the keys and values of all layers at a position.
--   The forward of a padded batch is a parameter; `LawfulBatch` says that the mask hides the padding
--   and that every row gets one entry at its end.
-- - In `_step` the stages are states with a call each, which answers, misses, loses its task or raises.
--   A role stands once in a chain. `Inner` and `Last` say what stages promise; Hf/Through/Stages shows
--   them of `handle`. An audit's two comparisons of a similarity,
--   `>=` and `<`, are two tests, which both fail for NaN.
-- - The worker's function and the relay's answers to uploads and waits are parameters. A result is some
--   value or none where an exception stands for it; waits between the uploads of a result are
--   left out; those of a submission are modelled.
-- - `Files` gives what `os.stat` and `open` find at the time of a call of auth.py: a modification time or
--   an OSError, a text, an OSError or a UnicodeDecodeError. Headers are Latin-1 text, and
--   `Wire` is what httpx and Starlette make of one; a constant-time comparison is equality.
-- - The planner's numbers are a parameter `Floats` without laws, so what is shown holds for any rounding;
--   `int` raises where it gives none. Fixed layer counts are natural numbers.
--   Its two while loops run on fuel: the layers, then the sum of the counts, which is enough.
-- - A payload is a dict, whose items are strings or others, or something else. msgpack, the cipher,
--   base64 and scrypt are parameters, with what is assumed of them named in each theorem.
-- - Loops over tables, queues and steps are structural recursion; the replays are recursion on
--   `max_recoveries_per_step`, the code's own bound, and need no fuel. The rounds of the speculative
--   generator are recursion on fuel; one unit for each token that may be generated is enough.
--
-- Not modelled: the nodes in /status and the page, the relay's simulated latency and start, the rest of
-- the worker and of the client of worker.py, the packing of tensors in transport.py, `main` and
-- `layer_sizes` of examples/plan_split.py, and the Rust relay in relay-rs. Loading of stages, sampling
-- from tensors and the command line are third-party calls and I/O.
mod Prelude
pub mod Dict
pub mod Text
pub mod Relay
pub mod Hf
pub mod Worker
pub mod Client
pub mod Auth
pub mod Planner
pub mod Sealed
