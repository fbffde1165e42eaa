-- ===== src/Relay/Sweep.antt =====
-- Recovery in src/distllm/relay.py: `_forget_worker`, `_drop_node`, the two clean-ups and one
-- round of `relay_janitor`.
use distllm.Prelude.{
  ℕ, ◌-◌, ltb, String, Bool, false, ◌&&◌, ◌||◌, not, Option, none, some, List, [], ◌∷◌, ◌==◌,
  nat_eq, string_eq, pair_eq, option_eq, if◌then◌else◌,
}
use distllm.Dict
use distllm.Dict.{Dict}
use distllm.Relay.State.{
  Source, of_worker, of_popped, is_pending, is_assigned, Task, Node, RelayState, queue_of,
  finished_ttl, dangling_ttl, session_affinity_ttl,
}
use distllm.Relay.Tasks.{to_role_queue, requeue}

abbrev pub visit :
    (String → Task → RelayState → RelayState) → String → Option Task → RelayState → RelayState
visit body id none s = s
visit body id (some t) s = body id t s

-- A loop over a copy of `tasks`: the body runs at each task as it is when its turn comes.
unfoldable pub for_each_task :
    (String → Task → RelayState → RelayState) → Dict String Task → RelayState → RelayState
for_each_task body [] s = s
for_each_task body ((id, _) ∷ rest) s =
    for_each_task body rest (visit body id (Dict.get id s.tasks) s)

unfoldable pub requeue_if_held : String → String → Task → RelayState → RelayState
requeue_if_held worker id t s =
    if is_assigned t.status && t.worker_id == some worker then requeue s t else s

abbrev pub requeue_if_pending : Option Task → RelayState → RelayState
requeue_if_pending none s = s
requeue_if_pending (some t) s = if is_pending t.status then to_role_queue t s else s

-- the loop over the gone worker's own queue
unfoldable pub requeue_queued : List String → RelayState → RelayState
requeue_queued [] s = s
requeue_queued (id ∷ rest) s = requeue_queued rest (requeue_if_pending (Dict.get id s.tasks) s)

abbrev Affinity : Type 0
Affinity = Dict (String × String) (String × ℕ)

unfoldable pub forget_sessions : String → Affinity → Affinity
forget_sessions worker [] = []
forget_sessions worker ((key, (w, used)) ∷ rest) =
    let kept = forget_sessions worker rest in if w == worker then kept else (key, (w, used)) ∷ kept

-- the ids that polls hold of the gone worker's queue come from a queue that is popped now
unfoldable pub pop_source : String → List (String × Source) → List (String × Source)
pop_source worker [] = []
pop_source worker ((id, of_worker w) ∷ hand) =
    (id, if w == worker then of_popped w else of_worker w) ∷ pop_source worker hand
pop_source worker ((id, source) ∷ hand) = (id, source) ∷ pop_source worker hand

unfoldable pub forget_worker : RelayState → String → RelayState
forget_worker s' worker =
    let s = record s' { in_hand = pop_source worker s'.in_hand } in
    let s1 = for_each_task (requeue_if_held worker) s.tasks s in
    let s2 = record s1 { worker_queues = Dict.delete worker s1.worker_queues } in
    let s3 = requeue_queued (queue_of worker s1.worker_queues) s2 in
    record s3 { affinity = forget_sessions worker s3.affinity }

unfoldable pub drop_node : RelayState → String → RelayState
drop_node s node_id = elim (Dict.get node_id s.nodes) [
  | none ↦ s
  | some _ ↦ forget_worker (record s { nodes = Dict.delete node_id s.nodes }) node_id
]

-- `t and now - t > limit`, for a time that may be missing
abbrev pub is_older : ℕ → ℕ → Option ℕ → Bool
is_older limit now none = false
is_older limit now (some t) = not (t == 0) && ltb limit (now - t)

unfoldable pub requeue_if_stuck : ℕ → String → Task → RelayState → RelayState
requeue_if_stuck now id t s =
    if is_assigned t.status && is_older s.timeouts.task_timeout now t.assigned_at
    then requeue s t
    else s

unfoldable pub cleanup_stuck_tasks : ℕ → RelayState → RelayState
cleanup_stuck_tasks now s = for_each_task (requeue_if_stuck now) s.tasks s

abbrev pub is_old : ℕ → Task → Bool
is_old now t =
    (t.done && is_older finished_ttl now t.completed_at)
    || (not t.done && ltb dangling_ttl (now - t.created_at))

unfoldable pub drop_if_old : ℕ → String → Task → RelayState → RelayState
drop_if_old now id t s = if is_old now t then record s { tasks = Dict.delete id s.tasks } else s

unfoldable pub drop_stale_sessions : ℕ → Affinity → Affinity
drop_stale_sessions now [] = []
drop_stale_sessions now ((key, (w, used)) ∷ rest) =
    let kept = drop_stale_sessions now rest in
    if ltb session_affinity_ttl (now - used) then kept else (key, (w, used)) ∷ kept

unfoldable pub cleanup_old_tasks : ℕ → RelayState → RelayState
cleanup_old_tasks now s =
    let s1 = for_each_task (drop_if_old now) s.tasks s in
    record s1 { affinity = drop_stale_sessions now s1.affinity }

-- the ids of the nodes whose last heartbeat is older than NODE_TIMEOUT
unfoldable pub silent_nodes : ℕ → ℕ → Dict String Node → List String
silent_nodes timeout now [] = []
silent_nodes timeout now ((id, node) ∷ rest) =
    let others = silent_nodes timeout now rest in
    if ltb timeout (now - node.last_heartbeat) then id ∷ others else others

unfoldable pub drop_nodes : List String → RelayState → RelayState
drop_nodes [] s = s
drop_nodes (id ∷ rest) s = drop_nodes rest (drop_node s id)

-- One round of the janitor's loop; the clock is read three times.
unfoldable pub janitor : ℕ → ℕ → ℕ → RelayState → RelayState
janitor now now_stuck now_old s = cleanup_old_tasks now_old (
    cleanup_stuck_tasks now_stuck (drop_nodes (silent_nodes s.timeouts.node_timeout now s.nodes) s))
