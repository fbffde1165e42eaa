-- ===== src/Relay/Poll.antt =====
-- `/poll` of src/distllm/relay.py: at once if a task is queued, else after a wait.
use distllm.Prelude.{
  ◌==◌, ◌&&◌, not, false, ℕ, zero, suc, ◌-◌, String, Bool, Option, none, some, List, [], ◌∷◌, ◌++◌,
  string_eq, if◌then◌else◌,
}
use distllm.Dict
use distllm.Relay.State.{Task, Source, of_worker, of_popped, of_role, RelayState, queue_of}
use distllm.Relay.Tasks.{take_task}
use distllm.Relay.Queues.{first_ready, settle}

-- `waits` while the request is held, `no_content` for the answer 204.
pub data Polled : Type 0 where
  waits no_content cancelled : Polled
  takes : List Task → Polled

-- What the loop of `/poll` took from one queue, how many more it may take, and what it left.
pub record Taken : Type 0 where
  pub tasks : List Task
  pub room : ℕ
  pub left : List String
  pub state : RelayState

abbrev pub prepend : Option Task → Taken → Taken
prepend none r = r
prepend (some t) r = record r { tasks = t ∷ r.tasks }

abbrev pub spend : Option Task → ℕ → ℕ
spend none room = suc room
spend (some t) room = room

unfoldable pub take_from : String → ℕ → ℕ → List String → RelayState → Taken
take_from worker now room [] s = record { tasks = []; room = room; left = []; state = s }
take_from worker now zero (id ∷ ids) s = record {
  tasks = [];
  room = zero;
  left = id ∷ ids;
  state = s;
}
take_from worker now (suc room) (id ∷ ids) s =
    let (t, s') = take_task s id worker now in
    prepend t (take_from worker now (spend t room) ids s')

-- What the loop leaves in the poll's two queue objects. Where `_forget_worker` has popped the worker's
-- queue since the poll began, the poll's own queue is not the one under the key any more.
abbrev pub store_queues :
    Bool → String → String → List String → List String → RelayState → RelayState
store_queues popped role worker own shared s = record s {
  worker_queues = if popped then s.worker_queues else Dict.put worker own s.worker_queues;
  pending_queues = Dict.put role shared s.pending_queues;
}

-- The loop empties the worker's own queue before it turns to the role's.
unfoldable pub fill :
    Bool
    → String
    → String
    → ℕ
    → ℕ
    → List String
    → List String
    → Option Task × RelayState
    → Polled × RelayState
fill popped role worker max_tasks now own shared (none, s) =
    (no_content, store_queues popped role worker own shared s)
fill popped role worker max_tasks now own shared (some first, s) =
    let a = take_from worker now (max_tasks - 1) own s in
    let b = take_from worker now a.room shared a.state in
    (takes (first ∷ (a.tasks ++ b.tasks)), store_queues popped role worker a.left b.left b.state)

abbrev pub split_queues : List (List String) → List String × List String
split_queues [] = ([], [])
split_queues (own ∷ []) = (own, [])
split_queues (own ∷ shared ∷ _) = (own, shared)

unfoldable pub serve :
    Bool → String → String → ℕ → ℕ → String → List (List String) → RelayState → Polled × RelayState
unfolding fill
serve popped role worker max_tasks now id qs s =
    let (own, shared) = split_queues qs in
    fill popped role worker max_tasks now own shared (take_task s id worker now)

abbrev pub queues : String → String → RelayState → List (List String)
queues role worker s = queue_of worker s.worker_queues ∷ queue_of role s.pending_queues ∷ []

unfoldable pub poll_task : String → String → ℕ → ℕ → RelayState → Polled × RelayState
poll_task role worker max_tasks now s = elim (first_ready (queues role worker s)) [
  | none ↦ (waits, s)
  | some (id, qs) ↦ serve false role worker max_tasks now id qs s
]

abbrev pub hold : String → Source → RelayState → RelayState
hold id source s = record s { in_hand = (id, source) ∷ s.in_hand }

-- A getter of a held poll takes the oldest id of the worker's own queue, or of the role's.
unfoldable pub get_own : String → RelayState → RelayState
get_own worker s = elim (queue_of worker s.worker_queues) [
  | [] ↦ s
  | id ∷ q ↦
      hold id (of_worker worker) (record s { worker_queues = Dict.put worker q s.worker_queues })
]

unfoldable pub get_shared : String → RelayState → RelayState
get_shared role s = elim (queue_of role s.pending_queues) [
  | [] ↦ s
  | id ∷ q ↦ hold id (of_role role) (record s { pending_queues = Dict.put role q s.pending_queues })
]

abbrev pub same_source : Source → Source → Bool
same_source (of_worker a) (of_worker b) = a == b
same_source (of_popped a) (of_popped b) = a == b
same_source (of_role a) (of_role b) = a == b
same_source _ _ = false

-- a getter's id leaves the hands, if it is there
unfoldable pub hand_over :
    String → Source → List (String × Source) → Option String × List (String × Source)
hand_over id source [] = (none, [])
hand_over id source ((j, from) ∷ hand) =
    let (o, rest) = hand_over id source hand in
    if id == j && same_source source from then (some id, hand) else (o, (j, from) ∷ rest)

abbrev pub hand_over_if :
    Option String → Source → List (String × Source) → Option String × List (String × Source)
hand_over_if none source hand = (none, hand)
hand_over_if (some id) source hand = hand_over id source hand

unfoldable pub woken :
    Bool
    → Bool
    → String
    → String
    → ℕ
    → ℕ
    → Option String × List (List String)
    → RelayState
    → Polled × RelayState
woken popped aborted role worker max_tasks now (none, qs) s =
    let (own, shared) = split_queues qs in
    (if aborted then cancelled else no_content, store_queues popped role worker own shared s)
woken popped aborted role worker max_tasks now (some id, qs) s =
    serve popped role worker max_tasks now id qs s

-- the queue object that a poll has as its worker's own; one that was popped is empty
abbrev pub own_queue : Bool → String → RelayState → List String
own_queue popped worker s = if popped then [] else queue_of worker s.worker_queues

abbrev pub own_source : Bool → String → Source
own_source popped worker = if popped then of_popped worker else of_worker worker

-- The end of a held request: what its two getters hold, whether the worker's queue was popped
-- since the request began, and whether the request was cancelled.
unfoldable pub wake_poll :
    Option String
    → Option String
    → Bool
    → Bool
    → String
    → String
    → ℕ
    → ℕ
    → RelayState
    → Polled × RelayState
wake_poll got_own got_shared popped aborted role worker max_tasks now s =
    let (a, hand) = hand_over_if got_own (own_source popped worker) s.in_hand in
    let (b, hand') = hand_over_if got_shared (of_role role) hand in
    woken popped aborted role worker max_tasks now
      (settle (not aborted)
        ((a, own_queue popped worker s) ∷ (b, queue_of role s.pending_queues) ∷ []))
      (record s { in_hand = hand' })
