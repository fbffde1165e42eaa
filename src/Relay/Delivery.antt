-- ===== src/Relay/Delivery.antt =====
-- No task of the relay, src/distllm/relay.py, is lost: while it is pending it stands in a queue that a
-- live worker reads.
pub mod Waits
pub mod Hands
pub mod Drops
pub mod Results
pub mod Takes
pub mod Losses
pub mod Polls
pub mod Wakes
use distllm.Prelude.{Bool, Option, ◌≡◌, string_eq}
use distllm.Dict
use distllm.Relay.State.{Bytes, Status, Task, Timeouts, RelayState}
use distllm.Relay.Step.{Event, registers, wakes, IsFresh, Reach, start, next}
use Results.{KeepsRole}
use Wakes.{Returns}

-- A registration keeps the role of a worker that is registered, and the end of a wait puts no id back
-- into a queue that is popped.
abbrev pub Steady : Event → RelayState → Type 0
Steady (registers node_id role sessions now) s = KeepsRole (Dict.get node_id s.nodes) role
Steady (wakes got_own got_shared popped aborted role worker max_tasks now) s =
    Returns got_own popped aborted
Steady _ s = Unit

-- every event of a run is steady
abbrev pub AllSteady :
    {unpack : Bytes → Option Bool} {t : Timeouts} {s : RelayState} → Reach unpack t s → Type 0
AllSteady start = Unit
AllSteady (next {s = s} e f r) = Steady e s × AllSteady r
