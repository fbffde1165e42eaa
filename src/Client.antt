-- ===== src/Client.antt =====
-- `Cluster.wait_for` of src/distllm/worker.py. Times are whole milliseconds; what the relay answers, and
-- when, is a list of exchanges.
pub mod Submit
mod Retries
pub mod Deadline
mod Examples
use distllm.Prelude.{
  ℕ, ◌+◌, ◌-◌, min, ltb, String, Option, none, some, List, [], ◌∷◌, ◌==◌, nat_eq, if◌then◌else◌,
}

-- An error of the connection, a status that is not 200, a result, or the JSON of `/get_result`.
pub data Answer : Type 0 where
  unreachable : Answer
  code : ℕ → Answer
  octets : List ℕ → Answer
  failed : String → Answer
  unsettled : Answer

-- A result, or RelayAuthError, TaskLostError, RuntimeError, TimeoutError; `waiting` while the relay
-- has not answered yet.
pub data Waited : Type 0 where
  result : List ℕ → Waited
  unauthorized lost : Waited
  task_failed : String → Waited
  timed_out waiting : Waited

pub record Exchange : Type 0 where
  pub took : ℕ
  pub answer : Answer

-- how an answer ends the wait, if it does
abbrev pub decision : Answer → Option Waited
decision unreachable = none
decision (code n) = if n == 401 then some unauthorized else if n == 404 then some lost else none
decision (octets body) = some (result body)
decision (failed error) = some (task_failed error)
decision unsettled = none

-- the sleep after an answer that does not end the wait; no poll interval is long-polling
abbrev pub pause : Option ℕ → ℕ → ℕ → Answer → ℕ
pause none deadline now unsettled = 0
pause (some interval) deadline now unsettled = interval
pause poll_interval deadline now answer = min 1000 (deadline - now)

-- The loop, with the time of its end.
unfoldable pub wait_for : Option ℕ → ℕ → ℕ → List Exchange → Waited × ℕ
wait_for poll_interval deadline now [] =
    if ltb now deadline then (waiting, now) else (timed_out, now)
wait_for poll_interval deadline now (e ∷ es) =
    let answered = now + e.took in
    let rest =
      wait_for poll_interval deadline (answered + pause poll_interval deadline answered e.answer)
        es in
    if ltb now deadline
    then elim (decision e.answer) [ some w ↦ (w, answered) | none ↦ rest ]
    else (timed_out, now)
