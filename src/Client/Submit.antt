-- ===== src/Client/Submit.antt =====
-- `Cluster.submit` of src/distllm/worker.py from its first upload on. Times are whole milliseconds; what
-- the relay answers, and when, is a list of uploads.
use distllm.Prelude.{
  ℕ, ◌+◌, ◌*◌, min, ltb, leb, String, Bool, ◌||◌, Option, none, some, List, [], ◌∷◌, ◌==◌, nat_eq,
  if◌then◌else◌,
}

-- An error of the connection, or a status with the task id in its body, none where the body has none.
pub data Response : Type 0 where
  transport_error : Response
  status : ℕ → Option String → Response

pub record Upload : Type 0 where
  pub took : ℕ
  pub response : Response

-- A task id, or RelayAuthError, HTTPStatusError, the error of a body without a task id, TransportError;
-- `waiting` while the relay has not answered yet.
pub data Submitted : Type 0 where
  submitted : String → Submitted
  unauthorized : Submitted
  http_error : ℕ → Submitted
  no_task_id no_connection waiting : Submitted

-- SUBMIT_RETRY_FOR and the delays between uploads
abbrev pub submit_retry_for : ℕ
submit_retry_for = 60000

abbrev pub first_delay : ℕ
first_delay = 200

abbrev pub next_delay : ℕ → ℕ
next_delay delay = min (delay * 2) 2000

-- whether a response that came at a time ends the loop
unfoldable pub is_last : ℕ → ℕ → Response → Bool
is_last deadline now transport_error = leb deadline now
is_last deadline now (status code id) = ltb code 500 || leb deadline now

-- `_check_auth`, `raise_for_status` and the task id of the body; the argument says which codes
-- `raise_for_status` lets through.
unfoldable pub outcome : (ℕ → Bool) → Response → Submitted
outcome is_success transport_error = no_connection
outcome is_success (status code id) =
    if code == 401
    then unauthorized
    else if is_success code
    then elim id [ some i ↦ submitted i | none ↦ no_task_id ]
    else http_error code

-- The loop, with the time of its end.
unfoldable pub submit_from : (ℕ → Bool) → ℕ → ℕ → ℕ → List Upload → Submitted × ℕ
submit_from is_success deadline now delay [] = (waiting, now)
submit_from is_success deadline now delay (u ∷ us) =
    let answered = now + u.took in
    let rest = submit_from is_success deadline (answered + delay) (next_delay delay) us in
    if is_last deadline answered u.response then (outcome is_success u.response, answered) else rest

unfoldable pub submit : (ℕ → Bool) → ℕ → List Upload → Submitted × ℕ
submit is_success now us = submit_from is_success (now + submit_retry_for) now first_delay us
