-- ===== src/Worker/Examples.antt =====
-- A worker of src/distllm/worker.py on a small batch.
use distllm.Prelude.{
  ℕ, zero, suc, ◌≤◌, String, Bool, true, false, none, some, List, [], ◌∷◌, ◌≡◌, refl, arith, length,
  Perm, inl, string_eq,
}
use distllm.Dict
use distllm.Worker.{
  Payload, max_claimed_sessions, result_retries, touch, touch_all, trim, track_sessions, Func,
  batched, Tasks, good, undecoded, zip_results, run_func, process, Response, status, http_error,
  posted, post_from, post_result,
}
use distllm.Worker.Claims.{Ordered, Recent, track_sessions-Recent}
use distllm.Relay.State.{RelayState, empty_state}
use distllm.Relay.Api.{register}
use distllm.Text.{strip, lstrip, rstrip, is_space}
use distllm.Worker.{sessions_param}
use distllm.Worker.Registration.{ClaimedBy, register-sessions_param}
use distllm.Worker.Batch.{ids, reported, process-perm}
use distllm.Worker.Posting.{Decides, post_result-Decides}

abbrev payload : String → Bool → Payload
payload session close = record { session_id = some session; close = close; rid = none }

abbrev claimed : Dict.Dict String ℕ
claimed = ("old", 1000) ∷ ("a", 2000) ∷ ("b", 900000) ∷ []

abbrev batch : List Payload
batch = payload "a" false ∷ payload "b" true ∷ []

tracked : track_sessions 950000 batch claimed ≡ ("a", 950000) ∷ []
unfolding track_sessions touch_all touch trim Dict.delete
tracked = refl

track_sessions-Recent_example :
    (length (track_sessions 950000 batch claimed) ≤ max_claimed_sessions)
    × Recent 950000 (track_sessions 950000 batch claimed)
    × Ordered 950000 0 (track_sessions 950000 batch claimed)
track_sessions-Recent_example =
    track_sessions-Recent 950000 batch claimed
      (omega arith, omega arith, (omega arith, omega arith, (omega arith, omega arith, tt)))

-- A relay that another worker, still there, has told of one of two sessions.
abbrev relay : RelayState
relay = record (empty_state (record { task_timeout = 30000; node_timeout = 30000 })) {
  nodes = ("w1", record { node_id = "w1"; role = "stage"; last_heartbeat = 5 }) ∷ [];
  affinity = (("stage", "b"), ("w1", 5)) ∷ [];
}

register-sessions_param_example :
    ClaimedBy "w0" 9
      ("stage", "a")
      relay
      (register "w0" "stage" (sessions_param (("a", 1) ∷ ("b", 2) ∷ [])) 9 relay).1
unfolding strip lstrip rstrip is_space
register-sessions_param_example =
    register-sessions_param "w0" "stage" "a" 9 (("a", 1) ∷ ("b", 2) ∷ []) relay (omega arith)
      ((refl, refl, refl), ((refl, refl, refl), tt)) (inl refl)

-- a batch function that gives one result too few
abbrev short : Func ℕ
short = batched (λ ps. some (some 1 ∷ []))

abbrev taken : Tasks
taken = ("t0", some (payload "a" false)) ∷ ("t1", none) ∷ ("t2", some (payload "b" false)) ∷ []

failed : process short taken ≡ ("t1", none, none) ∷ ("t0", none, none) ∷ ("t2", none, none) ∷ []
unfolding process run_func good undecoded zip_results
failed = refl

process-perm_example : Perm (reported (process short taken)) (ids taken)
process-perm_example = process-perm short taken

-- the relay restarts, then takes the result
abbrev answers : ℕ → Response
answers zero = http_error
answers (suc zero) = status 502
answers (suc (suc n)) = status 200

third : post_result answers ≡ (posted true, 3)
unfolding post_result post_from
third = refl

post_result-Decides_example : Decides result_retries 0 answers (post_result answers)
post_result-Decides_example = post_result-Decides answers
