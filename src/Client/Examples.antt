-- ===== src/Client/Examples.antt =====
-- A wait and a submission of `Cluster` of src/distllm/worker.py.
use distllm.Prelude.{
  ℕ, zero, suc, ◌+◌, ◌≤◌, ◌&&◌, Bool, ltb, leb, some, List, [], ◌∷◌, none, ◌≡◌, ◌≢◌, refl, arith,
}
use distllm.Client.{
  Answer, unreachable, code, octets, unsettled, result, waiting, Exchange, wait_for,
}
use distllm.Client.Submit.{
  Response, transport_error, status, Upload, submitted, no_connection, submit_retry_for, is_last,
  outcome, submit_from, submit,
}
use distllm.Client.Retries.{Decided, submit-Decided}
use distllm.Client.Deadline.{wait_for-deadline, wait_for-ends}

abbrev exchange : ℕ → Answer → Exchange
exchange took answer = record { took = took; answer = answer }

-- The relay is away, restarts, and long-polls twice.
abbrev exchanges : List Exchange
exchanges =
    exchange 5 unreachable
    ∷ exchange 10 (code 502)
    ∷ exchange 30000 unsettled
    ∷ exchange 200 (octets (7 ∷ []))
    ∷ []

waited : wait_for none 60000 0 exchanges ≡ (result (7 ∷ []), 32215)
unfolding wait_for
waited = refl

wait_for-deadline_example : (wait_for none 60000 0 exchanges).1 ≤ 60000 + (30000 + 0)
wait_for-deadline_example =
    wait_for-deadline none 60000 30000 exchanges 0
      (
        omega arith,
        omega arith,
        (omega arith, omega arith, (omega arith, omega arith, (omega arith, omega arith, tt))),
      )
      (omega arith)

wait_for-ends_example : (wait_for none 4 0 exchanges).0 ≢ waiting
wait_for-ends_example =
    wait_for-ends none 4 30000 exchanges 0
      (
        omega arith,
        omega arith,
        (omega arith, omega arith, (omega arith, omega arith, (omega arith, omega arith, tt))),
      )
      (omega arith)

abbrev upload : ℕ → Response → Upload
upload took response = record { took = took; response = response }

-- so many uploads without a relay
abbrev away : ℕ → List Upload
away zero = []
away (suc n) = upload 1 transport_error ∷ away n

abbrev is_success : ℕ → Bool
is_success n = leb 200 n && ltb n 300

-- The relay is away, restarts, and takes the third upload.
abbrev uploads : List Upload
uploads =
    upload 5 transport_error
    ∷ upload 10 (status 502 none)
    ∷ upload 20 (status 200 (some "task"))
    ∷ away 31

taken : submit is_success 0 uploads ≡ (submitted "task", 635)
unfolding submit submit_from is_last outcome
taken = refl

-- A relay that stays away takes 34 uploads, here of a millisecond each.
given_up : submit is_success 0 (away 34) ≡ (no_connection, 61034)
unfolding submit submit_from is_last outcome
given_up = refl

submit-Decided_example :
    Decided is_success (0 + submit_retry_for) 33 uploads (submit is_success 0 uploads)
submit-Decided_example = submit-Decided is_success 0 uploads (omega arith)
