-- ===== src/Worker.antt =====
-- `Worker` of src/distllm/worker.py: the sessions it claims, how it runs a batch of tasks and how it
-- posts a result.
pub mod Claims
pub mod Batch
pub mod Posting
mod Registration
mod Examples
use distllm.Prelude.{
  ℕ, zero, suc, ◌+◌, ◌-◌, ltb, String, Bool, true, false, ◌||◌, Option, none, some, List, [], ◌∷◌,
  ◌++◌, ◌==◌, nat_eq, string_eq, if◌then◌else◌, map, length,
}
use distllm.Dict
use distllm.Dict.{Dict}
use distllm.Text.{truthy, join}

-- What the worker reads of a task's payload; the request id is none where it has none.
pub record Payload : Type 0 where
  pub session_id : Option String
  pub close : Bool
  pub rid : Option String

abbrev pub session_of : Payload → Option String
session_of p = truthy p.session_id

-- MAX_CLAIMED_SESSIONS, SESSION_CLAIM_TTL in milliseconds, RESULT_RETRIES
abbrev pub max_claimed_sessions : ℕ
max_claimed_sessions = 64

abbrev pub session_claim_ttl : ℕ
session_claim_ttl = 900000

abbrev pub result_retries : ℕ
result_retries = 5

-- The session of one payload moves to the end, or goes when it is closed.
unfoldable pub touch : ℕ → Payload → Dict String ℕ → Dict String ℕ
touch now p m = elim (session_of p) [
  | none ↦ m
  | some id ↦ if p.close then Dict.delete id m else Dict.delete id m ++ (id, now) ∷ []
]

unfoldable pub touch_all : ℕ → List Payload → Dict String ℕ → Dict String ℕ
touch_all now [] m = m
touch_all now (p ∷ ps) m = touch_all now ps (touch now p m)

-- the loop that drops the oldest sessions
unfoldable pub trim : ℕ → Dict String ℕ → Dict String ℕ
trim now [] = []
trim now ((id, used) ∷ m) =
    let rest = trim now m in
    if ltb max_claimed_sessions (length ((id, used) ∷ m)) || ltb session_claim_ttl (now - used)
    then rest
    else (id, used) ∷ m

unfoldable pub track_sessions : ℕ → List Payload → Dict String ℕ → Dict String ℕ
track_sessions now ps m = trim now (touch_all now ps m)

-- `",".join(self._sessions)`, the sessions that `register` claims
unfoldable pub sessions_param : Dict String ℕ → String
sessions_param m = join "," (map (λ (id, used). id) m)

-- The function that the worker runs: on one payload, or on a batch. It may raise, as a whole (none) or
-- for one payload.
pub data Func (R : Type 0) : Type 0 where
  single : (Payload → Option R) → Func R
  batched : (List Payload → Option (List (Option R))) → Func R

abbrev pub all_failed : {R : Type 0} → List Payload → List (Option R)
all_failed ps = map (λ p. none) ps

-- A batch whose number of results is not that of its payloads has failed.
unfoldable pub run_func : {R : Type 0} → Func R → List Payload → List (Option R)
run_func (single f) ps = map f ps
run_func (batched f) ps = elim (f ps) [
  | none ↦ all_failed ps
  | some rs ↦ if length rs == length ps then rs else all_failed ps
]

-- a task with its payload, or none where that cannot be decoded
abbrev pub Tasks : Type 0
Tasks = List (String × Option Payload)

unfoldable pub good : Tasks → List (String × Payload)
good [] = []
good ((id, none) ∷ ts) = good ts
good ((id, some p) ∷ ts) = (id, p) ∷ good ts

-- what is reported of a task: its id, its result or failure, and its request id
abbrev pub Outcome : Type 0 → Type 0
Outcome R = String × Option R × Option String

unfoldable pub undecoded : {R : Type 0} → Tasks → List (Outcome R)
undecoded [] = []
undecoded ((id, none) ∷ ts) = (id, none, none) ∷ undecoded ts
undecoded ((id, some p) ∷ ts) = undecoded ts

-- `zip(good, results, rids)`
unfoldable pub zip_results :
    {R : Type 0} → List (String × Payload) → List (Option R) → List (Outcome R)
zip_results [] rs = []
zip_results (t ∷ ts) [] = []
zip_results ((id, p) ∷ ts) (r ∷ rs) = (id, r, p.rid) ∷ zip_results ts rs

-- `_process` up to the reports: its outcomes.
unfoldable pub process : {R : Type 0} → Func R → Tasks → List (Outcome R)
unfolding run_func
process f ts = undecoded ts ++ zip_results (good ts) (run_func f (map (λ (id, p). p) (good ts)))

-- An answer of the relay to an upload, or an error of the connection.
pub data Response : Type 0 where
  status : ℕ → Response
  http_error : Response

pub data Posted : Type 0 where
  posted : Bool → Posted
  unauthorized : Posted

-- `_post_result` from an attempt on, with the number of attempts that are left; also the number of
-- uploads that it made.
unfoldable pub post_from : ℕ → ℕ → (ℕ → Response) → Posted × ℕ
post_from zero attempt responses = (posted false, 0)
post_from (suc left) attempt responses =
    let (o, uploads) = post_from left (suc attempt) responses in
    elim (responses attempt) [
      | http_error ↦ (o, suc uploads)
      | status code ↦
          if code == 401
          then (unauthorized, 1)
          else if ltb code 500
          then (posted (code == 200), 1)
          else (o, suc uploads)
    ]

unfoldable pub post_result : (ℕ → Response) → Posted × ℕ
unfolding post_from
post_result responses = post_from result_retries 0 responses
