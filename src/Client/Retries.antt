-- ===== src/Client/Retries.antt =====
-- The uploads that `Cluster.submit` of src/distllm/worker.py makes, and when the last one is answered.
use distllm.Prelude.{
  ℕ, zero, suc, ◌+◌, ◌≤◌, ◌<◌, Bool, true, false, List, [], ◌∷◌, ◌++◌, ◌≡◌, refl, ap, inl, inr,
  arith, Bool-cases, length,
}
use distllm.Client.Submit.{
  Response, transport_error, status, Upload, Submitted, submit_retry_for, next_delay, is_last,
  outcome, submit_from, submit,
}

-- Passing failures: an error of the connection or a code of 500 or more.
abbrev pub IsPassing : Response → Type 0
IsPassing transport_error = Unit
IsPassing (status code id) = 500 ≤ code

abbrev pub Passing : List Upload → Type 0
Passing [] = Unit
Passing (u ∷ us) = IsPassing u.response × Passing us

-- The uploads of a submission: all but the last are repeated, the last decides, and no upload starts
-- later than a time.
pub record Decided (is_success : ℕ → Bool) (deadline most : ℕ) (us : List Upload)
    (r : Submitted × ℕ) : Type 0 where
  pub retried : List Upload
  pub last : Upload
  pub rest : List Upload
  pub split : us ≡ retried ++ last ∷ rest
  pub passing : Passing retried
  pub few : length retried ≤ most
  pub outcome_of : r.0 ≡ outcome is_success last.response
  pub decided : is_last deadline r.1 last.response ≡ true
  pub in_time : r.1 ≤ (deadline + 2000) + last.took

-- how long so many delays are, the first of them given
unfoldable pub delays : ℕ → ℕ → ℕ
delays zero delay = 0
delays (suc n) delay = delay + delays n (next_delay delay)

passes :
    (deadline now : ℕ) (r : Response)
    → is_last deadline now r ≡ false
    → IsPassing r × (now < deadline)
unfolding is_last
passes deadline now transport_error e = (tt, ground (arith, e))
passes deadline now (status code id) e = (ground (arith, e), ground (arith, e))

late : (deadline now : ℕ) (r : Response) → deadline ≤ now → is_last deadline now r ≡ true
unfolding is_last
late deadline now transport_error h = ground (arith, h)
late deadline now (status code id) h = ground (arith, h)

module _ (is_success : ℕ → Bool) (deadline : ℕ) where
  Decided-now :
      (now n : ℕ) (u : Upload) (us : List Upload)
      → now ≤ deadline + 2000
      → is_last deadline (now + u.took) u.response ≡ true
      → Decided is_success deadline n (u ∷ us) (outcome is_success u.response, now + u.took)
  Decided-now now n u us h e = record {
    retried = [];
    last = u;
    rest = us;
    split = refl;
    passing = tt;
    few = omega arith;
    outcome_of = refl;
    decided = e;
    in_time = omega (arith, h);
  }

  Decided-retry :
      (n : ℕ) (u : Upload) (us : List Upload) (r : Submitted × ℕ)
      → IsPassing u.response
      → Decided is_success deadline n us r
      → Decided is_success deadline (suc n) (u ∷ us) r
  Decided-retry n u us r p d = record {
    retried = u ∷ d.retried;
    last = d.last;
    rest = d.rest;
    split = ap (λ us. u ∷ us) d.split;
    passing = (p, d.passing);
    few = ground (arith, d.few);
    outcome_of = d.outcome_of;
    decided = d.decided;
    in_time = d.in_time;
  }

  submit_from-Decided :
      (n : ℕ) (us : List Upload) (now delay : ℕ)
      → n < length us
      → delay ≤ 2000
      → now ≤ deadline + 2000
      → deadline ≤ now + delays n delay
      → Decided is_success deadline n us (submit_from is_success deadline now delay us)
  unfolding submit_from delays
  submit_from-Decided n [] now delay many short soon enough = absurd (ground (arith, many))
  submit_from-Decided zero (u ∷ us) now delay many short soon enough =
      let e : is_last deadline (now + u.took) u.response ≡ true =
        late deadline (now + u.took) u.response (omega (arith, enough)) in
      rw e (Decided-now now zero u us soon e)
  submit_from-Decided (suc n) (u ∷ us) now delay many short soon enough =
      elim (Bool-cases (is_last deadline (now + u.took) u.response)) [
        | inl e ↦ rw e (Decided-now now (suc n) u us soon e)
        | inr e ↦
            let p = passes deadline (now + u.took) u.response e in
            rw e (
              Decided-retry n u us _ p.0 (
                submit_from-Decided n us _ _ (ground (arith, many)) (omega arith)
                  (omega (arith, p.1, short)) (omega (arith, enough))))
      ]

-- Where each of 34 uploads is answered or fails, a submission ends after at most so many, the last of
-- them started at most 2 seconds after the 60 that are allowed for retries: all before the last failed
-- in passing, and the last decides, by its answer or because the time is over.
pub submit-Decided :
    (is_success : ℕ → Bool) (now : ℕ) (us : List Upload)
    → 33 < length us
    → Decided is_success (now + submit_retry_for) 33 us (submit is_success now us)
unfolding submit delays
submit-Decided is_success now us many =
    submit_from-Decided is_success (now + submit_retry_for) 33 us now _ many (omega arith)
      (omega arith) (omega arith)
