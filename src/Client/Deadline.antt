-- ===== src/Client/Deadline.antt =====
-- When `Cluster.wait_for` of src/distllm/worker.py ends.
use distllm.Prelude.{
  ℕ, ◌+◌, ◌≤◌, ltb, Option, none, some, List, [], ◌∷◌, ◌≡◌, ◌≢◌, inl, inr, arith, Bool-cases,
  Option-cases, length,
}
use distllm.Client.{
  Answer, unreachable, code, octets, failed, unsettled, Waited, waiting, Exchange, decision, pause,
  wait_for,
}

-- Every exchange takes at least and at most some time.
abbrev pub Takes : ℕ → ℕ → List Exchange → Type 0
Takes least most [] = Unit
Takes least most (e ∷ es) = (least ≤ e.took) × (e.took ≤ most) × Takes least most es

abbrev pub or_zero : Option ℕ → ℕ
or_zero none = 0
or_zero (some n) = n

pause-short :
    (poll_interval : Option ℕ) (deadline now most : ℕ) (a : Answer)
    → now ≤ deadline + most
    → now + pause poll_interval deadline now a ≤ deadline + (most + or_zero poll_interval)
pause-short none deadline now most unsettled h = omega (arith, h)
pause-short (some i) deadline now most unsettled h = omega (arith, h)
pause-short none deadline now most unreachable h = omega (arith, h)
pause-short (some i) deadline now most unreachable h = omega (arith, h)
pause-short none deadline now most (code n) h = omega (arith, h)
pause-short (some i) deadline now most (code n) h = omega (arith, h)
pause-short none deadline now most (octets b) h = omega (arith, h)
pause-short (some i) deadline now most (octets b) h = omega (arith, h)
pause-short none deadline now most (failed b) h = omega (arith, h)
pause-short (some i) deadline now most (failed b) h = omega (arith, h)

-- Where no exchange takes longer than `most`, a wait that starts at most that and one poll interval
-- after its deadline ends by then too.
pub wait_for-deadline :
    (poll_interval : Option ℕ) (deadline most : ℕ) (es : List Exchange) (now : ℕ)
    → Takes 0 most es
    → now ≤ deadline + (most + or_zero poll_interval)
    → (wait_for poll_interval deadline now es).1 ≤ deadline + (most + or_zero poll_interval)
unfolding wait_for
wait_for-deadline poll_interval deadline most [] now t h = ground arith
wait_for-deadline poll_interval deadline most (e ∷ es) now (_, short, t) h =
    elim (Bool-cases (ltb now deadline)) [
      | inl early ↦ elim (Option-cases (decision e.answer)) [
        | inl d ↦
            rw (early, d)
              (wait_for-deadline poll_interval deadline most es _ t (
                pause-short poll_interval deadline (now + e.took) most e.answer
                  (ground (arith, early, short))))
        | inr (w, d) ↦ rw (early, d) (ground (arith, early, short))
      ]
      | inr late ↦ rw late h
    ]

decision-settles : (a : Answer) (w : Waited) → decision a ≡ some w → w ≡ waiting → ⊥
decision-settles unreachable w d e = ground (arith, d, e)
decision-settles (code n) w d e = ground (arith, d, e)
decision-settles (octets b) w d e = ground (arith, d, e)
decision-settles (failed m) w d e = ground (arith, d, e)
decision-settles unsettled w d e = ground (arith, d, e)

-- Where each exchange takes a millisecond at least, a wait is over after as many exchanges as there are
-- milliseconds to its deadline.
pub wait_for-ends :
    (poll_interval : Option ℕ) (deadline most : ℕ) (es : List Exchange) (now : ℕ)
    → Takes 1 most es
    → deadline ≤ now + length es
    → (wait_for poll_interval deadline now es).0 ≢ waiting
unfolding wait_for
wait_for-ends poll_interval deadline most [] now t h = ground (arith, h)
wait_for-ends poll_interval deadline most (x ∷ es) now (long, _, t) h =
    elim (Bool-cases (ltb now deadline)) [
      | inl early ↦ elim (Option-cases (decision x.answer)) [
        | inl d ↦
            rw (early, d)
              (wait_for-ends poll_interval deadline most es _ t (omega (arith, long, h)))
        | inr (w, d) ↦ rw (early, d) (decision-settles x.answer w d)
      ]
      | inr late ↦ rw late (λ e. absurd (ground (arith, e)))
    ]
