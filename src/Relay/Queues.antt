-- ===== src/Relay/Queues.antt =====
-- `_queue_get_first` of src/distllm/relay.py, over the contents of its queues.
use distllm.Prelude.{Bool, true, false, not, Option, none, some, List, [], ◌∷◌, ◌++◌}

module _ {ℓ} {A : Type ℓ} where
  abbrev pub behind : List A → Option (A × List (List A)) → Option (A × List (List A))
  behind q none = none
  behind q (some (a, qs)) = some (a, q ∷ qs)

  -- the first loop: an item of the first queue that has one, and what the queues keep
  unfoldable pub first_ready : List (List A) → Option (A × List (List A))
  first_ready [] = none
  first_ready ([] ∷ qs) = behind [] (first_ready qs)
  first_ready ((a ∷ q) ∷ qs) = some (a, q ∷ qs)

  -- a getter that finished takes the oldest item of its queue, if there is one
  abbrev pub getter : Bool → List A → Option A × List A
  getter false q = (none, q)
  getter true [] = (none, [])
  getter true (a ∷ q) = (some a, q)

  -- `finished` says of each getter whether it finished before the wait ended
  unfoldable pub run_getters : List Bool → List (List A) → List (Option A × List A)
  run_getters finished [] = []
  run_getters [] (q ∷ qs) = (none, q) ∷ run_getters [] qs
  run_getters (b ∷ bs) (q ∷ qs) = getter b q ∷ run_getters bs qs

  -- the end: `wanted` while no item was kept; any other item goes back to its queue's end
  unfoldable pub settle : Bool → List (Option A × List A) → Option A × List (List A)
  settle wanted [] = (none, [])
  settle wanted ((none, q) ∷ rest) = let (a, qs) = settle wanted rest in (a, q ∷ qs)
  settle true ((some a, q) ∷ rest) = let (b, qs) = settle false rest in (some a, q ∷ qs)
  settle false ((some a, q) ∷ rest) = let (b, qs) = settle false rest in (b, (q ++ a ∷ []) ∷ qs)

  -- The wait as a whole, where nothing else happens between its getters and its end: its outcome, and
  -- the queues after it. `wake_poll` of Relay/Poll has its end alone.
  unfoldable pub end_wait : List Bool → Bool → List (List A) → Option A × List (List A)
  unfolding run_getters settle
  end_wait finished cancelled qs = settle (not cancelled) (run_getters finished qs)
