-- ===== src/Hf/Batch/Examples.antt =====
-- Batches of src/distllm/hf.py over layers whose cache is the list of its tokens.
use distllm.Prelude.{
  ℕ, ◌+◌, String, string_eq, Bool, true, false, Option, none, some, some_inj, List, [], ◌∷◌, ◌++◌,
  map, ◌≡◌, refl, sym, ap, ◌∙◌, inl, inr, length, Occurs, take,
}
use distllm.Dict
use distllm.Hf.Stage.{
  Layers, Payload, Session, Limits, result, Sessions, drop_expired, evict, conclude, run, resume,
  handle,
}
use distllm.Hf.Stage.Tokens.{Lawful, Known, know}
use distllm.Hf.Batch.{
  Batched, handled, batch_error, batchable, chosen, handle_all, decode_batch, handle_batch,
}
use distllm.Hf.Batch.Order.{zip}
use distllm.Hf.Batch.Lost.{handle_batch-Lost}

abbrev counting : Layers
counting = record {
  Cache = List ℕ;
  X = ℕ;
  Hidden = List ℕ × List ℕ;
  Result = ℕ;
  Ask = Unit {0};
  empty = [];
  crop = λ c n. take n c;
  forward = λ c n new. (some (c, new), c ++ new);
  output = λ asked (q, new). some (length q + length new);
}

abbrev lawful : Lawful counting
lawful = record {
  Holds = λ c xs. c ≡ xs;
  whole = λ q new. (q, new);
  empty_holds = refl;
  crop_holds = λ c xs n few e. ap (take n) e;
  forward_holds = λ c xs new h e f. (ap (λ c. c ++ new) e, sym (some_inj f) ∙ ap (λ c. (c, new)) e);
}

-- the tokens that a mask shows
abbrev visible : List Bool → List (Option ℕ) → List ℕ
visible [] es = []
visible (b ∷ bs) [] = []
visible (true ∷ bs) (some t ∷ es) = t ∷ visible bs es
visible (true ∷ bs) (none ∷ es) = 0 ∷ visible bs es
visible (false ∷ bs) (e ∷ es) = visible bs es

abbrev tokens : List (Option ℕ) → List ℕ
tokens [] = []
tokens (none ∷ es) = tokens es
tokens (some t ∷ es) = t ∷ tokens es

abbrev forward_rows :
    List (List (Option ℕ)) → List (List Bool) → List ℕ → List ((List ℕ × List ℕ) × List (Option ℕ))
forward_rows [] masks xs = []
forward_rows (es ∷ rows) [] xs = []
forward_rows (es ∷ rows) (bs ∷ masks) [] = []
forward_rows (es ∷ rows) (bs ∷ masks) (x ∷ xs) =
    ((visible bs es, x ∷ []), es ++ some x ∷ []) ∷ forward_rows rows masks xs

abbrev batched : Batched counting
batched = record {
  Entry = Option ℕ;
  padding = none;
  entries = λ c. map (λ t. some t) c;
  with_entries = λ c es. tokens es;
  plain = λ c. true;
  base = λ rows masks positions xs. some (forward_rows rows masks xs);
}

abbrev payload : String → ℕ → List ℕ → Payload counting
payload id start new = record {
  session_id = id;
  close = false;
  start_pos = start;
  rewind = false;
  input = some new;
  asked = tt;
}

abbrev session : List ℕ → Session counting
session c = record { cache = c; held = length c; last_used = 1000 }

abbrev chats : Sessions counting
chats = ("a", session (5 ∷ 6 ∷ [])) ∷ ("b", session (7 ∷ [])) ∷ []

abbrev known : Known counting lawful
known = know counting lawful "a" (5 ∷ 6 ∷ []) (know counting lawful "b" (7 ∷ []) (λ id. []))

abbrev limits : ℕ → Limits
limits n = record { max_sessions = n; session_ttl = 600000 }

abbrev requests : List (Payload counting)
requests = payload "a" 2 (1 ∷ []) ∷ payload "c" 0 (3 ∷ 4 ∷ []) ∷ payload "b" 1 (2 ∷ []) ∷ []

program : Unit {0}
unfolding handle_batch chosen batchable handle_all decode_batch handle resume run conclude evict
    drop_expired Dict.get Dict.put Dict.delete
program = tt

-- Two next tokens share a forward, a new session is handled alone.
served :
    (handle_batch counting batched (limits 3) 2000 2 requests chats).0
    ≡ handled (result 3) ∷ handled (result 2) ∷ handled (result 2) ∷ []
unfolding program
served = refl

-- With room for two sessions the new one evicts one of the batch, and the batch fails.
evicted : handle_batch counting batched (limits 2) 2000 2 requests chats ≡ (
  batch_error ∷ handled (result 2) ∷ batch_error ∷ [],
  ("c", record { cache = 3 ∷ 4 ∷ []; held = 2; last_used = 2000 }) ∷ [],
)
unfolding program
evicted = refl

handle_batch-Lost_example :
    Occurs
      (payload "b" 1 (2 ∷ []), batch_error)
      (zip counting requests (handle_batch counting batched (limits 2) 2000 2 requests chats).0)
    × (Dict.get "b" (handle_batch counting batched (limits 2) 2000 2 requests chats).1 ≡ none)
unfolding program
handle_batch-Lost_example =
    handle_batch-Lost counting batched (limits 2) 2000 2 requests chats (payload "a" 2 (1 ∷ []))
      (payload "b" 1 (2 ∷ [])) refl (inl refl) refl refl (inr (inr (inl refl)))
