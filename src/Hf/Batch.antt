-- ===== src/Hf/Batch.antt =====
-- `_batchable`, `handle_batch` and `_decode_batch` of `PipelineStage` in src/distllm/hf.py: one forward
-- for the next token of several sessions.
pub mod Rows
pub mod Order
pub mod Served
pub mod Decode
pub mod Kept
pub mod Lost
mod Examples
use distllm.Prelude.{
  ℕ, zero, suc, ◌+◌, ◌-◌, ltb, String, Bool, true, false, not, ◌&&◌, Option, none, some, List, [],
  ◌∷◌, ◌++◌, map, ◌==◌, nat_eq, string_eq, if◌then◌else◌, ◌>>=◌, length, drop,
}
use distllm.Dict
use distllm.Hf.Stage.{
  Layers, Payload, Session, Limits, Handled, result, Sessions, evict, put_last, handle,
}

-- A cache as a list of entries, the keys and values of all layers at a position. `base` is the forward
-- for a batch: the rows of entries, which of their positions are attended to, the position and the
-- input of each row's new token. It gives each row's hidden state and entries, or raises.
pub record Batched (l : Layers) : Type 1 where
  pub Entry : Type 0
  pub padding : Entry
  pub entries : l.Cache → List Entry
  pub with_entries : l.Cache → List Entry → l.Cache
  -- every layer is an initialized DynamicLayer
  pub plain : l.Cache → Bool
  pub base :
      List (List Entry)
      → List (List Bool)
      → List ℕ
      → List l.X
      → Option (List (l.Hidden × List Entry))

-- What a request gets: what `handle` gives, the exception of the batch, or None.
pub data Reply (l : Layers) : Type 0 where
  handled : Handled l → Reply l
  batch_error no_reply : Reply l

-- A session in the batch with its new token.
pub record Row (l : Layers) : Type 0 where
  pub session_id : String
  pub session : Session l
  pub x : l.X

abbrev pub repeat : {A : Type 0} → ℕ → A → List A
repeat zero a = []
repeat (suc n) a = a ∷ repeat n a

-- `sessions.count(id)`
abbrev pub count_id : {l : Layers} → String → List (Payload l) → ℕ
count_id id [] = 0
count_id id (p ∷ ps) = let rest = count_id id ps in if p.session_id == id then suc rest else rest

abbrev pub filter : {A : Type 0} → (A → Bool) → List A → List A
filter f [] = []
filter f (x ∷ xs) = let rest = filter f xs in if f x then x ∷ rest else rest

module _ (l : Layers) where
  -- the loop over the requests that are not batched
  unfoldable pub handle_all :
      Limits → ℕ → List (Payload l) → Sessions l → List (Handled l) × Sessions l
  unfolding handle
  handle_all limits now [] m = ([], m)
  handle_all limits now (p ∷ ps) m =
      let (reply, m') = handle l limits now p m in
      let (replies, m'') = handle_all limits now ps m' in (reply ∷ replies, m'')

  abbrev pub delete_all : List (Payload l) → Sessions l → Sessions l
  delete_all [] m = m
  delete_all (p ∷ ps) m = delete_all ps (Dict.delete p.session_id m)

  abbrev pub after_decode :
      List (Payload l)
      → Option (List l.Result × Sessions l)
      → Sessions l
      → List (Reply l) × Sessions l
  after_decode ps none m = (map (λ p. batch_error) ps, delete_all ps m)
  after_decode ps (some (results, m')) m = (map (λ r. handled (result r)) results, m')

  -- `results`, in the order of the requests
  abbrev pub merge :
      (Payload l → Bool) → List (Payload l) → List (Handled l) → List (Reply l) → List (Reply l)
  merge f [] singles batch = []
  merge f (p ∷ ps) [] [] = no_reply ∷ merge f ps [] []
  merge f (p ∷ ps) (s ∷ singles) [] =
      if f p then no_reply ∷ merge f ps (s ∷ singles) [] else handled s ∷ merge f ps singles []
  merge f (p ∷ ps) [] (r ∷ batch) =
      if f p then r ∷ merge f ps [] batch else no_reply ∷ merge f ps [] (r ∷ batch)
  merge f (p ∷ ps) (s ∷ singles) (r ∷ batch) =
      if f p then r ∷ merge f ps (s ∷ singles) batch else handled s ∷ merge f ps singles (r ∷ batch)

module _ (l : Layers) (b : Batched l) where
  -- the new token of a request for one
  abbrev pub single_token : Payload l → Option l.X
  single_token p = elim p.input [
    | none ↦ none
    | some xs ↦ elim xs [ [] ↦ none | x ∷ rest ↦ if length rest == 0 then some x else none ]
  ]

  abbrev pub is_next : ℕ → Option l.X → Session l → Bool
  is_next start_pos none s = false
  is_next start_pos (some x) s = s.held == start_pos && b.plain s.cache

  unfoldable pub batchable : Sessions l → Payload l → Bool
  batchable m p = if p.close then false else elim (Dict.get p.session_id m) [
    | none ↦ false
    | some s ↦ not (p.start_pos == 0) && is_next p.start_pos (single_token p) s
  ]

  abbrev at_least_two : ℕ → ℕ
  at_least_two n = if ltb n 2 then 2 else n

  -- which requests are batched
  unfoldable pub chosen : ℕ → Sessions l → List (Payload l) → Payload l → Bool
  unfolding batchable
  chosen min_batch m ps p =
      let alone = λ (q : Payload l). count_id q.session_id ps == 1 && batchable m q in
      not (ltb (length (filter alone ps)) (at_least_two min_batch)) && alone p

  abbrev pub row_of : Sessions l → Payload l → Option (Row l)
  row_of m p = do
    s ← Dict.get p.session_id m
    x ← single_token p
    some (record { session_id = p.session_id; session = s; x = x })

  -- the sessions of the batch; none is the KeyError for one that is gone
  abbrev pub rows_of : Sessions l → List (Payload l) → Option (List (Row l))
  rows_of m [] = some []
  rows_of m (p ∷ ps) =
      let rest = rows_of m ps in row_of m p >>= (λ row. rest >>= (λ rows. some (row ∷ rows)))

  -- `max(lengths)`
  abbrev pub longest : List (Row l) → ℕ
  longest [] = 0
  longest (r ∷ rs) = let n = longest rs in if ltb n r.session.held then r.session.held else n

  abbrev pub padded : ℕ → Row l → List b.Entry
  padded n r = repeat (n - r.session.held) b.padding ++ b.entries r.session.cache

  abbrev pub mask : ℕ → Row l → List Bool
  mask n r = repeat (n - r.session.held) false ++ repeat (suc r.session.held) true

  -- `[self._output(...) for row, p in ...]`, none if one raises
  abbrev pub outputs : List (Payload l) → List (l.Hidden × List b.Entry) → Option (List l.Result)
  outputs [] outs = some []
  outputs (p ∷ ps) [] = none
  outputs (p ∷ ps) ((h, es) ∷ outs) =
      let rest = outputs ps outs in l.output p.asked h >>= (λ r. rest >>= (λ rs. some (r ∷ rs)))

  -- the loop that gives every session its own entries back
  abbrev pub unpad : ℕ → ℕ → List (Row l) → List (l.Hidden × List b.Entry) → Sessions l → Sessions l
  unpad n now [] outs m = m
  unpad n now (r ∷ rs) [] m = m
  unpad n now (r ∷ rs) ((h, es) ∷ outs) m = unpad n now rs outs (
      put_last l r.session_id
        (record {
          cache = b.with_entries r.session.cache (drop (n - r.session.held) es);
          held = r.session.held + 1;
          last_used = now;
        })
        m)

  -- none when anything raises
  unfoldable pub decode_batch :
      Limits → ℕ → List (Payload l) → Sessions l → Option (List l.Result × Sessions l)
  unfolding evict
  decode_batch limits now ps m = do
    rows ← rows_of m ps
    let n = longest rows
    outs ←
        b.base (map (padded n) rows) (map (mask n) rows) (map (λ r. r.session.held) rows)
          (map (λ r. r.x) rows)
    results ← outputs ps outs
    some (results, evict l limits now (unpad n now rows outs m))

  -- `if batch:` and what follows
  abbrev pub run_batch : Limits → ℕ → List (Payload l) → Sessions l → List (Reply l) × Sessions l
  run_batch limits now [] m = ([], m)
  run_batch limits now (p ∷ ps) m = after_decode l (p ∷ ps) (decode_batch limits now (p ∷ ps) m) m

  unfoldable pub handle_batch :
      Limits → ℕ → ℕ → List (Payload l) → Sessions l → List (Reply l) × Sessions l
  unfolding chosen handle_all decode_batch
  handle_batch limits now min_batch ps m =
      let f = chosen min_batch m ps in
      let (singles, m') = handle_all l limits now (filter (λ p. not (f p)) ps) m in
      let (batch, m'') = run_batch limits now (filter f ps) m' in (merge l f ps singles batch, m'')
