-- ===== src/Hf/Stage/Tokens.antt =====
-- What `PipelineStage.handle` of src/distllm/hf.py promises: the tokens that each session holds, and
-- answers that are the layers' output for new tokens after a prefix of them.
use distllm.Prelude.{
  ℕ, ◌≤◌, String, none, some, List, [], ◌++◌, ◌==◌, nat_eq, string_eq, ◌≡◌, if◌then◌else◌, length,
  take,
}
use distllm.Hf.Stage.{
  Layers, Payload, Session, Handled, closed, cache_miss, result, no_session, no_input,
  forward_error, output_error, Sessions,
}
use distllm.Hf.Stage.Table.{Every}

-- What the layers with their cache do: `Holds c xs` says that the cache was filled with these tokens.
pub record Lawful (l : Layers) : Type 1 where
  pub Holds : l.Cache → List l.X → Type 0
  pub whole : List l.X → List l.X → l.Hidden
  pub empty_holds : Holds l.empty []
  pub crop_holds :
      (c : l.Cache) (xs : List l.X) (n : ℕ)
      → n ≤ length xs
      → Holds c xs
      → Holds (l.crop c n) (take n xs)
  pub forward_holds :
      (c : l.Cache) (xs new : List l.X) (h : l.Hidden)
      → Holds c xs
      → (l.forward c (length xs) new).0 ≡ some h
      → Holds (l.forward c (length xs) new).1 (xs ++ new) × (h ≡ whole xs new)

module _ (l : Layers) (w : Lawful l) where
  -- The tokens of each session, as clients know them.
  abbrev pub Known : Type 0
  Known = String → List l.X

  abbrev pub know : String → List l.X → Known → Known
  know id xs g j = if id == j then xs else g j

  abbrev pub InStep : Known → String → Session l → Type 0
  InStep g id s = w.Holds s.cache (g id) × (s.held ≡ length (g id))

  abbrev pub Tracks : Known → Sessions l → Type 0
  Tracks g m = Every (InStep g) m

  -- the tokens that a session is left with, by the request and its reply
  abbrev pub learn : Payload l → Handled l → Known → Known
  learn p (result r) g =
      know p.session_id
        (take p.start_pos (g p.session_id) ++ elim p.input [ none ↦ [] | some new ↦ new ]) g
  learn p (cache_miss held) g = know p.session_id (take held (g p.session_id)) g
  learn p no_input g =
      if p.start_pos == 0 then g else know p.session_id (take p.start_pos (g p.session_id)) g
  learn p closed g = g
  learn p no_session g = g
  learn p forward_error g = g
  learn p output_error g = g

  -- a result is the output for the new tokens after the session's first `start_pos` tokens
  abbrev pub Answers : Payload l → Known → Handled l → Type 0
  Answers p g (result r) =
      (new : List l.X) × (p.input ≡ some new)
      × (p.start_pos ≤ length (g p.session_id))
      × (l.output p.asked (w.whole (take p.start_pos (g p.session_id)) new) ≡ some r)
  Answers p g _ = Unit
