-- ===== src/Hf/Stage.antt =====
-- `PipelineStage` of src/distllm/hf.py: the sessions of a stage and `handle`. The layers with their
-- cache and what follows them (`_output`) are parameters that may raise.
pub mod Table
pub mod Tokens
pub mod Kept
pub mod Bounds
mod Examples
use distllm.Prelude.{
  ℕ, ◌+◌, ◌-◌, ltb, String, Bool, ◌&&◌, Option, none, some, List, [], ◌∷◌, ◌++◌, ◌==◌, nat_eq,
  string_eq, if◌then◌else◌, length, drop,
}
use distllm.Dict
use distllm.Dict.{Dict}

-- `X` is one token's input, `forward` runs new tokens at a position and advances the cache even where
-- it raises (none). `Ask` is what `_output` reads of a request: its "output" and the control keys.
pub record Layers : Type 1 where
  pub Cache : Type 0
  pub X : Type 0
  pub Hidden : Type 0
  pub Ask : Type 0
  pub Result : Type 0
  pub empty : Cache
  pub crop : Cache → ℕ → Cache
  pub forward : Cache → ℕ → List X → Option Hidden × Cache
  pub output : Ask → Hidden → Option Result

-- The fields of a request that `handle` reads; `input` is none where its key is missing.
pub record Payload (l : Layers) : Type 0 where
  pub session_id : String
  pub close : Bool
  pub start_pos : ℕ
  pub rewind : Bool
  pub input : Option (List l.X)
  pub asked : l.Ask

pub record Session (l : Layers) : Type 0 where
  pub cache : l.Cache
  pub held : ℕ
  pub last_used : ℕ

pub record Limits : Type 0 where
  pub max_sessions : ℕ
  pub session_ttl : ℕ

-- A result, or what is raised: ValueError twice, the layers' exception, the output's.
pub data Handled (l : Layers) : Type 0 where
  closed : Handled l
  cache_miss : ℕ → Handled l
  result : l.Result → Handled l
  no_session no_input forward_error output_error : Handled l

module _ (l : Layers) where
  abbrev pub Sessions : Type 0
  Sessions = Dict String (Session l)

  unfoldable pub drop_expired : ℕ → ℕ → Sessions → Sessions
  drop_expired ttl now [] = []
  drop_expired ttl now ((id, s) ∷ rest) =
      let kept = drop_expired ttl now rest in
      if ltb ttl (now - s.last_used) then kept else (id, s) ∷ kept

  -- the sessions stand from the least to the most recently used
  unfoldable pub evict : Limits → ℕ → Sessions → Sessions
  unfolding drop_expired
  evict limits now m =
      let kept = drop_expired limits.session_ttl now m in
      drop (length kept - limits.max_sessions) kept

  -- `self._sessions[id] = sess` and `move_to_end`
  abbrev pub put_last : String → Session l → Sessions → Sessions
  put_last id s m = Dict.delete id m ++ (id, s) ∷ []

  abbrev pub cropped : Bool → ℕ → Session l → Session l
  cropped rewind start s =
      if rewind && ltb start s.held
      then record s { cache = l.crop s.cache start; held = start }
      else s

  -- the end of `handle`, after the layers; `stale` are the sessions where the output raises
  unfoldable pub conclude :
      Limits
      → ℕ
      → String
      → ℕ
      → l.Cache
      → Option l.Result
      → Sessions
      → Sessions
      → Handled l × Sessions
  unfolding evict
  conclude limits now id held cache none stale m = (output_error, stale)
  conclude limits now id held cache (some r) stale m = (
    result r,
    evict limits now (put_last id (record { cache = cache; held = held; last_used = now }) m),
  )

  -- from the inputs on; `keep` is what becomes of the table when the cache has advanced and the output
  -- raises: the session of the table is the one that advanced, unless it is a new one
  unfoldable pub run :
      Limits → ℕ → Payload l → l.Cache → (l.Cache → Sessions) → Sessions → Handled l × Sessions
  unfolding conclude
  run limits now p cache keep m = elim p.input [
    | none ↦ (no_input, m)
    | some new ↦
        let (o, cache') = l.forward cache p.start_pos new in
        elim o [
          | none ↦ (forward_error, Dict.delete p.session_id m)
          | some hidden ↦
              conclude limits now p.session_id (p.start_pos + length new) cache'
                (l.output p.asked hidden) (keep cache') m
        ]
  ]

  -- a request below position 0: the table's session, cropped in place on `rewind`
  unfoldable pub resume :
      Limits → ℕ → Payload l → Option (Session l) → Sessions → Handled l × Sessions
  unfolding run
  resume limits now p none m = (cache_miss 0, m)
  resume limits now p (some s) m =
      let s' = cropped p.rewind p.start_pos s in
      let m' = Dict.put p.session_id s' m in
      if s'.held == p.start_pos
      then run limits now p s'.cache
          (λ cache. Dict.put p.session_id (record s' { cache = cache }) m') m'
      else (cache_miss s'.held, m')

  unfoldable pub handle : Limits → ℕ → Payload l → Sessions → Handled l × Sessions
  unfolding run resume
  handle limits now p m =
      if p.session_id == ""
      then (no_session, m)
      else if p.close
      then (closed, Dict.delete p.session_id m)
      else if p.start_pos == 0
      then run limits now p l.empty (λ cache. m) m
      else resume limits now p (Dict.get p.session_id m) m
