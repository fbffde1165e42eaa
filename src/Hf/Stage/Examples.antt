-- ===== src/Hf/Stage/Examples.antt =====
-- A stage of src/distllm/hf.py over layers whose cache is the list of its tokens.
use distllm.Prelude.{
  ℕ, ◌+◌, ◌≤◌, String, string_eq, true, false, Option, none, some, some_inj, List, [], ◌∷◌, ◌++◌,
  ◌≡◌, refl, sym, ap, ◌∙◌, arith, length, take,
}
use distllm.Dict
use distllm.Hf.Stage.{
  Layers, Payload, Limits, result, output_error, Sessions, drop_expired, evict, conclude, run,
  resume, handle,
}
use distllm.Hf.Stage.Tokens.{learn, Answers, Lawful, Tracks, know}
use distllm.Hf.Stage.Kept.{handle-Kept}
use distllm.Hf.Stage.Bounds.{handle-length}

abbrev listing : (List ℕ × List ℕ → Option ℕ) → Layers
listing output = record {
  Cache = List ℕ;
  X = ℕ;
  Hidden = List ℕ × List ℕ;
  Result = ℕ;
  Ask = Unit {0};
  empty = [];
  crop = λ c n. take n c;
  forward = λ c n new. (some (c, new), c ++ new);
  output = λ asked h. output h;
}

abbrev counting : Layers
counting = listing (λ (q, new). some (length q + length new))

abbrev raising : Layers
raising = listing (λ h. none)

abbrev lawful : Lawful counting
lawful = record {
  Holds = λ c xs. c ≡ xs;
  whole = λ q new. (q, new);
  empty_holds = refl;
  crop_holds = λ c xs n few e. ap (take n) e;
  forward_holds = λ c xs new h e f. (ap (λ c. c ++ new) e, sym (some_inj f) ∙ ap (λ c. (c, new)) e);
}

abbrev limits : Limits
limits = record { max_sessions = 2; session_ttl = 600000 }

abbrev first : (l : Layers) → l.Cache → Sessions l
first l c = ("chat", record { cache = c; held = 2; last_used = 1000 }) ∷ []

-- one more token after a rewind by one
abbrev rewinding : Payload counting
rewinding = record {
  session_id = "chat";
  close = false;
  start_pos = 1;
  rewind = true;
  input = some (7 ∷ []);
  asked = tt;
}

abbrev chat : String → List ℕ
chat = know counting lawful "chat" (5 ∷ 6 ∷ []) (λ id. [])

first-Tracks : Tracks counting lawful chat (first counting (5 ∷ 6 ∷ []))
unfolding Dict.get
first-Tracks = ((refl, refl), refl, tt)

rewound :
    handle counting limits 2000 rewinding (first counting (5 ∷ 6 ∷ []))
    ≡ (result 2, ("chat", record { cache = 5 ∷ 7 ∷ []; held = 2; last_used = 2000 }) ∷ [])
unfolding handle resume run conclude evict drop_expired Dict.get Dict.put Dict.delete
rewound = refl

handle-Kept_example :
    Tracks counting lawful
      (learn counting lawful rewinding
        (handle counting limits 2000 rewinding (first counting (5 ∷ 6 ∷ []))).0
        chat)
      (handle counting limits 2000 rewinding (first counting (5 ∷ 6 ∷ []))).1
    × Answers counting lawful rewinding chat
        (handle counting limits 2000 rewinding (first counting (5 ∷ 6 ∷ []))).0
handle-Kept_example =
    handle-Kept counting lawful (λ asked (q, new). (length q + length new, refl)) limits 2000
      rewinding chat (first counting (5 ∷ 6 ∷ [])) first-Tracks

handle-length_example :
    length (handle counting limits 2000 rewinding (first counting (5 ∷ 6 ∷ []))).1 ≤ 2
handle-length_example =
    handle-length counting limits 2000 rewinding (first counting (5 ∷ 6 ∷ [])) (omega arith)

abbrev continuing : Payload raising
continuing = record {
  session_id = "chat";
  close = false;
  start_pos = 2;
  rewind = false;
  input = some (7 ∷ []);
  asked = tt;
}

-- An output that raises leaves the session with a cache that is longer than its length says.
overlong :
    handle raising limits 2000 continuing (first raising (5 ∷ 6 ∷ []))
    ≡ (output_error, ("chat", record { cache = 5 ∷ 6 ∷ 7 ∷ []; held = 2; last_used = 1000 }) ∷ [])
unfolding handle resume run conclude evict drop_expired Dict.get Dict.put Dict.delete
overlong = refl
