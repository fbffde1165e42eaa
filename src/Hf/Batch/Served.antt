-- ===== src/Hf/Batch/Served.antt =====
-- Requests of src/distllm/hf.py and their replies one after the other: what clients learn, and what
-- `handle` keeps over several requests.
use distllm.Prelude.{
  ℕ, suc, String, false, some, List, [], ◌∷◌, ◌++◌, ◌==◌, nat_eq, string_eq, ◌≡◌, refl, ap, ◌∙◌,
  inl, inr, arith, Bool-cases, length,
}
use distllm.Hf.Stage.{
  Layers, Payload, Limits, Handled, closed, cache_miss, result, no_session, no_input, forward_error,
  output_error, Sessions, handle,
}
use distllm.Hf.Stage.Tokens.{Lawful, Known, Tracks, learn, Answers}
use distllm.Hf.Stage.Kept.{handle-Kept}
use distllm.Hf.Batch.{Reply, handled, batch_error, no_reply, count_id, handle_all}
use distllm.Hf.Batch.Rows.{learn_all, AnswersAll}
use distllm.Hf.Batch.Order.{zip, handled_all}

module _ (l : Layers) (w : Lawful l) where
  -- The replies to requests in some order, by what each tells before the next.
  abbrev pub learn_reply : Payload l → Reply l → Known l w → Known l w
  learn_reply p (handled h) g = learn l w p h g
  learn_reply p batch_error g = g
  learn_reply p no_reply g = g

  abbrev pub AnswersReply : Payload l → Known l w → Reply l → Type 0
  AnswersReply p g (handled h) = Answers l w p g h
  AnswersReply p g batch_error = Unit
  AnswersReply p g no_reply = ⊥

  abbrev pub learn_served : List (Payload l × Reply l) → Known l w → Known l w
  learn_served [] g = g
  learn_served ((p, r) ∷ rest) g = learn_served rest (learn_reply p r g)

  abbrev pub Serves : List (Payload l × Reply l) → Known l w → Type 0
  Serves [] g = Unit
  Serves ((p, r) ∷ rest) g = AnswersReply p g r × Serves rest (learn_reply p r g)

  -- what a batch is served with leaves the table and its clients in step
  abbrev pub ServedAs : Known l w → List (Payload l × Reply l) → Sessions l → Type 0
  ServedAs g served m = Serves served g × Tracks l w (learn_served served g) m

  pub learn-other :
      (p : Payload l) (r : Handled l) (g : Known l w) (id : String)
      → (p.session_id == id) ≡ false
      → learn l w p r g id ≡ g id
  learn-other p closed g id o = refl
  learn-other p (cache_miss n) g id o = rw o refl
  learn-other p (result r) g id o = rw o refl
  learn-other p no_session g id o = refl
  learn-other p no_input g id o = elim (Bool-cases (p.start_pos == 0)) [
    | inl z ↦ rw z refl
    | inr z ↦ rw (z, o) refl
  ]
  learn-other p forward_error g id o = refl
  learn-other p output_error g id o = refl

  pub learn_all-other :
      (ps : List (Payload l)) (rs : List (Handled l)) (g : Known l w) (id : String)
      → count_id id ps ≡ 0
      → learn_all l w ps rs g id ≡ g id
  learn_all-other [] rs g id e = refl
  learn_all-other (p ∷ ps) [] g id e = refl
  learn_all-other (p ∷ ps) (r ∷ rs) g id e = elim (Bool-cases (p.session_id == id)) [
    | inl same ↦ absurd (ground (arith, same, e))
    | inr o ↦
        learn_all-other ps rs (learn l w p r g) id (ground (arith, o, e)) ∙ learn-other p r g id o
  ]

  module _ (total : (a : l.Ask) (h : l.Hidden) → (r : l.Result) × (l.output a h ≡ some r))
      (limits : Limits) (now : ℕ) where
    pub handle_all-Kept :
        (ps : List (Payload l)) (g : Known l w) (m : Sessions l)
        → Tracks l w g m
        → AnswersAll l w ps (handle_all l limits now ps m).0 g
          × Tracks l w
              (learn_all l w ps (handle_all l limits now ps m).0 g)
              (handle_all l limits now ps m).1
    unfolding handle_all
    handle_all-Kept [] g m t = (tt, t)
    handle_all-Kept (p ∷ ps) g m t =
        let (t1, a) = handle-Kept l w total limits now p g m t in
        let (more, t2) =
          handle_all-Kept ps (learn l w p (handle l limits now p m).0 g) (handle l limits now p m).1
            t1 in
        ((a, more), t2)

  pub AnswersAll-length :
      (ps : List (Payload l)) (rs : List (Handled l)) (g : Known l w)
      → AnswersAll l w ps rs g
      → length rs ≡ length ps
  AnswersAll-length [] [] g a = refl
  AnswersAll-length [] (r ∷ rs) g a = absurd a
  AnswersAll-length (p ∷ ps) [] g a = absurd a
  AnswersAll-length (p ∷ ps) (r ∷ rs) g (a, more) =
      ap (λ n. suc n) (AnswersAll-length ps rs (learn l w p r g) more)

  -- replies of `handle` before some others
  pub served-append :
      (ps : List (Payload l)) (rs : List (Handled l)) (rest : List (Payload l × Reply l))
      (g : Known l w) (m : Sessions l)
      → AnswersAll l w ps rs g
      → ServedAs (learn_all l w ps rs g) rest m
      → ServedAs g (zip l ps (handled_all l rs) ++ rest) m
  served-append [] [] rest g m a s = s
  served-append [] (r ∷ rs) rest g m a s = absurd a
  served-append (p ∷ ps) [] rest g m a s = absurd a
  served-append (p ∷ ps) (r ∷ rs) rest g m (a, more) s =
      let (b, t) = served-append ps rs rest (learn l w p r g) m more s in ((a, b), t)
