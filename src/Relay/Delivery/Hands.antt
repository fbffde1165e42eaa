-- ===== src/Relay/Delivery/Hands.antt =====
-- The ids that getters of held polls of src/distllm/relay.py have dequeued.
use distllm.Prelude.{
  String, Bool, true, false, ◌&&◌, Option, none, some, List, [], ◌∷◌, ◌≡◌, refl, sym, subst, ap,
  ◌∙◌, ◌⊎◌, inl, inr, arith, string_eq, ◌==◌, eq_of_beq, Bool-cases,
}
use distllm.Dict
use distllm.Dict.{Dict, get-delete}
use distllm.Relay.State.{Source, of_worker, of_popped, of_role, Node}
use distllm.Relay.Poll.{same_source, hand_over, hand_over_if}
use distllm.Relay.Sweep.{pop_source}
use distllm.Relay.Delivery.Waits.{HasRole, Fits, HeldBy}

same_source-eq : (a b : Source) → same_source a b ≡ true → a ≡ b
same_source-eq (of_worker a) (of_worker b) e = ap of_worker (eq_of_beq a b e)
same_source-eq (of_popped a) (of_popped b) e = ap of_popped (eq_of_beq a b e)
same_source-eq (of_role a) (of_role b) e = ap of_role (eq_of_beq a b e)
same_source-eq (of_worker a) (of_popped b) e = absurd (ground (arith, e))
same_source-eq (of_worker a) (of_role b) e = absurd (ground (arith, e))
same_source-eq (of_popped a) (of_worker b) e = absurd (ground (arith, e))
same_source-eq (of_popped a) (of_role b) e = absurd (ground (arith, e))
same_source-eq (of_role a) (of_worker b) e = absurd (ground (arith, e))
same_source-eq (of_role a) (of_popped b) e = absurd (ground (arith, e))

both : (a b : Bool) → (a && b) ≡ true → (a ≡ true) × (b ≡ true)
both true true e = (refl, refl)
both true false e = absurd (ground (arith, e))
both false b e = absurd (ground (arith, e))

module _ (nodes : Dict String Node) (id role : String) where
  -- what is handed over, and what stays in the hands
  pub HeldBy-hand_over :
      (k : String) (source : Source) (hand : List (String × Source))
      → HeldBy nodes id role hand
      → (((hand_over k source hand).0 ≡ some id) × Fits source nodes role)
        ⊎ HeldBy nodes id role (hand_over k source hand).1
  unfolding hand_over
  HeldBy-hand_over k source [] h = absurd h
  HeldBy-hand_over k source ((j, from) ∷ hand) h =
      elim (Bool-cases (k == j && same_source source from)) [
        | inl e ↦
            let (name, kind) = both (k == j) (same_source source from) e in
            rw e (elim h [
              | inl (here, fits) ↦ inl (
                ap some (eq_of_beq k j name ∙ here),
                subst (λ x. Fits x nodes role) (sym (same_source-eq source from kind)) fits,
              )
              | inr rest ↦ inr rest
            ])
        | inr e ↦ rw e (elim h [
          | inl here ↦ inr (inl here)
          | inr rest ↦ elim (HeldBy-hand_over k source hand rest) [
            | inl taken ↦ inl taken
            | inr kept ↦ inr (inr kept)
          ]
        ])
      ]

  pub HeldBy-hand_over_if :
      (o : Option String) (source : Source) (hand : List (String × Source))
      → HeldBy nodes id role hand
      → (((hand_over_if o source hand).0 ≡ some id) × Fits source nodes role)
        ⊎ HeldBy nodes id role (hand_over_if o source hand).1
  HeldBy-hand_over_if none source hand h = inr h
  HeldBy-hand_over_if (some k) source hand h = HeldBy-hand_over k source hand h

  -- with other nodes
  pub HeldBy-nodes :
      (nodes' : Dict String Node) (hand : List (String × Source))
      → ((w : String) → HasRole (Dict.get w nodes) role → HasRole (Dict.get w nodes') role)
      → HeldBy nodes id role hand
      → HeldBy nodes' id role hand
  HeldBy-nodes nodes' [] f h = absurd h
  HeldBy-nodes nodes' ((j, of_worker w) ∷ hand) f (inl (e, fits)) = inl (e, f w fits)
  HeldBy-nodes nodes' ((j, of_popped w) ∷ hand) f (inl (e, fits)) = inl (e, tt)
  HeldBy-nodes nodes' ((j, of_role r) ∷ hand) f (inl (e, fits)) = inl (e, fits)
  HeldBy-nodes nodes' (x ∷ hand) f (inr h) = inr (HeldBy-nodes nodes' hand f h)

  -- A worker's queue is popped when it leaves the table.
  pub HeldBy-pop_source :
      (worker : String) (hand : List (String × Source))
      → HeldBy nodes id role hand
      → HeldBy (Dict.delete worker nodes) id role (pop_source worker hand)
  unfolding pop_source
  HeldBy-pop_source worker [] h = absurd h
  HeldBy-pop_source worker ((j, of_worker w) ∷ hand) (inl (e, fits)) =
      elim (Bool-cases (w == worker)) [
        | inl same ↦ rw same (inl (e, tt))
        | inr other ↦ rw other (
            inl (
              e,
              elim (Bool-cases (worker == w)) [
                | inl same ↦ absurd (
                    ground
                      (arith, other, sym (eq_of_beq worker w same), string_eq.beq_iff w worker))
                | inr apart ↦ rw (get-delete, apart) fits
              ],
            ))
      ]
  HeldBy-pop_source worker ((j, of_popped w) ∷ hand) (inl (e, fits)) = inl (e, tt)
  HeldBy-pop_source worker ((j, of_role r) ∷ hand) (inl (e, fits)) = inl (e, fits)
  HeldBy-pop_source worker ((j, of_worker w) ∷ hand) (inr h) = inr (HeldBy-pop_source worker hand h)
  HeldBy-pop_source worker ((j, of_popped w) ∷ hand) (inr h) = inr (HeldBy-pop_source worker hand h)
  HeldBy-pop_source worker ((j, of_role r) ∷ hand) (inr h) = inr (HeldBy-pop_source worker hand h)
