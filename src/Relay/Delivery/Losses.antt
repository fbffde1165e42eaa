-- ===== src/Relay/Delivery/Losses.antt =====
-- The two queues of a poll before and after its wait, src/distllm/relay.py: the ids in them.
use distllm.Prelude.{
  String, Bool, true, false, Option, none, some, List, [], ◌∷◌, ◌++◌, ◌≡◌, subst, ap, inl, inr,
  arith, string_eq, Occurs, Occurs-append_left, Occurs-append_right, ◌⊎◌, some_inj,
}
use distllm.Relay.Queues.{first_ready, settle}
use distllm.Relay.Poll.{split_queues}

-- What is in the first list is the item or in the second list.
abbrev pub Loses : Option String → List String → List String → Type 0
Loses o q q' = (j : String) → Occurs j q → (o ≡ some j) ⊎ Occurs j q'

Loses-head : (x : String) (q : List String) → Loses (some x) (x ∷ q) q
Loses-head x q j (inl e) = inl (ap some e)
Loses-head x q j (inr o) = inr o

Loses-back :
    (o : Option String) (x : String) (own q : List String)
    → Loses (some x) own q
    → Loses o own (q ++ x ∷ [])
Loses-back o x own q h j i = elim (h j i) [
  | inl e ↦ inr (Occurs-append_right j q (x ∷ []) (inl (some_inj e)))
  | inr i' ↦ inr (Occurs-append_left j q (x ∷ []) i')
]

not_none : (j : String) (q : List String) → (none ≡ some j) ⊎ Occurs j q → Occurs j q
not_none j q (inl e) = absurd (ground arith)
not_none j q (inr o) = o

Loses-weaken : (o : Option String) (own q : List String) → Loses none own q → Loses o own q
Loses-weaken o own q h j i = inr (not_none j q (h j i))

pub first_ready-Loses :
    (own shared : List String) (id : String) (qs : List (List String))
    → first_ready (own ∷ shared ∷ []) ≡ some (id, qs)
    → Loses (some id) own (split_queues qs).0 × Loses (some id) shared (split_queues qs).1
unfolding first_ready
first_ready-Loses [] [] id qs e = absurd (ground arith)
first_ready-Loses [] (x ∷ shared) id qs e =
    subst
      (λ (r : String × List (List String)).
        Loses (some r.0) [] (split_queues r.1).0
        × Loses (some r.0) (x ∷ shared) (split_queues r.1).1)
      (some_inj e) ((λ j o. inr o), Loses-head x shared)
first_ready-Loses (x ∷ own) shared id qs e =
    subst
      (λ (r : String × List (List String)).
        Loses (some r.0) (x ∷ own) (split_queues r.1).0
        × Loses (some r.0) shared (split_queues r.1).1)
      (some_inj e) (Loses-head x own, (λ j o. inr o))

-- A getter's item and queue, settled: the item is kept or put back.
settle-Loses :
    (wanted : Bool) (a b : Option String) (q r : List String)
    → let (o, qs) = settle wanted ((a, q) ∷ (b, r) ∷ []) in
      ((own : List String) → Loses a own q → Loses o own (split_queues qs).0)
      × ((shared : List String) → Loses b shared r → Loses o shared (split_queues qs).1)
unfolding settle
settle-Loses wanted none none q r = ((λ own h. h), (λ shared h. h))
settle-Loses true none (some y) q r = ((λ own h. Loses-weaken (some y) own q h), (λ shared h. h))
settle-Loses false none (some y) q r = ((λ own h. h), (λ shared h. Loses-back none y shared r h))
settle-Loses true (some x) none q r = ((λ own h. h), (λ shared h. Loses-weaken (some x) shared r h))
settle-Loses false (some x) none q r = ((λ own h. Loses-back none x own q h), (λ shared h. h))
settle-Loses true (some x) (some y) q r =
    ((λ own h. h), (λ shared h. Loses-back (some x) y shared r h))
settle-Loses false (some x) (some y) q r =
    ((λ own h. Loses-back none x own q h), (λ shared h. Loses-back none y shared r h))

-- a queue before a getter took an id from it
abbrev pub with_taken : Option String → List String → List String
with_taken none q = q
with_taken (some x) q = x ∷ q

pub Occurs-with_taken :
    (o : Option String) (q : List String) (j : String) → Occurs j q → Occurs j (with_taken o q)
Occurs-with_taken none q j i = i
Occurs-with_taken (some x) q j i = inr i

Loses-with_taken : (o : Option String) (q : List String) → Loses o (with_taken o q) q
Loses-with_taken none q j i = inr i
Loses-with_taken (some x) q j i = Loses-head x q j i

pub settle_both-Loses :
    (wanted : Bool) (a b : Option String) (q r : List String)
    → let (o, qs) = settle wanted ((a, q) ∷ (b, r) ∷ []) in
      Loses o (with_taken a q) (split_queues qs).0 × Loses o (with_taken b r) (split_queues qs).1
settle_both-Loses wanted a b q r =
    let (f, g) = settle-Loses wanted a b q r in
    (f (with_taken a q) (Loses-with_taken a q), g (with_taken b r) (Loses-with_taken b r))

-- Of two ids the first is kept, if one is wanted.
pub settle_first :
    (a b : Option String) (q r : List String) (j : String)
    → a ≡ some j
    → (settle true ((a, q) ∷ (b, r) ∷ [])).0 ≡ some j
unfolding settle
settle_first none b q r j e = absurd (ground (arith, e))
settle_first (some x) none q r j e = e
settle_first (some x) (some y) q r j e = e
