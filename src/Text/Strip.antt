-- ===== src/Text/Strip.antt =====
-- `str.strip` of src/distllm/auth.py and relay.py done twice.
use distllm.Prelude.{String, string_eq, ◌&&◌, ◌==◌, ◌≡◌, refl, ap, ◌∙◌, inl, inr, Bool-cases}
use distllm.Text.{is_space, lstrip, rstrip, strip}

lstrip-lstrip : (s : String) → lstrip (lstrip s) ≡ lstrip s
unfolding lstrip
lstrip-lstrip String.[] = refl
lstrip-lstrip (String.◌∷◌ c s) = elim (Bool-cases (is_space c)) [
  | inl h ↦ rw h (lstrip-lstrip s)
  | inr h ↦ rw (h, h) refl
]

rstrip-rstrip : (s : String) → rstrip (rstrip s) ≡ rstrip s
unfolding rstrip
rstrip-rstrip String.[] = refl
rstrip-rstrip (String.◌∷◌ c s) = elim (Bool-cases (is_space c && rstrip s == "")) [
  | inl h ↦ rw h refl
  | inr h ↦ rw (h, rstrip-rstrip s, h) refl
]

lstrip-rstrip-lstrip : (s : String) → lstrip (rstrip (lstrip s)) ≡ rstrip (lstrip s)
unfolding lstrip rstrip
lstrip-rstrip-lstrip String.[] = refl
lstrip-rstrip-lstrip (String.◌∷◌ c s) = elim (Bool-cases (is_space c)) [
  | inl h ↦ rw h (lstrip-rstrip-lstrip s)
  | inr h ↦ rw (h, h, h) refl
]

pub strip-strip : (s : String) → strip (strip s) ≡ strip s
unfolding strip
strip-strip s = ap rstrip (lstrip-rstrip-lstrip s) ∙ rstrip-rstrip (lstrip s)
