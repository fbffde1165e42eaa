-- ===== src/Relay/Routes.antt =====
-- A route on its way from `Cluster.submit` of src/distllm/worker.py to `/submit` of
-- src/distllm/relay.py.
use Prim.Native.Char.{code}
use distllm.Prelude.{
  String, string_eq, Bool, true, false, List, [], ◌∷◌, ◌==◌, nat_eq, ◌≡◌, refl, ap, ◌∙◌, map, arith,
  not, ◌&&◌,
}
use distllm.Text.{lstrip, rstrip, split, strip, nonempty, append, join}
use distllm.Relay.Api.{parse_route}

-- `",".join(route)`
unfoldable pub route_param : List String → String
route_param route = join "," route

abbrev pub has_no_comma : String → Bool
has_no_comma String.[] = true
has_no_comma (String.◌∷◌ c s) = not (code c == 44) && has_no_comma s

-- A role that a route can carry: not empty, without a comma and without space around it.
abbrev pub IsPlain : String → Type 0
IsPlain r = (has_no_comma r ≡ true) × (strip r ≡ r) × ((r == "") ≡ false)

abbrev pub ArePlain : List String → Type 0
ArePlain [] = Unit
ArePlain (r ∷ rs) = IsPlain r × ArePlain rs

split-plain : (w : String) → has_no_comma w ≡ true → split 44 w ≡ w ∷ []
unfolding split
split-plain String.[] h = refl
split-plain (String.◌∷◌ c w) h =
    let here : (code c == 44) ≡ false = ground (arith, h) in
    rw (here, split-plain w (ground (arith, h))) refl

split-append :
    (w rest : String)
    → has_no_comma w ≡ true
    → split 44 (append w (append "," rest)) ≡ w ∷ split 44 rest
unfolding split append
split-append String.[] rest h = refl
split-append (String.◌∷◌ c w) rest h =
    let here : (code c == 44) ≡ false = ground (arith, h) in
    rw (here, split-append w rest (ground (arith, h))) refl

pub split-join :
    (w : String) (ws : List String) → ArePlain (w ∷ ws) → split 44 (join "," (w ∷ ws)) ≡ w ∷ ws
unfolding join
split-join w [] (p, ps) = split-plain w p.0
split-join w (v ∷ ws) (p, ps) =
    split-append w (join "," (v ∷ ws)) p.0 ∙ ap (◌∷◌ w) (split-join v ws ps)

nonempty-plain : (ws : List String) → ArePlain ws → nonempty (map strip ws) ≡ ws
unfolding nonempty
nonempty-plain [] p = refl
nonempty-plain (w ∷ ws) ((free, same, there), ps) = rw (same, there, nonempty-plain ws ps) refl

no_roles : nonempty (map strip (split 44 (join "," []))) ≡ []
unfolding join split nonempty strip lstrip rstrip
no_roles = refl

-- The relay reads back the roles of a route that the client wrote, if no role is empty, has a comma in
-- it or space around it.
pub parse_route-route_param :
    (route : List String) → ArePlain route → parse_route (route_param route) ≡ route
unfolding parse_route route_param
parse_route-route_param [] p = no_roles
parse_route-route_param (w ∷ ws) p =
    ap (λ ws. nonempty (map strip ws)) (split-join w ws p) ∙ nonempty-plain (w ∷ ws) p
