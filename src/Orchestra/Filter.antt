-- ===== src/Orchestra/Filter.antt =====
-- core/internal/orchestra/filter.go. The loop that each filter writes out is `keep`.
pub mod Keep
use atomyx.Prelude.{
  ℕ, ◌≡◌, refl, List, [], ◌∷◌, map, Option, none, some, Bool, true, false, ◌&&◌, Text, codes,
  text_eq, if◌then◌else◌, ℤ, pos, negsuc, get_elem?, Bool-cases, inl, inr,
}
use atomyx.Wire.{TreeNode, States, attributes_of, states_of, lookup}
use atomyx.Orchestra.Pattern.{Pattern, matches}
use atomyx.Orchestra.Cursor.Walk.{Cursor, node_at}

abbrev pub ElementFilter : Type 0
ElementFilter = List Cursor → List Cursor

unfoldable pub keep : (Cursor → Bool) → ElementFilter
keep p [] = []
keep p (c ∷ cs) = let rest = keep p cs in if p c then c ∷ rest else rest

unfoldable pub has_attr : Text → Pattern → Cursor → Bool
unfolding lookup attributes_of node_at matches
has_attr key p c = elim (lookup key (attributes_of (node_at c))) [
  | none ↦ false
  | some v ↦ matches p v
]

unfoldable pub by_attr : Text → Pattern → ElementFilter
unfolding keep has_attr
by_attr key p = keep (has_attr key p)

unfoldable pub id_matches : Pattern → ElementFilter
unfolding by_attr
id_matches = by_attr (codes "id")

unfoldable pub text_matches : Pattern → ElementFilter
unfolding by_attr
text_matches = by_attr (codes "text")

unfoldable pub label_matches : Pattern → ElementFilter
unfolding by_attr
label_matches = by_attr (codes "label")

unfoldable pub hint_matches : Pattern → ElementFilter
unfolding by_attr
hint_matches = by_attr (codes "hint")

unfoldable pub value_matches : Pattern → ElementFilter
unfolding by_attr
value_matches = by_attr (codes "value")

unfoldable pub has_role : Text → Cursor → Bool
unfolding lookup attributes_of node_at text_eq
has_role role c = elim (lookup (codes "role") (attributes_of (node_at c))) [
  | none ↦ false
  | some v ↦ text_eq v role
]

unfoldable pub role_is : Text → ElementFilter
unfolding keep has_role
role_is role = keep (has_role role)

-- `b != nil && *b`
unfoldable pub is_true : Option Bool → Bool
is_true none = false
is_true (some b) = b

unfoldable pub states_at : Cursor → States
unfolding states_of node_at
states_at c = states_of (node_at c)

unfoldable pub is_enabled : ElementFilter
unfolding keep is_true states_at
is_enabled = keep (λ c. is_true ((states_at c).enabled))

unfoldable pub is_clickable : ElementFilter
unfolding keep is_true states_at
is_clickable = keep (λ c. is_true ((states_at c).clickable))

unfoldable pub is_focused : ElementFilter
unfolding keep is_true states_at
is_focused = keep (λ c. is_true ((states_at c).focused))

unfoldable pub intersect : List ElementFilter → ElementFilter
intersect [] cs = cs
intersect (f ∷ fs) cs = elim (f cs) [ [] ↦ [] | c ∷ rest ↦ intersect fs (c ∷ rest) ]

unfoldable pub nth_filter : ElementFilter → ℤ → ElementFilter
nth_filter f (pos i) cs = elim (get_elem? (f cs) i) [ none ↦ [] | some c ↦ c ∷ [] ]
nth_filter f (negsuc i) cs = []
