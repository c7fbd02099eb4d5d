-- ===== src/Orchestra/Overlay.antt =====
-- core/internal/orchestra/overlay_filter.go: system overlays are cut out of a tree.
use atomyx.Prelude.{
  ◌≡◌, refl, ap, ap₂, subst, arith, List, [], ◌∷◌, Option, none, some, Bool, true, false, ◌&&◌,
  Text, codes, ◌==◌, if◌then◌else◌, Bool-cases, inl, inr,
}
use atomyx.Wire.{TreeNode, node, Forest, nil, cons, attributes_of, lookup}

abbrev pub system_overlay_resource_prefixes : List Text
system_overlay_resource_prefixes = codes "com.samsung.android.app.cocktailbarservice:" ∷ []

-- `strings.HasPrefix`
unfoldable pub has_prefix : Text → Text → Bool
has_prefix s [] = true
has_prefix [] (c ∷ p) = false
has_prefix (d ∷ s) (c ∷ p) = d == c && has_prefix s p

unfoldable pub has_any_prefix : List Text → Text → Bool
unfolding has_prefix
has_any_prefix [] id = false
has_any_prefix (p ∷ ps) id = if has_prefix id p then true else has_any_prefix ps id

unfoldable pub is_system_overlay : TreeNode → Bool
unfolding lookup attributes_of has_any_prefix
is_system_overlay t = elim (lookup (codes "id") (attributes_of t)) [
  | none ↦ false
  | some id ↦ has_any_prefix system_overlay_resource_prefixes id
]

unfoldable mutual
  unfolding is_system_overlay

  pub without_overlays : TreeNode → TreeNode
  without_overlays (node a s ts) = node a s (filter_overlay_children ts)

  pub filter_overlay_children : Forest → Forest
  filter_overlay_children nil = nil
  filter_overlay_children (cons t ts) =
      let kept = without_overlays t in
      let rest = filter_overlay_children ts in if is_system_overlay t then rest else cons kept rest

unfoldable pub filter_system_overlays : TreeNode → Option TreeNode
unfolding is_system_overlay without_overlays
filter_system_overlays t = if is_system_overlay t then none else some (without_overlays t)

-- No node of the tree is a system overlay.
unfoldable mutual
  unfolding is_system_overlay

  pub IsClear : TreeNode → Type 0
  IsClear (node a s ts) = (is_system_overlay (node a s ts) ≡ false) × AreClear ts

  pub AreClear : Forest → Type 0
  AreClear nil = Unit {0}
  AreClear (cons t ts) = IsClear t × AreClear ts

mutual
  unfolding without_overlays IsClear is_system_overlay

  without_overlays-IsClear :
      (t : TreeNode) → is_system_overlay t ≡ false → IsClear (without_overlays t)
  without_overlays-IsClear (node a s ts) h = (h, filter_overlay_children-AreClear ts)

  filter_overlay_children-AreClear : (ts : Forest) → AreClear (filter_overlay_children ts)
  filter_overlay_children-AreClear nil = tt
  filter_overlay_children-AreClear (cons t ts) = elim (Bool-cases (is_system_overlay t)) [
    | inl e ↦ rw (e, without_overlays) (filter_overlay_children-AreClear ts)
    | inr e ↦
        rw (e, without_overlays) (without_overlays-IsClear t e, filter_overlay_children-AreClear ts)
  ]

IsClear-root : (t : TreeNode) → IsClear t → is_system_overlay t ≡ false
unfolding IsClear
IsClear-root (node a s ts) h = h.0

mutual
  unfolding without_overlays IsClear is_system_overlay

  IsClear-without_overlays : (t : TreeNode) → IsClear t → without_overlays t ≡ t
  IsClear-without_overlays (node a s ts) (h, hs) =
      ap (node a s) (AreClear-filter_overlay_children ts hs)

  AreClear-filter_overlay_children : (ts : Forest) → AreClear ts → filter_overlay_children ts ≡ ts
  AreClear-filter_overlay_children nil h = refl
  AreClear-filter_overlay_children (cons t ts) (h, hs) =
      rw (IsClear-root t h, without_overlays)
        (ap₂ cons (IsClear-without_overlays t h) (AreClear-filter_overlay_children ts hs))

-- A tree without overlays is returned as it is.
pub IsClear-filter_system_overlays : (t : TreeNode) → IsClear t → filter_system_overlays t ≡ some t
unfolding filter_system_overlays
IsClear-filter_system_overlays t h = rw (IsClear-root t h) (ap some (IsClear-without_overlays t h))

-- What the filter returns has no overlay left at any depth, so that filtering it again changes
-- nothing.
pub filter_system_overlays-IsClear :
    (t u : TreeNode)
    → filter_system_overlays t ≡ some u
    → IsClear u × (filter_system_overlays u ≡ some u)
unfolding filter_system_overlays
filter_system_overlays-IsClear t u h = elim (Bool-cases (is_system_overlay t)) [
  | inl e ↦ grind (arith, (rw e at h))
  | inr e ↦
      let same : without_overlays t ≡ u = grind (arith, (rw e at h)) in
      let clear : IsClear u = subst IsClear same (without_overlays-IsClear t e) in
      (clear, IsClear-filter_system_overlays u clear)
]
