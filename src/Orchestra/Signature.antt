-- ===== src/Orchestra/Signature.antt =====
-- core/internal/orchestra/tree_signature.go: the leaves of a tree, counted, measured and hashed.
use atomyx.Prelude.{
  ℕ, zero, suc, ◌+◌, ◌*◌, ◌%◌, ◌^◌, ◌/◌, List, [], ◌∷◌, ◌++◌, Option, none, some, Text, codes,
  trim_space, ltb, if◌then◌else◌, ℤ,
}
use Prim.Native.Nat.{bit_xor}
use atomyx.Wire.{TreeNode, node, Forest, nil, cons, Attributes, lookup}
use atomyx.RunStore.{decimal}
use atomyx.Orchestra.Bounds.{Coordinates, split}
use atomyx.Orchestra.Wait.Stable.{sort_texts, join}

unfoldable pub attribute_or_empty : Text → Attributes → Text
unfolding lookup
attribute_or_empty key m = elim (lookup key m) [ none ↦ [] | some v ↦ v ]

-- The attributes of the leaves, in the order in which `visitLeaves` comes to them.
unfoldable mutual
  pub leaves : TreeNode → List Attributes
  leaves (node a s nil) = a ∷ []
  leaves (node a s (cons t ts)) = leaves t ++ leaves_of_children ts

  pub leaves_of_children : Forest → List Attributes
  leaves_of_children nil = []
  leaves_of_children (cons t ts) = leaves t ++ leaves_of_children ts

unfoldable mutual
  pub count_leaves : TreeNode → ℕ
  count_leaves (node a s nil) = 1
  count_leaves (node a s (cons t ts)) = count_leaves t + count_of_children ts

  pub count_of_children : Forest → ℕ
  count_of_children nil = 0
  count_of_children (cons t ts) = count_leaves t + count_of_children ts

-- Over the bytes of a string, in 32 bits.
unfoldable pub djb2_from : ℕ → List ℕ → ℕ
djb2_from hash [] = hash
djb2_from hash (b ∷ bs) = djb2_from (bit_xor ((hash * 32 % 2 ^ 32 + hash) % 2 ^ 32) b) bs

unfoldable pub hex_digit : ℕ → ℕ
hex_digit d = if ltb d 10 then b'0' + d else 87 + d

-- `strconv.FormatUint` to base 16; `n` has at most as many digits as there is fuel.
unfoldable pub hex_onto : (fuel n : ℕ) → Text → Text
unfolding hex_digit
hex_onto zero n s = s
hex_onto (suc fuel) n s =
    let rest = hex_onto fuel (n / 16) (hex_digit (n % 16) ∷ s) in
    if ltb n 16 then hex_digit n ∷ s else rest

unfoldable pub djb2 : List ℕ → Text
unfolding djb2_from hex_onto
djb2 bytes = hex_onto 8 (djb2_from 5381 bytes) []

-- What float64 gives for `int(math.Floor(n / boundsBucketPx))`, and the bytes of a Go string.
pub record Buckets (A : Type 0) : Type 0 where
  pub bucket : A → ℤ
  pub bytes : Text → List ℕ

module _ {A : Type 0} (ops : Coordinates A) where
  -- The bottom edge of a leaf, where its bounds have one.
  unfoldable pub bottom_of_parts : List Text → Option A
  unfolding trim_space
  bottom_of_parts (l ∷ t ∷ r ∷ b ∷ []) = ops.parse (trim_space b)
  bottom_of_parts _ = none

  unfoldable pub leaf_bottom : Text → Option A
  unfolding split bottom_of_parts
  leaf_bottom [] = none
  leaf_bottom (c ∷ s) = bottom_of_parts (split (c ∷ s))

  unfoldable pub max_bottom : A → List Attributes → A
  unfolding attribute_or_empty leaf_bottom
  max_bottom max [] = max
  max_bottom max (a ∷ as') =
      max_bottom
        (elim (leaf_bottom (attribute_or_empty (codes "bounds") a)) [
          | none ↦ max
          | some bottom ↦ if ops.lt max bottom then bottom else max
        ])
        as'

  unfoldable pub max_leaf_bounds_bottom : TreeNode → A
  unfolding max_bottom leaves
  max_leaf_bounds_bottom tree = max_bottom ops.zero_value (leaves tree)

  module _ (buckets : Buckets A) where
    unfoldable pub bucket_part : Text → Text
    unfolding trim_space decimal
    bucket_part p = elim (ops.parse (trim_space p)) [
      | none ↦ p
      | some n ↦ decimal (buckets.bucket n)
    ]

    unfoldable pub bucket_parts : Text → List Text → Text
    unfolding bucket_part join
    bucket_parts raw (l ∷ t ∷ r ∷ b ∷ []) =
        join (codes ",") (bucket_part l ∷ bucket_part t ∷ bucket_part r ∷ bucket_part b ∷ [])
    bucket_parts raw _ = raw

    unfoldable pub bucket_bounds : Text → Text
    unfolding split bucket_parts
    bucket_bounds [] = []
    bucket_bounds (c ∷ s) = bucket_parts (c ∷ s) (split (c ∷ s))

    unfoldable pub leaf_parts : List Attributes → List Text
    unfolding attribute_or_empty bucket_bounds
    leaf_parts [] = []
    leaf_parts (a ∷ as') =
        (attribute_or_empty (codes "text") a
          ++ codes "|"
          ++ attribute_or_empty (codes "label") a
          ++ codes "|"
          ++ bucket_bounds (attribute_or_empty (codes "bounds") a))
        ∷ leaf_parts as'

    unfoldable pub hash_visible_leaves : TreeNode → Text
    unfolding djb2 join sort_texts leaf_parts leaves
    hash_visible_leaves tree =
        djb2 (buckets.bytes (join (0 ∷ []) (sort_texts (leaf_parts (leaves tree)))))
