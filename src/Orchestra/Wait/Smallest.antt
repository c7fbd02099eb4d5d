-- ===== src/Orchestra/Wait/Smallest.antt =====
-- core/internal/orchestra/wait.go: which input `findAnchoredInputWithValue` picks.
use atomyx.Prelude.{
  ◌≡◌, refl, sym, subst, ◌∙◌, inl, inr, List, [], ◌∷◌, some, Bool, true, false, Text, All, All-imp,
  All-any, IsOneOf, All-IsOneOf, arith, Bool-cases, on_bool, on_bool_at,
}
use mathlib.Core.Option.{some-injective}
use atomyx.Wire.{TreeNode}
use atomyx.Orchestra.Cursor.Walk.{Cursor, walk}
use atomyx.Orchestra.Filter.{keep}
use atomyx.Orchestra.Filter.Keep.{keep-All, keep-true, keep-false}
use atomyx.Orchestra.Bounds.{Bounds, Coordinates}
use atomyx.Orchestra.Wait.Expected.{
  ShowsExpected, matches_input_expectation_iff, IsInputAt, is_anchored_input_iff,
}
use atomyx.Orchestra.Wait.Input.{
  Products, first_that, area_of, insert_by_area, sort_by_area, is_anchored_input,
  matches_input_expectation, find_anchored_input_with_value,
}

-- What IEEE 754 says of `<`: no two values are each less than the other, and a value that is not less
-- than a number, which is not less than a third, is not less than that.
pub record IsOrder {A : Type 0} (ops : Coordinates A) : Type 0 where
  pub asymmetric : (a b : A) → ops.lt a b ≡ true → ops.lt b a ≡ false
  pub not_less :
      (a b c : A)
      → ops.is_nan b ≡ false
      → ops.lt a b ≡ false
      → ops.lt b c ≡ false
      → ops.lt a c ≡ false

IsOrder-self : {A : Type 0} (ops : Coordinates A) → IsOrder ops → (a : A) → ops.lt a a ≡ false
IsOrder-self ops order a = elim (Bool-cases (ops.lt a a)) [
  | inl e ↦ order.asymmetric a a e
  | inr e ↦ e
]

-- The area of a cursor is a number: it is not where edges are so far apart that they overflow.
unfoldable pub HasArea : {A : Type 0} → Coordinates A → Products A → Cursor → Type 0
HasArea ops products c = ops.is_nan (area_of ops products c) ≡ false

-- The first cursor that passes a test has what all of them have.
pub first_that-All :
    (P : Cursor → Type 0) (test : Cursor → Bool) (cs : List Cursor) (c : Cursor)
    → All P cs
    → first_that test cs ≡ some c
    → P c × (test c ≡ true)
unfolding first_that
first_that-All P test [] c h e = grind arith
first_that-All P test (d ∷ ds) c (p, h) e = elim (Bool-cases (test d)) [
  | inl t ↦ subst (λ x. P x × (test x ≡ true)) (some-injective d c (sym (rw t refl) ∙ e)) (p, t)
  | inr t ↦ first_that-All P test ds c h (sym (rw t refl) ∙ e)
]

keep-back :
    (P : Cursor → Type 0) (test : Cursor → Bool) (cs : List Cursor)
    → All P (keep test cs)
    → All (λ c. test c ≡ true → P c) cs
unfolding keep
keep-back P test [] h = tt
keep-back P test (c ∷ cs) h = elim (Bool-cases (test c)) [
  | inl t ↦
      let kept : P c × All P (keep test cs) = subst (All P) (keep-true test c cs t) h in
      (λ e. kept.0, keep-back P test cs kept.1)
  | inr t ↦ (
    λ e. let no : ⊥ = grind (arith, e, t) in elim no [ ],
    keep-back P test cs (subst (All P) (keep-false test c cs t) h),
  )
]

module _ {A : Type 0} (ops : Coordinates A) (order : IsOrder ops) (products : Products A) where
  -- No smaller than another.
  abbrev NoSmaller : Cursor → Cursor → Type 0
  NoSmaller c d = ops.lt (area_of ops products d) (area_of ops products c) ≡ false

  unfoldable Sorted : List Cursor → Type 0
  Sorted [] = Unit
  Sorted (c ∷ cs) = All (NoSmaller c) cs × Sorted cs

  insert-All :
      (P : Cursor → Type 0) (c : Cursor) (ds : List Cursor)
      → P c
      → All P ds
      → All P (insert_by_area ops products c ds)
  unfolding insert_by_area
  insert-All P c [] p h = (p, tt)
  insert-All P c (d ∷ ds) p (q, h) =
      on_bool (All P) (ops.lt (area_of ops products d) (area_of ops products c))
        (q, insert-All P c ds p h) (p, (q, h))

  insert-back :
      (P : Cursor → Type 0) (c : Cursor) (ds : List Cursor)
      → All P (insert_by_area ops products c ds)
      → P c × All P ds
  unfolding insert_by_area
  insert-back P c [] h = h
  insert-back P c (d ∷ ds) h =
      on_bool (λ l. All P l → P c × (P d × All P ds))
        (ops.lt (area_of ops products d) (area_of ops products c))
        {t = d ∷ insert_by_area ops products c ds} {e = c ∷ d ∷ ds}
        (λ (q, k). let back = insert-back P c ds k in (back.0, (q, back.1))) (λ k. k) h

  sort-All :
      (P : Cursor → Type 0) (cs : List Cursor) → All P cs → All P (sort_by_area ops products cs)
  unfolding sort_by_area
  sort-All P [] h = tt
  sort-All P (c ∷ cs) (p, h) = insert-All P c (sort_by_area ops products cs) p (sort-All P cs h)

  sort-back :
      (P : Cursor → Type 0) (cs : List Cursor) → All P (sort_by_area ops products cs) → All P cs
  unfolding sort_by_area
  sort-back P [] h = tt
  sort-back P (c ∷ cs) h =
      let back = insert-back P c (sort_by_area ops products cs) h in (back.0, sort-back P cs back.1)

  insert-Sorted :
      (c : Cursor) (ds : List Cursor)
      → All (HasArea ops products) ds
      → Sorted ds
      → Sorted (insert_by_area ops products c ds)
  unfolding insert_by_area Sorted HasArea
  insert-Sorted c [] number h = (tt, tt)
  insert-Sorted c (d ∷ ds) (number, numbers) (least, h) =
      on_bool_at Sorted (ops.lt (area_of ops products d) (area_of ops products c))
        (λ e. (
          insert-All (NoSmaller d) c ds (order.asymmetric _ _ e) least,
          insert-Sorted c ds numbers h,
        ))
        (λ e. (
          (
            e,
            All-imp (NoSmaller d) (NoSmaller c) ds (λ x k. order.not_less _ _ _ number k e) least,
          ),
          (least, h),
        ))

  sort-Sorted :
      (cs : List Cursor) → All (HasArea ops products) cs → Sorted (sort_by_area ops products cs)
  unfolding sort_by_area Sorted
  sort-Sorted [] numbers = tt
  sort-Sorted (c ∷ cs) (number, numbers) =
      insert-Sorted c (sort_by_area ops products cs) (sort-All (HasArea ops products) cs numbers)
        (sort-Sorted cs numbers)

  -- In a sorted list, the first that passes a test is no larger than any that does.
  first_that-least :
      (test : Cursor → Bool) (cs : List Cursor) (c : Cursor)
      → Sorted cs
      → first_that test cs ≡ some c
      → All (λ d. test d ≡ true → NoSmaller c d) cs
  unfolding first_that Sorted
  first_that-least test [] c h e = tt
  first_that-least test (d ∷ ds) c (least, h) e = elim (Bool-cases (test d)) [
    | inl t ↦
        subst (λ x. All (λ d. test d ≡ true → NoSmaller x d) (d ∷ ds))
          (some-injective d c (sym (rw t refl) ∙ e))
          (
            λ _. IsOrder-self ops order (area_of ops products d),
            All-imp (NoSmaller d) (λ x. test x ≡ true → NoSmaller d x) ds (λ x k _. k) least,
          )
    | inr t ↦ (
      λ passes. let no : ⊥ = grind (arith, passes, t) in elim no [ ],
      first_that-least test ds c h (sym (rw t refl) ∙ e),
    )
  ]

-- A cursor of a tree is an input at the anchor, it shows what was expected, and no such input of the
-- tree has a smaller area.
pub record Committed {A : Type 0} (ops : Coordinates A) (products : Products A) (anchor : Bounds A)
    (expected : Text) (tree : TreeNode) (c : Cursor) : Type 0 where
  pub in_tree : IsOneOf (walk tree) c
  pub anchored : IsInputAt ops anchor c
  pub expected_text : ShowsExpected expected c
  pub smallest :
      All
        (λ d.
          IsInputAt ops anchor d
          → ShowsExpected expected d
          → ops.lt (area_of ops products d) (area_of ops products c) ≡ false)
        (walk tree)

pub find_anchored_input_with_value-Committed :
    {A : Type 0} (ops : Coordinates A)
    → IsOrder ops
    → (products : Products A) (anchor : Bounds A) (expected : Text) (tree : TreeNode) (c : Cursor)
    → All (HasArea ops products) (walk tree)
    → find_anchored_input_with_value ops products anchor expected tree ≡ some c
    → Committed ops products anchor expected tree c
unfolding find_anchored_input_with_value
find_anchored_input_with_value-Committed ops order products anchor expected tree c numbers e =
    let test = matches_input_expectation expected in
    let at = is_anchored_input ops anchor in
    let inputs = keep at (walk tree) in
    let areas : All (HasArea ops products) inputs =
      All-imp _ (HasArea ops products) inputs (λ d k. k.0)
        (keep-All (HasArea ops products) at (walk tree) numbers) in
    let has : (P : Cursor → Type 0) → All P inputs → P c × (test c ≡ true) = λ P h.
      first_that-All P test (sort_by_area ops products inputs) c
        (sort-All ops order products P inputs h) e in
    record {
      in_tree =
          (has (λ d. IsOneOf (walk tree) d × (at d ≡ true))
            (keep-All (IsOneOf (walk tree)) at (walk tree) (All-IsOneOf (walk tree)))).0.0;
      anchored =
          (is_anchored_input_iff ops anchor c).0
            (has (λ d. Unit × (at d ≡ true))
              (keep-All (λ d. Unit) at (walk tree)
                (All-any (λ d. Unit) (walk tree) (λ d. tt)))).0.1;
      expected_text =
          (matches_input_expectation_iff expected c).0
            (has (λ d. Unit) (All-any (λ d. Unit) inputs (λ d. tt))).1;
      smallest =
          All-imp
            (λ d.
              at d ≡ true
              → test d ≡ true
              → ops.lt (area_of ops products d) (area_of ops products c) ≡ false)
            _ (walk tree)
            (λ d least input shows.
              least ((is_anchored_input_iff ops anchor d).1 input)
                ((matches_input_expectation_iff expected d).1 shows))
            (keep-back _ at (walk tree) (
              sort-back ops order products _ inputs (
                first_that-least ops order products test (sort_by_area ops products inputs) c
                  (sort-Sorted ops order products inputs areas) e)));
    }
