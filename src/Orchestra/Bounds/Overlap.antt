-- ===== src/Orchestra/Bounds/Overlap.antt =====
-- When two rectangles overlap.
use atomyx.Prelude.{
  ◌≡◌, ◌↔◌, ◌⊎◌, refl, ◌∙◌, sym, inl, inr, Bool, true, false, not, ◌&&◌, ◌||◌, Bool-cases, arith,
}
use atomyx.Orchestra.Bounds.{Bounds, Coordinates, bounds_contain, bounds_intersect}

-- What holds of the coordinates that are numbers; `parse_bounds` gives no others.
pub record IsOrdered {A : Type 0} (ops : Coordinates A) : Type 0 where
  pub lt_le : (a b : A) → ops.lt a b ≡ not (ops.le b a)
  pub le_refl : (a : A) → ops.le a a ≡ true
  pub le_total : (a b : A) → (ops.le a b ≡ true) ⊎ (ops.le b a ≡ true)
  pub le_trans : (a b c : A) → ops.le a b ≡ true → ops.le b c ≡ true → ops.le a c ≡ true

pub record HasArea {A : Type 0} (ops : Coordinates A) (b : Bounds A) : Type 0 where
  pub wide : ops.lt b.left b.right ≡ true
  pub high : ops.lt b.top b.bottom ≡ true

and-parts :
    (p q r s : Bool) → (p && q && r && s) ≡ true → (p ≡ true) × (q ≡ true) × (r ≡ true) × (s ≡ true)
and-parts true true true true h = (refl, refl, refl, refl)
and-parts true true true false h = grind arith
and-parts true true false s h = grind arith
and-parts true false r s h = grind arith
and-parts false q r s h = grind arith

nor-parts :
    (p q r s : Bool)
    → not (p || q || r || s) ≡ true
    → (p ≡ false) × (q ≡ false) × (r ≡ false) × (s ≡ false)
nor-parts false false false false h = (refl, refl, refl, refl)
nor-parts false false false true h = grind arith
nor-parts false false true s h = grind arith
nor-parts false true r s h = grind arith
nor-parts true q r s h = grind arith

not-true : (p : Bool) → not p ≡ true → p ≡ false
not-true false h = refl
not-true true h = grind arith

module _ {A : Type 0} (ops : Coordinates A) (order : IsOrdered ops) where
  -- Two intervals that do not end before each other begins share a point.
  shared_point :
      (a b c d : A)
      → ops.lt a b ≡ true
      → ops.lt c d ≡ true
      → ops.le b c ≡ false
      → ops.le d a ≡ false
      → (x : A) × (ops.le a x ≡ true)
        × (ops.lt x b ≡ true)
        × (ops.le c x ≡ true)
        × (ops.lt x d ≡ true)
  shared_point a b c d h k p q = elim (order.le_total a c) [
    | inl e ↦ (c, e, rw (order.lt_le c b, p) refl, order.le_refl c, k)
    | inr e ↦ (a, order.le_refl a, h, e, rw (order.lt_le a d, q) refl)
  ]

  begins_before : (a b x : A) → ops.le a x ≡ true → ops.lt x b ≡ true → ops.le b a ≡ false
  begins_before a b x h k = elim (Bool-cases (ops.le b a)) [
    | inl e ↦
        let beyond = order.le_trans b a x e h in
        let short = not-true (ops.le b x) (sym (order.lt_le x b) ∙ k) in
        grind (arith, beyond, short)
    | inr e ↦ e
  ]

  -- Two rectangles that have an area intersect exactly when some point is in both.
  pub bounds_intersect_iff :
      (a b : Bounds A)
      → HasArea ops a
      → HasArea ops b
      → (bounds_intersect ops a b ≡ true)
        ↔ ((x y : A) × (bounds_contain ops a x y ≡ true) × (bounds_contain ops b x y ≡ true))
  unfolding bounds_intersect bounds_contain
  bounds_intersect_iff a b h k = (
    (λ e.
        let (p, q, r, s) =
          nor-parts (ops.le a.right b.left) (ops.le b.right a.left) (ops.le a.bottom b.top)
            (ops.le b.bottom a.top) e in
        let (x, x1, x2, x3, x4) = shared_point a.left a.right b.left b.right h.wide k.wide p q in
        let (y, y1, y2, y3, y4) = shared_point a.top a.bottom b.top b.bottom h.high k.high r s in
        (x, y, rw (x1, x2, y1, y2) refl, rw (x3, x4, y3, y4) refl)),
    λ (x, y, e, f).
        let (a1, a2, a3, a4) =
          and-parts (ops.le a.left x) (ops.lt x a.right) (ops.le a.top y) (ops.lt y a.bottom) e in
        let (b1, b2, b3, b4) =
          and-parts (ops.le b.left x) (ops.lt x b.right) (ops.le b.top y) (ops.lt y b.bottom) f in
        rw
          (
            begins_before b.left a.right x b1 a2,
            begins_before a.left b.right x a1 b2,
            begins_before b.top a.bottom y b3 a4,
            begins_before a.top b.bottom y a3 b4,
          )
          refl,
  )
