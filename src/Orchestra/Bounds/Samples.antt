-- ===== src/Orchestra/Bounds/Samples.antt =====
-- Rectangles with natural coordinates, and the theorems on them at concrete inputs.
use atomyx.Prelude.{ℕ, ◌+◌, ◌/◌, ◌≡◌, ◌↔◌, refl, some, true, false, codes, ltb, leb, arith}
use atomyx.Expression.Decimal.{digits_value}
use atomyx.Orchestra.Bounds.{Bounds, Coordinates, parse_bounds, bounds_contain, bounds_intersect}
use atomyx.Orchestra.Bounds.Overlap.{IsOrdered, bounds_intersect_iff}

abbrev natural : Coordinates ℕ
unfolding digits_value
natural = record {
  add = λ a b. a + b;
  halve = λ a. a / 2;
  lt = ltb;
  le = leb;
  zero_value = 0;
  parse = digits_value 0;
  is_nan = λ a. false;
  is_inf = λ a. false;
}

natural-IsOrdered : IsOrdered natural
unfolding natural
natural-IsOrdered = record {
  lt_le = λ a b. ground arith;
  le_refl = λ a. ground arith;
  le_total = λ a b. ground arith;
  le_trans = λ a b c h k. ground arith;
}

abbrev card : Bounds ℕ
card = record { left = 0; top = 0; right = 10; bottom = 10 }

abbrev badge : Bounds ℕ
badge = record { left = 8; top = 8; right = 12; bottom = 12 }

-- White space around a number is dropped, and an empty part is zero.
reads_card : parse_bounds natural (codes " 0,,10 ,10") ≡ some card
unfolding parse_bounds natural
reads_card = refl

bounds_intersect_iff_example : (bounds_intersect natural card badge ≡ true) ↔ (
    (x y : ℕ) × (bounds_contain natural card x y ≡ true)
    × (bounds_contain natural badge x y ≡ true))
unfolding natural
bounds_intersect_iff_example =
    bounds_intersect_iff natural natural-IsOrdered card badge (record { wide = refl; high = refl })
      (record { wide = refl; high = refl })
