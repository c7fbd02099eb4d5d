-- ===== src/Orchestra/Fixtures.antt =====
-- Coordinates and states of elements that the tests share.
use atomyx.Prelude.{ℕ, ◌+◌, ◌/◌, ltb, leb, false, none}
use atomyx.Expression.Decimal.{digits_value}
use atomyx.Wire.{States}
use atomyx.Orchestra.Bounds.{Coordinates}

unfoldable pub pixels : Coordinates ℕ
unfolding digits_value
pixels = record {
  add = λ a b. a + b;
  halve = λ a. a / 2;
  lt = ltb;
  le = leb;
  zero_value = 0;
  parse = digits_value 0;
  is_nan = λ a. false;
  is_inf = λ a. false;
}

abbrev pub inert : States
inert = record {
  clickable = none;
  enabled = none;
  focused = none;
  selected = none;
  checked = none;
  visible = none;
}
