-- ===== src/Expression/Float.antt =====
-- The float64 that core/internal/script/expression computes with: a type `A` with Go's operations
-- on it, those of math and strconv included. The model takes it as a parameter.
use atomyx.Prelude.{Bool, Text}

pub record FloatOps (A : Type 0) : Type 0 where
  pub add : A → A → A
  pub sub : A → A → A
  pub mul : A → A → A
  pub div : A → A → A
  -- math.Mod
  pub fmod : A → A → A
  pub neg : A → A
  pub lt : A → A → Bool
  pub le : A → A → Bool
  pub eq : A → A → Bool
  -- the constant 0
  pub zero_value : A
  -- the value of strconv.ParseFloat(s, 64), its error dropped
  pub parse_float : Text → A
  pub is_nan : A → Bool
  pub is_pos_inf : A → Bool
  pub is_neg_inf : A → Bool
  -- strconv.FormatFloat(f, 'e', -1, 64) and strconv.FormatFloat(f, 'f', -1, 64)
  pub format_e : A → Text
  pub format_f : A → Text
