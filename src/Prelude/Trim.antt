-- ===== src/Prelude/Trim.antt =====
-- Go's strings.TrimSpace and strings.TrimRight.
use Prim.Native.Nat.{ℕ}
use mathlib.Core.Bool.{Bool, ◌&&◌, ◌||◌}
use mathlib.Core.List.{[], ◌∷◌}
use atomyx.Prelude.Tests.{leb, ◌==◌, if◌then◌else◌}
use atomyx.Prelude.Texts.{Text}

-- unicode.IsSpace
unfoldable pub is_white : ℕ → Bool
is_white c =
    (leb 9 c && leb c 13)
    || c == 32
    || c == 0x85
    || c == 0xA0
    || c == 0x1680
    || (leb 0x2000 c && leb c 0x200A)
    || c == 0x2028
    || c == 0x2029
    || c == 0x202F
    || c == 0x205F
    || c == 0x3000

unfoldable pub trim_left : Text → Text
unfolding is_white
trim_left [] = []
trim_left (c ∷ s) = if is_white c then trim_left s else c ∷ s

-- `strings.TrimRightFunc`
unfoldable pub trim_right_func : (ℕ → Bool) → Text → Text
trim_right_func p [] = []
trim_right_func p (c ∷ s) = elim (trim_right_func p s) [
  | [] ↦ if p c then [] else c ∷ []
  | d ∷ t ↦ c ∷ d ∷ t
]

unfoldable pub trim_space : Text → Text
unfolding trim_left trim_right_func
trim_space s = trim_right_func is_white (trim_left s)
