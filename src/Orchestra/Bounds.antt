-- ===== src/Orchestra/Bounds.antt =====
-- core/internal/orchestra/bounds.go, with `Bounds` and `Point` of core/internal/wire/shapes.go. The
-- coordinates are float64, of which the operations that the code calls are a parameter.
pub mod Overlap
pub mod Split
mod Samples
use atomyx.Prelude.{
  trim_space, ℕ, List, [], ◌∷◌, ◌++◌, Option, none, some, Bool, true, false, not, ◌&&◌, ◌||◌, Text,
  codes, text_eq, leb, ◌==◌, if◌then◌else◌,
}

pub record Bounds (A : Type 0) : Type 0 where
  pub left : A
  pub top : A
  pub right : A
  pub bottom : A

pub record Point (A : Type 0) : Type 0 where
  pub x : A
  pub y : A

-- `parse` is strconv.ParseFloat, `none` its error; `halve` divides by two.
pub record Coordinates (A : Type 0) : Type 0 where
  pub add : A → A → A
  pub halve : A → A
  pub lt : A → A → Bool
  pub le : A → A → Bool
  pub zero_value : A
  pub parse : Text → Option A
  pub is_nan : A → Bool
  pub is_inf : A → Bool

-- `strings.Split` at commas: the parts between them, at least one.
unfoldable pub split_onto : Text → Text → List Text
split_onto part [] = part ∷ []
split_onto part (c ∷ s) =
    let here = split_onto (part ++ c ∷ []) s in
    let next = split_onto [] s in if c == b',' then part ∷ next else here

unfoldable pub split : Text → List Text
unfolding split_onto
split s = split_onto [] s

module _ {A : Type 0} (ops : Coordinates A) where
  unfoldable pub finite : Option A → Option A
  finite none = none
  finite (some v) = if ops.is_nan v || ops.is_inf v then none else some v

  unfoldable pub parse_trimmed : Text → Option A
  unfolding finite
  parse_trimmed [] = some ops.zero_value
  parse_trimmed (c ∷ s) = finite (ops.parse (c ∷ s))

  unfoldable pub parse_js_number : Text → Option A
  unfolding trim_space parse_trimmed
  parse_js_number raw = parse_trimmed (trim_space raw)

  unfoldable pub bounds_of : Option A → Option A → Option A → Option A → Option (Bounds A)
  bounds_of none t r b = none
  bounds_of (some l) none r b = none
  bounds_of (some l) (some t) none b = none
  bounds_of (some l) (some t) (some r) none = none
  bounds_of (some l) (some t) (some r) (some b) =
      some (record { left = l; top = t; right = r; bottom = b })

  unfoldable pub parse_parts : List Text → Option (Bounds A)
  unfolding parse_js_number bounds_of
  parse_parts (l ∷ t ∷ r ∷ b ∷ []) =
      bounds_of (parse_js_number l) (parse_js_number t) (parse_js_number r) (parse_js_number b)
  parse_parts _ = none

  unfoldable pub parse_bounds : Text → Option (Bounds A)
  unfolding split parse_parts
  parse_bounds [] = none
  parse_bounds (c ∷ s) = parse_parts (split (c ∷ s))

  unfoldable pub bounds_center : Bounds A → Point A
  bounds_center b = record {
    x = ops.halve (ops.add b.left b.right);
    y = ops.halve (ops.add b.top b.bottom);
  }

  unfoldable pub bounds_contain : Bounds A → A → A → Bool
  bounds_contain b x y = ops.le b.left x && ops.lt x b.right && ops.le b.top y && ops.lt y b.bottom

  unfoldable pub bounds_intersect : Bounds A → Bounds A → Bool
  bounds_intersect a b = not (
      ops.le a.right b.left
      || ops.le b.right a.left
      || ops.le a.bottom b.top
      || ops.le b.bottom a.top)

  -- `none` is the error of an unknown anchor.
  unfoldable pub bounds_anchor : Bounds A → Text → Option (Point A)
  unfolding bounds_center text_eq
  bounds_anchor b anchor =
      let mid_x = ops.halve (ops.add b.left b.right) in
      let mid_y = ops.halve (ops.add b.top b.bottom) in
      if text_eq anchor (codes "center")
      then some (bounds_center b)
      else if text_eq anchor (codes "topLeft")
      then some (record { x = b.left; y = b.top })
      else if text_eq anchor (codes "topRight")
      then some (record { x = b.right; y = b.top })
      else if text_eq anchor (codes "bottomLeft")
      then some (record { x = b.left; y = b.bottom })
      else if text_eq anchor (codes "bottomRight")
      then some (record { x = b.right; y = b.bottom })
      else if text_eq anchor (codes "top")
      then some (record { x = mid_x; y = b.top })
      else if text_eq anchor (codes "bottom")
      then some (record { x = mid_x; y = b.bottom })
      else if text_eq anchor (codes "left")
      then some (record { x = b.left; y = mid_y })
      else if text_eq anchor (codes "right")
      then some (record { x = b.right; y = mid_y })
      else none
