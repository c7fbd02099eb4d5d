-- ===== src/Prelude/Texts.antt =====
-- Texts as lists of Unicode code points, which is what the program's `[]rune(s)` yields.
use Prim.Native.Nat.{ℕ}
use Prim.Native.Char.{code}
use Prim.Native.String.{String}
use mathlib.Core.Path.{◌≡◌, refl}
use mathlib.Core.Logic.{◌↔◌}
use mathlib.Core.Bool.{Bool, true, false, ◌&&◌, ◌||◌}
use mathlib.Core.List.{List, [], ◌∷◌}
use native.Mathlib.Omega.{arith}
use atomyx.Prelude.Tests.{◌==◌, if◌then◌else◌}

abbrev pub Text : Type 0
Text = List ℕ

abbrev pub codes : String → Text
codes String.[] = []
codes (String.◌∷◌ c s) = code c ∷ codes s

unfoldable pub text_eq : Text → Text → Bool
text_eq [] [] = true
text_eq [] (d ∷ t) = false
text_eq (c ∷ s) [] = false
text_eq (c ∷ s) (d ∷ t) = c == d && text_eq s t

text_eq→eq : (s t : Text) → text_eq s t ≡ true → s ≡ t
unfolding text_eq
text_eq→eq [] [] h = refl
text_eq→eq [] (d ∷ t) h = ground arith
text_eq→eq (c ∷ s) [] h = ground arith
text_eq→eq (c ∷ s) (d ∷ t) h = ground (arith, text_eq→eq s t)

pub text_eq_refl : (s : Text) → text_eq s s ≡ true
unfolding text_eq
text_eq_refl [] = refl
text_eq_refl (c ∷ s) = ground (arith, text_eq_refl s)

pub text_eq_iff : (s t : Text) → (text_eq s t ≡ true) ↔ (s ≡ t)
text_eq_iff s t = (text_eq→eq s t, λ e. rw e (text_eq_refl t))

-- Whether a set of texts, kept as a list, has a text.
unfoldable pub has_text : Text → List Text → Bool
unfolding text_eq
has_text s [] = false
has_text s (t ∷ ts) = text_eq s t || has_text s ts

unfoldable pub delete_text : Text → List Text → List Text
unfolding text_eq
delete_text s [] = []
delete_text s (t ∷ ts) = let rest = delete_text s ts in if text_eq s t then rest else t ∷ rest

pub delete_text_absent : (s : Text) (ts : List Text) → has_text s ts ≡ false → delete_text s ts ≡ ts
unfolding has_text delete_text
delete_text_absent s [] h = refl
delete_text_absent s (t ∷ ts) h = ground (arith, delete_text_absent s ts)

pub delete_text_head :
    (s : Text) (ts : List Text) → has_text s ts ≡ false → delete_text s (s ∷ ts) ≡ ts
unfolding delete_text
delete_text_head s ts h = rw (text_eq_refl s) (delete_text_absent s ts h)

pub has_text_head : (s : Text) (ts : List Text) → has_text s (s ∷ ts) ≡ true
unfolding has_text
has_text_head s ts = rw (text_eq_refl s) refl

pub has_text_later :
    (s t : Text) (ts : List Text) → has_text s ts ≡ true → has_text s (t ∷ ts) ≡ true
unfolding has_text
has_text_later s t ts h = ground (arith, h)
