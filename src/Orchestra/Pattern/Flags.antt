-- ===== src/Orchestra/Pattern/Flags.antt =====
-- core/internal/orchestra/pattern.go: the flags that are kept, in front of a source that is scanned.
use atomyx.Prelude.{
  ℕ, suc, ◌<◌, ◌≡◌, refl, ◌∙◌, ap₂, subst, List, [], ◌∷◌, ◌++◌, Option, none, some, Bool, true,
  false, inl, inr, Text, ◌==◌, arith, All, All-append, Bool-cases,
}
use atomyx.Expression.Utf16.{IsScalar}
use atomyx.Orchestra.Pattern.Scan.{
  Construct, Refusal, group_at, lookaround_at, refused, class_after, refuse_or, scan,
}
use atomyx.Orchestra.Pattern.{is_kept, go_flags}

abbrev pub IsKept : ℕ → Type 0
IsKept f = is_kept f ≡ true

pub go_flags-All :
    (kept flags out : Text) → All IsKept kept → go_flags kept flags ≡ inr out → All IsKept out
unfolding go_flags
go_flags-All kept [] out h e = subst (All IsKept) (cc e) h
go_flags-All kept (f ∷ flags) out h e = elim (Bool-cases (is_kept f)) [
  | inl y ↦
      go_flags-All (kept ++ f ∷ []) flags out (All-append IsKept kept (f ∷ []) h (y, tt))
        (ground (arith, e, y))
  | inr n ↦ go_flags-All kept flags out h (ground (arith, e, n))
]

-- A byte at which the scan stays as it is.
scan_past :
    (f : ℕ) (s : List ℕ) (position : ℕ)
    → IsKept f
    → scan position false false (f ∷ s) ≡ scan (suc position) false false s
unfolding is_kept scan refused class_after refuse_or
scan_past f s position h = ground (arith, h)

refuse_or-none :
    (position : ℕ) (next : Option Refusal) (o : Option Construct)
    → refuse_or position next o ≡ none
    → (next ≡ none) × (o ≡ none)
unfolding refuse_or
refuse_or-none position next none h = (h, refl)
refuse_or-none position next (some c) h = ground (arith, h)

scan_shift : (s : List ℕ) (k e : Bool) (i j : ℕ) → scan i k e s ≡ none → scan j k e s ≡ none
unfolding scan refuse_or
scan_shift [] k e i j h = refl
scan_shift (c ∷ s) k true i j h = scan_shift s k false (suc i) (suc j) h
scan_shift (c ∷ s) k false i j h =
    let (next, o) = refuse_or-none i _ _ h in
    ap₂ (refuse_or j) (scan_shift s (class_after k c) (c == b'\\') (suc i) (suc j) next) o

-- The flags in front of a source, in the bytes.
unfoldable pub flagged : Text → List ℕ → List ℕ
flagged [] s = s
flagged (f ∷ flags) s = b'(' ∷ b'?' ∷ f ∷ (flags ++ b')' ∷ s)

scan_flags :
    (flags : Text) (s : List ℕ) (i : ℕ)
    → All IsKept flags
    → scan 0 false false s ≡ none
    → scan i false false (flags ++ b')' ∷ s) ≡ none
unfolding scan refuse_or class_after refused
scan_flags [] s i h e = scan_shift s false false 0 (suc i) e
scan_flags (f ∷ flags) s i (h, k) e =
    scan_past f (flags ++ b')' ∷ s) i h ∙ scan_flags flags s (suc i) k e

no_lookaround : (f : ℕ) (s : List ℕ) → IsKept f → lookaround_at f s ≡ none
unfolding is_kept lookaround_at
no_lookaround f s h = ground (arith, h)

pub scan-flagged :
    (flags : Text) (s : List ℕ)
    → All IsKept flags
    → scan 0 false false s ≡ none
    → scan 0 false false (flagged flags s) ≡ none
unfolding scan refuse_or class_after refused flagged group_at
scan-flagged [] s h e = e
scan-flagged (f ∷ flags) s (h, k) e =
    ap₂ (refuse_or 0) (scan_flags (f ∷ flags) s 2 (h, k) e) (no_lookaround f (flags ++ b')' ∷ s) h)

pub kept_small : (f : ℕ) → IsKept f → f < 128
unfolding is_kept
kept_small f h = ground (arith, h)

pub kept-IsScalar : (f : ℕ) → IsKept f → IsScalar f
kept-IsScalar f h = inl (omega (arith, kept_small f h))
