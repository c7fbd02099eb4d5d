-- ===== src/Orchestra/Pattern/Written.antt =====
-- core/internal/orchestra/pattern.go: what the scan's tests find is written at the byte they stand at.
use atomyx.Prelude.{
  ℕ, ◌≡◌, refl, sym, ap, subst, List, [], ◌∷◌, ◌++◌, Option, none, some, Bool, true, false, ◌&&◌,
  leb, ◌==◌, ==_iff, if◌then◌else◌, codes, arith,
}
use atomyx.Orchestra.Pattern.Scan.{
  Construct, digit_at, lookbehind_at, lookaround_at, group_at, refused,
}
use atomyx.Orchestra.Pattern.Occurs.{written, IsConstruct}

-- A construct that a test finds at some bytes is written there.
abbrev pub IsWritten : List ℕ → Option Construct → Type 0
IsWritten bytes none = Unit
IsWritten bytes (some construct) =
    ((after : List ℕ) × (bytes ≡ written construct ++ after)) × IsConstruct construct

either :
    (test : Bool) (bytes : List ℕ) (o p : Option Construct)
    → (test ≡ true → IsWritten bytes o)
    → IsWritten bytes p
    → IsWritten bytes (if test then o else p)
either true bytes o p f g = f refl
either false bytes o p f g = g

-- The byte that a test compares is the one that stands there.
at_byte : (d x : ℕ) (before s : List ℕ) → (d == x) ≡ true → before ++ d ∷ s ≡ before ++ x ∷ s
at_byte d x before s h = ap (λ d. before ++ d ∷ s) ((==_iff d x).0 h)

digit_at-IsWritten : (s : List ℕ) → IsWritten (b'\\' ∷ s) (digit_at s)
unfolding digit_at written
digit_at-IsWritten [] = tt
digit_at-IsWritten (d ∷ s) =
    either (leb b'1' d && leb d b'9') _ _ _ (λ h. ((s, refl), ground (arith, h))) tt

lookbehind_at-IsWritten : (s : List ℕ) → IsWritten (codes "(?<" ++ s) (lookbehind_at s)
unfolding lookbehind_at written
lookbehind_at-IsWritten [] = tt
lookbehind_at-IsWritten (d ∷ s) =
    either (d == b'=') _ _ _ (λ h. ((s, at_byte d b'=' (codes "(?<") s h), tt))
      (either (d == b'!') _ _ _ (λ h. ((s, at_byte d b'!' (codes "(?<") s h), tt)) tt)

lookaround_at-IsWritten : (m : ℕ) (s : List ℕ) → IsWritten (codes "(?" ++ m ∷ s) (lookaround_at m s)
unfolding lookaround_at written
lookaround_at-IsWritten m s =
    either (m == b'=') _ _ _ (λ h. ((s, at_byte m b'=' (codes "(?") s h), tt))
      (either (m == b'!') _ _ _ (λ h. ((s, at_byte m b'!' (codes "(?") s h), tt))
        (either (m == b'<') _ _ _
          (λ h.
            subst (λ b. IsWritten b (lookbehind_at s)) (sym (at_byte m b'<' (codes "(?") s h))
              (lookbehind_at-IsWritten s))
          tt))

group_at-IsWritten : (s : List ℕ) → IsWritten (b'(' ∷ s) (group_at s)
unfolding group_at
group_at-IsWritten [] = tt
group_at-IsWritten (q ∷ []) = tt
group_at-IsWritten (q ∷ m ∷ s) =
    either (q == b'?') _ _ _
      (λ h.
        subst (λ b. IsWritten b (lookaround_at m s)) (sym (at_byte q b'?' (codes "(") (m ∷ s) h))
          (lookaround_at-IsWritten m s))
      tt

pub refused-IsWritten : (c : ℕ) (s : List ℕ) → IsWritten (c ∷ s) (refused false c s)
unfolding refused
refused-IsWritten c s =
    either (c == b'\\') _ _ _
      (λ h.
        subst (λ b. IsWritten b (digit_at s)) (sym (at_byte c b'\\' [] s h)) (digit_at-IsWritten s))
      (either (c == b'[') _ _ _ (λ h. tt)
        (either (c == b']') _ _ _ (λ h. tt)
          (either (c == b'(') _ _ _
            (λ h.
              subst (λ b. IsWritten b (group_at s)) (sym (at_byte c b'(' [] s h))
                (group_at-IsWritten s))
            tt)))

pub inside-refused : (c : ℕ) (s : List ℕ) → refused true c s ≡ none
unfolding refused
inside-refused c s = ground arith
