-- ===== src/Orchestra/Pattern/Occurs.antt =====
-- core/internal/orchestra/pattern.go: the sources that are refused, by how a regular expression is
-- read.
use atomyx.Prelude.{
  ℕ, suc, ◌+◌, ◌≤◌, ◌≡◌, refl, ◌≢◌, List, [], ◌∷◌, ◌++◌, Option, none, some, Bool, true, false,
  ◌==◌, codes, length, arith,
}
use atomyx.Orchestra.Pattern.Scan.{
  Construct, backreference, lookahead, negative_lookahead, lookbehind, negative_lookbehind, Refusal,
  digit_at, lookbehind_at, lookaround_at, group_at, refused, class_after, refuse_or, scan,
}

-- How a construct is written.
unfoldable pub written : Construct → List ℕ
written (backreference d) = b'\\' ∷ d ∷ []
written lookahead = codes "(?="
written negative_lookahead = codes "(?!"
written lookbehind = codes "(?<="
written negative_lookbehind = codes "(?<!"

abbrev pub IsConstruct : Construct → Type 0
IsConstruct (backreference d) = (b'1' ≤ d) × (d ≤ b'9')
IsConstruct _ = Unit

-- `Reads k s l`: the bytes `s`, read from inside a class or outside one as `k` says, are whole
-- units, an escaped byte and its backslash being one, and end inside a class or outside one as `l`
-- says.
pub data Reads : Bool → List ℕ → Bool → Type 0 where
  done : {k : Bool} → Reads k [] k
  escape : {k l : Bool} {c : ℕ} {s : List ℕ} → Reads k s l → Reads k (b'\\' ∷ c ∷ s) l
  open_class : {k l : Bool} {s : List ℕ} → Reads true s l → Reads k (b'[' ∷ s) l
  close_class : {k l : Bool} {s : List ℕ} → Reads false s l → Reads k (b']' ∷ s) l
  plain :
      {k l : Bool} {c : ℕ} {s : List ℕ}
      → c ≢ b'\\'
      → c ≢ b'['
      → c ≢ b']'
      → Reads k s l
      → Reads k (c ∷ s) l

-- A construct stands outside every class, behind `position` bytes.
pub record Found (Before : List ℕ → Type 0) (source : List ℕ) (construct : Construct) (position : ℕ)
    : Type 0 where
  pub before : List ℕ
  pub after : List ℕ
  pub is_source : source ≡ before ++ (written construct ++ after)
  pub outside : Before before
  pub at : position ≡ length before
  pub is_construct : IsConstruct construct

abbrev pub Occurs : List ℕ → Construct → ℕ → Type 0
Occurs = Found (λ before. Reads false before false)

refused_written :
    (construct : Construct) (after : List ℕ)
    → IsConstruct construct
    → (position : ℕ)
    → scan position false false (written construct ++ after) ≡ some (construct, position)
unfolding scan refused written digit_at group_at lookaround_at lookbehind_at refuse_or
refused_written (backreference d) after h position = ground (arith, h)
refused_written lookahead after h position = refl
refused_written negative_lookahead after h position = refl
refused_written lookbehind after h position = refl
refused_written negative_lookbehind after h position = refl

-- Refused at a position up to a bound.
abbrev pub RefusedBy : ℕ → Option Refusal → Type 0
RefusedBy bound o = (r : Refusal) × (o ≡ some r) × (r.1 ≤ bound)

later_bound :
    {bound higher : ℕ} {o : Option Refusal}
    → bound ≤ higher
    → RefusedBy bound o
    → RefusedBy higher o
later_bound le (r, e, h) = (r, e, omega (arith, le, h))

sooner :
    (position bound : ℕ) (next : Option Refusal) (here : Option Construct)
    → position ≤ bound
    → RefusedBy bound next
    → RefusedBy bound (refuse_or position next here)
unfolding refuse_or
sooner position bound next none h later = later
sooner position bound next (some c) h later = ((c, position), refl, h)

pub scan-RefusedBy :
    {k : Bool} {before : List ℕ} (position : ℕ) (construct : Construct) (after : List ℕ)
    → IsConstruct construct
    → Reads k before false
    → RefusedBy
        (position + length before)
        (scan position k false (before ++ (written construct ++ after)))
unfolding scan class_after
scan-RefusedBy position construct after h done =
    ((construct, position), refused_written construct after h position, omega arith)
scan-RefusedBy position construct after h (escape {c} {s} t) =
    let rest = scan-RefusedBy (suc (suc position)) construct after h t in
    sooner position _ _ _ (omega arith) (later_bound (omega arith) rest)
scan-RefusedBy position construct after h (open_class t) =
    later_bound (omega arith) (scan-RefusedBy (suc position) construct after h t)
scan-RefusedBy position construct after h (close_class t) =
    later_bound (omega arith) (scan-RefusedBy (suc position) construct after h t)
scan-RefusedBy {k} position construct after h (plain {c} {s} x y z t) =
    let same : class_after k c ≡ k = ground (arith, y, z) in
    let unescaped : (c == b'\\') ≡ false = ground (arith, x) in
    let rest = scan-RefusedBy (suc position) construct after h t in
    rw (same, unescaped) (sooner position _ _ _ (omega arith) (later_bound (omega arith) rest))
