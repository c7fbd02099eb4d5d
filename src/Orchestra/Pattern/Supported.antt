-- ===== src/Orchestra/Pattern/Supported.antt =====
-- core/internal/orchestra/pattern.go: a source is compiled only if it holds nothing unsupported.
use atomyx.Prelude.{
  ℕ, suc, ◌+◌, ◌≤◌, ◌≡◌, refl, sym, ap, subst, List, [], ◌∷◌, Option, none, some, Bool, true, false,
  inl, inr, ◌==◌, ==_iff, Text, arith, Bool-cases, Option-cases,
}
use atomyx.Orchestra.Pattern.Scan.{
  Construct, Refusal, refused, class_after, refuse_or, scan, reject_unsupported_js_regex_syntax,
}
use atomyx.Orchestra.Pattern.Occurs.{
  Reads, done, escape, open_class, close_class, plain, Found, Occurs, RefusedBy, scan-RefusedBy,
}
use atomyx.Orchestra.Pattern.Written.{IsWritten, refused-IsWritten, inside-refused}
use atomyx.Orchestra.Pattern.{Libraries, unsupported, compile_checked, compile_js_regex}

-- What stands before a position from which the scan goes on: with an escaped byte first, behind its
-- backslash.
abbrev Before : (in_class escaped : Bool) → List ℕ → Type 0
Before k true before = Reads k (b'\\' ∷ before) false
Before k false before = Reads k before false

abbrev Ahead : (List ℕ → Type 0) → ℕ → List ℕ → Construct → ℕ → Type 0
Ahead B position s construct j = (n : ℕ) × (j ≡ position + n) × Found B s construct n

push :
    (B C : List ℕ → Type 0) (position j c : ℕ) (s : List ℕ) (construct : Construct)
    → ((before : List ℕ) → C before → B (c ∷ before))
    → Ahead C (suc position) s construct j
    → Ahead B position (c ∷ s) construct j
push B C position j c s construct onto (n, e, found) = (
  suc n,
  omega (arith, e),
  record {
    before = c ∷ found.before;
    after = found.after;
    is_source = ap (λ s. c ∷ s) found.is_source;
    outside = onto found.before found.outside;
    at = ap suc found.at;
    is_construct = found.is_construct;
  },
)

-- One byte more before the scan.
Before-byte :
    (k : Bool) (c : ℕ) (before : List ℕ)
    → Before (class_after k c) (c == b'\\') before
    → Reads k (c ∷ before) false
unfolding class_after
Before-byte k c before = elim (Bool-cases (c == b'\\')) [
  | inl y ↦
      let same : c ≡ b'\\' = (==_iff c b'\\').0 y in
      subst (λ c. Before (class_after k c) (c == b'\\') before → Reads k (c ∷ before) false)
        (sym same) (λ h. h)
  | inr n ↦ rw n (elim (Bool-cases (c == b'[')) [
    | inl y ↦
        rw y
          (λ h. subst (λ c. Reads k (c ∷ before) false) (sym ((==_iff c b'[').0 y)) (open_class h))
    | inr n' ↦ rw n' (elim (Bool-cases (c == b']')) [
      | inl y ↦
          rw y (λ h.
            subst (λ c. Reads k (c ∷ before) false) (sym ((==_iff c b']').0 y)) (close_class h))
      | inr n'' ↦
          rw n'' (λ h. plain (ground (arith, n)) (ground (arith, n')) (ground (arith, n'')) h)
    ])
  ])
]

here :
    (k : Bool) (c : ℕ) (s : List ℕ) (position : ℕ) (construct : Construct)
    → refused k c s ≡ some construct
    → Ahead (Before k false) position (c ∷ s) construct position
here true c s position construct e = ground (arith, e, inside-refused c s)
here false c s position construct e =
    let ((after, is_source), is_construct) = subst (IsWritten (c ∷ s)) e (refused-IsWritten c s) in
    (
      0,
      omega arith,
      record {
        before = [];
        after = after;
        is_source = is_source;
        outside = done;
        at = refl;
        is_construct = is_construct;
      },
    )

scan-Ahead :
    (s : List ℕ) (k e : Bool) (position : ℕ) (construct : Construct) (j : ℕ)
    → scan position k e s ≡ some (construct, j)
    → Ahead (Before k e) position s construct j
unfolding scan refuse_or
scan-Ahead [] k e position construct j h = ground (arith, h)
scan-Ahead (c ∷ s) k true position construct j h =
    push (Before k true) (Before k false) position j c s construct (λ before r. escape r)
      (scan-Ahead s k false (suc position) construct j h)
scan-Ahead (c ∷ s) k false position construct j h =
    let rest = scan (suc position) (class_after k c) (c == b'\\') s in
    let here_or_later : (o : Option Construct)
        → refused k c s ≡ o
        → refuse_or position rest o ≡ some (construct, j) =
      λ o e. subst (λ o. refuse_or position rest o ≡ some (construct, j)) e h in
    elim (Option-cases (refused k c s)) [
      | inl n ↦
          push (Before k false) (Before (class_after k c) (c == b'\\')) position j c s construct
            (Before-byte k c)
            (scan-Ahead s (class_after k c) (c == b'\\') (suc position) construct j
              (here_or_later none n))
      | inr (r, y) ↦
          let found : some (r, position) ≡ some (construct, j) = here_or_later (some r) y in
          let same : r ≡ construct = cc found in
          let place : position ≡ j = cc found in
          subst (λ j. Ahead (Before k false) position (c ∷ s) construct j) place
            (here k c s position construct (subst (λ r. refused k c s ≡ some r) same y))
    ]

-- A construct that is refused occurs at the position told.
pub scan-Occurs : (s : List ℕ) (r : Refusal) → scan 0 false false s ≡ some r → Occurs s r.0 r.1
scan-Occurs s r h =
    let (n, e, found) = scan-Ahead s false false 0 r.0 r.1 h in
    subst (Occurs s r.0) (omega (arith, e)) found

Occurs-RefusedBy :
    (s : List ℕ) (construct : Construct) (position : ℕ)
    → Occurs s construct position
    → RefusedBy position (scan 0 false false s)
Occurs-RefusedBy s construct position o =
    let (r, e, h) = scan-RefusedBy 0 construct o.after o.is_construct o.outside in
    subst (λ s. RefusedBy position (scan 0 false false s)) (sym o.is_source)
      (r, e, omega (arith, h, o.at))

-- Where a construct that is not supported stands in the source, outside every class, the source is
-- refused, for one that stands there at the same position or before.
pub compile_js_regex-refuses :
    {Json E : Type 0} (libs : Libraries Json E) (source flags : Text) (construct : Construct)
    (position : ℕ)
    → Occurs (libs.bytes source) construct position
    → (r : Refusal) × (compile_js_regex libs source flags ≡ inl (unsupported source r))
      × Occurs (libs.bytes source) r.0 r.1
      × (r.1 ≤ position)
unfolding compile_js_regex compile_checked reject_unsupported_js_regex_syntax
compile_js_regex-refuses libs source flags construct position o =
    let (r, e, le) = Occurs-RefusedBy (libs.bytes source) construct position o in
    (r, ap (compile_checked libs source flags) e, scan-Occurs (libs.bytes source) r e, le)
