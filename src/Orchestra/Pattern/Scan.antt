-- ===== src/Orchestra/Pattern/Scan.antt =====
-- core/internal/orchestra/pattern.go, `rejectUnsupportedJSRegexSyntax`: the scan for what RE2 cannot
-- express. A cursor into the bytes of the source is the suffix that begins there; that a byte is
-- skipped since it is escaped, the increment of the index by two, is a flag.
use atomyx.Prelude.{
  ℕ, suc, List, [], ◌∷◌, Option, none, some, Bool, true, false, ◌&&◌, leb, ◌==◌, if◌then◌else◌,
}

pub data Construct : Type 0 where
  backreference : (digit : ℕ) → Construct
  lookahead : Construct
  negative_lookahead : Construct
  lookbehind : Construct
  negative_lookbehind : Construct

-- The construct that an error names, and its position.
abbrev pub Refusal : Type 0
Refusal = Construct × ℕ

-- What follows a backslash.
unfoldable pub digit_at : List ℕ → Option Construct
digit_at [] = none
digit_at (d ∷ s) = if leb b'1' d && leb d b'9' then some (backreference d) else none

unfoldable pub lookbehind_at : List ℕ → Option Construct
lookbehind_at [] = none
lookbehind_at (d ∷ s) =
    if d == b'=' then some lookbehind else if d == b'!' then some negative_lookbehind else none

unfoldable pub lookaround_at : ℕ → List ℕ → Option Construct
unfolding lookbehind_at
lookaround_at m s =
    if m == b'='
    then some lookahead
    else if m == b'!'
    then some negative_lookahead
    else if m == b'<'
    then lookbehind_at s
    else none

-- What follows an opening parenthesis.
unfoldable pub group_at : List ℕ → Option Construct
unfolding lookaround_at
group_at (q ∷ m ∷ s) = if q == b'?' then lookaround_at m s else none
group_at _ = none

-- The cases of the loop's body that return, at a byte and those after it.
unfoldable pub refused : (in_class : Bool) → ℕ → List ℕ → Option Construct
unfolding digit_at group_at
refused in_class c s =
    if c == b'\\'
    then (if in_class then none else digit_at s)
    else if c == b'['
    then none
    else if c == b']'
    then none
    else if in_class
    then none
    else if c == b'('
    then group_at s
    else none

unfoldable pub class_after : (in_class : Bool) → ℕ → Bool
class_after in_class c = if c == b'[' then true else if c == b']' then false else in_class

unfoldable pub refuse_or : ℕ → Option Refusal → Option Construct → Option Refusal
refuse_or position next none = next
refuse_or position next (some construct) = some (construct, position)

unfoldable pub scan : (position : ℕ) (in_class : Bool) (escaped : Bool) → List ℕ → Option Refusal
unfolding refused class_after refuse_or
scan position in_class escaped [] = none
scan position in_class true (c ∷ s) = scan (suc position) in_class false s
scan position in_class false (c ∷ s) =
    refuse_or position (scan (suc position) (class_after in_class c) (c == b'\\') s)
      (refused in_class c s)

unfoldable pub reject_unsupported_js_regex_syntax : List ℕ → Option Refusal
unfolding scan
reject_unsupported_js_regex_syntax source = scan 0 false false source
