-- ===== src/Orchestra/AppId.antt =====
-- core/internal/orchestra/app_id.go: the check that an app id passes before it reaches an adapter.
use atomyx.Prelude.{
  ℕ, ◌+◌, ◌≤◌, ◌≡◌, ◌≢◌, refl, [], ◌∷◌, Option, none, some, Bool, true, false, ◌&&◌, ◌||◌, Text,
  ltb, leb, ◌==◌, if◌then◌else◌, Bool-cases, inl, inr, All, arith, le→ltb, length, ◌↔◌,
}

-- What each message says; all have the code CodeInvalidAppID.
pub data AppIdError : Type 0 where
  empty : AppIdError
  too_long : AppIdError
  disallowed_character : ℕ → AppIdError

abbrev pub max_app_id_length : ℕ
max_app_id_length = 255

abbrev pub between : ℕ → ℕ → ℕ → Bool
between a b r = leb a r && leb r b

unfoldable pub is_valid_app_id_rune : ℕ → Bool
is_valid_app_id_rune r =
    between b'a' b'z' r
    || between b'A' b'Z' r
    || between b'0' b'9' r
    || r == b'.'
    || r == b'_'
    || r == b'-'

-- `len` counts bytes of UTF-8.
unfoldable pub utf8_width : ℕ → ℕ
utf8_width r = if ltb r 128 then 1 else (if ltb r 2048 then 2 else (if ltb r 65536 then 3 else 4))

unfoldable pub utf8_length : Text → ℕ
unfolding utf8_width
utf8_length [] = 0
utf8_length (r ∷ s) = utf8_width r + utf8_length s

unfoldable pub first_disallowed : Text → Option AppIdError
unfolding is_valid_app_id_rune
first_disallowed [] = none
first_disallowed (r ∷ s) =
    if is_valid_app_id_rune r then first_disallowed s else some (disallowed_character r)

unfoldable pub validate_app_id : Text → Option AppIdError
unfolding utf8_length first_disallowed
validate_app_id [] = some empty
validate_app_id (r ∷ s) =
    if ltb max_app_id_length (utf8_length (r ∷ s)) then some too_long else first_disallowed (r ∷ s)

-- The characters of package names and bundle ids.
pub data IsAppIdRune (r : ℕ) : Type 0 where
  lower : b'a' ≤ r → r ≤ b'z' → IsAppIdRune r
  upper : b'A' ≤ r → r ≤ b'Z' → IsAppIdRune r
  digit : b'0' ≤ r → r ≤ b'9' → IsAppIdRune r
  dot : r ≡ b'.' → IsAppIdRune r
  underscore : r ≡ b'_' → IsAppIdRune r
  hyphen : r ≡ b'-' → IsAppIdRune r

is_valid_app_id_rune-IsAppIdRune : (r : ℕ) → is_valid_app_id_rune r ≡ true → IsAppIdRune r
unfolding is_valid_app_id_rune
is_valid_app_id_rune-IsAppIdRune r h = ground arith

IsAppIdRune-is_valid_app_id_rune : (r : ℕ) → IsAppIdRune r → is_valid_app_id_rune r ≡ true
unfolding is_valid_app_id_rune
IsAppIdRune-is_valid_app_id_rune r (lower h k) = ground arith
IsAppIdRune-is_valid_app_id_rune r (upper h k) = ground arith
IsAppIdRune-is_valid_app_id_rune r (digit h k) = ground arith
IsAppIdRune-is_valid_app_id_rune r (dot h) = ground arith
IsAppIdRune-is_valid_app_id_rune r (underscore h) = ground arith
IsAppIdRune-is_valid_app_id_rune r (hyphen h) = ground arith

IsAppIdRune-utf8_width : (r : ℕ) → IsAppIdRune r → utf8_width r ≡ 1
unfolding utf8_width
IsAppIdRune-utf8_width r (lower h k) = ground arith
IsAppIdRune-utf8_width r (upper h k) = ground arith
IsAppIdRune-utf8_width r (digit h k) = ground arith
IsAppIdRune-utf8_width r (dot h) = ground arith
IsAppIdRune-utf8_width r (underscore h) = ground arith
IsAppIdRune-utf8_width r (hyphen h) = ground arith

utf8_length-length : (s : Text) → All IsAppIdRune s → utf8_length s ≡ length s
unfolding utf8_length
utf8_length-length [] h = refl
utf8_length-length (r ∷ s) (h, hs) =
    omega (arith, IsAppIdRune-utf8_width r h, utf8_length-length s hs)

first_disallowed-valid :
    (r : ℕ) (s : Text)
    → is_valid_app_id_rune r ≡ true
    → first_disallowed (r ∷ s) ≡ none
    → first_disallowed s ≡ none
unfolding first_disallowed
first_disallowed-valid r s e h = ground arith

first_disallowed-invalid :
    (r : ℕ) (s : Text)
    → is_valid_app_id_rune r ≡ false
    → first_disallowed (r ∷ s) ≡ some (disallowed_character r)
unfolding first_disallowed
first_disallowed-invalid r s e = rw (e, first_disallowed) refl

first_disallowed-none : (s : Text) → first_disallowed s ≡ none → All IsAppIdRune s
unfolding first_disallowed
first_disallowed-none [] h = tt
first_disallowed-none (r ∷ s) h = elim (Bool-cases (is_valid_app_id_rune r)) [
  | inl e ↦ (
    is_valid_app_id_rune-IsAppIdRune r e,
    first_disallowed-none s (first_disallowed-valid r s e h),
  )
  | inr e ↦ grind (arith, first_disallowed-invalid r s e, h)
]

All-first_disallowed : (s : Text) → All IsAppIdRune s → first_disallowed s ≡ none
unfolding first_disallowed
All-first_disallowed [] h = refl
All-first_disallowed (r ∷ s) (h, hs) =
    rw (IsAppIdRune-is_valid_app_id_rune r h) (All-first_disallowed s hs)

accepted-cons :
    (r : ℕ) (s : Text)
    → validate_app_id (r ∷ s) ≡ none
    → (utf8_length (r ∷ s) ≤ max_app_id_length) × (first_disallowed (r ∷ s) ≡ none)
unfolding validate_app_id
accepted-cons r s h = elim (Bool-cases (ltb max_app_id_length (utf8_length (r ∷ s)))) [
  | inl e ↦ ground arith
  | inr e ↦ ground arith
]

cons-accepted :
    (r : ℕ) (s : Text)
    → utf8_length (r ∷ s) ≤ max_app_id_length
    → first_disallowed (r ∷ s) ≡ none
    → validate_app_id (r ∷ s) ≡ none
unfolding validate_app_id
cons-accepted r s h g = rw (le→ltb (utf8_length (r ∷ s)) max_app_id_length h, validate_app_id) g

-- An app id is accepted exactly when it is not empty, has at most 255 characters, and each is an
-- ASCII letter, a digit, a dot, an underscore or a hyphen.
pub validate_app_id_iff :
    (s : Text)
    → (validate_app_id s ≡ none) ↔ ((s ≢ []) × (length s ≤ max_app_id_length) × All IsAppIdRune s)
unfolding validate_app_id
validate_app_id_iff [] = ((λ h. grind arith), λ h. ground arith)
validate_app_id_iff (r ∷ s) = (
  (λ h.
      let (short, clean) = accepted-cons r s h in
      let valid = first_disallowed-none (r ∷ s) clean in
      ((λ e. grind arith), omega (arith, short, utf8_length-length (r ∷ s) valid), valid)),
  λ h.
      cons-accepted r s (omega (arith, h.1, utf8_length-length (r ∷ s) h.2))
        (All-first_disallowed (r ∷ s) h.2),
)
