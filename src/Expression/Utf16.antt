-- ===== src/Expression/Utf16.antt =====
-- The UTF-16 conversions of Go's unicode/utf16 that core/internal/script/expression/tokenize.go
-- calls: `utf16.Encode` in `tokenize`, `utf16.Decode` in `decodeUnits`.
use atomyx.Prelude.{
  ℕ, ◌+◌, ◌-◌, ◌*◌, ◌/◌, ◌%◌, ◌<◌, ◌≡◌, refl, ap, ◌∙◌, ◌⊎◌, inl, inr, Bool, true, false, ◌&&◌, List,
  [], ◌∷◌, ◌++◌, arith, ltb, leb, if◌then◌else◌, Text, All, Bool-cases, lt→ltb, ◌≤◌,
}

-- UTF-16 code units.
abbrev pub Units : Type 0
Units = List ℕ

abbrev pub replacement_char : ℕ
replacement_char = 0xfffd

abbrev is_high : ℕ → Bool
is_high u = leb 0xd800 u && ltb u 0xdc00

abbrev is_low : ℕ → Bool
is_low u = leb 0xdc00 u && ltb u 0xe000

abbrev is_surrogate : ℕ → Bool
is_surrogate u = leb 0xd800 u && ltb u 0xe000

unfoldable pub encode_rune : ℕ → Units
encode_rune r =
    if ltb r 0x10000
    then (if is_surrogate r then replacement_char ∷ [] else r ∷ [])
    else if ltb r 0x110000
    then (0xd800 + (r - 0x10000) / 1024) ∷ (0xdc00 + (r - 0x10000) % 1024) ∷ []
    else replacement_char ∷ []

unfoldable pub encode : Text → Units
unfolding encode_rune
encode [] = []
encode (r ∷ s) = encode_rune r ++ encode s

abbrev decode_one : ℕ → ℕ
decode_one u = if is_surrogate u then replacement_char else u

abbrev combine : ℕ → ℕ → ℕ
combine u v = (u - 0xd800) * 1024 + (v - 0xdc00) + 0x10000

unfoldable pub decode : Units → Text
decode [] = []
decode (u ∷ []) = decode_one u ∷ []
decode (u ∷ v ∷ s) = elim (is_high u && is_low v) [
  | true ↦ combine u v ∷ decode s
  | false ↦ decode_one u ∷ decode (v ∷ s)
]

-- A Unicode scalar value, which every rune of a valid Go string is.
abbrev pub IsScalar : ℕ → Type 0
IsScalar r = (r < 0xd800) ⊎ ((0xe000 ≤ r) × (r < 0x110000))

-- A unit that is no surrogate decodes to itself, whatever follows.
decode-plain : (u : ℕ) (s : Units) → is_surrogate u ≡ false → decode (u ∷ s) ≡ u ∷ decode s
unfolding decode
decode-plain u [] h = ground arith
decode-plain u (v ∷ s) h = ground arith

decode-pair :
    (u v : ℕ) (s : Units)
    → is_high u ≡ true
    → is_low v ≡ true
    → decode (u ∷ v ∷ s) ≡ combine u v ∷ decode s
unfolding decode
decode-pair u v s h k = ground arith

surrogates-bounds :
    (r : ℕ)
    → 0x10000 ≤ r
    → r < 0x110000
    → (is_high (0xd800 + (r - 0x10000) / 1024) ≡ true)
      × (is_low (0xdc00 + (r - 0x10000) % 1024) ≡ true)
      × (combine (0xd800 + (r - 0x10000) / 1024) (0xdc00 + (r - 0x10000) % 1024) ≡ r)
surrogates-bounds r h k = (ground arith, ground arith, omega arith)

decode-encode_rune : (r : ℕ) (s : Units) → IsScalar r → decode (encode_rune r ++ s) ≡ r ∷ decode s
unfolding encode_rune
decode-encode_rune r s (inl h) = ground (arith, decode-plain r s)
decode-encode_rune r s (inr h) = elim (Bool-cases (ltb r 0x10000)) [
  | inl small ↦ ground (arith, decode-plain r s)
  | inr large ↦
      let (high, low, whole) = surrogates-bounds r (ground arith) h.1 in
      rw (large, lt→ltb r 0x110000 h.1) (decode-pair _ _ s high low ∙ ap (λ t. t ∷ decode s) whole)
]

-- Decoding the encoding of a valid text gives the text back.
pub decode-encode : (s : Text) → All IsScalar s → decode (encode s) ≡ s
unfolding encode decode encode_rune
decode-encode [] h = refl
decode-encode (r ∷ s) (h, k) =
    decode-encode_rune r (encode s) h ∙ ap (λ t. r ∷ t) (decode-encode s k)
