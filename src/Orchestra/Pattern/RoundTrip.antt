-- ===== src/Orchestra/Pattern/RoundTrip.antt =====
-- core/internal/orchestra/pattern.go: a pattern that is decoded, encoded and decoded again.
use atomyx.Prelude.{
  ℕ, ◌<◌, ◌≡◌, refl, sym, ◌∙◌, ap, subst, [], ◌∷◌, ◌++◌, Option, none, some, false, ◌⊎◌, inl, inr,
  Text, arith, All, All-append, All-imp,
}
use atomyx.Expression.Utf16.{IsScalar}
use atomyx.Orchestra.Pattern.Scan.{Refusal, scan, reject_unsupported_js_regex_syntax}
use atomyx.Orchestra.Pattern.{
  Pattern, literal, regex, Regexp, PatternWire, Libraries, RegexError, go_flags, with_flags,
  compiled, compile_flagged, compile_checked, compile_js_regex, decoded, decoded_regex, literal_or,
  unmarshal_json, marshal_json,
}
use atomyx.Orchestra.Pattern.Flags.{
  IsKept, go_flags-All, flagged, scan-flagged, kept_small, kept-IsScalar,
}

-- What the packages document: decoding undoes encoding of valid texts and gives valid texts, an
-- object is no string, an expression tells the text it was compiled from, and a character of ASCII
-- is one byte.
pub record KeepsText {Json E : Type 0} (libs : Libraries Json E) : Type 0 where
  pub string_back :
      (s : Text) (json : Json)
      → All IsScalar s
      → libs.encode_string s ≡ inr json
      → libs.decode_string json ≡ inr s
  pub regex_back :
      (s : Text) (json : Json)
      → All IsScalar s
      → libs.encode_regex s ≡ inr json
      → libs.decode_wire json ≡ inr (record { regex = s; flags = [] })
  pub no_string :
      (s : Text) (json : Json)
      → libs.encode_regex s ≡ inr json
      → (e : E) × (libs.decode_string json ≡ inl e)
  pub valid_string : (s : Text) (json : Json) → libs.decode_string json ≡ inr s → All IsScalar s
  pub valid_wire :
      (w : PatternWire) (json : Json) → libs.decode_wire json ≡ inr w → All IsScalar w.regex
  pub string_of : (s : Text) (re : Regexp) → libs.compile s ≡ inr re → re.string ≡ s
  pub ascii : (c : ℕ) (s : Text) → c < 128 → libs.bytes (c ∷ s) ≡ c ∷ libs.bytes s

module _ {Json E : Type 0} (libs : Libraries Json E) (keeps : KeepsText libs) where
  bytes_onto : (t s : Text) → All (λ c. c < 128) t → libs.bytes (t ++ s) ≡ t ++ libs.bytes s
  bytes_onto [] s h = refl
  bytes_onto (c ∷ t) s (h, k) = keeps.ascii c (t ++ s) h ∙ ap (λ b. c ∷ b) (bytes_onto t s k)

  bytes-with_flags :
      (source kept : Text)
      → All IsKept kept
      → libs.bytes (with_flags source kept) ≡ flagged kept (libs.bytes source)
  unfolding with_flags flagged
  bytes-with_flags source [] h = refl
  bytes-with_flags source (f ∷ kept) (h, k) =
      bytes_onto (b'(' ∷ b'?' ∷ f ∷ kept) (b')' ∷ source)
        (omega arith, (omega arith, (kept_small f h, All-imp IsKept _ kept kept_small k)))
      ∙ ap (λ b. b'(' ∷ b'?' ∷ f ∷ (kept ++ b)) (keeps.ascii b')' source (omega arith))

  with_flags-IsScalar :
      (source kept : Text)
      → All IsKept kept
      → All IsScalar source
      → All IsScalar (with_flags source kept)
  unfolding with_flags
  with_flags-IsScalar source [] h v = v
  with_flags-IsScalar source (f ∷ kept) (h, k) v =
      let rest =
        All-append IsScalar kept (b')' ∷ source) (All-imp IsKept IsScalar kept kept-IsScalar k)
          (inl (omega arith), v) in
      (inl (omega arith), (inl (omega arith), (kept-IsScalar f h, rest)))

  compiled-inr : (x : E ⊎ Regexp) (re : Regexp) → compiled libs x ≡ inr re → x ≡ inr re
  unfolding compiled
  compiled-inr (inl e) re h = ground (arith, h)
  compiled-inr (inr r) re h = ap inr (cc h)

  -- What was compiled, of a source that was not refused.
  abbrev Compiles : Text → Regexp → Type 0
  Compiles source re =
      (kept : Text) × All IsKept kept × (libs.compile (with_flags source kept) ≡ inr re)

  compile_flagged-Compiles :
      (source : Text) (g : ℕ ⊎ Text) (re : Regexp)
      → ((kept : Text) → g ≡ inr kept → All IsKept kept)
      → compile_flagged libs source g ≡ inr re
      → Compiles source re
  unfolding compile_flagged
  compile_flagged-Compiles source (inl f) re all h = ground (arith, h)
  compile_flagged-Compiles source (inr kept) re all h =
      (kept, all kept refl, compiled-inr (libs.compile (with_flags source kept)) re h)

  compile_checked-Compiles :
      (source flags : Text) (o : Option Refusal) (re : Regexp)
      → compile_checked libs source flags o ≡ inr re
      → (o ≡ none) × Compiles source re
  unfolding compile_checked
  compile_checked-Compiles source flags (some r) re h = ground (arith, h)
  compile_checked-Compiles source flags none re h = (
    refl,
    compile_flagged-Compiles source (go_flags [] flags) re (λ kept. go_flags-All [] flags kept tt)
        h,
  )

  -- An expression that was compiled compiles again from its own text, without flags.
  compile_again :
      (source flags : Text) (re : Regexp)
      → All IsScalar source
      → compile_js_regex libs source flags ≡ inr re
      → (compile_js_regex libs re.string [] ≡ inr re) × All IsScalar re.string
  unfolding compile_js_regex reject_unsupported_js_regex_syntax compile_checked compile_flagged
      go_flags with_flags compiled
  compile_again source flags re v h =
      let (clean, (kept, all, e)) = compile_checked-Compiles source flags _ re h in
      let text : re.string ≡ with_flags source kept =
        keeps.string_of (with_flags source kept) re e in
      let scanned : scan 0 false false (libs.bytes (with_flags source kept)) ≡ none =
        ap (scan 0 false false) (bytes-with_flags source kept all)
        ∙ scan-flagged kept (libs.bytes source) all clean in
      subst (λ t. (compile_js_regex libs t [] ≡ inr re) × All IsScalar t) (sym text)
        (
          ap (compile_checked libs (with_flags source kept) []) scanned ∙ ap (compiled libs) e,
          with_flags-IsScalar source kept all v,
        )

  decoded_regex-inr :
      (w : PatternWire) (x : RegexError E ⊎ Regexp) (p : Pattern)
      → decoded_regex libs w x ≡ inr p
      → (re : Regexp) × (x ≡ inr re) × (regex re ≡ p)
  unfolding decoded_regex
  decoded_regex-inr w (inl e) p h = ground (arith, h)
  decoded_regex-inr w (inr re) p h = (re, refl, cc h)

  decoded-again :
      (json json' : Json) (x : E ⊎ PatternWire) (p : Pattern)
      → libs.decode_wire json ≡ x
      → decoded libs x ≡ inr p
      → marshal_json libs p ≡ inr json'
      → unmarshal_json libs json' ≡ inr p
  unfolding decoded unmarshal_json literal_or marshal_json decoded_regex
  decoded-again json json' (inl e) p wire h k = ground (arith, h)
  decoded-again json json' (inr w) p wire h k =
      let (re, compiled, same) = decoded_regex-inr w _ p h in
      let (again, valid) =
        compile_again w.regex w.flags re (keeps.valid_wire w json wire) compiled in
      let encoded = subst (λ p. marshal_json libs p ≡ inr json') (sym same) k in
      ap (literal_or libs json') (keeps.no_string re.string json' encoded).1
      ∙ ap (decoded libs) (keeps.regex_back re.string json' valid encoded)
      ∙ ap (decoded_regex libs (record { regex = re.string; flags = [] })) again
      ∙ ap inr same

  literal-again :
      (json json' : Json) (x : E ⊎ Text) (p : Pattern)
      → libs.decode_string json ≡ x
      → literal_or libs json x ≡ inr p
      → marshal_json libs p ≡ inr json'
      → unmarshal_json libs json' ≡ inr p
  unfolding unmarshal_json literal_or marshal_json
  literal-again json json' (inl e) p string h k =
      decoded-again json json' (libs.decode_wire json) p refl h k
  literal-again json json' (inr s) p string h k =
      let same : literal s ≡ p = cc h in
      let encoded = subst (λ p. marshal_json libs p ≡ inr json') (sym same) k in
      ap (literal_or libs json')
        (keeps.string_back s json' (keeps.valid_string s json string) encoded)
      ∙ ap inr same

  -- A pattern that `UnmarshalJSON` has given is encoded by `MarshalJSON`, if at all, to what
  -- `UnmarshalJSON` gives the same pattern for.
  pub unmarshal_json-marshal_json :
      (json json' : Json) (p : Pattern)
      → unmarshal_json libs json ≡ inr p
      → marshal_json libs p ≡ inr json'
      → unmarshal_json libs json' ≡ inr p
  unfolding unmarshal_json
  unmarshal_json-marshal_json json json' p h k =
      literal-again json json' (libs.decode_string json) p refl h k
