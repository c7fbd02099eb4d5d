-- ===== src/Orchestra/Pattern.antt =====
-- core/internal/orchestra/pattern.go. What it uses of the packages regexp and encoding/json, and the
-- bytes of a Go string, are a parameter; a compiled expression is given by its methods.
pub mod Scan
pub mod Occurs
pub mod Written
pub mod Supported
pub mod Flags
pub mod RoundTrip
mod Samples
use atomyx.Prelude.{
  ℕ, List, [], ◌∷◌, ◌++◌, Option, none, some, Bool, true, false, ◌||◌, ◌⊎◌, inl, inr, Text, codes,
  text_eq, ◌==◌, if◌then◌else◌,
}
use atomyx.Orchestra.Pattern.Scan.{Construct, Refusal, reject_unsupported_js_regex_syntax}

pub record Regexp : Type 0 where
  pub match_string : Text → Bool
  pub string : Text

pub data Pattern : Type 0 where
  literal : Text → Pattern
  regex : Regexp → Pattern

unfoldable pub matches : Pattern → Text → Bool
unfolding text_eq
matches (literal s) v = text_eq v s
matches (regex re) v = re.match_string v

-- The object `{regex, flags}`.
pub record PatternWire : Type 0 where
  pub regex : Text
  pub flags : Text

-- `E` is the errors of the packages, `Json` the bytes of a JSON value.
pub record Libraries (Json E : Type 0) : Type 0 where
  pub bytes : Text → List ℕ
  pub compile : Text → E ⊎ Regexp
  pub decode_string : Json → E ⊎ Text
  pub decode_wire : Json → E ⊎ PatternWire
  pub encode_string : Text → E ⊎ Json
  pub encode_regex : Text → E ⊎ Json

pub data RegexError (E : Type 0) : Type 0 where
  unsupported : (source : Text) → Refusal → RegexError E
  unsupported_flag : ℕ → RegexError E
  not_compiled : E → RegexError E

pub data PatternError (E : Type 0) : Type 0 where
  not_pattern : E → PatternError E
  bad_regex : (source : Text) (flags : Text) → RegexError E → PatternError E

unfoldable pub is_kept : ℕ → Bool
is_kept f = f == b'i' || f == b'm' || f == b's'

unfoldable pub is_ignored : ℕ → Bool
is_ignored f = f == b'g' || f == b'y' || f == b'u' || f == b'd'

-- The loop over the flags, with what `goFlags` holds; a flag that is neither stops it.
unfoldable pub go_flags : (kept : Text) → Text → ℕ ⊎ Text
unfolding is_kept is_ignored
go_flags kept [] = inr kept
go_flags kept (f ∷ flags) =
    let rest = go_flags (if is_kept f then kept ++ f ∷ [] else kept) flags in
    if is_kept f || is_ignored f then rest else inl f

unfoldable pub with_flags : (source : Text) → Text → Text
with_flags source [] = source
with_flags source (f ∷ flags) = codes "(?" ++ ((f ∷ flags) ++ b')' ∷ source)

module _ {Json E : Type 0} (libs : Libraries Json E) where
  unfoldable pub compiled : E ⊎ Regexp → RegexError E ⊎ Regexp
  compiled (inl e) = inl (not_compiled e)
  compiled (inr re) = inr re

  unfoldable pub compile_flagged : (source : Text) → ℕ ⊎ Text → RegexError E ⊎ Regexp
  unfolding with_flags compiled
  compile_flagged source (inl f) = inl (unsupported_flag f)
  compile_flagged source (inr flags) = compiled (libs.compile (with_flags source flags))

  unfoldable pub compile_checked :
      (source : Text) (flags : Text) → Option Refusal → RegexError E ⊎ Regexp
  unfolding go_flags compile_flagged
  compile_checked source flags (some refusal) = inl (unsupported source refusal)
  compile_checked source flags none = compile_flagged source (go_flags [] flags)

  unfoldable pub compile_js_regex : (source : Text) (flags : Text) → RegexError E ⊎ Regexp
  unfolding reject_unsupported_js_regex_syntax compile_checked
  compile_js_regex source flags =
      compile_checked source flags (reject_unsupported_js_regex_syntax (libs.bytes source))

  unfoldable pub decoded_regex : PatternWire → RegexError E ⊎ Regexp → PatternError E ⊎ Pattern
  decoded_regex wire (inl e) = inl (bad_regex wire.regex wire.flags e)
  decoded_regex wire (inr re) = inr (regex re)

  unfoldable pub decoded : E ⊎ PatternWire → PatternError E ⊎ Pattern
  unfolding compile_js_regex decoded_regex
  decoded (inl e) = inl (not_pattern e)
  decoded (inr wire) = decoded_regex wire (compile_js_regex wire.regex wire.flags)

  unfoldable pub literal_or : Json → E ⊎ Text → PatternError E ⊎ Pattern
  unfolding decoded
  literal_or json (inr s) = inr (literal s)
  literal_or json (inl e) = decoded (libs.decode_wire json)

  unfoldable pub unmarshal_json : Json → PatternError E ⊎ Pattern
  unfolding literal_or
  unmarshal_json json = literal_or json (libs.decode_string json)

  unfoldable pub marshal_json : Pattern → E ⊎ Json
  marshal_json (regex re) = libs.encode_regex re.string
  marshal_json (literal s) = libs.encode_string s
