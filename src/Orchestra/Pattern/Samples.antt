-- ===== src/Orchestra/Pattern/Samples.antt =====
-- Sources of regular expressions and patterns, and the theorems on them.
use atomyx.Prelude.{
  ℕ, ◌≤◌, ◌≡◌, refl, sym, ap, ap₂, subst, [], ◌∷◌, none, some, ◌&&◌, ◌||◌, ltb, leb, if◌then◌else◌,
  ◌⊎◌, inl, inr, Text, codes, text_eq, All, arith,
}
use atomyx.Expression.Utf16.{IsScalar, replacement_char}
use atomyx.Orchestra.Pattern.Scan.{
  backreference, lookahead, Refusal, reject_unsupported_js_regex_syntax,
}
use atomyx.Orchestra.Pattern.Occurs.{written, Occurs, plain, done}
use atomyx.Orchestra.Pattern.Supported.{compile_js_regex-refuses}
use atomyx.Orchestra.Pattern.RoundTrip.{KeepsText, unmarshal_json-marshal_json}
use atomyx.Orchestra.Pattern.{
  Regexp, PatternWire, Libraries, regex, unsupported, unsupported_flag, compile_js_regex,
  unmarshal_json, marshal_json,
}

-- A value is a string or an object, whose texts are made valid when they are read.
abbrev Shape : Type 0
Shape = Text ⊎ PatternWire

abbrev object : (regex flags : Text) → Shape
object r f = inr (record { regex = r; flags = f })

unfoldable replaced : ℕ → ℕ
replaced c = if ltb c 0xd800 || (leb 0xe000 c && ltb c 0x110000) then c else replacement_char

unfoldable made_valid : Text → Text
unfolding replaced
made_valid [] = []
made_valid (c ∷ s) = replaced c ∷ made_valid s

-- An expression that matches its own text.
abbrev exactly : Text → Regexp
exactly s = record { match_string = text_eq s; string = s }

unfoldable read_string : Shape → Text ⊎ Text
unfolding made_valid
read_string (inl s) = inr (made_valid s)
read_string (inr s) = inl (codes "not a string")

unfoldable read_object : Shape → Text ⊎ PatternWire
unfolding made_valid
read_object (inl s) = inl (codes "not an object")
read_object (inr w) = inr (record w { regex = made_valid w.regex })

abbrev libraries : Libraries Shape Text
unfolding read_string read_object
libraries = record {
  bytes = λ s. s;
  compile = λ s. inr (exactly s);
  decode_string = read_string;
  decode_wire = read_object;
  encode_string = λ s. inr (inl s);
  encode_regex = λ s. inr (object s []);
}

replaced-IsScalar : (c : ℕ) → IsScalar (replaced c)
unfolding replaced
replaced-IsScalar c = ground arith

made_valid-IsScalar : (s : Text) → All IsScalar (made_valid s)
unfolding made_valid
made_valid-IsScalar [] = tt
made_valid-IsScalar (c ∷ s) = (replaced-IsScalar c, made_valid-IsScalar s)

replaced_scalar : (c : ℕ) → IsScalar c → replaced c ≡ c
unfolding replaced
replaced_scalar c h = ground (arith, h)

made_valid_scalar : (s : Text) → All IsScalar s → made_valid s ≡ s
unfolding made_valid
made_valid_scalar [] h = refl
made_valid_scalar (c ∷ s) (h, k) = ap₂ (λ c s. c ∷ s) (replaced_scalar c h) (made_valid_scalar s k)

lookahead_refused :
    compile_js_regex libraries (codes "foo(?=bar)") []
    ≡ inl (unsupported (codes "foo(?=bar)") (lookahead, 3))
unfolding compile_js_regex libraries
lookahead_refused = refl

backreference_refused :
    reject_unsupported_js_regex_syntax (codes "(\\w+)\\1") ≡ some (backreference b'1', 5)
unfolding reject_unsupported_js_regex_syntax
backreference_refused = refl

in_class_kept : reject_unsupported_js_regex_syntax (codes "[a-z(?=!]+\\(?=") ≡ none
unfolding reject_unsupported_js_regex_syntax
in_class_kept = refl

flags_kept : compile_js_regex libraries (codes "a+") (codes "gim") ≡ inr (exactly (codes "(?im)a+"))
unfolding compile_js_regex libraries
flags_kept = refl

flag_refused : compile_js_regex libraries (codes "abc") (codes "z") ≡ inl (unsupported_flag b'z')
unfolding compile_js_regex libraries
flag_refused = refl

lookahead-Occurs : Occurs (codes "a(?=b)") lookahead 1
unfolding written
lookahead-Occurs = record {
  before = codes "a";
  after = codes "b)";
  is_source = refl;
  outside = plain (omega arith) (omega arith) (omega arith) done;
  at = refl;
  is_construct = tt;
}

compile_js_regex-refuses_example :
    (r : Refusal) × (compile_js_regex libraries (codes "a(?=b)") []
      ≡ inl (unsupported (codes "a(?=b)") r))
    × Occurs (codes "a(?=b)") r.0 r.1
    × (r.1 ≤ 1)
unfolding libraries
compile_js_regex-refuses_example =
    compile_js_regex-refuses libraries (codes "a(?=b)") [] lookahead 1 lookahead-Occurs

-- What an encoding gives is the value encoded.
same_shape : (x json : Shape) → Path (Text ⊎ Shape) (inr x) (inr json) → x ≡ json
same_shape x json e = cc e

read_string-IsScalar : (s : Text) (json : Shape) → read_string json ≡ inr s → All IsScalar s
unfolding read_string
read_string-IsScalar s (inl t) e = subst (All IsScalar) (cc e) (made_valid-IsScalar t)
read_string-IsScalar s (inr t) e = ground (arith, e)

read_object-IsScalar :
    (w : PatternWire) (json : Shape) → read_object json ≡ inr w → All IsScalar w.regex
unfolding read_object
read_object-IsScalar w (inl t) e = ground (arith, e)
read_object-IsScalar w (inr t) e =
    let same : record t { regex = made_valid t.regex } ≡ w = cc e in
    subst (λ w. All IsScalar w.regex) same (made_valid-IsScalar t.regex)

libraries-KeepsText : KeepsText libraries
unfolding libraries read_string read_object
libraries-KeepsText = record {
  string_back = λ s json v e.
      subst (λ x. read_string x ≡ inr s) (same_shape (inl s) json e)
        (ap inr (made_valid_scalar s v));
  regex_back = λ s json v e.
      subst (λ x. read_object x ≡ inr (record { regex = s; flags = [] }))
        (same_shape (object s []) json e)
        (ap (λ t. inr (record { regex = t; flags = [] })) (made_valid_scalar s v));
  no_string = λ s json e. (
    codes "not a string",
    subst (λ x. read_string x ≡ inl (codes "not a string")) (same_shape (object s []) json e) refl,
  );
  valid_string = read_string-IsScalar;
  valid_wire = read_object-IsScalar;
  string_of = λ s re e. let same : exactly s ≡ re = cc e in ap (λ re. re.string) (sym same);
  ascii = λ c s h. refl;
}

-- An object with flags, of which only `i` counts.
unmarshal_json-marshal_json_example :
    unmarshal_json libraries (object (codes "(?i)^a+$") [])
    ≡ inr (regex (exactly (codes "(?i)^a+$")))
unfolding libraries unmarshal_json marshal_json
unmarshal_json-marshal_json_example =
    unmarshal_json-marshal_json libraries libraries-KeepsText (object (codes "^a+$") (codes "gi"))
      (object (codes "(?i)^a+$") []) (regex (exactly (codes "(?i)^a+$"))) refl refl
