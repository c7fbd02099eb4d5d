-- ===== src/Expression/Tokenize/StringLiteral.antt =====
-- The reader of string literals: what it reads, and where its errors point.
use atomyx.Prelude.{
  ℕ, suc, ◌+◌, ◌<◌, ◌≤◌, ◌≡◌, ◌≢◌, refl, ap, ap₂, ◌⊎◌, inl, inr, true, false, [], ◌∷◌, ◌++◌, arith,
  ◌==◌, ==_iff, length, append_assoc, append-nil, Text, sym, ◌∙◌,
}
use atomyx.Expression.Outcome.{
  ParseError, ok, Returns, returned, failed, Returns-bind, Returns-if, Returns-map, Returns-self,
}
use atomyx.Expression.Utf16.{Units, decode}
use atomyx.Expression.Tokenize.Chars.{quote_char, apostrophe, backslash, unescape}
use atomyx.Expression.Tokenize.Scan.{read_string}
use atomyx.Expression.Tokenize.Lexeme.{Quoted, close, plain, escape}

-- An error of a reader that began at offset `i` with `n` units left points into these units.
abbrev pub Within : ℕ → ℕ → ParseError → Type 0
Within i n e = (i ≤ e.position) × (e.position < i + n)

unescape-Returns : (e i : ℕ) → Returns (λ r. Unit {0}) (λ err. err.position ≡ i) (unescape e i)
unfolding unescape
unescape-Returns e i =
    Returns-if (e == backslash) (λ _. returned tt)
      λ _.
        Returns-if (e == quote_char) (λ _. returned tt)
          λ _.
            Returns-if (e == apostrophe) (λ _. returned tt)
              λ _.
                Returns-if (e == b'n') (λ _. returned tt)
                  λ _. Returns-if (e == b't') (λ _. returned tt) λ _. failed refl

-- What `readStringLiteral` read from the units `us` at offset `i`, beyond the value so far.
abbrev pub ReadString : ℕ → ℕ → Units → Units → Text × Units × ℕ → Type 0
ReadString q i value us (text, rest, j) =
    (body : Units) × (tail : Units) × (us ≡ body ++ rest)
    × Quoted q body tail
    × (text ≡ decode (value ++ tail))
    × (j ≡ i + length body)

-- An error of it lies at the opening quote, or at a backslash among the units.
abbrev pub StringError : ℕ → ℕ → ℕ → ParseError → Type 0
StringError start i n e = (e.position ≡ start) ⊎ Within i n e

closed :
    (q i : ℕ) (value : Units) (ch : ℕ) (us : Units)
    → (ch == q) ≡ true
    → ReadString q i value (ch ∷ us) (decode value, us, i + 1)
closed q i value ch us h = (
  ch ∷ [],
  [],
  refl,
  rw ((==_iff ch q).0 h) close,
  ap decode (sym (append-nil value)),
  omega arith,
)

==→ne : (a b : ℕ) → (a == b) ≡ false → a ≢ b
==→ne a b h = ground arith

plain_first :
    (q i : ℕ) (value : Units) (ch : ℕ) (us : Units)
    → (ch == q) ≡ false
    → (ch == backslash) ≡ false
    → (a : Text × Units × ℕ) → ReadString q (i + 1) (value ++ ch ∷ []) us a
    → ReadString q i value (ch ∷ us) a
plain_first q i value ch us n m a (body, tail, split, d, text, offset) = (
  ch ∷ body,
  ch ∷ tail,
  ap (λ t. ch ∷ t) split,
  plain (==→ne ch q n) (==→ne ch backslash m) d,
  text ∙ ap decode (append_assoc value (ch ∷ []) tail),
  omega arith,
)

escape_first :
    (q i : ℕ) (value : Units) (ch e r : ℕ) (us : Units)
    → (ch == q) ≡ false
    → (ch == backslash) ≡ true
    → unescape e i ≡ ok r
    → (a : Text × Units × ℕ) → ReadString q (i + 2) (value ++ r ∷ []) us a
    → ReadString q i value (ch ∷ e ∷ us) a
escape_first q i value ch e r us n m u a (body, tail, split, d, text, offset) =
    let is_backslash : ch ≡ backslash = (==_iff ch backslash).0 m in
    (
      backslash ∷ e ∷ body,
      r ∷ tail,
      ap₂ (λ c t. c ∷ e ∷ t) is_backslash split,
      escape i (λ b. ==→ne ch q n (is_backslash ∙ b)) u d,
      text ∙ ap decode (append_assoc value (r ∷ []) tail),
      omega arith,
    )

unescape_at :
    (q start i n e : ℕ)
    → Returns
        (λ r. Unit {0} × (unescape e i ≡ ok r))
        (StringError start i (suc (suc n)))
        (unescape e i)
unescape_at q start i n e =
    Returns-map (Returns-self (unescape-Returns e i)) (λ r h. h)
      (λ err h. inr (omega arith, omega arith))

pub read_string-Returns :
    (q start i : ℕ) (value us : Units)
    → Returns
        (ReadString q i value us)
        (StringError start i (length us))
        (read_string q start i value us)
unfolding read_string
read_string-Returns q start i value [] = failed (inl refl)
read_string-Returns q start i value (ch ∷ []) =
    Returns-if (ch == q) (λ e. returned (closed q i value ch [] e)) λ _. failed (inl refl)
read_string-Returns q start i value (ch ∷ e ∷ us) =
    Returns-if (ch == q) (λ h. returned (closed q i value ch (e ∷ us) h))
      λ not_quote.
        Returns-if (ch == backslash)
          (λ h. Returns-bind (unescape_at q start i (length us) e) λ r u.
            Returns-map (read_string-Returns q start (i + 2) (value ++ r ∷ []) us)
              (λ a p. escape_first q i value ch e r us not_quote h u.1 a p) (λ err p. omega arith))
          (λ h.
            Returns-map (read_string-Returns q start (i + 1) (value ++ ch ∷ []) (e ∷ us))
              (λ a p. plain_first q i value ch (e ∷ us) not_quote h a p) (λ err p. omega arith))
