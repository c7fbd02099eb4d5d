-- ===== src/Expression/Source.antt =====
-- `Parse` from source text: the lexer and the parser together.
use atomyx.Prelude.{
  ◌+◌, ◌<◌, ◌≤◌, ◌≡◌, ◌≢◌, suc, subst, inl, inr, [], ◌∷◌, arith, length, length-append, Text, ap, ℕ,
}
use atomyx.Expression.Outcome.{ParseError, Returns, Returns-bind, Returns-map}
use atomyx.Expression.Utf16.{encode, Units}
use atomyx.Expression.Token.{Token, TokenKind}
use atomyx.Expression.Tokenize.Scan.{tokenize}
use atomyx.Expression.Tokenize.Cover.{Covers, end, space, lexeme, tokenize-Returns}
use atomyx.Expression.Tokenize.Lexeme.{
  Lexeme, integer, decimal, quoted, identifier, two_chars, one_char,
}
use atomyx.Expression.Float.{FloatOps}
use atomyx.Expression.Ast.{Node}
use atomyx.Expression.Parse.Levels.{Tokens}
use atomyx.Expression.Parse.Methods.{parse}
use atomyx.Expression.Parse.Sound.{Ends, PointsInto}
use atomyx.Expression.Parse.Total.{DerivesAll, parse_tokens-Returns}

-- Tokens that begin at offset `i` or later, each behind the one before it, up to the end of input
-- at `n`, which is the last one only.
abbrev pub Ascending : ℕ → ℕ → Tokens → Type 0
Ascending i n [] = ⊥
Ascending i n (t ∷ []) = (t.kind ≡ TokenKind.eof) × (i ≤ t.position) × (t.position ≡ n)
Ascending i n (t ∷ u ∷ ts) =
    (t.kind ≢ TokenKind.eof) × (i ≤ t.position) × Ascending (suc t.position) n (u ∷ ts)

Ascending-weaken : (i j n : ℕ) (ts : Tokens) → j ≤ i → Ascending i n ts → Ascending j n ts
Ascending-weaken i j n [] h a = a
Ascending-weaken i j n (t ∷ []) h a = (a.0, omega arith, a.2)
Ascending-weaken i j n (t ∷ u ∷ ts) h a = (a.0, omega arith, a.2)

Ascending-cons :
    (t : Token) (i j n : ℕ) (ts : Tokens)
    → t.kind ≢ TokenKind.eof
    → i ≤ t.position
    → t.position < j
    → Ascending j n ts
    → Ascending i n (t ∷ ts)
Ascending-cons t i j n [] k h l a = absurd a
Ascending-cons t i j n (u ∷ ts) k h l a = (k, h, Ascending-weaken j (suc t.position) n (u ∷ ts) l a)

Lexeme-kind : {used : Units} {k : TokenKind} {v : Text} → Lexeme used k v → k ≢ TokenKind.eof
Lexeme-kind (integer a b) = cc
Lexeme-kind (decimal w d a b c e f) = cc
Lexeme-kind (quoted q d) = cc
Lexeme-kind (identifier a b) = cc
Lexeme-kind (two_chars a) = cc
Lexeme-kind (one_char a) = cc

Covers-Ascending :
    {i : ℕ} {us : Units} {ts : Tokens} → Covers i us ts → Ascending i (i + length us) ts
Covers-Ascending (end k p) = (k, omega arith, omega arith)
Covers-Ascending (space {i} {u} {us} {ts} b c) =
    let whole : i + 1 + length us ≡ i + suc (length us) = omega arith in
    Ascending-weaken (i + 1) i _ ts (omega arith)
      (subst (λ n. Ascending (i + 1) n ts) whole (Covers-Ascending c))
Covers-Ascending (lexeme {i} {us} {used} {rest} {t} {ts} split pos lex at c) =
    let whole : i + length used + length rest ≡ i + length us =
      omega (arith, ap length split, length-append used rest) in
    Ascending-cons t i (i + length used) (i + length us) ts (Lexeme-kind lex) (omega arith)
      (omega arith) (subst (λ n. Ascending (i + length used) n ts) whole (Covers-Ascending c))

pub Covers-Ascending_source :
    {us : Units} {ts : Tokens} → Covers 0 us ts → Ascending 0 (length us) ts
Covers-Ascending_source {us} {ts} c =
    let whole : 0 + length us ≡ length us = omega arith in
    subst (λ n. Ascending 0 n ts) whole (Covers-Ascending c)

-- Every token of a source stands behind the one before it, at an offset in UTF-16 code units, and
-- one end of input stands last, at the source's length.
pub tokenize-Ascending :
    (source : Text)
    → Returns
        (Ascending 0 (length (encode source)))
        (λ e. e.position < length (encode source))
        (tokenize source)
tokenize-Ascending source =
    Returns-map (tokenize-Returns source) (λ ts c. Covers-Ascending_source c) (λ e w. omega arith)

Ascending-Ends : (i n : ℕ) (ts : Tokens) → Ascending i n ts → Ends ts
Ascending-Ends i n [] a = a
Ascending-Ends i n (t ∷ []) a = a.0
Ascending-Ends i n (t ∷ u ∷ ts) a = Ascending-Ends (suc t.position) n (u ∷ ts) a.2

pub Ascending-le : (i n : ℕ) (ts : Tokens) → Ascending i n ts → i ≤ n
Ascending-le i n [] a = absurd a
Ascending-le i n (t ∷ []) a = omega arith
Ascending-le i n (t ∷ u ∷ ts) a =
    let later = Ascending-le (suc t.position) n (u ∷ ts) a.2 in omega arith

Ascending-position-le :
    (i n : ℕ) (ts : Tokens) (e : ParseError) → Ascending i n ts → PointsInto ts e → e.position ≤ n
Ascending-position-le i n [] e a h = absurd a
Ascending-position-le i n (t ∷ []) e a (inl h) = omega arith
Ascending-position-le i n (t ∷ []) e a (inr h) = absurd h
Ascending-position-le i n (t ∷ u ∷ ts) e a (inl h) =
    let later = Ascending-le (suc t.position) n (u ∷ ts) a.2 in omega arith
Ascending-position-le i n (t ∷ u ∷ ts) e a (inr h) =
    Ascending-position-le (suc t.position) n (u ∷ ts) e a.2 h

module _ {A : Type 0} (ops : FloatOps A) where
  -- The source's tokens, and among them those of the whole expression, which derive the node.
  pub record IsParse (source : Text) (node : Node A) : Type 0 where
    pub tokens : Tokens
    pub covers : Covers 0 (encode source) tokens
    pub derives_all : DerivesAll ops tokens node

  -- `Parse` returns on every source text. A node that it returns derives, in the grammar, from the
  -- tokens that cover the source; an error points into the source or to its end.
  pub parse-Returns :
      (source : Text)
      → Returns (IsParse source) (λ e. e.position ≤ length (encode source)) (parse ops source)
  unfolding parse
  parse-Returns source =
      Returns-bind (Returns-map (tokenize-Returns source) (λ ts c. c) (λ e w. omega arith)) λ ts c.
        let a = Covers-Ascending_source c in
        Returns-map (parse_tokens-Returns ops ts (Ascending-Ends 0 _ ts a))
          (λ node d. record { tokens = ts; covers = c; derives_all = d })
          (λ e p. elim p [ inl z ↦ omega arith | inr q ↦ Ascending-position-le 0 _ ts e a q ])
