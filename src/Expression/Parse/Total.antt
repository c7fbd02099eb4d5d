-- ===== src/Expression/Parse/Total.antt =====
-- The methods of `parser` are sound at their levels, and `parseOr` and `Parse` return.
use atomyx.Prelude.{
  ℕ, zero, suc, ◌≤◌, ◌≡◌, refl, sym, ap, ◌∙◌, ◌⊎◌, inl, inr, true, false, [], ◌∷◌, ◌++◌,
  append_assoc, Option, none, some, arith, length, codes, Bool-cases,
}
use atomyx.Expression.Outcome.{Returns, returned, failed, Returns-bind, Returns-if, Returns-map}
use atomyx.Expression.Token.{TokenKind, kind_eq, Token}
use atomyx.Expression.Float.{FloatOps}
use atomyx.Expression.Ast.{CastFunction, Node}
use atomyx.Expression.Parse.Levels.{Tokens, Parser, is_punct, is_keyword, is_eof, advance}
use atomyx.Expression.Parse.Methods.{
  cast_function, followed_by_call, is_boolean_name, parse_enclosed, parse_call,
  parse_identifier_like, parse_parenthesis, parse_kind, parse_primary, parse_unary, parse_equality,
  parse_not, parse_or_with, parse_or, finish, parse_tokens,
}
use atomyx.Expression.Parse.Grammar.{
  Level, at_or, at_and, at_not, at_equality, at_comparison, at_additive, at_multiplicative,
  at_unary, at_primary, Derives, negation, minus, number, string, boolean, name, enclosed, cast,
}
use atomyx.Expression.Parse.Sound.{
  Ends, PointsInto, PointsInto-suffix, is_punct→is_eof, is_keyword→is_eof, advance-eq, Ends-tail,
  Parsed, Sound, Parsed-tight, binary_level-Sound, Expected, expect_punct-Returns,
}

is_eof_of_kind :
    (k : TokenKind) (t : Token) → t.kind ≡ k → kind_eq k TokenKind.eof ≡ false → is_eof t ≡ false
unfolding is_eof
is_eof_of_kind k t h e = rw h e

module _ {A : Type 0} (ops : FloatOps A) (inner : Parser A) (n : ℕ)
    (sound : Sound ops at_or n inner) where
  -- What follows an opening parenthesis: an expression, the closing parenthesis, and the rest.
  record Enclosed (ts : Tokens) (r : Node A × Tokens) : Type 0 where
    used : Tokens
    close' : Token
    split : ts ≡ used ++ close' ∷ r.1
    closes : is_punct (codes ")") close' ≡ true
    derives : Derives ops at_or used r.0
    ends : Ends r.1

  Enclosed-intro :
      (ts : Tokens) (node : Node A) (rest after : Tokens)
      → Parsed ops at_or ts (node, rest)
      → Expected (codes ")") rest after
      → Enclosed ts (node, after)
  Enclosed-intro ts node rest after p (t, split, closes, ends) = record {
    used = p.used;
    close' = t;
    split = p.split ∙ ap (λ r. p.used ++ r) split;
    closes = closes;
    derives = p.derives;
    ends = ends;
  }

  parse_enclosed-Returns :
      (ts : Tokens)
      → length ts ≤ n
      → Ends ts
      → Returns (Enclosed ts) (PointsInto ts) (parse_enclosed ops inner ts)
  unfolding parse_enclosed
  parse_enclosed-Returns ts h e = Returns-bind (sound ts h e) λ (node, rest) p.
      Returns-bind
        (Returns-map (expect_punct-Returns (codes ")") rest p.ends) (λ r q. q)
          (λ err q. PointsInto-suffix ts p.used rest err p.split q))
        λ after q. returned (Enclosed-intro ts node rest after p q)

  -- one token that is a primary by itself
  Parsed-one :
      (t : Token) (ts : Tokens) (node : Node A)
      → is_eof t ≡ false
      → Ends (t ∷ ts)
      → Derives ops at_primary (t ∷ []) node
      → Parsed ops at_primary (t ∷ ts) (node, advance t ts)
  Parsed-one t ts node h e d = rw (advance-eq t ts h) (record {
    used = t ∷ [];
    split = refl;
    derives = d;
    nonempty = omega arith;
    ends = Ends-tail t ts e h;
  })

  parse_call-Returns :
      (t : Token) (f : Option CastFunction) (ts : Tokens)
      → t.kind ≡ TokenKind.identifier
      → is_boolean_name t.value ≡ false
      → cast_function t.value ≡ f
      → followed_by_call ts ≡ true
      → length ts ≤ n
      → Ends ts
      → Returns (Parsed ops at_primary (t ∷ ts)) (PointsInto (t ∷ ts)) (parse_call ops inner t f ts)
  unfolding parse_call followed_by_call
  parse_call-Returns t none ts k b c call h e = failed (inl refl)
  parse_call-Returns t (some f) [] k b c call h e = absurd e
  parse_call-Returns t (some f) (p ∷ ts) k b c call h e =
      rw (advance-eq p ts (is_punct→is_eof (codes "(") p call)) (
        Returns-bind
          (Returns-map
            (parse_enclosed-Returns ts (omega arith)
              (Ends-tail p ts e (is_punct→is_eof (codes "(") p call)))
            (λ r q. q) (λ err q. inr (inr q)))
          λ (node, rest) q. returned (record {
            used = t ∷ p ∷ (q.used ++ q.close' ∷ []);
            split = ap (λ r. t ∷ p ∷ r) (q.split ∙ sym (append_assoc q.used (q.close' ∷ []) rest));
            derives = cast t p q.close' q.used k b c call q.closes refl q.derives;
            nonempty = omega arith;
            ends = q.ends;
          }))

  parse_identifier_like-Returns :
      (t : Token) (ts : Tokens)
      → t.kind ≡ TokenKind.identifier
      → length ts ≤ n
      → Ends (t ∷ ts)
      → Returns
          (Parsed ops at_primary (t ∷ ts))
          (PointsInto (t ∷ ts))
          (parse_identifier_like ops inner t ts)
  unfolding parse_identifier_like
  parse_identifier_like-Returns t ts k h e =
      let live : is_eof t ≡ false = is_eof_of_kind TokenKind.identifier t k refl in
      Returns-if (is_boolean_name t.value) (λ b. returned (Parsed-one t ts _ live e (boolean k b)))
        λ b.
          Returns-if (followed_by_call ts)
            (λ c. rw (advance-eq t ts live) (
              parse_call-Returns t (cast_function t.value) ts k b refl c h (Ends-tail t ts e live)))
            λ c. returned (Parsed-one t ts _ live e (name k b))

  parse_parenthesis-Returns :
      (t : Token) (ts : Tokens)
      → length ts ≤ n
      → Ends (t ∷ ts)
      → Returns
          (Parsed ops at_primary (t ∷ ts))
          (PointsInto (t ∷ ts))
          (parse_parenthesis ops inner t ts)
  unfolding parse_parenthesis
  parse_parenthesis-Returns t ts h e =
      Returns-if (is_punct (codes "(") t)
        (λ p. rw (advance-eq t ts (is_punct→is_eof (codes "(") t p)) (
          Returns-map
            (parse_enclosed-Returns ts h (Ends-tail t ts e (is_punct→is_eof (codes "(") t p)))
            (λ (node, rest) q. record {
              used = t ∷ (q.used ++ q.close' ∷ []);
              split = ap (λ r. t ∷ r) (q.split ∙ sym (append_assoc q.used (q.close' ∷ []) rest));
              derives = enclosed t q.close' q.used p q.closes refl q.derives;
              nonempty = omega arith;
              ends = q.ends;
            })
            (λ err q. inr q)))
        λ _. failed (inl refl)

  parse_kind-Returns :
      (k : TokenKind) (t : Token) (ts : Tokens)
      → t.kind ≡ k
      → length ts ≤ n
      → Ends (t ∷ ts)
      → Returns (Parsed ops at_primary (t ∷ ts)) (PointsInto (t ∷ ts)) (parse_kind ops inner k t ts)
  unfolding parse_kind
  parse_kind-Returns TokenKind.number t ts k h e =
      returned (Parsed-one t ts _ (is_eof_of_kind TokenKind.number t k refl) e (number k))
  parse_kind-Returns TokenKind.string t ts k h e =
      returned (Parsed-one t ts _ (is_eof_of_kind TokenKind.string t k refl) e (string k))
  parse_kind-Returns TokenKind.identifier t ts k h e = parse_identifier_like-Returns t ts k h e
  parse_kind-Returns _ t ts k h e = parse_parenthesis-Returns t ts h e

  parse_primary-Sound : Sound ops at_primary (suc n) (parse_primary ops inner)
  unfolding parse_primary
  parse_primary-Sound [] h e = absurd e
  parse_primary-Sound (t ∷ ts) h e = parse_kind-Returns t.kind t ts refl (omega arith) e

  -- an operator token before an operand at the same level
  Parsed-prefix :
      (l : Level) (t : Token) (ts : Tokens) (node : Node A) (rest : Tokens) (whole : Node A)
      → ((used : Tokens) → Derives ops l used node → Derives ops l (t ∷ used) whole)
      → Parsed ops l ts (node, rest)
      → Parsed ops l (t ∷ ts) (whole, rest)
  Parsed-prefix l t ts node rest whole f p = record {
    used = t ∷ p.used;
    split = ap (λ r. t ∷ r) p.split;
    derives = f p.used p.derives;
    nonempty = omega arith;
    ends = p.ends;
  }

  parse_unary-Sound : Sound ops at_unary (suc n) (parse_unary ops inner)
  unfolding parse_unary
  parse_unary-Sound [] h e = absurd e
  parse_unary-Sound (t ∷ ts) h e = elim (Bool-cases (is_punct (codes "-") t)) [
    | inl m ↦
        rw (m, parse_unary)
          (Returns-bind
            (Returns-map
              (parse_unary-Sound ts (omega arith)
                (Ends-tail t ts e (is_punct→is_eof (codes "-") t m)))
              (λ r q. q) (λ err q. inr q))
            λ (node, rest) q.
              returned (Parsed-prefix at_unary t ts node rest _ (λ used d. minus m d) q))
    | inr m ↦
        rw (m, parse_unary)
          (Returns-map (parse_primary-Sound (t ∷ ts) h e)
            (λ r q. Parsed-tight ops at_unary (t ∷ ts) r q) (λ err q. q))
  ]

  parse_equality-Sound : Sound ops at_equality (suc n) (parse_equality ops inner)
  unfolding parse_equality
  parse_equality-Sound = binary_level-Sound ops at_equality (suc n) _ (
      binary_level-Sound ops at_comparison (suc n) _ (
        binary_level-Sound ops at_additive (suc n) _
          (binary_level-Sound ops at_multiplicative (suc n) _ parse_unary-Sound)))

  parse_not-Sound : Sound ops at_not (suc n) (parse_not ops inner)
  unfolding parse_not
  parse_not-Sound [] h e = absurd e
  parse_not-Sound (t ∷ ts) h e = elim (Bool-cases (is_keyword (codes "not") t)) [
    | inl m ↦
        rw (m, parse_not)
          (Returns-bind
            (Returns-map
              (parse_not-Sound ts (omega arith)
                (Ends-tail t ts e (is_keyword→is_eof (codes "not") t m)))
              (λ r q. q) (λ err q. inr q))
            λ (node, rest) q.
              returned (Parsed-prefix at_not t ts node rest _ (λ used d. negation m d) q))
    | inr m ↦
        rw (m, parse_not)
          (Returns-map (parse_equality-Sound (t ∷ ts) h e)
            (λ r q. Parsed-tight ops at_not (t ∷ ts) r q) (λ err q. q))
  ]

  parse_or_with-Sound : Sound ops at_or (suc n) (parse_or_with ops inner)
  unfolding parse_or_with
  parse_or_with-Sound =
      binary_level-Sound ops at_or (suc n) _
        (binary_level-Sound ops at_and (suc n) _ parse_not-Sound)

module _ {A : Type 0} (ops : FloatOps A) where
  -- With as much fuel as there are tokens, `parseOr` returns.
  pub parse_or-Sound : (fuel : ℕ) → Sound ops at_or fuel (parse_or ops fuel)
  unfolding parse_or
  parse_or-Sound zero [] h e = absurd e
  parse_or-Sound zero (t ∷ ts) h e = absurd (omega arith)
  parse_or-Sound (suc fuel) ts h e =
      parse_or_with-Sound ops (parse_or ops fuel) fuel (parse_or-Sound fuel) ts h e

  -- All tokens but the last derive the node.
  abbrev pub DerivesAll : Tokens → Node A → Type 0
  DerivesAll ts node =
      (used : Tokens) × (last : Token) × (rest : Tokens) × (ts ≡ used ++ last ∷ rest)
      × (is_eof last ≡ true)
      × Derives ops at_or used node

  finish-Returns :
      (ts : Tokens) (node : Node A) (rest : Tokens)
      → Parsed ops at_or ts (node, rest)
      → Returns (DerivesAll ts) (PointsInto ts) (finish ops node rest)
  unfolding finish
  finish-Returns ts node [] p = absurd p.ends
  finish-Returns ts node (t ∷ rest) p =
      Returns-if (is_eof t) (λ h. returned (p.used, t, rest, p.split, h, p.derives))
        λ _. failed (PointsInto-suffix ts p.used (t ∷ rest) _ p.split (inl refl))

  pub parse_tokens-Returns :
      (ts : Tokens)
      → Ends ts
      → Returns (DerivesAll ts) (λ e. (e.position ≡ 0) ⊎ PointsInto ts e) (parse_tokens ops ts)
  unfolding parse_tokens
  parse_tokens-Returns [] e = absurd e
  parse_tokens-Returns (t ∷ ts) e =
      Returns-if (is_eof t) (λ _. failed (inl refl))
        λ _.
          Returns-bind
            (Returns-map (parse_or-Sound (length (t ∷ ts)) (t ∷ ts) (omega arith) e) (λ r q. q)
              (λ err q. inr q))
            λ (node, rest) p.
              Returns-map (finish-Returns (t ∷ ts) node rest p) (λ r q. q) (λ err q. inr q)
