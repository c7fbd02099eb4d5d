-- ===== src/Expression/Parse/Sound.antt =====
-- The parser returns on every list of tokens that ends in the end of input, and what it reads
-- derives, in the grammar, the node that it returns.
use atomyx.Prelude.{
  ℕ, zero, suc, ◌+◌, ◌<◌, ◌≤◌, ◌≡◌, refl, sym, ap, ◌∙◌, ◌⊎◌, inl, inr, true, false, [], ◌∷◌, ◌++◌,
  append_assoc, none, some, arith, length, length-append, Text, Option-cases, subst,
}
use atomyx.Expression.Outcome.{
  ParseError, Returns, returned, failed, Returns-bind, Returns-if, Returns-map,
}
use atomyx.Expression.Token.{TokenKind, kind_eq, Token}
use atomyx.Expression.Float.{FloatOps}
use atomyx.Expression.Ast.{BinaryOperator, Node, binary_expr, start}
use atomyx.Expression.Parse.Levels.{
  Tokens, Parser, is_punct, is_keyword, is_eof, advance, expect_punct, or_operator, and_operator,
  equality_operator, comparison_operator, additive_operator, multiplicative_operator, binary_loop,
  binary_level,
}
use atomyx.Expression.Parse.Grammar.{
  Level, at_or, at_and, at_equality, at_comparison, at_additive, at_multiplicative, tighter,
  operator_at, Derives, tight, binary,
}

-- The last token, and there is one, is the end of input.
abbrev pub Ends : Tokens → Type 0
Ends [] = ⊥
Ends (t ∷ []) = t.kind ≡ TokenKind.eof
Ends (t ∷ u ∷ ts) = Ends (u ∷ ts)

-- The error points to one of these tokens.
abbrev pub PointsInto : Tokens → ParseError → Type 0
PointsInto [] e = ⊥
PointsInto (t ∷ ts) e = (e.position ≡ t.position) ⊎ PointsInto ts e

PointsInto-append : (xs ys : Tokens) (e : ParseError) → PointsInto ys e → PointsInto (xs ++ ys) e
PointsInto-append [] ys e h = h
PointsInto-append (x ∷ xs) ys e h = inr (PointsInto-append xs ys e h)

pub PointsInto-suffix :
    (ts used cur : Tokens) (e : ParseError) → ts ≡ used ++ cur → PointsInto cur e → PointsInto ts e
PointsInto-suffix ts used cur e p h =
    subst (λ x. PointsInto x e) (sym p) (PointsInto-append used cur e h)

pub is_punct→is_eof : (v : Text) (t : Token) → is_punct v t ≡ true → is_eof t ≡ false
unfolding is_punct is_eof
is_punct→is_eof v t h = kinds t.kind (ground (arith, h))
  where
    kinds : (k : TokenKind) → kind_eq k TokenKind.punct ≡ true → kind_eq k TokenKind.eof ≡ false
    kinds TokenKind.punct e = refl
    kinds TokenKind.eof e = cc
    kinds _ e = refl

pub is_keyword→is_eof : (v : Text) (t : Token) → is_keyword v t ≡ true → is_eof t ≡ false
unfolding is_keyword is_eof
is_keyword→is_eof v t h = kinds t.kind (ground (arith, h))
  where
    kinds :
        (k : TokenKind) → kind_eq k TokenKind.identifier ≡ true → kind_eq k TokenKind.eof ≡ false
    kinds TokenKind.identifier e = refl
    kinds TokenKind.eof e = cc
    kinds _ e = refl

operator_at_eof :
    (l : Level) (v : Text) (p : ℕ)
    → operator_at l (record { kind = TokenKind.eof; value = v; position = p }) ≡ none
unfolding or_operator and_operator equality_operator comparison_operator additive_operator
    multiplicative_operator
operator_at_eof at_or v p = refl
operator_at_eof at_and v p = refl
operator_at_eof at_equality v p = refl
operator_at_eof at_comparison v p = refl
operator_at_eof at_additive v p = refl
operator_at_eof at_multiplicative v p = refl
operator_at_eof _ v p = refl

pub is_eof-cases : (t : Token) → (t.kind ≡ TokenKind.eof) ⊎ (is_eof t ≡ false)
unfolding is_eof
is_eof-cases t = cases t.kind
  where
    cases : (k : TokenKind) → (k ≡ TokenKind.eof) ⊎ (kind_eq k TokenKind.eof ≡ false)
    cases TokenKind.eof = inl refl
    cases _ = inr refl

pub operator_at→is_eof :
    (l : Level) (t : Token) (o : BinaryOperator) → operator_at l t ≡ some o → is_eof t ≡ false
operator_at→is_eof l t o h = elim (is_eof-cases t) [
  | inl e ↦ absurd (cc (operator_at_kind e, operator_at_eof l t.value t.position))
  | inr n ↦ n
]
  where
    operator_at_kind :
        t.kind ≡ TokenKind.eof
        → some o
          ≡ operator_at l (record { kind = TokenKind.eof; value = t.value; position = t.position })
    operator_at_kind e =
        sym h
        ∙ ap (λ k. operator_at l (record { kind = k; value = t.value; position = t.position })) e

pub advance-eq : (t : Token) (ts : Tokens) → is_eof t ≡ false → advance t ts ≡ ts
unfolding advance
advance-eq t ts h = ground (arith, h)

pub not_eof : (t : Token) → t.kind ≡ TokenKind.eof → is_eof t ≡ true
unfolding is_eof
not_eof t h = ap (λ k. kind_eq k TokenKind.eof) h

pub Ends-tail : (t : Token) (ts : Tokens) → Ends (t ∷ ts) → is_eof t ≡ false → Ends ts
Ends-tail t [] h e = absurd (cc (not_eof t h))
Ends-tail t (u ∷ ts) h e = h

pub Ends-drop : (xs ys : Tokens) (t : Token) → Ends (xs ++ t ∷ ys) → Ends (t ∷ ys)
Ends-drop [] ys t h = h
Ends-drop (x ∷ []) ys t h = h
Ends-drop (x ∷ y ∷ xs) ys t h = Ends-drop (y ∷ xs) ys t h

module _ {A : Type 0} (ops : FloatOps A) where
  -- The tokens `ts` begin with some that derive the node at the level, and the rest still ends.
  pub record Parsed (l : Level) (ts : Tokens) (r : Node A × Tokens) : Type 0 where
    pub used : Tokens
    pub split : ts ≡ used ++ r.1
    pub derives : Derives ops l used r.0
    pub nonempty : 0 < length used
    pub ends : Ends r.1

  -- The method reads level `l` off every list of at most `n` tokens that ends.
  abbrev pub Sound : Level → ℕ → Parser A → Type 0
  Sound l n p =
      (ts : Tokens) → length ts ≤ n → Ends ts → Returns (Parsed l ts) (PointsInto ts) (p ts)

  pub Parsed-tight :
      (l : Level) (ts : Tokens) (r : Node A × Tokens) → Parsed (tighter l) ts r → Parsed l ts r
  Parsed-tight l ts r h = record {
    used = h.used;
    split = h.split;
    derives = tight h.derives;
    nonempty = h.nonempty;
    ends = h.ends;
  }

  pub Parsed-shorter :
      {l : Level} {ts rest : Tokens} {n : Node A} → Parsed l ts (n, rest) → length rest < length ts
  Parsed-shorter {ts} {rest} p =
      let whole : length ts ≡ length p.used + length rest =
        ap length p.split ∙ length-append p.used rest in
      let pos = p.nonempty in omega arith

  -- what is left of `cur` after one token and a further read
  Parsed-binary :
      (l : Level) (o : BinaryOperator) (ts used cur : Tokens) (t : Token) (left right : Node A)
      (rest : Tokens)
      → ts ≡ used ++ t ∷ cur
      → operator_at l t ≡ some o
      → Derives ops l used left
      → (right' : Parsed (tighter l) cur (right, rest))
      → Parsed l ts (binary_expr (start left) o left right, rest)
  Parsed-binary l o ts used cur t left right rest split op d h = record {
    used = used ++ t ∷ h.used;
    split = split ∙ ap (λ c. used ++ t ∷ c) h.split ∙ sym (append_assoc used (t ∷ h.used) rest);
    derives = binary used t h.used refl op d h.derives;
    nonempty = omega (arith, length-append used (t ∷ h.used));
    ends = h.ends;
  }

  binary_loop-Returns :
      (l : Level) (n : ℕ) (next : Parser A)
      → Sound (tighter l) n next
      → (fuel : ℕ) (left : Node A) (ts cur : Tokens) → length cur ≤ fuel
      → length ts ≤ suc n
      → Parsed l ts (left, cur)
      → Returns (Parsed l ts) (PointsInto ts) (binary_loop (operator_at l) next fuel left cur)
  unfolding binary_loop
  binary_loop-Returns l n next sound fuel left ts [] h k p = absurd p.ends
  binary_loop-Returns l n next sound zero left ts (t ∷ cur) h k p = absurd (omega arith)
  binary_loop-Returns l n next sound (suc fuel) left ts (t ∷ cur) h k p =
      elim (Option-cases (operator_at l t)) [
        | inl e ↦ rw (e, binary_loop) (returned p)
        | inr (o, e) ↦
            rw (e, binary_loop)
              (rw (advance-eq t cur (operator_at→is_eof l t o e)) (
                Returns-bind
                  (Returns-map
                    (sound cur (shorter t cur p)
                      (Ends-tail t cur p.ends (operator_at→is_eof l t o e)))
                    (λ r q. q) (λ err q. PointsInto-suffix ts p.used (t ∷ cur) err p.split (inr q)))
                  λ (right, rest) q.
                    binary_loop-Returns l n next sound fuel (binary_expr (start left) o left right)
                      ts rest (omega (arith, Parsed-shorter q)) k
                      (Parsed-binary l o ts p.used cur t left right rest p.split e p.derives q)))
      ]
    where
      shorter : (t : Token) (cur : Tokens) (p : Parsed l ts (left, t ∷ cur)) → length cur ≤ n
      shorter t cur p =
          let whole : length ts ≡ length p.used + suc (length cur) =
            ap length p.split ∙ length-append p.used (t ∷ cur) in
          let pos = p.nonempty in omega arith

  pub binary_level-Sound :
      (l : Level) (n : ℕ) (next : Parser A)
      → Sound (tighter l) n next
      → Sound l n (binary_level (operator_at l) next)
  unfolding binary_level
  binary_level-Sound l n next sound ts h e = Returns-bind (sound ts h e) λ (left, rest) p.
      binary_loop-Returns l n next sound (length rest) left ts rest (omega arith) (omega arith)
        (Parsed-tight l ts (left, rest) p)

-- A punctuation token that the source expects, and the tokens behind it.
abbrev pub Expected : Text → Tokens → Tokens → Type 0
Expected v ts rest = (t : Token) × (ts ≡ t ∷ rest) × (is_punct v t ≡ true) × Ends rest

pub expect_punct-Returns :
    (v : Text) (ts : Tokens) → Ends ts → Returns (Expected v ts) (PointsInto ts) (expect_punct v ts)
unfolding expect_punct
expect_punct-Returns v [] e = absurd e
expect_punct-Returns v (t ∷ ts) e =
    Returns-if (is_punct v t)
      (λ h. returned (
        t,
        ap (λ r. t ∷ r) (sym (advance-eq t ts (is_punct→is_eof v t h))),
        h,
        rw (advance-eq t ts (is_punct→is_eof v t h)) (Ends-tail t ts e (is_punct→is_eof v t h)),
      ))
      λ _. failed (inl refl)
