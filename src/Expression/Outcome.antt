-- ===== src/Expression/Outcome.antt =====
-- core/internal/script/expression/errors.go, and the outcome of a run of the lexer or the parser.
use atomyx.Prelude.{ℕ, ◌≡◌, refl, subst, Text, Bool, true, false, if◌then◌else◌}

pub record ParseError : Type 0 where
  pub message : Text
  pub position : ℕ

pub record EvalError : Type 0 where
  pub message : Text
  pub position : ℕ

-- `panic` is a Go index out of range. `out_of_fuel` belongs to the model only.
pub data Outcome (A : Type 0) : Type 0 where
  ok : A → Outcome A
  fail : ParseError → Outcome A
  panic out_of_fuel : Outcome A

infixl 1 ◌>>=◌
abbrev pub ◌>>=◌ : {A B : Type 0} → Outcome A → (A → Outcome B) → Outcome B
ok a >>= f = f a
fail e >>= f = fail e
panic >>= f = panic
out_of_fuel >>= f = out_of_fuel

-- The run returns: a value with `P`, or an error with `Q`; it neither panics nor runs out of fuel.
pub data Returns {A : Type 0} (P : A → Type 0) (Q : ParseError → Type 0) : Outcome A → Type 0 where
  returned : {a : A} → P a → Returns P Q (ok a)
  failed : {e : ParseError} → Q e → Returns P Q (fail e)

module _ {A : Type 0} {P : A → Type 0} {Q : ParseError → Type 0} where
  pub Returns-bind :
      {B : Type 0} {R : B → Type 0} {m : Outcome A} {f : A → Outcome B}
      → Returns P Q m
      → ((a : A) → P a → Returns R Q (f a))
      → Returns R Q (m >>= f)
  Returns-bind (returned {a} h) k = k a h
  Returns-bind (failed h) k = failed h

  pub Returns-map :
      {P' : A → Type 0} {Q' : ParseError → Type 0} {m : Outcome A}
      → Returns P Q m
      → ((a : A) → P a → P' a)
      → ((e : ParseError) → Q e → Q' e)
      → Returns P' Q' m
  Returns-map (returned {a} h) k l = returned (k a h)
  Returns-map (failed {e} h) k l = failed (l e h)

  pub Returns-if :
      (b : Bool) {x y : Outcome A}
      → (b ≡ true → Returns P Q x)
      → (b ≡ false → Returns P Q y)
      → Returns P Q (if b then x else y)
  Returns-if true hx hy = hx refl
  Returns-if false hx hy = hy refl

  pub Returns-ok : {m : Outcome A} {a : A} → Returns P Q m → m ≡ ok a → P a
  Returns-ok (returned h) e = subst P (cc) h
  Returns-ok (failed h) e = cc

  pub Returns-fail : {m : Outcome A} {e : ParseError} → Returns P Q m → m ≡ fail e → Q e
  Returns-fail (returned h) p = cc
  Returns-fail (failed h) p = subst Q (cc) h

  pub Returns-self : {m : Outcome A} → Returns P Q m → Returns (λ a. P a × (m ≡ ok a)) Q m
  Returns-self (returned h) = returned (h, refl)
  Returns-self (failed h) = failed h
