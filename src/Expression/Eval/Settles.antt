-- ===== src/Expression/Eval/Settles.antt =====
-- Postconditions of an evaluation that does not panic, and the rules for its parts.
use atomyx.Prelude.{
  ℕ, ◌≡◌, refl, Bool, true, false, Option, none, some, if◌then◌else◌, Text, codes, ◌++◌,
}
use mathlib.Core.Option
use atomyx.Expression.Outcome.{EvalError}
use atomyx.Expression.Float.{FloatOps}
use atomyx.Expression.FormatNumber.Shape.{FormatsScientific, format_number-total}
use atomyx.Expression.FormatNumber.{format_number}
use atomyx.Expression.Value.{Value}
use atomyx.Expression.Eval.Messages.{
  Evaluated, value, error, ◌>>=◌, error_at, describe_value, describe_arithmetic_rejection,
  describe_logical_rejection, describe_comparison_rejection, with_both, cannot_use,
  boolean_in_arithmetic, other_in_arithmetic, number_in_logic, other_in_logic,
}

-- A value with `P`, or an error with `Q`, and no panic.
pub data Settles {V : Type 0} (P : V → Type 0) (Q : EvalError → Type 0) : Evaluated V → Type 0 where
  gives : {v : V} → P v → Settles P Q (value v)
  raises : {e : EvalError} → Q e → Settles P Q (error e)

module _ {V : Type 0} {P : V → Type 0} {Q : EvalError → Type 0} where
  pub Settles-bind :
      {W : Type 0} {R : W → Type 0} {m : Evaluated V} {f : V → Evaluated W}
      → Settles P Q m
      → ((v : V) → P v → Settles R Q (f v))
      → Settles R Q (m >>= f)
  Settles-bind (gives {v} h) k = k v h
  Settles-bind (raises h) k = raises h

  pub Settles-map :
      {P' : V → Type 0} {Q' : EvalError → Type 0} {m : Evaluated V}
      → Settles P Q m
      → ((v : V) → P v → P' v)
      → ((e : EvalError) → Q e → Q' e)
      → Settles P' Q' m
  Settles-map (gives {v} h) f g = gives (f v h)
  Settles-map (raises {e} h) f g = raises (g e h)

  pub Settles-if :
      (b : Bool) {x y : Evaluated V}
      → (b ≡ true → Settles P Q x)
      → (b ≡ false → Settles P Q y)
      → Settles P Q (if b then x else y)
  Settles-if true f g = f refl
  Settles-if false f g = g refl

-- The message is built without a panic.
abbrev pub IsBuilt : Option Text → Type 0
IsBuilt none = ⊥
IsBuilt (some t) = Unit

pub Settles-error_at :
    {V : Type 0} {P : V → Type 0} {Q : EvalError → Type 0} (p : ℕ) (m : Option Text)
    → IsBuilt m
    → ((t : Text) → Q (record { message = t; position = p }))
    → Settles P Q (error_at p m)
Settles-error_at p none b q = absurd b
Settles-error_at p (some t) b q = raises (q t)

IsBuilt-map : (g : Text → Text) (m : Option Text) → IsBuilt m → IsBuilt (Option.map g m)
IsBuilt-map g none b = absurd b
IsBuilt-map g (some t) b = tt

pub IsBuilt-eq : (m : Option Text) (t : Text) → m ≡ some t → IsBuilt m
IsBuilt-eq m t e = rw e tt

with_both-IsBuilt : (l r : Option Text) → IsBuilt l → IsBuilt r → IsBuilt (with_both l r)
with_both-IsBuilt (some l) (some r) a b = tt
with_both-IsBuilt (some l) none a b = absurd b
with_both-IsBuilt none r a b = absurd a

module _ {A : Type 0} (ops : FloatOps A) (formats : FormatsScientific ops) where
  pub describe_value-IsBuilt : (v : Value A) → IsBuilt (describe_value ops v)
  unfolding describe_value
  describe_value-IsBuilt (Value.string s) = tt
  describe_value-IsBuilt (Value.bool true) = tt
  describe_value-IsBuilt (Value.bool false) = tt
  describe_value-IsBuilt (Value.number f) =
      let (t, e) = format_number-total ops formats f in
      IsBuilt-map _ (format_number ops f) (IsBuilt-eq (format_number ops f) t e)

  cannot_use-IsBuilt : (advice : Text) (v : Value A) → IsBuilt (cannot_use ops advice v)
  cannot_use-IsBuilt advice v =
      IsBuilt-map (λ t. codes "cannot use " ++ (t ++ advice)) (describe_value ops v)
        (describe_value-IsBuilt v)

  pub describe_arithmetic_rejection-IsBuilt :
      (v : Value A) → IsBuilt (describe_arithmetic_rejection ops v)
  unfolding describe_arithmetic_rejection
  describe_arithmetic_rejection-IsBuilt (Value.bool b) =
      cannot_use-IsBuilt boolean_in_arithmetic (Value.bool b)
  describe_arithmetic_rejection-IsBuilt v = cannot_use-IsBuilt other_in_arithmetic v

  pub describe_logical_rejection-IsBuilt :
      (v : Value A) → IsBuilt (describe_logical_rejection ops v)
  unfolding describe_logical_rejection
  describe_logical_rejection-IsBuilt (Value.number f) =
      cannot_use-IsBuilt number_in_logic (Value.number f)
  describe_logical_rejection-IsBuilt v = cannot_use-IsBuilt other_in_logic v

  pub describe_comparison_rejection-IsBuilt :
      (l r : Value A) → IsBuilt (describe_comparison_rejection ops l r)
  unfolding describe_comparison_rejection
  describe_comparison_rejection-IsBuilt l r =
      with_both-IsBuilt (describe_value ops l) (describe_value ops r) (describe_value-IsBuilt l)
        (describe_value-IsBuilt r)
