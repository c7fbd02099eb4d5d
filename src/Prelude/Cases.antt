-- ===== src/Prelude/Cases.antt =====
-- Proofs by cases on a value that the goal computes with, where each branch is proved alike.
use mathlib.Core.Path.{◌≡◌, refl}
use mathlib.Core.Bool.{Bool, true, false}
use mathlib.Core.Option.{Option, none, some}
use mathlib.Core.Logic.{◌⊎◌, inl, inr}
use atomyx.Prelude.Tests.{if◌then◌else◌}

module _ {ℓ κ} {A : Type ℓ} (P : A → Type κ) where
  pub on_bool : (b : Bool) {t e : A} → P t → P e → P (if b then t else e)
  on_bool true p q = p
  on_bool false p q = q

  pub on_option {μ} :
      {B : Type μ} (o : Option B) {n : A} {s : B → A}
      → P n
      → ((b : B) → P (s b))
      → P (elim o [ none ↦ n | some b ↦ s b ])
  on_option none p q = p
  on_option (some b) p q = q b

  pub on_sum {μ ν} :
      {B : Type μ} {C : Type ν} (x : B ⊎ C) {f : B → A} {g : C → A}
      → ((b : B) → P (f b))
      → ((c : C) → P (g c))
      → P (elim x [ inl b ↦ f b | inr c ↦ g c ])
  on_sum (inl b) p q = p b
  on_sum (inr c) p q = q c

  -- The same, with what the value is.
  pub on_option_at {μ} :
      {B : Type μ} (o : Option B) {n : A} {s : B → A}
      → P n
      → ((b : B) → o ≡ some b → P (s b))
      → P (elim o [ none ↦ n | some b ↦ s b ])
  on_option_at none p q = p
  on_option_at (some b) p q = q b refl

  pub on_bool_at :
      (b : Bool) {t e : A} → (b ≡ true → P t) → (b ≡ false → P e) → P (if b then t else e)
  on_bool_at true p q = p refl
  on_bool_at false p q = q refl

  pub on_none_at {μ} :
      {B : Type μ} (o : Option B) {n : A} {s : B → A}
      → (o ≡ none → P n)
      → ((b : B) → P (s b))
      → P (elim o [ none ↦ n | some b ↦ s b ])
  on_none_at none p q = p refl
  on_none_at (some b) p q = q b

  pub on_either_at {μ} :
      {B : Type μ} (o : Option B) {n : A} {s : B → A}
      → (o ≡ none → P n)
      → ((b : B) → o ≡ some b → P (s b))
      → P (elim o [ none ↦ n | some b ↦ s b ])
  on_either_at none p q = p refl
  on_either_at (some b) p q = q b refl
