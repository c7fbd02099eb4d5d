-- ===== src/Prelude/Lists.antt =====
-- Lists measured and indexed by native numbers, under the library's names, and predicates on lists
-- that compute.
use Prim.Native.Nat.{ℕ, zero, suc, ◌+◌, ◌-◌, ◌≤◌, min}
use mathlib.Core.Path.{◌≡◌, refl, ap, subst}
use mathlib.Core.Logic.{◌↔◌, inl, inr}
use mathlib.Core.List.{List, [], ◌∷◌, ◌++◌, map}
use mathlib.Core.Option.{Option, none, some}
use mathlib.Core.Bool.{Bool, true}
use native.Mathlib.Omega.{arith}
use atomyx.Prelude.Tests.{if◌then◌else◌, Bool-cases}

module _ {ℓ} {A : Type ℓ} where
  abbrev pub length : List A → ℕ
  length [] = 0
  length (x ∷ xs) = suc (length xs)

  abbrev pub get_elem? : List A → ℕ → Option A
  get_elem? [] i = none
  get_elem? (x ∷ xs) zero = some x
  get_elem? (x ∷ xs) (suc i) = get_elem? xs i

  abbrev pub take : ℕ → List A → List A
  take zero xs = []
  take (suc n) [] = []
  take (suc n) (x ∷ xs) = x ∷ take n xs

  abbrev pub drop : ℕ → List A → List A
  drop zero xs = xs
  drop (suc n) [] = []
  drop (suc n) (x ∷ xs) = drop n xs

  pub length-append : (xs ys : List A) → length (xs ++ ys) ≡ length xs + length ys
  length-append [] ys = omega arith
  length-append (x ∷ xs) ys = omega (arith, length-append xs ys)

module _ {ℓ} {A : Type ℓ} where
  pub length-take : (n : ℕ) (xs : List A) → length (take n xs) ≡ min n (length xs)
  length-take zero xs = omega arith
  length-take (suc n) [] = omega arith
  length-take (suc n) (x ∷ xs) = omega (arith, length-take n xs)

  pub length-drop : (n : ℕ) (xs : List A) → length (drop n xs) ≡ length xs - n
  length-drop zero xs = omega arith
  length-drop (suc n) [] = omega arith
  length-drop (suc n) (x ∷ xs) = omega (arith, length-drop n xs)

  pub take-append-drop : (n : ℕ) (xs : List A) → take n xs ++ drop n xs ≡ xs
  take-append-drop zero xs = refl
  take-append-drop (suc n) [] = refl
  take-append-drop (suc n) (x ∷ xs) = ap (λ l. x ∷ l) (take-append-drop n xs)

  pub length-map {κ} : {B : Type κ} (xs : List A) (f : A → B) → length (map f xs) ≡ length xs
  length-map [] f = refl
  length-map (x ∷ xs) f = ap suc (length-map xs f)

-- A property of each element, as a tuple that the tactics read.
abbrev pub All {ℓ κ} : {A : Type ℓ} → (A → Type κ) → List A → Type κ
All P [] = Unit
All P (x ∷ xs) = P x × All P xs

pub All-append {ℓ κ} :
    {A : Type ℓ} (P : A → Type κ) (xs ys : List A) → All P xs → All P ys → All P (xs ++ ys)
All-append P [] ys h k = k
All-append P (x ∷ xs) ys (p, h) k = (p, All-append P xs ys h k)

pub All-left {ℓ κ} : {A : Type ℓ} (P : A → Type κ) (xs ys : List A) → All P (xs ++ ys) → All P xs
All-left P [] ys h = tt
All-left P (x ∷ xs) ys (p, h) = (p, All-left P xs ys h)

pub All-right {ℓ κ} : {A : Type ℓ} (P : A → Type κ) (xs ys : List A) → All P (xs ++ ys) → All P ys
All-right P [] ys h = h
All-right P (x ∷ xs) ys (p, h) = All-right P xs ys h

pub All-imp {ℓ κ μ} :
    {A : Type ℓ} (P : A → Type κ) (Q : A → Type μ) (xs : List A)
    → ((x : A) → P x → Q x)
    → All P xs
    → All Q xs
All-imp P Q [] f h = tt
All-imp P Q (x ∷ xs) f (p, h) = (f x p, All-imp P Q xs f h)

pub All-any {ℓ κ} : {A : Type ℓ} (P : A → Type κ) (xs : List A) → ((x : A) → P x) → All P xs
All-any P [] f = tt
All-any P (x ∷ xs) f = (f x, All-any P xs f)

pub All-both {ℓ κ μ} :
    {A : Type ℓ} (P : A → Type κ) (Q : A → Type μ) (xs : List A)
    → All P xs
    → All Q xs
    → All (λ x. P x × Q x) xs
All-both P Q [] h k = tt
All-both P Q (x ∷ xs) (p, h) (q, k) = ((p, q), All-both P Q xs h k)

pub All-get_elem {ℓ κ} :
    {A : Type ℓ} (P : A → Type κ) (xs : List A) (i : ℕ) (x : A)
    → All P xs
    → get_elem? xs i ≡ some x
    → P x
All-get_elem P [] i x h e = ground arith
All-get_elem P (y ∷ xs) zero x (p, h) e = grind arith
All-get_elem P (y ∷ xs) (suc i) x (p, h) e = All-get_elem P xs i x h e

pub map-append {ℓ κ} :
    {A : Type ℓ} {B : Type κ} (f : A → B) (xs ys : List A) → map f (xs ++ ys) ≡ map f xs ++ map f ys
map-append f [] ys = refl
map-append f (x ∷ xs) ys = ap (λ l. f x ∷ l) (map-append f xs ys)

-- An element of a list, by an index at which it stands.
abbrev pub IsOneOf {ℓ} : {A : Type ℓ} → List A → A → Type ℓ
IsOneOf xs x = (i : ℕ) × (get_elem? xs i ≡ some x)

pub All-IsOneOf {ℓ} : {A : Type ℓ} (xs : List A) → All (IsOneOf xs) xs
All-IsOneOf [] = tt
All-IsOneOf (x ∷ xs) = (
  (0, refl),
  All-imp (IsOneOf xs) (IsOneOf (x ∷ xs)) xs (λ y (i, e). (suc i, e)) (All-IsOneOf xs),
)

-- `Counts P xs n`: of the elements, `n` have a property.
pub data Counts {ℓ κ} {A : Type ℓ} (P : A → Type κ) : List A → ℕ → Type (ℓ ⊔ κ) where
  none_left : Counts P [] 0
  counted : {x : A} {xs : List A} {n : ℕ} → P x → Counts P xs n → Counts P (x ∷ xs) (suc n)
  passed_over : {x : A} {xs : List A} {n : ℕ} → (P x → ⊥) → Counts P xs n → Counts P (x ∷ xs) n

-- How many elements pass a test.
unfoldable pub count_if {ℓ} : {A : Type ℓ} → (A → Bool) → List A → ℕ
count_if p [] = 0
count_if p (x ∷ xs) = (if p x then 1 else 0) + count_if p xs

pub count_if-bound {ℓ} : {A : Type ℓ} (p : A → Bool) (xs : List A) → count_if p xs ≤ length xs
unfolding count_if
count_if-bound p [] = omega arith
count_if-bound p (x ∷ xs) = ground (arith, count_if-bound p xs)

-- All are counted exactly if all pass.
pub count_if-All {ℓ} :
    {A : Type ℓ} (p : A → Bool) (xs : List A) → count_if p xs ≡ length xs → All (λ x. p x ≡ true) xs
unfolding count_if
count_if-All p [] e = tt
count_if-All p (x ∷ xs) e = (
  ground (arith, e, count_if-bound p xs),
  count_if-All p xs (ground (arith, e, count_if-bound p xs)),
)

pub All-count_if {ℓ} :
    {A : Type ℓ} (p : A → Bool) (xs : List A) → All (λ x. p x ≡ true) xs → count_if p xs ≡ length xs
unfolding count_if
All-count_if p [] h = refl
All-count_if p (x ∷ xs) (e, h) = rw e (omega (arith, All-count_if p xs h))

pub count_if-Counts {ℓ κ} :
    {A : Type ℓ} (P : A → Type κ) (p : A → Bool)
    → ((x : A) → (p x ≡ true) ↔ P x)
    → (xs : List A) → Counts P xs (count_if p xs)
unfolding count_if
count_if-Counts P p same [] = none_left
count_if-Counts P p same (x ∷ xs) = elim (Bool-cases (p x)) [
  | inl e ↦
      subst (Counts P (x ∷ xs)) (rw e (omega arith))
        (counted ((same x).0 e) (count_if-Counts P p same xs))
  | inr e ↦ subst (Counts P (x ∷ xs)) (rw e (omega arith)) (
      passed_over (λ h. let yes_ : p x ≡ true = (same x).1 h in ground (arith, e, yes_))
        (count_if-Counts P p same xs))
]

pub Counts-bound {ℓ κ} :
    {A : Type ℓ} {P : A → Type κ} {xs : List A} {n : ℕ} → Counts P xs n → n ≤ length xs
Counts-bound none_left = omega arith
Counts-bound (counted h c) = omega (arith, Counts-bound c)
Counts-bound (passed_over h c) = omega (arith, Counts-bound c)

-- Those that are left have the opposite property.
pub Counts-rest {ℓ κ μ} :
    {A : Type ℓ} (P : A → Type κ) (Q : A → Type μ) {xs : List A} {n : ℕ}
    → ((x : A) → (P x → ⊥) → Q x)
    → ((x : A) → P x → Q x → ⊥)
    → Counts P xs n
    → Counts Q xs (length xs - n)
Counts-rest P Q other apart none_left = none_left
Counts-rest P Q other apart (counted {x} {xs} {n} h c) =
    subst (Counts Q (x ∷ xs)) (omega arith)
      (passed_over (apart x h) (Counts-rest P Q other apart c))
Counts-rest P Q other apart (passed_over {x} {xs} {n} h c) =
    subst (Counts Q (x ∷ xs)) (omega (arith, Counts-bound c))
      (counted (other x h) (Counts-rest P Q other apart c))
