-- ===== src/Runner/Returns.antt =====
-- core/internal/runner: what holds of the value that a computation returns, if it returns one, and
-- that it returns one.
use atomyx.Prelude.{◌≡◌, refl, Option, none, some}
use atomyx.Runner.Steps.{◌>>=◌}

unfoldable pub Upholds {ℓ} : {A : Type ℓ} → (A → Type 0) → Option A → Type 0
Upholds P none = Unit
Upholds P (some a) = P a

pub Upholds-bind {ℓ κ} :
    {A : Type ℓ} {B : Type κ} (P : A → Type 0) (Q : B → Type 0) (m : Option A) (f : A → Option B)
    → Upholds P m
    → ((a : A) → P a → Upholds Q (f a))
    → Upholds Q (m >>= f)
unfolding Upholds
Upholds-bind P Q none f p next = tt
Upholds-bind P Q (some a) f p next = next a p

unfoldable pub Returns {ℓ} : {A : Type ℓ} → Option A → Type 0
Returns none = ⊥
Returns (some a) = Unit

-- A computation returns if its first part does and the next returns for every value of the first.
pub Returns-bind {ℓ κ} :
    {A : Type ℓ} {B : Type κ} (m : Option A) (f : A → Option B)
    → Returns m
    → ((a : A) → Returns (f a))
    → Returns (m >>= f)
unfolding Returns
Returns-bind none f r next = elim r [ ]
Returns-bind (some a) f r next = next a

pub Upholds-trivial {ℓ} : {A : Type ℓ} (m : Option A) → Upholds (λ a. Unit) m
unfolding Upholds
Upholds-trivial none = tt
Upholds-trivial (some a) = tt

-- What a computation returns is what it computes to.
pub Upholds-self : {A : Type 0} (m : Option A) → Upholds (λ a. m ≡ some a) m
unfolding Upholds
Upholds-self none = tt
Upholds-self (some a) = refl
