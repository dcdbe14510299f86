-- ===== src/Base/Outcomes.antt =====
-- What holds of the result of a chain of steps that may have none.
use mathlib.Core.Path.{◌≡◌, subst}
use mathlib.Core.Option.{Option, none, some}
use ctx_weft.Base.Tests.{◌>>=◌}

-- What every result has, where there is one.
abbrev pub Every {ℓ κ} : {A : Type ℓ} → (A → Type κ) → Option A → Type κ
Every P none = Unit
Every P (some a) = P a

module _ {ℓ κ μ} {A : Type ℓ} {B : Type κ} (P : B → Type μ) where
  pub each : (o : Option A) (f : A → Option B) → ((a : A) → Every P (f a)) → Every P (o >>= f)
  each none f h = tt
  each (some a) f h = h a

  pub each_bind :
      (Q : A → Type μ) (o : Option A) (f : A → Option B)
      → Every Q o
      → ((a : A) → Q a → Every P (f a))
      → Every P (o >>= f)
  each_bind Q none f before h = tt
  each_bind Q (some a) f before h = h a before

pub every_result {ℓ κ} :
    {A : Type ℓ} (P : A → Type κ) (o : Option A) (a : A) → Every P o → o ≡ some a → P a
every_result P none a h found = cc
every_result P (some b) a h found = let same : b ≡ a = cc in subst P same h

-- A weaker property of every result.
pub weaker_result {ℓ κ μ} :
    {A : Type ℓ} (P : A → Type κ) (Q : A → Type μ) (o : Option A)
    → Every P o
    → ((a : A) → P a → Q a)
    → Every Q o
weaker_result P Q none before h = tt
weaker_result P Q (some a) before h = h a before
