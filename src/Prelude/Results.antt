-- ===== src/Prelude/Results.antt =====
-- What holds of every result of a computation that may be undefined.
use mathlib.Core.Path.{◌≡◌, refl, subst, ap}
use native.Mathlib.Omega.{arith}
use mathlib.Core.Bool.{Bool, true, false}
use mathlib.Core.Option.{Option, none, some}
use ax_kernel.Prelude.Tests.{if◌then◌else◌}

value_or {ℓ} : {A : Type ℓ} → A → Option A → A
value_or d none = d
value_or d (some a) = a

pub some_inj {ℓ} : {A : Type ℓ} (a b : A) → some a ≡ some b → a ≡ b
unfolding value_or
some_inj a b e = ap (value_or a) e

abbrev pub Every {ℓ κ} : {A : Type ℓ} → (A → Type κ) → Option A → Type (ℓ ⊔ κ)
Every {A = A} P o = (a : A) → o ≡ some a → P a

pub Every-none {ℓ κ} : {A : Type ℓ} (P : A → Type κ) → Every P none
Every-none P a e = ground (arith, e)

pub Every-some {ℓ κ} : {A : Type ℓ} (P : A → Type κ) (x : A) → P x → Every P (some x)
Every-some P x p a e = subst P (some_inj x a e) p

pub Every-if {ℓ κ} :
    {A : Type ℓ} (P : A → Type κ) (b : Bool) {x y : Option A}
    → (b ≡ true → Every P x)
    → (b ≡ false → Every P y)
    → Every P (if b then x else y)
Every-if P true f g = f refl
Every-if P false f g = g refl

-- A chain of such computations.
infixl 5 ◌>>=◌
abbrev pub ◌>>=◌ {ℓ κ} : {A : Type ℓ} {B : Type κ} → Option A → (A → Option B) → Option B
none >>= f = none
some a >>= f = f a

pub >>=-eq-some {ℓ κ} :
    {A : Type ℓ} {B : Type κ} (m : Option A) (f : A → Option B) {b : B}
    → (m >>= f) ≡ some b
    → (a : A) × ((m ≡ some a) × (f a ≡ some b))
>>=-eq-some none f e = absurd (ground (arith, e))
>>=-eq-some (some a) f e = (a, (refl, e))

pub >>=_assoc {ℓ κ μ} :
    {A : Type ℓ} {B : Type κ} {C : Type μ} (m : Option A) (f : A → Option B) (g : B → Option C)
    → ((m >>= f) >>= g) ≡ (m >>= λ a. f a >>= g)
>>=_assoc none f g = refl
>>=_assoc (some a) f g = refl

pub Every-chain {ℓ κ μ} :
    {A : Type ℓ} {B : Type κ} (P : B → Type μ) (m : Option A) (f : A → Option B)
    → ((a : A) → m ≡ some a → Every P (f a))
    → Every P (m >>= f)
Every-chain P none f h = Every-none P
Every-chain P (some a) f h = h a refl
