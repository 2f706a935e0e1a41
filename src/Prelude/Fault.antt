-- ===== src/Prelude/Fault.antt =====
-- Chains of steps that can fault. `none` is a fault: a null or dangling pointer, an access out of
-- range, or a loop that ran out of fuel.
use mathlib.Core.Path.{◌≡◌, refl}
use mathlib.Core.Bool.{Bool, true, false}
use mathlib.Core.Option.{Option, none, some}
use mathlib.Core.List.{List}
use geck.Prelude.Int.{ℤ, pos, negsuc}
use geck.Prelude.Lists.{get_elem?}

infixl 5 ◌>>=◌ ◌>>◌
abbrev pub ◌>>=◌ {ℓ κ} : {A : Type ℓ} {B : Type κ} → Option A → (A → Option B) → Option B
none >>= f = none
some a >>= f = f a

abbrev pub ◌>>◌ {ℓ} : {B : Type ℓ} → Option (Unit {0}) → Option B → Option B
m >> k = m >>= λ _. k

abbrev pub guard : Bool → Option (Unit {0})
guard true = some tt
guard false = none

-- The index of a list or an array is an `int`: a negative one is out of range.
abbrev pub list_get {ℓ} : {A : Type ℓ} → List A → ℤ → Option A
list_get xs (pos i) = get_elem? xs i
list_get xs (negsuc i) = none

pub >>=-eq-some {ℓ κ} :
    {A : Type ℓ} {B : Type κ} (m : Option A) (f : A → Option B) {b : B}
    → (m >>= f) ≡ some b
    → (a : A) × (m ≡ some a) × (f a ≡ some b)
>>=-eq-some none f h = absurd (cc)
>>=-eq-some (some a) f h = (a, refl, h)

pub >>=-assoc {ℓ κ μ} :
    {A : Type ℓ} {B : Type κ} {C : Type μ} (m : Option A) (f : A → Option B) (h : B → Option C)
    → (m >>= λ a. f a >>= h) ≡ (m >>= f >>= h)
>>=-assoc none f h = refl
>>=-assoc (some a) f h = refl
