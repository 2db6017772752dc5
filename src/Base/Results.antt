-- ===== src/Base/Results.antt =====
-- How a piece of kernel code ends, and the monad of it.
use mathlib.Core.Path.{◌≡◌, refl, ap}
use mathlib.Core.Bool.{Bool, true, false}
use knos.Base.Tests.{if◌then◌else◌}
use mathlib.Core.Logic.{◌⊎◌, inl, inr}
use mathlib.Core.Option.{Option, none, some}

-- `ok a`: the code returned `a`. `fault`: it did something C leaves undefined, such as an access
-- outside an array or a shift by 64 or more. `halted`: it entered an endless loop on purpose (the
-- `hlt` loops behind `fatalk`). `no_fuel`: the bound on the rounds of a loop was too small.
pub data Result {ℓ} (A : Type ℓ) : Type ℓ where
  ok : A → Result A
  fault : Result A
  halted : Result A
  no_fuel : Result A

-- The code goes on with what came before it only if that returned.
infixl 5 ◌>>=◌
abbrev pub ◌>>=◌ {ℓ κ} :
    {A : Type ℓ} {B : Type κ} (first : Result A) (rest : A → Result B) → Result B
◌>>=◌ fault rest = fault
◌>>=◌ halted rest = halted
◌>>=◌ no_fuel rest = no_fuel
◌>>=◌ (ok a) rest = rest a

-- An array access that must be in range.
abbrev pub in_range {ℓ} : {A : Type ℓ} → Option A → Result A
in_range none = fault
in_range (some a) = ok a

pub ok-injective {ℓ} : {A : Type ℓ} {a b : A} → ok a ≡ ok b → a ≡ b
ok-injective h = cc

-- If a sequence returned, so did its first part.
pub >>=-ok {ℓ κ} :
    {A : Type ℓ} {B : Type κ} {end : B} (first : Result A) (rest : A → Result B)
    → (first >>= rest) ≡ ok end
    → (middle : A) × (first ≡ ok middle) × (rest middle ≡ ok end)
>>=-ok fault rest ended = cc
>>=-ok halted rest ended = cc
>>=-ok no_fuel rest ended = cc
>>=-ok (ok a) rest ended = (a, refl, ended)

pub in_range-ok {ℓ} : {A : Type ℓ} (o : Option A) {a : A} → in_range o ≡ ok a → o ≡ some a
in_range-ok none h = cc
in_range-ok (some b) h = cc

-- The code faulted or returned a value with the property: it neither halted nor ran out of fuel.
abbrev pub Ends {ℓ κ} : {A : Type ℓ} → (A → Type κ) → Result A → Type (ℓ ⊔ κ)
Ends P r = (r ≡ fault) ⊎ ((a : _) × (r ≡ ok a) × P a)

pub ok-Ends {ℓ κ} : {A : Type ℓ} (P : A → Type κ) (a : A) → P a → Ends P (ok a)
ok-Ends P a h = inr (a, refl, h)

pub >>=-Ends {ℓ κ} :
    {A B : Type ℓ} (P : A → Type κ) (Q : B → Type κ) (first : Result A) (rest : A → Result B)
    → Ends P first
    → ((a : A) → P a → Ends Q (rest a))
    → Ends Q (first >>= rest)
>>=-Ends P Q first rest (inl e) goes_on = inl (ap (λ r. r >>= rest) e)
>>=-Ends P Q first rest (inr (a, e, h)) goes_on = rw e (goes_on a h)

pub if-Ends {ℓ κ} :
    {A : Type ℓ} (P : A → Type κ) (test : Bool) (a b : Result A)
    → Ends P a
    → Ends P b
    → Ends P (if test then a else b)
if-Ends P true a b h k = h
if-Ends P false a b h k = k
