-- ===== src/Prelude/Fault.antt =====
-- Memory faults: `none` is a read or a write outside an object, which C leaves undefined.
use Prim.Native.Nat.{ℕ}
use mathlib.Core.Option.{Option, none, some}
use mathlib.Core.List.{List}
use tsl_sdr.Prelude.Tests.{ltb, if◌then◌else◌}
use tsl_sdr.Prelude.Lists.{length, get_elem?, set}

infixl 5 ◌>>=◌ ◌>>◌
abbrev pub ◌>>=◌ {ℓ κ} : {A : Type ℓ} {B : Type κ} → Option A → (A → Option B) → Option B
none >>= f = none
some a >>= f = f a

abbrev pub ◌>>◌ {ℓ} : {B : Type ℓ} → Option (Unit {0}) → Option B → Option B
m >> k = m >>= λ _. k

-- `a[i]`
abbrev pub load {ℓ} : {A : Type ℓ} → List A → ℕ → Option A
load = get_elem?

-- `a[i] = v`
abbrev pub store {ℓ} : {A : Type ℓ} → List A → ℕ → A → Option (List A)
store xs i v = if ltb i (length xs) then some (set xs i v) else none
