-- ===== src/Base/Run.antt =====
-- The result of running C code: a value, undefined behaviour, a deliberate endless loop, or a
-- model's loop that used up its fuel.
use mathlib.Core.Path.{◌≡◌, sym, ◌∙◌, subst}
use mathlib.Core.Option.{Option, none, some}
use mathlib.Core.Bool.{Bool, true, false}

pub data Run {ℓ} (A : Type ℓ) : Type ℓ where
  ok : A → Run A
  fault : Run A
  hang : Run A
  out_of_fuel : Run A

-- `abbrev`, so that `ok a >>= f` computes wherever it stands.
infixl 5 ◌>>=◌ ◌>>◌
abbrev pub ◌>>=◌ {ℓ κ} : {X : Type ℓ} {Y : Type κ} → Run X → (X → Run Y) → Run Y
fault >>= next = fault
hang >>= next = hang
out_of_fuel >>= next = out_of_fuel
ok x >>= next = next x

abbrev pub ◌>>◌ {ℓ} : {B : Type ℓ} → Run (Unit {0}) → Run B → Run B
m >> k = m >>= λ _. k

-- A read that is undefined behaviour where there is nothing to read.
abbrev pub need {ℓ} : {A : Type ℓ} → Option A → Run A
need none = fault
need (some a) = ok a

-- `assert(b)`
abbrev pub check : Bool → Run (Unit {0})
check true = ok tt
check false = fault

-- The run ends normally, with a result that satisfies `P`.
abbrev pub Returns {ℓ κ} : {X : Type ℓ} → Run X → (X → Type κ) → Type (ℓ ⊔ κ)
Returns {X} run Good = (x : X) × (run ≡ ok x) × Good x

ok-injective {ℓ} : {A : Type ℓ} {a b : A} → ok a ≡ ok b → a ≡ b
ok-injective e = cc

-- What holds of a run's result holds of a result that was computed otherwise.
pub Returns-ok {ℓ κ} :
    {A : Type ℓ} {P : A → Type κ} {r : Run A} {a : A} → Returns r P → r ≡ ok a → P a
Returns-ok {P} (b, run, p) e = subst P (ok-injective (sym run ∙ e)) p
