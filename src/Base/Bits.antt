-- ===== src/Base/Bits.antt =====
-- Binary digits of machine words: what `|`, `&`, `^`, `~` and shifts of C do to each digit.
use Prim.Native.Nat.{
  min, max, digits, bitwise, differ, bit_and, bit_or, bit_xor, bit_and-bitwise, bit_or-bitwise,
  bit_xor-bitwise,
}
use native.Mathlib.Nat.{pow-suc}
use refined_c.Base.{
  ℕ, zero, suc, ◌+◌, ◌-◌, ◌*◌, ◌/◌, ◌%◌, ◌^◌, ◌≤◌, ◌<◌, ◌≡◌, refl, Bool, true, false, not, ◌&&◌,
  ◌||◌, arith, ◌==◌, ◌∙◌, ap,
}

-- Digit `i` of `x`.
unfoldable pub testbit : ℕ → ℕ → Bool
testbit x zero = x % 2 == 1
testbit x (suc i) = testbit (x / 2) i

-- A word of `w` ones.
abbrev pub ones : ℕ → ℕ
ones zero = 0
ones (suc w) = ones w * 2 + 1

-- `~x` on words of `w` digits
abbrev pub bit_not : ℕ → ℕ → ℕ
bit_not w x = ones w - x

module _ (rest : ℕ → ℕ) (f : ℕ → ℕ → ℕ) where
  -- More fuel than `x` changes nothing.
  enough_digits :
      (x fuel y : ℕ)
      → (more : ℕ) → x ≤ more
      → x ≤ fuel
      → digits rest f fuel x y ≡ digits rest f more x y
  enough_digits zero zero y zero p q = refl
  enough_digits zero zero y (suc more) p q = refl
  enough_digits zero (suc fuel) y zero p q = refl
  enough_digits zero (suc fuel) y (suc more) p q = refl
  enough_digits (suc x) zero y more p q = absurd (omega arith)
  enough_digits (suc x) (suc fuel) y zero p q = absurd (omega arith)
  enough_digits (suc x) (suc fuel) y (suc more) p q =
      rw (enough_digits (suc x / 2) fuel (y / 2) more (omega arith) (omega arith))

  lowest_digit :
      (x y : ℕ)
      → bitwise rest f (suc x) y ≡ f (suc x % 2) (y % 2) + 2 * bitwise rest f (suc x / 2) (y / 2)
  lowest_digit x y =
      let fuel = enough_digits (suc x / 2) x (y / 2) (suc x / 2) (omega arith) (omega arith) in
      omega (arith, fuel)

-- Each operation on its lowest digit.
pub bit_xor_step : (x y : ℕ) → bit_xor x y ≡ differ (x % 2) (y % 2) + 2 * bit_xor (x / 2) (y / 2)
bit_xor_step zero y = simp bit_xor-bitwise (omega arith)
bit_xor_step (suc x) y = simp bit_xor-bitwise (lowest_digit (λ t. t) differ x y)

bit_or_step : (x y : ℕ) → bit_or x y ≡ max (x % 2) (y % 2) + 2 * bit_or (x / 2) (y / 2)
bit_or_step zero y = simp bit_or-bitwise (omega arith)
bit_or_step (suc x) y = simp bit_or-bitwise (lowest_digit (λ t. t) max x y)

bit_and_step : (x y : ℕ) → bit_and x y ≡ min (x % 2) (y % 2) + 2 * bit_and (x / 2) (y / 2)
bit_and_step zero y = simp bit_and-bitwise (omega arith)
bit_and_step (suc x) y = simp bit_and-bitwise (lowest_digit (λ t. 0) min x y)

pub differ-add : (a b : ℕ) → a < 2 → b < 2 → differ a b ≡ (a + b) % 2
differ-add zero zero p q = refl
differ-add zero (suc zero) p q = refl
differ-add zero (suc (suc b)) p q = absurd (omega arith)
differ-add (suc zero) zero p q = refl
differ-add (suc zero) (suc zero) p q = refl
differ-add (suc zero) (suc (suc b)) p q = absurd (omega arith)
differ-add (suc (suc a)) b p q = absurd (omega arith)

abbrev pub xor : Bool → Bool → Bool
xor true b = not b
xor false b = b

pub testbit-bit_or : (i a b : ℕ) → testbit (bit_or a b) i ≡ (testbit a i || testbit b i)
unfolding testbit
testbit-bit_or zero a b = ground (arith, bit_or_step a b)
testbit-bit_or (suc i) a b =
    ap (λ t. testbit t i) (omega (arith, bit_or_step a b)) ∙ testbit-bit_or i (a / 2) (b / 2)

pub testbit-bit_and : (i a b : ℕ) → testbit (bit_and a b) i ≡ (testbit a i && testbit b i)
unfolding testbit
testbit-bit_and zero a b = ground (arith, bit_and_step a b)
testbit-bit_and (suc i) a b =
    ap (λ t. testbit t i) (omega (arith, bit_and_step a b)) ∙ testbit-bit_and i (a / 2) (b / 2)

pub testbit-bit_xor : (i a b : ℕ) → testbit (bit_xor a b) i ≡ xor (testbit a i) (testbit b i)
unfolding testbit
testbit-bit_xor zero a b = ground (arith, bit_xor_step a b, differ-add (a % 2) (b % 2))
testbit-bit_xor (suc i) a b =
    ap (λ t. testbit t i) (ground (arith, bit_xor_step a b, differ-add (a % 2) (b % 2)))
    ∙ testbit-bit_xor i (a / 2) (b / 2)

pub testbit-bit_not : (w i x : ℕ) → x ≤ ones w → i < w → testbit (bit_not w x) i ≡ not (testbit x i)
unfolding testbit
testbit-bit_not zero i x fits lt = absurd (omega arith)
testbit-bit_not (suc w) zero x fits lt = ground arith
testbit-bit_not (suc w) (suc i) x fits lt =
    ap (λ t. testbit t i) (omega arith) ∙ testbit-bit_not w i (x / 2) (omega arith) (omega arith)

pub testbit-zero : (i : ℕ) → testbit 0 i ≡ false
unfolding testbit
testbit-zero zero = refl
testbit-zero (suc i) = testbit-zero i

-- `1 << k`
pub testbit-pow : (k i : ℕ) → testbit (2 ^ k) i ≡ (k == i)
unfolding testbit
testbit-pow zero zero = refl
testbit-pow zero (suc i) = testbit-zero i ∙ ground arith
testbit-pow (suc k) zero = ground (arith, pow-suc 2 k)
testbit-pow (suc k) (suc i) =
    ap (λ t. testbit t i) (omega (arith, pow-suc 2 k)) ∙ (testbit-pow k i ∙ ground arith)

-- The results stay words.
pub bit_or-le : (w a b : ℕ) → a ≤ ones w → b ≤ ones w → bit_or a b ≤ ones w
bit_or-le zero zero b p q = simp bit_or-bitwise q
bit_or-le zero (suc a) b p q = absurd (omega arith)
bit_or-le (suc w) a b p q =
    omega (arith, bit_or_step a b, bit_or-le w (a / 2) (b / 2) (omega arith) (omega arith))

pub bit_and-le : (w a b : ℕ) → a ≤ ones w → bit_and a b ≤ ones w
bit_and-le zero zero b p = simp bit_and-bitwise (omega arith)
bit_and-le zero (suc a) b p = absurd (omega arith)
bit_and-le (suc w) a b p =
    omega (arith, bit_and_step a b, bit_and-le w (a / 2) (b / 2) (omega arith))

pub pow-le-ones : (w k : ℕ) → k < w → 2 ^ k ≤ ones w
pow-le-ones zero k h = absurd (omega arith)
pow-le-ones (suc w) zero h = omega arith
pow-le-ones (suc w) (suc k) h = omega (arith, pow-suc 2 k, pow-le-ones w k (omega arith))
