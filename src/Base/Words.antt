-- ===== src/Base/Words.antt =====
-- Words digit by digit: shifts, remainders, and equality of words.
use native.Mathlib.Nat.{
  pow-suc, div-div-eq-div-mul, add-mul-mod_self_left, mod-eq_of_lt, mod-add-div, mod-lt, mul_assoc,
}
use refined_c.Base.{
  ℕ, zero, suc, ◌+◌, ◌-◌, ◌*◌, ◌/◌, ◌%◌, ◌^◌, ◌≤◌, ◌<◌, ◌≡◌, refl, true, false, ◌&&◌, arith, ◌==◌,
  ◌∙◌, ap, sym, leb, ltb, if◌then◌else◌,
}
use Prim.Native.Nat.{bit_xor}
use refined_c.Base.Bits.{testbit, ones, testbit-zero, bit_xor_step, differ-add}

pub suc-ones : (w : ℕ) → ones w + 1 ≡ 2 ^ w
suc-ones zero = refl
suc-ones (suc w) = omega (arith, suc-ones w, pow-suc 2 w)

halve_shift : (k x : ℕ) → x / 2 ^ suc k ≡ x / 2 / 2 ^ k
halve_shift k x =
    ap (λ t. x / t) (omega (arith, pow-suc 2 k)) ∙ sym (div-div-eq-div-mul x 2 (2 ^ k))

-- `x >> k`
pub testbit-shr : (k x i : ℕ) → testbit (x / 2 ^ k) i ≡ testbit x (i + k)
unfolding testbit
testbit-shr zero x i =
    let e : x / 1 ≡ x = omega arith in
    let f : i ≡ i + 0 = omega arith in ap (λ t. testbit t i) e ∙ ap (testbit x) f
testbit-shr (suc k) x i =
    let e : suc (i + k) ≡ i + suc k = omega arith in
    ap (λ t. testbit t i) (halve_shift k x) ∙ (testbit-shr k (x / 2) i ∙ ap (testbit x) e)

double_shift : (k x : ℕ) → x * 2 ^ suc k ≡ 2 * (x * 2 ^ k)
double_shift k x = ap (λ t. x * t) (pow-suc 2 k) ∙ omega (arith, mul_assoc x (2 ^ k) 2)

-- `x << k`, before it is cut to a word
pub testbit-shl : (k x i : ℕ) → testbit (x * 2 ^ k) i ≡ (leb k i && testbit x (i - k))
unfolding testbit
testbit-shl zero x i =
    let e : x * 1 ≡ x = omega arith in
    let f : i ≡ i - 0 = omega arith in
    let g : leb 0 i ≡ true = ground arith in rw g (ap (λ t. testbit t i) e ∙ ap (testbit x) f)
testbit-shl (suc k) x zero = ground (arith, double_shift k x)
testbit-shl (suc k) x (suc i) =
    ap (λ t. testbit t i) (omega (arith, double_shift k x)) ∙ (testbit-shl k x i ∙ ground arith)

mod_double : (p x : ℕ) → 0 < p → x % (2 * p) ≡ x % 2 + 2 * (x / 2 % p)
mod_double p x h =
    let a = x / 2 in
    let low = x % 2 + 2 * (a % p) in
    let e : x ≡ low + 2 * p * (a / p) =
      omega (arith, mod-add-div (x / 2) p, mul_assoc 2 p (x / 2 / p)) in
    let lt : low < 2 * p = omega (arith, mod-lt (x / 2) h) in
    ap (λ t. t % (2 * p)) e ∙ (add-mul-mod_self_left low (2 * p) (a / p) ∙ mod-eq_of_lt lt)

testbit-mod_step : (w x : ℕ) → x % 2 ^ suc w ≡ x % 2 + 2 * (x / 2 % 2 ^ w)
testbit-mod_step w x =
    ap (λ t. x % t) (omega (arith, pow-suc 2 w)) ∙ mod_double (2 ^ w) x (omega (arith, suc-ones w))

-- `x` cut to a word of `w` digits
pub testbit-mod : (w x i : ℕ) → testbit (x % 2 ^ w) i ≡ (ltb i w && testbit x i)
unfolding testbit
testbit-mod zero x i = ap (λ t. testbit t i) (omega arith) ∙ (testbit-zero i ∙ ground arith)
testbit-mod (suc w) x zero = ground (arith, testbit-mod_step w x)
testbit-mod (suc w) x (suc i) =
    ap (λ t. testbit t i) (omega (arith, testbit-mod_step w x))
    ∙ (testbit-mod w (x / 2) i ∙ ground arith)

pub testbit-ones : (w i : ℕ) → testbit (ones w) i ≡ ltb i w
unfolding testbit
testbit-ones zero i = testbit-zero i ∙ ground arith
testbit-ones (suc w) zero = ground arith
testbit-ones (suc w) (suc i) =
    ap (λ t. testbit t i) (omega arith) ∙ (testbit-ones w i ∙ ground arith)

-- The digits of a word of `w` digits above these.
pub testbit-high : (w x i : ℕ) → x ≤ ones w → w ≤ i → testbit x i ≡ false
unfolding testbit
testbit-high zero zero i h le = testbit-zero i
testbit-high zero (suc x) i h le = absurd (omega arith)
testbit-high (suc w) x zero h le = absurd (omega arith)
testbit-high (suc w) x (suc i) h le = testbit-high w (x / 2) i (omega arith) (omega arith)

-- Words with the same digits are the same.
pub testbit-ext :
    (w a b : ℕ) → a ≤ ones w → b ≤ ones w → ((i : ℕ) → i < w → testbit a i ≡ testbit b i) → a ≡ b
unfolding testbit
testbit-ext zero a b p q h = omega arith
testbit-ext (suc w) a b p q h =
    let rest =
      testbit-ext w (a / 2) (b / 2) (omega arith) (omega arith) (λ i lt. h (suc i) (omega arith)) in
    let low = h 0 (omega arith) in ground (arith, rest)

-- `x ^ 0`, `x ^ 1`, and `^` on two multiples of a power of two
bit_xor_zero_fuel : (fuel x : ℕ) → x ≤ fuel → bit_xor x 0 ≡ x
bit_xor_zero_fuel fuel zero h = refl
bit_xor_zero_fuel zero (suc x) h = absurd (omega arith)
bit_xor_zero_fuel (suc fuel) (suc x) h = ground (
  arith,
  bit_xor_step (suc x) 0,
  differ-add (suc x % 2) 0,
  bit_xor_zero_fuel fuel (suc x / 2) (omega arith),
)

pub bit_xor_one : (x : ℕ) → bit_xor x 1 ≡ (if x % 2 == 1 then x - 1 else x + 1)
bit_xor_one x =
    ground (
      arith,
      bit_xor_step x 1,
      differ-add (x % 2) 1,
      bit_xor_zero_fuel (x / 2) (x / 2) (omega arith),
    )

bit_xor_double : (x y : ℕ) → bit_xor (2 * x) (2 * y) ≡ 2 * bit_xor x y
bit_xor_double x y =
    let a : 2 * x / 2 ≡ x = omega arith in
    let b : 2 * y / 2 ≡ y = omega arith in
    let step = bit_xor_step (2 * x) (2 * y) in
    let low = differ-add (2 * x % 2) (2 * y % 2) (omega arith) (omega arith) in
    let same : bit_xor (2 * x / 2) (2 * y / 2) ≡ bit_xor x y = rw (a, b) refl in
    omega (arith, step, low, same)

pub bit_xor-shl : (n x y : ℕ) → bit_xor (x * 2 ^ n) (y * 2 ^ n) ≡ bit_xor x y * 2 ^ n
bit_xor-shl zero x y =
    let a : x * 1 ≡ x = omega arith in let b : y * 1 ≡ y = omega arith in rw (a, b) (omega arith)
bit_xor-shl (suc n) x y =
    rw
      (
        double_shift n x,
        double_shift n y,
        double_shift n (bit_xor x y),
        bit_xor_double (x * 2 ^ n) (y * 2 ^ n),
        bit_xor-shl n x y,
      )
      refl

-- Numbers with the same digits in a field have the same slice there.
pub slice-ext :
    (x y l k : ℕ)
    → ((i : ℕ) → i < k → testbit x (i + l) ≡ testbit y (i + l))
    → x / 2 ^ l % 2 ^ k ≡ y / 2 ^ l % 2 ^ k
slice-ext x y l k same =
    testbit-ext k (x / 2 ^ l % 2 ^ k) (y / 2 ^ l % 2 ^ k) (slice-le_ones x l k)
      (slice-le_ones y l k)
      (λ i lt.
        rw
          (
            testbit-mod k (x / 2 ^ l) i,
            testbit-mod k (y / 2 ^ l) i,
            testbit-shr l x i,
            testbit-shr l y i,
            same i lt,
          )
          refl)
  where
    slice-le_ones : (x l k : ℕ) → x / 2 ^ l % 2 ^ k ≤ ones k
    slice-le_ones x l k = omega (arith, suc-ones k)
