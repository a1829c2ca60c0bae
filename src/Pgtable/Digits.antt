-- ===== src/Pgtable/Digits.antt =====
-- The masks and fields of linux/casestudies/pgtable.c, digit by digit.
use Prim.Native.Nat.{bit_and}
use refined_c.Base.{
  ℕ, zero, suc, ◌+◌, ◌-◌, ◌*◌, ◌%◌, ◌^◌, ◌≤◌, ◌<◌, ◌≡◌, ◌&&◌, arith, ◌∙◌, ltb, leb, Bool-cases, inl,
  inr,
}
use refined_c.Base.Bits.{
  testbit, ones, bit_not, testbit-bit_and, testbit-bit_not, bit_and-le, pow-le-ones,
}
use refined_c.Base.Words.{
  suc-ones, testbit-shr, testbit-shl, testbit-mod, testbit-ones, testbit-high,
}
use refined_c.Base.Ffs.{ffs, ffs-FirstDigit, FirstDigit-unique}
use refined_c.Pgtable.{word, shl, shr, bit, genmask, bf_shf, field_get, field_prep}

-- BIT has one digit.
pub bit-pow : (i : ℕ) → i < 64 → bit i ≡ 2 ^ i
unfolding bit
bit-pow i lt = omega (arith, pow-le-ones 64 i lt)

-- The first factor of GENMASK
low_complement : (l : ℕ) → l < 64 → (bit_not 64 0 + word - shl 1 l + 1) % word ≡ bit_not 64 (ones l)
low_complement l lt = omega (arith, pow-le-ones 64 l lt, suc-ones l)

pub ones-le : (w k : ℕ) → k ≤ w → ones k ≤ ones w
ones-le w zero le = omega arith
ones-le zero (suc k) le = absurd (omega arith)
ones-le (suc w) (suc k) le = omega (arith, ones-le w k (omega arith))

pub genmask-le : (h l : ℕ) → l < 64 → genmask h l ≤ ones 64
unfolding genmask
genmask-le h l lt = bit_and-le 64 _ (shr (bit_not 64 0) (64 - 1 - h)) (omega arith)

-- The digits of GENMASK are those from `l` to `h`.
pub testbit-genmask : (h l i : ℕ) → l ≤ h → h < 64 → testbit (genmask h l) i ≡ (leb l i && leb i h)
unfolding genmask
testbit-genmask h l i le lt = elim (Bool-cases (ltb i 64)) [
  | inl inside ↦
      let first = testbit-bit_not 64 i (ones l) (ones-le 64 l (omega arith)) (ground arith) in
      let second : testbit (shr (bit_not 64 0) (64 - 1 - h)) i ≡ ltb (i + (63 - h)) 64 =
        testbit-shr (63 - h) (ones 64) i ∙ testbit-ones 64 (i + (63 - h)) in
      rw
        (
          low_complement l (omega arith),
          testbit-bit_and i (bit_not 64 (ones l)) (shr (bit_not 64 0) (64 - 1 - h)),
          first,
          testbit-ones l i,
          second,
        )
        (ground arith)
  | inr outside ↦
      testbit-high 64 (genmask h l) i (genmask-le h l (omega arith)) (ground arith) ∙ ground arith
]

bf_shf-genmask : (h l : ℕ) → l ≤ h → h < 64 → bf_shf (genmask h l) ≡ l
unfolding bf_shf
bf_shf-genmask h l le lt =
    let first = ffs-FirstDigit 64 (genmask h l) in
    let e : ffs 64 (genmask h l) ≡ suc l =
      FirstDigit-unique 64 (genmask h l) (ffs 64 (genmask h l)) l first (omega arith)
        (testbit-genmask h l l le lt ∙ ground arith)
        (λ j less. testbit-genmask h l j le lt ∙ ground arith) in
    omega (arith, e)

pub testbit-field_get :
    (h l reg i : ℕ)
    → l ≤ h
    → h < 64
    → testbit (field_get (genmask h l) reg) i ≡ (testbit reg (i + l) && leb (i + l) h)
unfolding field_get
testbit-field_get h l reg i le lt =
    rw
      (
        bf_shf-genmask h l le lt,
        testbit-shr l (bit_and reg (genmask h l)) i,
        testbit-bit_and (i + l) reg (genmask h l),
        testbit-genmask h l (i + l) le lt,
      )
      (ground arith)

pub testbit-field_prep :
    (h l val i : ℕ)
    → l ≤ h
    → h < 64
    → testbit (field_prep (genmask h l) val) i ≡ (testbit val (i - l) && (leb l i && leb i h))
unfolding field_prep
testbit-field_prep h l val i le lt =
    rw
      (
        bf_shf-genmask h l le lt,
        testbit-bit_and i (shl val l) (genmask h l),
        testbit-genmask h l i le lt,
        testbit-mod 64 (val * 2 ^ l) i,
        testbit-shl l val i,
      )
      (ground arith)
