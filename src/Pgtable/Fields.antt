-- ===== src/Pgtable/Fields.antt =====
-- What FIELD_GET and FIELD_PREP of linux/casestudies/pgtable.c do to the fields of a word.
use Prim.Native.Nat.{bit_and, bit_or}
use native.Mathlib.Nat.{div-le_self, mod-le}
use refined_c.Base.{
  ℕ, ◌+◌, ◌-◌, ◌/◌, ◌%◌, ◌^◌, ◌≤◌, ◌<◌, ◌≡◌, refl, not, ◌&&◌, if◌then◌else◌, arith, ap, ◌∙◌, ltb,
  leb, ltb→lt, ltb→ge, Bool-cases, inl, inr, ◌⊎◌,
}
use refined_c.Base.Bits.{
  testbit, ones, bit_not, testbit-bit_and, testbit-bit_or, testbit-bit_not, bit_and-le, bit_or-le,
}
use refined_c.Base.Words.{suc-ones, testbit-shr, testbit-mod, testbit-high, testbit-ext}
use refined_c.Pgtable.{word, shl, genmask, bf_shf, field_get, field_prep}
use refined_c.Pgtable.Digits.{
  testbit-field_get, testbit-field_prep, testbit-genmask, genmask-le, ones-le,
}

pub field_get-le : (mask reg : ℕ) → reg < word → field_get mask reg ≤ ones 64
unfolding field_get
field_get-le mask reg lt =
    omega (
      arith,
      div-le_self (bit_and reg mask) (2 ^ bf_shf mask),
      bit_and-le 64 reg mask (omega arith),
    )

pub field_prep-le : (mask val : ℕ) → field_prep mask val ≤ ones 64
unfolding field_prep
field_prep-le mask val = bit_and-le 64 (shl val (bf_shf mask)) mask (omega arith)

slice-le : (reg l k : ℕ) → reg < word → reg / 2 ^ l % 2 ^ k ≤ ones 64
slice-le reg l k lt = omega (arith, div-le_self reg (2 ^ l), mod-le (reg / 2 ^ l) (2 ^ k))

-- FIELD_GET with the mask of GENMASK from `l` to `h`, below 64, is the slice of these digits of a
-- 64-bit word.
pub field_get-genmask :
    (h l reg : ℕ)
    → l ≤ h
    → h < 64
    → reg < word
    → field_get (genmask h l) reg ≡ reg / 2 ^ l % 2 ^ (h - l + 1)
field_get-genmask h l reg le lt fits =
    testbit-ext 64 (field_get (genmask h l) reg) (reg / 2 ^ l % 2 ^ (h - l + 1))
      (field_get-le (genmask h l) reg fits) (slice-le reg l (h - l + 1) fits)
      (λ i less.
        rw
          (
            testbit-field_get h l reg i le lt,
            testbit-mod (h - l + 1) (reg / 2 ^ l) i,
            testbit-shr l reg i,
          )
          (ground arith))

-- `w` with the field of the mask set to `v`
abbrev pub update_field : (mask w v : ℕ) → ℕ
update_field mask w v = bit_or (bit_and w (bit_not 64 mask)) (field_prep mask v)

testbit-update_field :
    (h l w v i : ℕ)
    → l ≤ h
    → h < 64
    → w < word
    → testbit (update_field (genmask h l) w v) i
      ≡ (if leb l i && leb i h then testbit v (i - l) else testbit w i)
testbit-update_field h l w v i le lt fits =
    let mask = genmask h l in
    let cleared : testbit (bit_and w (bit_not 64 mask)) i ≡ (testbit w i && not (testbit mask i)) =
      elim (Bool-cases (ltb i 64)) [
        | inl inside ↦
            testbit-bit_and i w (bit_not 64 mask)
            ∙ ap (λ t. testbit w i && t)
                (testbit-bit_not 64 i mask (genmask-le h l (omega arith)) (ltb→lt i 64 inside))
        | inr outside ↦
            let high = testbit-high 64 w i (omega arith) (ltb→ge i 64 outside) in
            rw (testbit-bit_and i w (bit_not 64 mask), high) refl
      ] in
    rw
      (
        testbit-bit_or i (bit_and w (bit_not 64 mask)) (field_prep mask v),
        cleared,
        testbit-field_prep h l v i le lt,
        testbit-genmask h l i le lt,
      )
      (ground arith)

update_field-lt : (mask w v : ℕ) → w < word → update_field mask w v < word
update_field-lt mask w v fits = omega (
  arith,
  bit_or-le 64 (bit_and w (bit_not 64 mask)) (field_prep mask v)
      (bit_and-le 64 w (bit_not 64 mask) (omega arith)) (field_prep-le mask v),
)

-- A value that fits the field from `l` to `h`, and that FIELD_PREP puts into the cleared field of
-- a 64-bit word, is read back by FIELD_GET; and FIELD_GET reads the same as before from a field
-- that is apart from it.
pub field_get-field_prep :
    (h l w v top low : ℕ)
    → l ≤ h
    → h < 64
    → w < word
    → v < 2 ^ (h - l + 1)
    → low ≤ top
    → top < 64
    → (top < l) ⊎ (h < low)
    → (field_get (genmask h l) (update_field (genmask h l) w v) ≡ v)
      × (field_get (genmask top low) (update_field (genmask h l) w v)
          ≡ field_get (genmask top low) w)
field_get-field_prep h l w v top low le lt fits small le' lt' apart =
    let small' : v ≤ ones (h - l + 1) = omega (arith, suc-ones (h - l + 1)) in
    let read_back : (i : ℕ)
        → testbit (field_get (genmask h l) (update_field (genmask h l) w v)) i ≡ testbit v i =
      λ i.
        let e : i + l - l ≡ i = omega arith in
        elim (Bool-cases (leb (i + l) h)) [
          | inl inside ↦
              rw
                (
                  testbit-field_get h l (update_field (genmask h l) w v) i le lt,
                  testbit-update_field h l w v (i + l) le lt fits,
                  inside,
                  e,
                )
                (ground arith)
          | inr outside ↦
              rw
                (
                  testbit-field_get h l (update_field (genmask h l) w v) i le lt,
                  outside,
                  testbit-high (h - l + 1) v i small' (ground arith),
                )
                (ground arith)
        ] in
    (
      testbit-ext 64 (field_get (genmask h l) (update_field (genmask h l) w v)) v
          (field_get-le (genmask h l) (update_field (genmask h l) w v)
            (update_field-lt (genmask h l) w v fits))
          (omega (arith, small', ones-le 64 (h - l + 1) (omega arith))) (λ i less. read_back i),
      testbit-ext 64 (field_get (genmask top low) (update_field (genmask h l) w v))
          (field_get (genmask top low) w)
          (field_get-le (genmask top low) (update_field (genmask h l) w v)
            (update_field-lt (genmask h l) w v fits))
          (field_get-le (genmask top low) w fits)
          (λ i less.
            rw
              (
                testbit-field_get top low (update_field (genmask h l) w v) i le' lt',
                testbit-field_get top low w i le' lt',
                testbit-update_field h l w v (i + low) le lt fits,
              )
              (ground arith)),
    )
