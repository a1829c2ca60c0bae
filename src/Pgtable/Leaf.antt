-- ===== src/Pgtable/Leaf.antt =====
-- The entry that kvm_set_valid_leaf_pte of linux/casestudies/pgtable.c writes.
use Prim.Native.Nat.{bit_and, bit_or}
use refined_c.Base.{
  sym, ℕ, ◌+◌, ◌/◌, ◌%◌, ◌^◌, ◌≤◌, ◌<◌, ◌≡◌, refl, true, false, ◌==◌, ◌&&◌, ◌||◌, if◌then◌else◌,
  arith, ◌∙◌, leb, ==_refl,
}
use refined_c.Base.Bits.{
  testbit-zero, testbit, ones, testbit-bit_and, testbit-bit_or, bit_and-le, bit_or-le,
}
use refined_c.Base.Words.{slice-ext}
use refined_c.Pgtable.{
  word, leaf_attr_lo, leaf_attr_hi, kvm_pte_valid, kvm_pte_table, kvm_phys_to_pte,
  kvm_set_valid_leaf_pte,
}
use refined_c.Pgtable.Digits.{testbit-genmask}
use refined_c.Pgtable.Entries.{testbit-kvm_phys_to_pte, kvm_phys_to_pte-le}
use refined_c.Pgtable.Mappings.{sealed, testbit-sealed, sealed-le, kvm_pte_table-sealed}

abbrev leaf_base : (pa attr : ℕ) → ℕ
leaf_base pa attr = bit_or (kvm_phys_to_pte pa) (bit_and attr (bit_or leaf_attr_lo leaf_attr_hi))

abbrev leaf_type : (level : ℕ) → ℕ
leaf_type level = if level == 3 then 1 else 0

testbit-leaf_base :
    (pa attr i : ℕ)
    → testbit (leaf_base pa attr) i ≡ (
        (testbit pa i && (leb 12 i && leb i 47))
        || (testbit attr i && ((leb 2 i && leb i 11) || (leb 51 i && leb i 63))))
testbit-leaf_base pa attr i =
    rw
      (
        testbit-bit_or i (kvm_phys_to_pte pa) (bit_and attr (bit_or leaf_attr_lo leaf_attr_hi)),
        testbit-kvm_phys_to_pte pa i,
        testbit-bit_and i attr (bit_or leaf_attr_lo leaf_attr_hi),
        testbit-bit_or i leaf_attr_lo leaf_attr_hi,
        testbit-genmask 11 2 i (omega arith) (omega arith),
        testbit-genmask 63 51 i (omega arith) (omega arith),
      )
      refl

leaf_base-le : (pa attr : ℕ) → pa < word → attr < word → leaf_base pa attr ≤ ones 64
leaf_base-le pa attr small fits =
    bit_or-le 64 (kvm_phys_to_pte pa) (bit_and attr (bit_or leaf_attr_lo leaf_attr_hi))
      (kvm_phys_to_pte-le pa small)
      (bit_and-le 64 attr (bit_or leaf_attr_lo leaf_attr_hi) (omega arith))

-- The digits of the sealed entry
testbit-leaf :
    (pa attr level i : ℕ)
    → testbit (sealed (leaf_base pa attr) (leaf_type level)) i ≡ (
        (((testbit pa i && (leb 12 i && leb i 47))
            || (testbit attr i && ((leb 2 i && leb i 11) || (leb 51 i && leb i 63))))
          || (testbit (leaf_type level) 0 && (i == 1)))
        || (0 == i))
testbit-leaf pa attr level i =
    rw (testbit-sealed (leaf_base pa attr) (leaf_type level) i, testbit-leaf_base pa attr i) refl

-- A leaf entry by its digits: from the lowest, the valid bit, the type, which is set at the last level,
-- the lower attributes, the address from digit 12 to 47, three unused digits, and the upper attributes.
pub record IsLeaf (pa attr level pte : ℕ) : Type 0 where
  pub valid : pte % 2 ≡ 1
  pub type : pte / 2 % 2 ≡ (if level == 3 then 1 else 0)
  pub attr_lo : pte / 2 ^ 2 % 2 ^ 10 ≡ attr / 2 ^ 2 % 2 ^ 10
  pub address : pte / 2 ^ 12 % 2 ^ 36 ≡ pa / 2 ^ 12 % 2 ^ 36
  pub unused : pte / 2 ^ 48 % 2 ^ 3 ≡ 0
  pub attr_hi : pte / 2 ^ 51 ≡ attr / 2 ^ 51
  pub fits : pte < 2 ^ 64

testbit-leaf_type : (level : ℕ) → testbit (leaf_type level) 0 ≡ (level == 3)
unfolding testbit
testbit-leaf_type level = ground arith

-- The fields of the entry, digit by digit
digit-attr :
    (pa attr level i : ℕ)
    → ((leb 2 i && leb i 11) || (leb 51 i && leb i 63)) ≡ true
    → testbit (sealed (leaf_base pa attr) (leaf_type level)) i ≡ testbit attr i
digit-attr pa attr level i inside = testbit-leaf pa attr level i ∙ ground arith

digit-address :
    (pa attr level i : ℕ)
    → (leb 12 i && leb i 47) ≡ true
    → testbit (sealed (leaf_base pa attr) (leaf_type level)) i ≡ testbit pa i
digit-address pa attr level i inside = testbit-leaf pa attr level i ∙ ground arith

digit-unused :
    (pa attr level i : ℕ)
    → (leb 48 i && leb i 50) ≡ true
    → testbit (sealed (leaf_base pa attr) (leaf_type level)) i ≡ testbit 0 i
digit-unused pa attr level i inside =
    testbit-leaf pa attr level i ∙ (ground arith ∙ sym (testbit-zero i))

digit-valid : (pa attr level : ℕ) → testbit (sealed (leaf_base pa attr) (leaf_type level)) 0 ≡ true
digit-valid pa attr level = testbit-leaf pa attr level 0 ∙ ground arith

digit-type :
    (pa attr level : ℕ) → testbit (sealed (leaf_base pa attr) (leaf_type level)) 1 ≡ (level == 3)
digit-type pa attr level =
    testbit-leaf pa attr level 1 ∙ rw (testbit-leaf_type level) (ground arith)

valid_digit : (pte : ℕ) → testbit pte 0 ≡ true → pte % 2 ≡ 1
unfolding testbit
valid_digit pte e = ground arith

type_digit :
    (pte level : ℕ) → testbit pte 1 ≡ (level == 3) → pte / 2 % 2 ≡ (if level == 3 then 1 else 0)
unfolding testbit
type_digit pte level e = ground arith

sealed-IsLeaf :
    (pa attr level : ℕ)
    → pa < word
    → attr < word
    → IsLeaf pa attr level (sealed (leaf_base pa attr) (leaf_type level))
sealed-IsLeaf pa attr level small fits =
    let pte = sealed (leaf_base pa attr) (leaf_type level) in
    let bound = sealed-le (leaf_base pa attr) (leaf_type level) (leaf_base-le pa attr small fits) in
    let high =
      slice-ext pte attr 51 13 (λ i lt. digit-attr pa attr level (i + 51) (ground arith)) in
    record {
      valid = valid_digit pte (digit-valid pa attr level);
      type = type_digit pte level (digit-type pa attr level);
      attr_lo = slice-ext pte attr 2 10 (λ i lt. digit-attr pa attr level (i + 2) (ground arith));
      address =
          slice-ext pte pa 12 36 (λ i lt. digit-address pa attr level (i + 12) (ground arith));
      unused = slice-ext pte 0 48 3 (λ i lt. digit-unused pa attr level (i + 48) (ground arith));
      attr_hi = omega (arith, high, bound);
      fits = bound;
    }

-- On an invalid old entry and 64-bit arguments, kvm_set_valid_leaf_pte returns true and writes a
-- valid entry that is no table at its level, each of whose digits is as the address, the leaf
-- attributes and the level say.
pub kvm_set_valid_leaf_pte-invalid :
    (old pa attr level : ℕ)
    → pa < word
    → attr < word
    → kvm_pte_valid old ≡ false
    → (pte : ℕ) × (kvm_set_valid_leaf_pte old pa attr level ≡ (true, pte))
      × (kvm_pte_valid pte ≡ true)
      × (kvm_pte_table pte level ≡ false)
      × IsLeaf pa attr level pte
unfolding kvm_set_valid_leaf_pte testbit
kvm_set_valid_leaf_pte-invalid old pa attr level small fits invalid =
    let base = leaf_base pa attr in
    let bound = leaf_base-le pa attr small fits in
    let untyped : testbit base 1 ≡ false = testbit-leaf_base pa attr 1 ∙ ground arith in
    let entry = kvm_pte_table-sealed base (leaf_type level) level bound untyped in
    let run : kvm_set_valid_leaf_pte old pa attr level ≡ (true, sealed base (leaf_type level)) =
      rw invalid refl in
    (
      sealed base (leaf_type level),
      run,
      entry.0,
      entry.1 ∙ ground arith,
      sealed-IsLeaf pa attr level small fits,
    )

kvm_set_valid_leaf_pte-sealed :
    (pa attr level : ℕ)
    → kvm_pte_valid (sealed (leaf_base pa attr) (leaf_type level)) ≡ true
    → kvm_set_valid_leaf_pte (sealed (leaf_base pa attr) (leaf_type level)) pa attr level
      ≡ (true, sealed (leaf_base pa attr) (leaf_type level))
unfolding kvm_set_valid_leaf_pte
kvm_set_valid_leaf_pte-sealed pa attr level valid =
    rw (valid, ==_refl (sealed (leaf_base pa attr) (leaf_type level))) refl

kvm_set_valid_leaf_pte-valid :
    (old pa attr level : ℕ)
    → kvm_pte_valid old ≡ true
    → (kvm_set_valid_leaf_pte old pa attr level).1 ≡ old
unfolding kvm_set_valid_leaf_pte
kvm_set_valid_leaf_pte-valid old pa attr level valid = rw valid refl

-- After kvm_set_valid_leaf_pte has written a leaf over an invalid entry, with 64-bit arguments,
-- the same call again returns true and leaves the entry, and a call with any other arguments
-- leaves the entry.
pub kvm_set_valid_leaf_pte-kvm_set_valid_leaf_pte :
    (old pa attr level : ℕ)
    → pa < word
    → attr < word
    → kvm_pte_valid old ≡ false
    → let pte = (kvm_set_valid_leaf_pte old pa attr level).1 in
      (kvm_set_valid_leaf_pte pte pa attr level ≡ (true, pte))
      × ((pa' attr' level' : ℕ) → (kvm_set_valid_leaf_pte pte pa' attr' level').1 ≡ pte)
unfolding kvm_set_valid_leaf_pte
kvm_set_valid_leaf_pte-kvm_set_valid_leaf_pte old pa attr level small fits invalid =
    let bound = leaf_base-le pa attr small fits in
    let untyped : testbit (leaf_base pa attr) 1 ≡ false =
      testbit-leaf_base pa attr 1 ∙ ground arith in
    let valid =
      (kvm_pte_table-sealed (leaf_base pa attr) (leaf_type level) level bound untyped).0 in
    rw (invalid) (
      kvm_set_valid_leaf_pte-sealed pa attr level valid,
      λ pa' attr' level'.
          kvm_set_valid_leaf_pte-valid (sealed (leaf_base pa attr) (leaf_type level)) pa' attr'
            level' valid,
    )
