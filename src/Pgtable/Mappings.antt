-- ===== src/Pgtable/Mappings.antt =====
-- The entry that kvm_set_table_pte of linux/casestudies/pgtable.c writes.
use Prim.Native.Nat.{bit_and, bit_or}
use refined_c.Base.{ℕ, ◌≤◌, ◌<◌, ◌≡◌, refl, true, false, not, ◌==◌, ◌&&◌, ◌||◌, arith, ◌∙◌, leb}
use refined_c.Base.Run.{ok, fault}
use refined_c.Base.Bits.{testbit, ones, testbit-bit_and, testbit-bit_or, bit_and-le, bit_or-le}
use refined_c.Base.Words.{testbit-ext}
use refined_c.Pgtable.{
  word, bit, field_prep, pte_type, pte_valid, pte_addr_mask, kvm_pte_valid, kvm_pte_table,
  kvm_phys_to_pte, kvm_set_table_pte,
}
use refined_c.Pgtable.Digits.{testbit-genmask}
use refined_c.Pgtable.Fields.{field_prep-le}
use refined_c.Pgtable.Entries.{
  testbit-bit, field_get-type, kvm_pte_valid-testbit, testbit-field_prep_type,
  testbit-kvm_phys_to_pte, kvm_phys_to_pte-le,
}

-- An entry with its type and its valid bit set.
abbrev pub sealed : (base type : ℕ) → ℕ
sealed base type = bit_or (bit_or base (field_prep pte_type type)) pte_valid

pub testbit-sealed :
    (base type i : ℕ)
    → testbit (sealed base type) i ≡ ((testbit base i || (testbit type 0 && (i == 1))) || (0 == i))
testbit-sealed base type i =
    rw
      (
        testbit-bit_or i (bit_or base (field_prep pte_type type)) pte_valid,
        testbit-bit_or i base (field_prep pte_type type),
        testbit-field_prep_type type i,
        testbit-bit 0 i (omega arith),
      )
      refl

pub sealed-le : (base type : ℕ) → base ≤ ones 64 → sealed base type < word
unfolding bit
sealed-le base type fits = omega (
  arith,
  bit_or-le 64 (bit_or base (field_prep pte_type type)) 1
      (bit_or-le 64 base (field_prep pte_type type) fits (field_prep-le pte_type type))
      (omega arith),
)

-- A sealed entry is valid, and it points to a table as the type and the level say.
pub kvm_pte_table-sealed :
    (base type level : ℕ)
    → base ≤ ones 64
    → testbit base 1 ≡ false
    → (kvm_pte_valid (sealed base type) ≡ true)
      × (kvm_pte_table (sealed base type) level ≡ (not (level == 3) && testbit type 0))
unfolding kvm_pte_table
kvm_pte_table-sealed base type level fits untyped =
    let word_size = sealed-le base type fits in
    let valid : kvm_pte_valid (sealed base type) ≡ true =
      kvm_pte_valid-testbit (sealed base type) word_size
      ∙ (testbit-sealed base type 0 ∙ ground arith) in
    let digit : testbit (sealed base type) 1 ≡ testbit type 0 =
      testbit-sealed base type 1 ∙ rw untyped (ground arith) in
    (valid, rw (valid, field_get-type (sealed base type) word_size, digit) (ground arith))

-- The address field of a sealed entry.
pub bit_and-sealed :
    (base type pa : ℕ)
    → base ≤ ones 64
    → pa < word
    → ((i : ℕ)
        → (testbit base i && (leb 12 i && leb i 47)) ≡ (testbit pa i && (leb 12 i && leb i 47)))
    → bit_and (sealed base type) pte_addr_mask ≡ kvm_phys_to_pte pa
bit_and-sealed base type pa fits small same =
    testbit-ext 64 (bit_and (sealed base type) pte_addr_mask) (kvm_phys_to_pte pa)
      (bit_and-le 64 (sealed base type) pte_addr_mask (omega (arith, sealed-le base type fits)))
      (kvm_phys_to_pte-le pa small)
      (λ i lt.
        let address = same i in
        rw
          (
            testbit-bit_and i (sealed base type) pte_addr_mask,
            testbit-sealed base type i,
            testbit-genmask 47 12 i (omega arith) (omega arith),
            testbit-kvm_phys_to_pte pa i,
          )
          (ground arith))

-- On a valid old entry, and a child with a 64-bit physical address, kvm_set_table_pte writes a
-- valid entry with the child's address that is a table at every level but the last.
pub kvm_set_table_pte-kvm_pte_table :
    (virt_to_phys : ℕ → ℕ) (old childp : ℕ)
    → virt_to_phys childp < word
    → kvm_pte_valid old ≡ true
    → (pte : ℕ) × (kvm_set_table_pte virt_to_phys old childp ≡ ok pte)
      × (kvm_pte_valid pte ≡ true)
      × ((level : ℕ) → kvm_pte_table pte level ≡ not (level == 3))
      × (bit_and pte pte_addr_mask ≡ kvm_phys_to_pte (virt_to_phys childp))
unfolding kvm_set_table_pte testbit
kvm_set_table_pte-kvm_pte_table virt_to_phys old childp small valid =
    let pa = virt_to_phys childp in
    let base = kvm_phys_to_pte pa in
    let fits = kvm_phys_to_pte-le pa small in
    let untyped : testbit base 1 ≡ false = testbit-kvm_phys_to_pte pa 1 ∙ ground arith in
    let entry = λ (level : ℕ). kvm_pte_table-sealed base 1 level fits untyped in
    let run : kvm_set_table_pte virt_to_phys old childp ≡ ok (sealed base 1) = rw valid refl in
    (
      sealed base 1,
      run,
      (entry 0).0,
      λ level. (entry level).1 ∙ ground arith,
      bit_and-sealed base 1 pa fits small (λ i. rw (testbit-kvm_phys_to_pte pa i) (ground arith)),
    )

-- On an invalid old entry, the assertion that stands for the warning fails.
pub kvm_set_table_pte-fault :
    (virt_to_phys : ℕ → ℕ) (old childp : ℕ)
    → kvm_pte_valid old ≡ false
    → kvm_set_table_pte virt_to_phys old childp ≡ fault
unfolding kvm_set_table_pte
kvm_set_table_pte-fault virt_to_phys old childp invalid = rw invalid refl
