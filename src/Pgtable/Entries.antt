-- ===== src/Pgtable/Entries.antt =====
-- What the operations of linux/casestudies/pgtable.c do to a page table entry.
use Prim.Native.Nat.{bit_and}
use refined_c.Base.{
  ℕ, zero, suc, ◌-◌, ◌*◌, ◌/◌, ◌≤◌, ◌<◌, ◌≡◌, refl, Bool, true, false, not, ◌==◌, ◌&&◌,
  if◌then◌else◌, arith, ap, ◌∙◌, sym, leb, Bool-cases, inl, inr,
}
use mathlib.Core.Bool.{true≢false}
use refined_c.Base.Bits.{
  testbit, ones, bit_not, testbit-zero, testbit-bit_and, testbit-bit_not, testbit-pow, bit_and-le,
}
use refined_c.Base.Words.{testbit-ext}
use refined_c.Pgtable.{
  word, bit, genmask, field_get, field_prep, any_set, pte_type, pte_valid, pte_addr_mask,
  kvm_pte_valid, kvm_set_invalid_pte, kvm_phys_to_pte,
}
use refined_c.Pgtable.Digits.{bit-pow, testbit-field_prep, testbit-genmask}
use refined_c.Pgtable.Fields.{field_get-genmask}

pub testbit-bit : (k i : ℕ) → k < 64 → testbit (bit k) i ≡ (k == i)
testbit-bit k i lt = rw (bit-pow k lt) (testbit-pow k i)

-- Whether a word has the digit of BIT(k).
pub any_set-testbit : (w k : ℕ) → w < word → k < 64 → any_set w (bit k) ≡ testbit w k
unfolding any_set
any_set-testbit w k fits lt = elim (Bool-cases (testbit w k)) [
  | inl one ↦ elim (Bool-cases (bit_and w (bit k) == 0)) [
    | inl none ↦
        let e : bit_and w (bit k) ≡ 0 = ground arith in
        let digit : testbit (bit_and w (bit k)) k ≡ true =
          rw (testbit-bit_and k w (bit k), one, testbit-bit k k lt) (ground arith) in
        absurd (true≢false (sym digit ∙ (ap (λ t. testbit t k) e ∙ testbit-zero k)))
    | inr some ↦ rw (some, one) refl
  ]
  | inr unset ↦
      let hit : (i : ℕ) → (testbit w i && (k == i)) ≡ false = λ i. elim (Bool-cases (k == i)) [
        | inl same ↦ let e : i ≡ k = ground arith in rw (e, unset) refl
        | inr other ↦ rw other (ground arith)
      ] in
      let e : bit_and w (bit k) ≡ 0 =
        testbit-ext 64 (bit_and w (bit k)) 0 (bit_and-le 64 w (bit k) (omega arith)) (omega arith)
          (λ i less.
            rw (testbit-bit_and i w (bit k), testbit-bit k i lt, testbit-zero i) (hit i)) in
      rw (unset, e) refl
]

pub kvm_pte_valid-testbit : (pte : ℕ) → pte < word → kvm_pte_valid pte ≡ testbit pte 0
unfolding kvm_pte_valid
kvm_pte_valid-testbit pte fits = any_set-testbit pte 0 fits (omega arith)

digit_of : Bool → ℕ
digit_of b = if b then 1 else 0

-- The field of KVM_PTE_TYPE is one digit.
pub field_get-type :
    (pte : ℕ) → pte < word → field_get pte_type pte ≡ (if testbit pte 1 then 1 else 0)
unfolding testbit genmask bit
field_get-type pte fits =
    let e : pte_type ≡ genmask 1 1 = refl in
    ap (λ m. field_get m pte) e
    ∙ (field_get-genmask 1 1 pte (omega arith) (omega arith) fits ∙ ground arith)

only_one : (v i : ℕ) → (testbit v (i - 1) && (leb 1 i && leb i 1)) ≡ (testbit v 0 && (i == 1))
only_one v i = elim (Bool-cases (i == 1)) [
  | inl same ↦ let e : i ≡ 1 = ground arith in rw e refl
  | inr other ↦ rw other (ground arith)
]

pub testbit-field_prep_type :
    (v i : ℕ) → testbit (field_prep pte_type v) i ≡ (testbit v 0 && (i == 1))
unfolding testbit genmask bit
testbit-field_prep_type v i =
    let e : pte_type ≡ genmask 1 1 = refl in
    ap (λ m. testbit (field_prep m v) i) e
    ∙ (testbit-field_prep 1 1 v i (omega arith) (omega arith) ∙ only_one v i)

pub testbit-kvm_phys_to_pte :
    (pa i : ℕ) → testbit (kvm_phys_to_pte pa) i ≡ (testbit pa i && (leb 12 i && leb i 47))
unfolding kvm_phys_to_pte
testbit-kvm_phys_to_pte pa i =
    testbit-bit_and i pa (genmask 47 12)
    ∙ rw (testbit-genmask 47 12 i (omega arith) (omega arith)) refl

testbit-kvm_set_invalid_pte :
    (pte i : ℕ) → i < 64 → testbit (kvm_set_invalid_pte pte) i ≡ (testbit pte i && not (i == 0))
unfolding kvm_set_invalid_pte
testbit-kvm_set_invalid_pte pte i lt =
    let low : pte_valid ≤ ones 64 = omega (arith, bit-pow 0 (omega arith)) in
    rw
      (
        testbit-bit_and i pte (bit_not 64 pte_valid),
        testbit-bit_not 64 i pte_valid low lt,
        testbit-bit 0 i (omega arith),
      )
      (ground arith)

kvm_set_invalid_pte-le : (pte : ℕ) → pte < word → kvm_set_invalid_pte pte ≤ ones 64
unfolding kvm_set_invalid_pte
kvm_set_invalid_pte-le pte fits = bit_and-le 64 pte (bit_not 64 pte_valid) (omega arith)

even_digit : (x i : ℕ) → testbit (x / 2 * 2) i ≡ (testbit x i && not (i == 0))
unfolding testbit
even_digit x zero = ground arith
even_digit x (suc i) =
    let e : x / 2 * 2 / 2 ≡ x / 2 = omega arith in ap (λ t. testbit t i) e ∙ ground arith

-- kvm_set_invalid_pte clears the valid bit of a 64-bit entry and no other.
pub kvm_pte_valid-kvm_set_invalid_pte :
    (pte : ℕ)
    → pte < word
    → (kvm_pte_valid (kvm_set_invalid_pte pte) ≡ false) × (kvm_set_invalid_pte pte ≡ pte / 2 * 2)
kvm_pte_valid-kvm_set_invalid_pte pte fits =
    let bound = kvm_set_invalid_pte-le pte fits in
    (
      kvm_pte_valid-testbit (kvm_set_invalid_pte pte) (omega arith)
          ∙ (testbit-kvm_set_invalid_pte pte 0 (omega arith) ∙ ground arith),
      testbit-ext 64 (kvm_set_invalid_pte pte) (pte / 2 * 2) bound (omega arith)
          (λ i lt. testbit-kvm_set_invalid_pte pte i lt ∙ sym (even_digit pte i)),
    )

pub kvm_phys_to_pte-le : (pa : ℕ) → pa < word → kvm_phys_to_pte pa ≤ ones 64
unfolding kvm_phys_to_pte
kvm_phys_to_pte-le pa fits = bit_and-le 64 pa pte_addr_mask (omega arith)
