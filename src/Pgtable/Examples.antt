-- ===== src/Pgtable/Examples.antt =====
-- Runs of the operations of linux/casestudies/pgtable.c on concrete entries.
use refined_c.Base.{ℕ, ◌+◌, ◌/◌, ◌%◌, ◌^◌, ◌≡◌, refl, true, false, arith, inr}
use refined_c.Base.Int.{pos, negsuc}
use refined_c.Pgtable.{
  bit, genmask, field_get, any_set, kvm_pte_valid, kvm_pte_table, kvm_phys_to_pte,
  kvm_set_valid_leaf_pte, HypMapData, hyp_map_set_prot_attr,
}
use refined_c.Pgtable.Fields.{field_get-genmask, field_get-field_prep, update_field}
use refined_c.Pgtable.Leaf.{IsLeaf, kvm_set_valid_leaf_pte-invalid}
use refined_c.Pgtable.Attributes.{hyp_map_set_prot_attr-HasAttributes, HasAttributes}

-- 0x000000ffffe00000, the example of the comment above GENMASK
mask_from_21_to_39 : genmask 39 21 ≡ 1099509530624
unfolding genmask
mask_from_21_to_39 = refl

-- An address beside its frame
abbrev address : ℕ
address = 1311768467463790320

frame_of_address : kvm_phys_to_pte address ≡ 95075992129536
unfolding kvm_phys_to_pte genmask
frame_of_address = refl

field_get-genmask_example : field_get (genmask 15 8) address ≡ address / 2 ^ 8 % 2 ^ 8
field_get-genmask_example = field_get-genmask 15 8 address (omega arith) (omega arith) (omega arith)

field_get-field_prep_example :
    (field_get (genmask 4 2) (update_field (genmask 4 2) address 5) ≡ 5)
    × (field_get (genmask 9 8) (update_field (genmask 4 2) address 5)
        ≡ field_get (genmask 9 8) address)
field_get-field_prep_example =
    field_get-field_prep 4 2 address 5 9 8 (omega arith) (omega arith) (omega arith) (omega arith)
      (omega arith) (omega arith) (inr (omega arith))

valid_entry : kvm_pte_valid 4099 ≡ true
unfolding kvm_pte_valid any_set bit
valid_entry = refl

invalid_entry : kvm_pte_valid 4098 ≡ false
unfolding kvm_pte_valid any_set bit
invalid_entry = refl

abbrev to_phys : ℕ → ℕ
to_phys a = a + 4096

kvm_set_valid_leaf_pte-invalid_example :
    (pte : ℕ) × (kvm_set_valid_leaf_pte 4098 address 1028 3 ≡ (true, pte))
    × (kvm_pte_valid pte ≡ true)
    × (kvm_pte_table pte 3 ≡ false)
    × IsLeaf address 1028 3 pte
kvm_set_valid_leaf_pte-invalid_example =
    kvm_set_valid_leaf_pte-invalid 4098 address 1028 3 (omega arith) (omega arith) invalid_entry

-- A mapping at physical address 0
abbrev unset : HypMapData
unset = record { phys = 0; attr = 0; virt_to_phys = to_phys }

writable_code : hyp_map_set_prot_attr 7 unset ≡ (negsuc 21, unset)
unfolding hyp_map_set_prot_attr any_set bit
writable_code = refl

hyp_map_set_prot_attr-HasAttributes_example :
    ((hyp_map_set_prot_attr 6 unset).0 ≡ pos 0)
    × HasAttributes 6 unset (hyp_map_set_prot_attr 6 unset).1
unfolding any_set bit
hyp_map_set_prot_attr-HasAttributes_example = hyp_map_set_prot_attr-HasAttributes 6 unset refl
