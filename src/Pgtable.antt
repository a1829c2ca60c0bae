-- ===== src/Pgtable.antt =====
-- The page table entries of linux/casestudies/pgtable.c: masks and fields of 64 digits, and the
-- operations on an entry. A pointer to an entry is the entry before and after the call.
pub mod Digits
pub mod Fields
pub mod Entries
pub mod Mappings
pub mod Leaf
pub mod Attributes
mod Examples
use Prim.Native.Nat.{bit_and, bit_or}
use refined_c.Base.{
  ℕ, zero, suc, ◌+◌, ◌-◌, ◌*◌, ◌/◌, ◌%◌, ◌^◌, Bool, true, false, not, ◌==◌, if◌then◌else◌,
}
use refined_c.Base.Bits.{bit_not}
use refined_c.Base.Int.{ℤ, pos, negsuc}
use refined_c.Base.Ffs.{ffs}
use refined_c.Base.Run.{Run, ok, check, ◌>>◌}

abbrev pub word : ℕ
word = 2 ^ 64

-- `x << n` and `x >> n` on u64
abbrev pub shl : ℕ → ℕ → ℕ
shl x n = x * 2 ^ n % word

abbrev pub shr : ℕ → ℕ → ℕ
shr x n = x / 2 ^ n

unfoldable pub bit : ℕ → ℕ
bit i = shl 1 i

-- (~0UL - (1UL << l) + 1) & (~0UL >> (BITS_PER_LONG - 1 - h))
unfoldable pub genmask : (h l : ℕ) → ℕ
genmask h l = bit_and ((bit_not 64 0 + word - shl 1 l + 1) % word) (shr (bit_not 64 0) (64 - 1 - h))

-- `__bf_shf(x)`
unfoldable pub bf_shf : ℕ → ℕ
bf_shf x = ffs 64 x - 1

unfoldable pub field_get : (mask reg : ℕ) → ℕ
field_get mask reg = shr (bit_and reg mask) (bf_shf mask)

unfoldable pub field_prep : (mask val : ℕ) → ℕ
field_prep mask val = bit_and (shl val (bf_shf mask)) mask

abbrev pub prot_x : ℕ
prot_x = bit 0

abbrev pub prot_w : ℕ
prot_w = bit 1

abbrev pub prot_r : ℕ
prot_r = bit 2

abbrev pub prot_device : ℕ
prot_device = bit 3

abbrev pub page_shift : ℕ
page_shift = 12

abbrev pub max_levels : ℕ
max_levels = 4

abbrev pub pte_valid : ℕ
pte_valid = bit 0

abbrev pub pte_type : ℕ
pte_type = bit 1

abbrev pub pte_type_block : ℕ
pte_type_block = 0

abbrev pub pte_type_page : ℕ
pte_type_page = 1

abbrev pub pte_type_table : ℕ
pte_type_table = 1

abbrev pub pte_addr_mask : ℕ
pte_addr_mask = genmask 47 page_shift

abbrev pub pte_addr_51_48 : ℕ
pte_addr_51_48 = genmask 15 12

abbrev pub leaf_attr_lo : ℕ
leaf_attr_lo = genmask 11 2

abbrev pub attr_idx : ℕ
attr_idx = genmask 4 2

abbrev pub attr_ap : ℕ
attr_ap = genmask 7 6

abbrev pub attr_sh : ℕ
attr_sh = genmask 9 8

abbrev pub attr_af : ℕ
attr_af = bit 10

abbrev pub leaf_attr_hi : ℕ
leaf_attr_hi = genmask 63 51

abbrev pub attr_xn : ℕ
attr_xn = bit 54

abbrev pub mt_normal : ℕ
mt_normal = 0

abbrev pub mt_device : ℕ
mt_device = 5

abbrev pub attr_ap_ro : ℕ
attr_ap_ro = 3

abbrev pub attr_ap_rw : ℕ
attr_ap_rw = 1

abbrev pub attr_sh_is : ℕ
attr_sh_is = 3

abbrev pub einval : ℕ
einval = 22

-- `0 != (w & mask)`, and `w & mask` as a condition
unfoldable pub any_set : (w mask : ℕ) → Bool
any_set w mask = not (bit_and w mask == 0)

unfoldable pub kvm_pte_valid : (pte : ℕ) → Bool
kvm_pte_valid pte = any_set pte pte_valid

unfoldable pub kvm_pte_table : (pte level : ℕ) → Bool
kvm_pte_table pte level =
    if level == max_levels - 1
    then false
    else if not (kvm_pte_valid pte)
    then false
    else (field_get pte_type pte == pte_type_table)

unfoldable pub kvm_set_invalid_pte : (pte : ℕ) → ℕ
kvm_set_invalid_pte pte = bit_and pte (bit_not 64 pte_valid)

unfoldable pub kvm_phys_to_pte : (pa : ℕ) → ℕ
kvm_phys_to_pte pa =
    let pte = bit_and pa pte_addr_mask in
    if page_shift == 16 then bit_or pte (field_prep pte_addr_51_48 (shr pa 48)) else pte

-- `virt_to_phys` is the callback of `mm_ops`.
unfoldable pub kvm_set_table_pte : (virt_to_phys : ℕ → ℕ) (old childp : ℕ) → Run ℕ
kvm_set_table_pte virt_to_phys old childp =
    let pte = kvm_phys_to_pte (virt_to_phys childp) in
    let typed = bit_or pte (field_prep pte_type pte_type_table) in
    check (kvm_pte_valid old) >> ok (bit_or typed pte_valid)

-- The result, and the entry after the call.
unfoldable pub kvm_set_valid_leaf_pte : (old pa attr level : ℕ) → Bool × ℕ
kvm_set_valid_leaf_pte old pa attr level =
    let type = if level == max_levels - 1 then pte_type_page else pte_type_block in
    let mapped = bit_or (kvm_phys_to_pte pa) (bit_and attr (bit_or leaf_attr_lo leaf_attr_hi)) in
    let pte = bit_or (bit_or mapped (field_prep pte_type type)) pte_valid in
    if kvm_pte_valid old then (old == pte, old) else (true, pte)

pub record HypMapData : Type 0 where
  pub phys : ℕ
  pub attr : ℕ
  pub virt_to_phys : ℕ → ℕ

-- `return -EINVAL` and `return 0` with what `data` points to
unfoldable pub hyp_map_set_prot_attr : (prot : ℕ) → HypMapData → ℤ × HypMapData
hyp_map_set_prot_attr prot map =
    let device = any_set prot prot_device in
    let mtype = if device then mt_device else mt_normal in
    let memory = field_prep attr_idx mtype in
    let ap = if any_set prot prot_w then attr_ap_rw else attr_ap_ro in
    let refused : ℤ × HypMapData = (negsuc (einval - 1), map) in
    let finish : ℕ → ℤ × HypMapData = λ attr. (
      pos 0,
      record map {
        attr =
            bit_or (bit_or (bit_or attr (field_prep attr_ap ap)) (field_prep attr_sh attr_sh_is))
              attr_af;
      },
    ) in
    if not (any_set prot prot_r)
    then refused
    else if any_set prot prot_x
    then if any_set prot prot_w then refused else if device then refused else finish memory
    else finish (bit_or memory attr_xn)
