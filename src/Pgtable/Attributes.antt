-- ===== src/Pgtable/Attributes.antt =====
-- hyp_map_set_prot_attr of linux/casestudies/pgtable.c on every protection.
use Prim.Native.Nat.{bit_or}
use refined_c.Base.{ℕ, ◌≡◌, refl, Bool, true, false, not, ◌&&◌, ◌||◌, if◌then◌else◌, arith}
use refined_c.Base.Ffs.{ffs}
use refined_c.Base.Int.{pos, negsuc}
use refined_c.Pgtable.{
  bit, genmask, bf_shf, field_get, field_prep, any_set, prot_x, prot_w, prot_r, prot_device,
  attr_idx, attr_ap, attr_sh, attr_af, attr_xn, HypMapData, hyp_map_set_prot_attr,
}

-- Protections that are refused: not readable, or executable and also writable or a device.
abbrev pub is_refused : (prot : ℕ) → Bool
is_refused prot =
    not (any_set prot prot_r)
    || (any_set prot prot_x && (any_set prot prot_w || any_set prot prot_device))

-- A protection that is not readable, or executable and also writable or a device, gives -EINVAL
-- and leaves the data as they are.
pub hyp_map_set_prot_attr-refused :
    (prot : ℕ) (map : HypMapData)
    → is_refused prot ≡ true
    → hyp_map_set_prot_attr prot map ≡ (negsuc 21, map)
unfolding hyp_map_set_prot_attr
hyp_map_set_prot_attr-refused prot map h = ground arith

-- What the attributes of an accepted protection say.
abbrev pub HasAttributes : (prot : ℕ) (map after : HypMapData) → Type 0
HasAttributes prot map after =
    (field_get attr_idx after.attr ≡ (if any_set prot prot_device then 5 else 0))
    × (field_get attr_ap after.attr ≡ (if any_set prot prot_w then 1 else 3))
    × (field_get attr_sh after.attr ≡ 3)
    × (any_set after.attr attr_af ≡ true)
    × (any_set after.attr attr_xn ≡ not (any_set prot prot_x))
    × (after.phys ≡ map.phys)

-- The attributes of an accepted protection, from its flags.
unfoldable accepted : (device write run : Bool) → ℕ
accepted device write run =
    let memory = field_prep attr_idx (if device then 5 else 0) in
    let executable = if run then memory else bit_or memory attr_xn in
    let access = field_prep attr_ap (if write then 1 else 3) in
    bit_or (bit_or (bit_or executable access) (field_prep attr_sh 3)) attr_af

accepted-fields :
    (device write run : Bool)
    → (field_get attr_idx (accepted device write run) ≡ (if device then 5 else 0))
      × (field_get attr_ap (accepted device write run) ≡ (if write then 1 else 3))
      × (field_get attr_sh (accepted device write run) ≡ 3)
      × (any_set (accepted device write run) attr_af ≡ true)
      × (any_set (accepted device write run) attr_xn ≡ not run)
unfolding accepted field_get field_prep bf_shf genmask bit any_set ffs
accepted-fields true true true = (refl, refl, refl, refl, refl)
accepted-fields true true false = (refl, refl, refl, refl, refl)
accepted-fields true false true = (refl, refl, refl, refl, refl)
accepted-fields true false false = (refl, refl, refl, refl, refl)
accepted-fields false true true = (refl, refl, refl, refl, refl)
accepted-fields false true false = (refl, refl, refl, refl, refl)
accepted-fields false false true = (refl, refl, refl, refl, refl)
accepted-fields false false false = (refl, refl, refl, refl, refl)

hyp_map_set_prot_attr-accepted :
    (prot : ℕ) (map : HypMapData)
    → is_refused prot ≡ false
    → hyp_map_set_prot_attr prot map ≡ (
      pos 0,
      record map {
        attr = accepted (any_set prot prot_device) (any_set prot prot_w) (any_set prot prot_x);
      },
    )
unfolding hyp_map_set_prot_attr accepted
hyp_map_set_prot_attr-accepted prot map h = ground arith

-- A protection that is not refused gives 0; each field of the attributes then says what the
-- protection says, and the physical address is as before.
pub hyp_map_set_prot_attr-HasAttributes :
    (prot : ℕ) (map : HypMapData)
    → is_refused prot ≡ false
    → ((hyp_map_set_prot_attr prot map).0 ≡ pos 0)
      × HasAttributes prot map (hyp_map_set_prot_attr prot map).1
hyp_map_set_prot_attr-HasAttributes prot map h =
    let fields =
      accepted-fields (any_set prot prot_device) (any_set prot prot_w) (any_set prot prot_x) in
    rw (hyp_map_set_prot_attr-accepted prot map h)
      (refl, (fields.0, fields.1, fields.2, fields.3, fields.4, refl))
