-- ===== src/MutableMap.antt =====
-- The hash map of examples/mutable_map.c: open addressing with tombstones, which doubles its
-- table when fewer than two empty slots are left. A value pointer is a value of an abstract type
-- `V`; the NULL that `fsm_get`, `fsm_insert` and `fsm_remove` return is `none`.
pub mod Order
pub mod Probe
pub mod View
pub mod Update
pub mod Grow
pub mod Session
mod Examples
use refined_c.Base.{
  ℕ, zero, suc, ◌+◌, ◌-◌, ◌*◌, ◌/◌, ◌%◌, ◌^◌, Bool, true, false, ◌||◌, Option, none, some, List,
  ltb, leb, ◌==◌, if◌then◌else◌, get_elem?, set, replicate,
}
use refined_c.Base.Run.{Run, ok, hang, out_of_fuel, ◌>>=◌, need}

-- `SIZE_MAX + 1`
abbrev pub size_mod : ℕ
size_mod = 2 ^ 64

-- `sizeof(struct item)`: a tag and the larger member of the union
abbrev pub item_size : ℕ
item_size = 24

unfoldable pub fsm_slot_for_key : ℕ → ℕ → ℕ
fsm_slot_for_key len key = key % len

unfoldable pub compute_min_count : ℕ → ℕ
compute_min_count len = 2

module _ {ℓ} (V : Type ℓ) where
  -- `struct item`: the tag with the union member that it selects
  pub data Item : Type ℓ where
    empty : Item
    entry : (key : ℕ) → V → Item
    tombstone : (key : ℕ) → Item

  pub record FixedSizeMap : Type ℓ where
    pub items : List Item
    pub count : ℕ
    pub length : ℕ

module _ {ℓ} {V : Type ℓ} where
  -- `tag == ITEM_EMPTY`
  abbrev pub is_empty : Item V → Bool
  is_empty empty = true
  is_empty _ = false

  -- `tag == ITEM_TOMBSTONE && u.tombstone.key == key`
  abbrev pub is_tombstone_of : ℕ → Item V → Bool
  is_tombstone_of key (tombstone k) = k == key
  is_tombstone_of key _ = false

  -- `tag == ITEM_ENTRY && u.entry.key == key`
  abbrev pub is_entry_of : ℕ → Item V → Bool
  is_entry_of key (entry k v) = k == key
  is_entry_of key _ = false

  unfoldable pub fsm_init : ℕ → FixedSizeMap V
  fsm_init len = record { items = replicate len empty; count = len; length = len }

  -- The loop of `fsm_probe`, from the slot `slot_idx`.
  probe_loop : ℕ → FixedSizeMap V → (slot_idx key : ℕ) → Run ℕ
  probe_loop zero m slot_idx key = out_of_fuel
  probe_loop (suc fuel) m slot_idx key = do
    item ← need (get_elem? m.items slot_idx)
    let rest = probe_loop fuel m ((slot_idx + 1) % m.length) key
    if is_empty item || is_tombstone_of key item
        then ok slot_idx
        else if is_entry_of key item
        then ok slot_idx
        else rest

  -- One round for each slot is enough.
  unfoldable pub fsm_probe : FixedSizeMap V → ℕ → Run ℕ
  unfolding probe_loop fsm_slot_for_key
  fsm_probe m key = probe_loop m.length m (fsm_slot_for_key m.length key) key

  -- The value of an entry, which `fsm_insert` and `fsm_remove` hand back.
  abbrev pub entry_value : Item V → Option V
  entry_value (entry k v) = some v
  entry_value _ = none

  -- The body of `fsm_insert` behind its call of `fsm_realloc_if_necessary`.
  unfoldable pub insert_at_slot : FixedSizeMap V → ℕ → V → Run (FixedSizeMap V × Option V)
  insert_at_slot m key value = do
    slot_idx ← fsm_probe m key
    item ← need (get_elem? m.items slot_idx)
    ok (
      record {
        items = set m.items slot_idx (entry key value);
        count = if is_empty item then (m.count + size_mod - 1) % size_mod else m.count;
        length = m.length;
      },
      entry_value item,
    )

  -- One round of the loop that copies the old items into `m2`. `insert` is `fsm_insert`.
  copy_item :
      (FixedSizeMap V → ℕ → V → Run (FixedSizeMap V × Option V))
      → Item V
      → FixedSizeMap V
      → Run (FixedSizeMap V)
  copy_item insert (entry key value) m2 = insert m2 key value >>= λ r. ok r.0
  copy_item insert _ m2 = ok m2

  -- That loop, from the index `i` and with the rounds that are left.
  copy_loop :
      (FixedSizeMap V → ℕ → V → Run (FixedSizeMap V × Option V))
      → List (Item V)
      → (rounds i : ℕ) → FixedSizeMap V
      → Run (FixedSizeMap V)
  copy_loop insert items zero i m2 = ok m2
  copy_loop insert items (suc rounds) i m2 = do
    item ← need (get_elem? items i)
    m2' ← copy_item insert item m2
    copy_loop insert items rounds (i + 1) m2'

  -- `fsm_realloc_if_necessary`, given the `fsm_insert` that it calls. A table that cannot be
  -- doubled makes the code spin for ever.
  realloc_with :
      (FixedSizeMap V → ℕ → V → Run (FixedSizeMap V × Option V))
      → FixedSizeMap V
      → Run (FixedSizeMap V)
  unfolding copy_loop copy_item
  realloc_with insert m =
      if leb (compute_min_count m.length) m.count
      then ok m
      else if ltb m.length ((size_mod - 1) / 2 / item_size - 16)
      then copy_loop insert m.items m.length 0 (fsm_init (m.length * 2 % size_mod))
      else hang

  -- `fsm_insert` and `fsm_realloc_if_necessary` call one another; the fuel counts the nested calls.
  insert_depth : ℕ → FixedSizeMap V → ℕ → V → Run (FixedSizeMap V × Option V)
  insert_depth zero m key value = out_of_fuel
  insert_depth (suc depth) m key value =
      realloc_with (insert_depth depth) m >>= λ m'. insert_at_slot m' key value

  -- A copy into the doubled table never doubles again, so two nested calls are enough.
  unfoldable pub fsm_insert : FixedSizeMap V → ℕ → V → Run (FixedSizeMap V × Option V)
  unfolding insert_depth realloc_with
  fsm_insert m key value = insert_depth 2 m key value

  unfoldable pub fsm_realloc_if_necessary : FixedSizeMap V → Run (FixedSizeMap V)
  unfolding insert_depth realloc_with
  fsm_realloc_if_necessary m = realloc_with (insert_depth 1) m

  unfoldable pub fsm_get : FixedSizeMap V → ℕ → Run (Option V)
  fsm_get m key = do
    slot_idx ← fsm_probe m key
    item ← need (get_elem? m.items slot_idx)
    ok (entry_value item)

  -- `fsm_remove` on the slot that the probe found.
  abbrev pub remove_at_slot :
      FixedSizeMap V → (slot_idx key : ℕ) → Item V → FixedSizeMap V × Option V
  remove_at_slot m slot_idx key (entry k v) =
      (record m { items = set m.items slot_idx (tombstone key) }, some v)
  remove_at_slot m slot_idx key empty = (m, none)
  remove_at_slot m slot_idx key (tombstone k) = (m, none)

  unfoldable pub fsm_remove : FixedSizeMap V → ℕ → Run (FixedSizeMap V × Option V)
  fsm_remove m key = do
    slot_idx ← fsm_probe m key
    item ← need (get_elem? m.items slot_idx)
    ok (remove_at_slot m slot_idx key item)
