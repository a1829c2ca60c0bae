-- ===== src/MutableMap/Update.antt =====
-- `fsm_get`, `fsm_remove` and the part of `fsm_insert` behind the reallocation, against the map that
-- the table stands for.
use mathlib.Core.Path.{subst, fun_ext}
use refined_c.Base.{
  ℕ, ◌+◌, ◌-◌, ◌%◌, ◌<◌, ◌≤◌, ◌≡◌, refl, ==_refl, get_elem?-set_self, sym, ap, ◌∙◌, Bool, true,
  false, Option, none, some, arith, ◌==◌, if◌then◌else◌, inl, inr, Bool-cases, length, get_elem?,
  set, get_elem?-lt_length, length-set,
}
use refined_c.Base.Run.{ok, Returns}
use refined_c.MutableMap.{
  Item, empty, entry, tombstone, FixedSizeMap, entry_value, fsm_probe, fsm_get, fsm_remove,
  insert_at_slot, remove_at_slot, size_mod, is_empty,
}
use refined_c.MutableMap.Order.{First, Located, stops, slot-lt, update, Located-update}
use refined_c.MutableMap.Probe.{
  item_key, key_at, key_at-get_elem?, key_at-set, IsMap, fsm_probe-First, count_empty-set,
  count_empty-le,
}
use refined_c.MutableMap.View.{value_in, value_at-get_elem?, view, view-First, view-set_other}

-- The decrement of `count` does not wrap.
count_after :
    (count : ℕ) (b : Bool)
    → 1 < count
    → count < size_mod
    → (if b then (count + size_mod - 1) % size_mod else count) + (if b then 1 else 0) ≡ count
count_after count true h lt = omega arith
count_after count false h lt = omega arith

one-le : (b : Bool) → (if b then 1 else 0) ≤ 1
one-le true = omega arith
one-le false = omega arith

module _ {ℓ} {V : Type ℓ} where
  -- Where the probe for `key` ends, and what is there.
  record Found (m : FixedSizeMap V) (key : ℕ) : Type ℓ where
    place : ℕ
    item : Item V
    probed : fsm_probe m key ≡ ok place
    holds : get_elem? m.items place ≡ some item
    within : place < length m.items
    first : First (key_at m.items) m.length key place
    may_stop : stops (item_key item) key ≡ true

  found : (m : FixedSizeMap V) (key : ℕ) → IsMap m → Found m key
  found m key is =
      let (p, run, first) = fsm_probe-First m key is in
      let within : p < length m.items =
        rw (is.size, first.at) (slot-lt m.length key first.steps (omega (arith, is.large))) in
      let (x, holds) = get_elem?-lt_length m.items p within in
      record {
        place = p;
        item = x;
        probed = run;
        holds = holds;
        within = within;
        first = first;
        may_stop = rw (key_at-get_elem? m.items p holds) at first.here;
      }

  value_in-entry_value :
      (x : Item V) (key : ℕ) → stops (item_key x) key ≡ true → value_in x key ≡ entry_value x
  value_in-entry_value empty key h = refl
  value_in-entry_value (entry k v) key h = rw h
  value_in-entry_value (tombstone k) key h = refl

  -- What the item at the probe's end gives is what the map has for the key.
  view-Found :
      (m : FixedSizeMap V) (key : ℕ)
      → IsMap m
      → (f : Found m key) → view m.items key ≡ entry_value f.item
  view-Found m key is f =
      view-First m.items m.length key f.place is.located f.first
      ∙ (value_at-get_elem? m.items f.place key f.holds
          ∙ value_in-entry_value f.item key f.may_stop)

  -- `fsm_get` ends, and returns the value that the map has for the key, or NULL where it has none.
  pub fsm_get-view :
      (m : FixedSizeMap V) (key : ℕ) → IsMap m → fsm_get m key ≡ ok (view m.items key)
  unfolding fsm_get
  fsm_get-view m key is = let f = found m key is in rw (f.probed, f.holds, view-Found m key is f)

  -- A write at the probe's end that leaves the key there keeps the table located.
  Located-set :
      (m : FixedSizeMap V) (key : ℕ) (x : Item V)
      → IsMap m
      → (f : Found m key) → item_key x ≡ some key
      → Located (key_at (set m.items f.place x)) m.length
  Located-set m key x is f e =
      subst (λ k. Located k m.length)
        (fun_ext λ i. sym (
          key_at-set m.items f.place i x f.within
          ∙ ap (λ o. update (key_at m.items) f.place o i) e))
        (Located-update f.place is.located f.first)

  value_in-other :
      (x : Item V) (key k : ℕ)
      → stops (item_key x) key ≡ true
      → (key == k) ≡ false
      → value_in x k ≡ none
  value_in-other empty key k h ne = refl
  value_in-other (entry j v) key k h ne = ground arith
  value_in-other (tombstone j) key k h ne = refl

  -- Such a write changes the map at this key alone.
  module _ (m : FixedSizeMap V) (key : ℕ) (x : Item V) (is : IsMap m) (f : Found m key)
      (e : item_key x ≡ some key) where
    stops-written : stops (item_key x) key ≡ true
    stops-written = rw e (==_refl key)

    view-write_self : view (set m.items f.place x) key ≡ entry_value x
    view-write_self =
        let located = Located-set m key x is f e in
        let at_place : key_at (set m.items f.place x) f.place ≡ some key =
          key_at-get_elem? (set m.items f.place x) f.place
            (get_elem?-set_self m.items f.place x f.within)
          ∙ e in
        view-First (set m.items f.place x) m.length key f.place located
          (located f.place key at_place)
        ∙ (value_at-get_elem? (set m.items f.place x) f.place key
              (get_elem?-set_self m.items f.place x f.within)
            ∙ value_in-entry_value x key stops-written)

    view-write :
        (k : ℕ)
        → view (set m.items f.place x) k ≡ (if key == k then entry_value x else view m.items k)
    view-write k = elim (Bool-cases (key == k)) [
      | inl same ↦ let eq : key ≡ k = ground arith in rw (same, ← eq) view-write_self
      | inr other ↦ rw other (
          view-set_other m.items f.place k x
            (value_at-get_elem? m.items f.place k f.holds
              ∙ value_in-other f.item key k f.may_stop other)
            (value_in-other x key k stops-written other))
    ]

  -- What a successful update of the map at one key gives.
  pub record Updated (m : FixedSizeMap V) (key : ℕ) (new : Option V) (m' : FixedSizeMap V)
      : Type ℓ where
    pub is_map : IsMap m'
    pub same_length : m'.length ≡ m.length
    pub viewed : (k : ℕ) → view m'.items k ≡ (if key == k then new else view m.items k)

  -- Behind the reallocation `fsm_insert` binds the key to the value, hands back the value that it
  -- replaces, and uses up one empty slot at most.
  pub insert_at_slot-Updated :
      (m : FixedSizeMap V) (key : ℕ) (value : V)
      → IsMap m
      → 1 < m.count
      → Returns (insert_at_slot m key value) (λ (m', old).
        Updated m key (some value) m' × (old ≡ view m.items key) × (m.count ≤ m'.count + 1))
  unfolding insert_at_slot
  insert_at_slot-Updated m key value is room =
      let f = found m key is in
      let x = entry key value in
      let small : m.count < size_mod =
        omega (arith, is.empties, count_empty-le m.items, is.size, is.fits) in
      let after = count_after m.count (is_empty f.item) room small in
      let one = one-le (is_empty f.item) in
      let counted = count_empty-set m.items f.place x f.holds in
      (
        (
          record {
            items = set m.items f.place x;
            count = if is_empty f.item then (m.count + size_mod - 1) % size_mod else m.count;
            length = m.length;
          },
          entry_value f.item,
        ),
        rw (f.probed, f.holds),
        (
          record {
            is_map = record {
              size = length-set m.items f.place x ∙ is.size;
              fits = is.fits;
              large = is.large;
              empties = omega (arith, after, counted, one, is.empties);
              room = omega (arith, after, counted, one, is.empties);
              located = Located-set m key x is f refl;
            };
            same_length = refl;
            viewed = view-write m key x is f refl;
          },
          sym (view-Found m key is f),
          omega (arith, after, counted, one, is.empties),
        ),
      )

  Updated-none :
      (m : FixedSizeMap V) (key : ℕ) → IsMap m → view m.items key ≡ none → Updated m key none m
  Updated-none m key is absent = record {
    is_map = is;
    same_length = refl;
    viewed = λ k. elim (Bool-cases (key == k)) [
      | inl same ↦ let eq : key ≡ k = ground arith in rw (same, ← eq) absent
      | inr other ↦ rw other
    ];
  }

  abbrev Removed : (m : FixedSizeMap V) → ℕ → FixedSizeMap V × Option V → Type ℓ
  Removed m key (m', old) = Updated m key none m' × (old ≡ view m.items key) × (m'.count ≡ m.count)

  remove_at_slot-Removed :
      (m : FixedSizeMap V) (key : ℕ)
      → IsMap m
      → (f : Found m key) (x : Item V) → f.item ≡ x
      → Removed m key (remove_at_slot m f.place key x)
  remove_at_slot-Removed m key is f empty e =
      let absent = view-Found m key is f ∙ ap entry_value e in
      (Updated-none m key is absent, sym absent, refl)
  remove_at_slot-Removed m key is f (tombstone k) e =
      let absent = view-Found m key is f ∙ ap entry_value e in
      (Updated-none m key is absent, sym absent, refl)
  remove_at_slot-Removed m key is f (entry k v) e =
      let counted = count_empty-set m.items f.place (tombstone key) f.holds in
      let full : ◌≡◌ {A = ℕ} (if is_empty f.item then 1 else 0) 0 = rw e in
      (
        record {
          is_map = record {
            size = length-set m.items f.place (tombstone key) ∙ is.size;
            fits = is.fits;
            large = is.large;
            empties = omega (arith, counted, full, is.empties);
            room = is.room;
            located = Located-set m key (tombstone key) is f refl;
          };
          same_length = refl;
          viewed = view-write m key (tombstone key) is f refl;
        },
        sym (view-Found m key is f ∙ ap entry_value e),
        refl,
      )

  -- `fsm_remove` ends: it unbinds the key and no other, hands back the value that the key had, and
  -- leaves `count` alone.
  pub fsm_remove-Updated :
      (m : FixedSizeMap V) (key : ℕ)
      → IsMap m
      → Returns
          (fsm_remove m key)
          (λ (m', old). Updated m key none m' × (old ≡ view m.items key) × (m'.count ≡ m.count))
  unfolding fsm_remove
  fsm_remove-Updated m key is =
      let f = found m key is in
      (
        remove_at_slot m f.place key f.item,
        rw (f.probed, f.holds),
        remove_at_slot-Removed m key is f f.item refl,
      )
