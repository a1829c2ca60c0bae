-- ===== src/MutableMap/Probe.antt =====
-- `fsm_probe` against the probing order, and the invariant of the map.
use refined_c.Base.{
  ℕ, zero, suc, ◌+◌, ◌%◌, ◌<◌, ◌≤◌, ◌≡◌, refl, sym, ◌∙◌, true, false, Option, none, some, arith,
  if◌then◌else◌, inl, inr, Bool-cases, List, [], ◌∷◌, length, get_elem?, set, get_elem?-lt_length,
  ◌||◌,
}
use refined_c.Base.Run.{ok, Returns}
use refined_c.MutableMap.{
  Item, empty, entry, tombstone, FixedSizeMap, is_empty, is_entry_of, is_tombstone_of, probe_loop,
  fsm_probe, fsm_slot_for_key, size_mod,
}
use refined_c.MutableMap.Order.{
  slot, stops, First, Located, update, slot-lt, slot-suc, slot-zero, slot-surjective,
}

module _ {ℓ} {V : Type ℓ} where
  -- The key that an item holds, a tombstone's too.
  abbrev pub item_key : Item V → Option ℕ
  item_key empty = none
  item_key (entry key v) = some key
  item_key (tombstone key) = some key

  -- The key at a slot. There is none at an empty slot.
  abbrev pub key_at : List (Item V) → ℕ → Option ℕ
  key_at [] i = none
  key_at (x ∷ xs) zero = item_key x
  key_at (x ∷ xs) (suc i) = key_at xs i

  abbrev pub count_empty : List (Item V) → ℕ
  count_empty [] = 0
  count_empty (x ∷ xs) = (if is_empty x then 1 else 0) + count_empty xs

  -- The constraints of `struct fixed_size_map`.
  pub record IsMap (m : FixedSizeMap V) : Type ℓ where
    pub size : length m.items ≡ m.length
    pub fits : m.length < size_mod
    pub large : 1 < m.length
    pub empties : m.count ≡ count_empty m.items
    pub room : 0 < m.count
    pub located : Located (key_at m.items) m.length

  pub key_at-get_elem? :
      (xs : List (Item V)) (i : ℕ) {x : Item V} → get_elem? xs i ≡ some x → key_at xs i ≡ item_key x
  key_at-get_elem? [] i e = cc
  key_at-get_elem? (x ∷ xs) zero e = cc
  key_at-get_elem? (x ∷ xs) (suc i) e = key_at-get_elem? xs i e

  pub key_at-set :
      (xs : List (Item V)) (p i : ℕ) (x : Item V)
      → p < length xs
      → key_at (set xs p x) i ≡ update (key_at xs) p (item_key x) i
  key_at-set [] p i x h = elim h [ ]
  key_at-set (y ∷ xs) zero zero x h = refl
  key_at-set (y ∷ xs) zero (suc i) x h = ground arith
  key_at-set (y ∷ xs) (suc p) zero x h = ground arith
  key_at-set (y ∷ xs) (suc p) (suc i) x h = key_at-set xs p i x (omega arith) ∙ ground arith

  -- Where some slot is empty, one can be named.
  pub empty_slot :
      (xs : List (Item V)) → 0 < count_empty xs → (i : ℕ) × (i < length xs) × (key_at xs i ≡ none)
  empty_slot [] h = elim h [ ]
  empty_slot (empty ∷ xs) h = (0, omega arith, refl)
  empty_slot (entry k v ∷ xs) h =
      let (i, lt, e) = empty_slot xs (omega arith) in (suc i, omega (arith, lt), e)
  empty_slot (tombstone k ∷ xs) h =
      let (i, lt, e) = empty_slot xs (omega arith) in (suc i, omega (arith, lt), e)

  pub count_empty-set :
      (xs : List (Item V)) (p : ℕ) {x : Item V} (y : Item V)
      → get_elem? xs p ≡ some x
      → count_empty (set xs p y) + (if is_empty x then 1 else 0)
        ≡ count_empty xs + (if is_empty y then 1 else 0)
  count_empty-set [] p y e = cc
  count_empty-set (z ∷ xs) zero {x} y e = let same : z ≡ x = cc in rw same (omega arith)
  count_empty-set (z ∷ xs) (suc p) y e = omega (arith, count_empty-set xs p y e)

  pub count_empty-le : (xs : List (Item V)) → count_empty xs ≤ length xs
  count_empty-le [] = omega arith
  count_empty-le (empty ∷ xs) = omega (arith, count_empty-le xs)
  count_empty-le (entry k v ∷ xs) = omega (arith, count_empty-le xs)
  count_empty-le (tombstone k ∷ xs) = omega (arith, count_empty-le xs)

  -- The two tests of the loop together.
  tests-stops :
      (x : Item V) (key : ℕ)
      → (is_empty x || is_tombstone_of key x || is_entry_of key x) ≡ stops (item_key x) key
  tests-stops empty key = refl
  tests-stops (entry k v) key = refl
  tests-stops (tombstone k) key = ground arith

-- One round of the loop, at a slot that holds `x`.
module _ {ℓ} {V : Type ℓ} (m : FixedSizeMap V) (fuel p key : ℕ) {x : Item V}
    (holds : get_elem? m.items p ≡ some x) where
  probe_loop-stop : stops (item_key x) key ≡ true → probe_loop (suc fuel) m p key ≡ ok p
  unfolding probe_loop
  probe_loop-stop h = rw holds (ground (arith, tests-stops x key, h))

  probe_loop-step :
      stops (item_key x) key ≡ false
      → probe_loop (suc fuel) m p key ≡ probe_loop fuel m ((p + 1) % m.length) key
  unfolding probe_loop
  probe_loop-step h = rw holds (ground (arith, tests-stops x key, h))

module _ {ℓ} {V : Type ℓ} (m : FixedSizeMap V) (size : length m.items ≡ m.length) (key : ℕ) where
  probe_loop-First :
      (fuel j t : ℕ)
      → j ≤ t
      → t < m.length
      → t < j + fuel
      → stops (key_at m.items (slot m.length key t)) key ≡ true
      → ((i : ℕ) → i < j → stops (key_at m.items (slot m.length key i)) key ≡ false)
      → Returns (probe_loop fuel m (slot m.length key j) key) (First (key_at m.items) m.length key)
  probe_loop-First zero j t le lt enough target before = absurd (omega arith)
  probe_loop-First (suc fuel) j t le lt enough target before =
      let here = slot m.length key j in
      let (x, holds) =
        get_elem?-lt_length m.items here (rw size (slot-lt m.length key j (omega arith))) in
      let key_x = key_at-get_elem? m.items here holds in
      elim (Bool-cases (stops (item_key x) key)) [
        | inl stop ↦ (
          here,
          probe_loop-stop m fuel here key holds stop,
          record {
            steps = j;
            near = omega arith;
            at = refl;
            here = rw key_x stop;
            before = before;
          },
        )
        | inr pass ↦
            let passed : stops (key_at m.items (slot m.length key j)) key ≡ false = rw key_x pass in
            rw (probe_loop-step m fuel here key holds pass, slot-suc m.length key j)
              (probe_loop-First fuel (j + 1) t (ground arith) lt (omega arith) target
                λ i h. ground (arith, before i, passed))
      ]

-- `fsm_probe` ends, at the first slot at which it may stop.
pub fsm_probe-First {ℓ} :
    {V : Type ℓ} (m : FixedSizeMap V) (key : ℕ)
    → IsMap m
    → Returns (fsm_probe m key) (First (key_at m.items) m.length key)
unfolding fsm_probe fsm_slot_for_key
fsm_probe-First m key is =
    let (e, lt, vacant) = empty_slot m.items (omega (arith, is.empties, is.room)) in
    let (t, near, at) = slot-surjective m.length key e (omega (arith, lt, is.size)) in
    rw (sym (slot-zero m.length key (omega (arith, is.large)))) (
      probe_loop-First m is.size key m.length 0 t (omega arith) near (omega arith) (rw (at, vacant))
        λ i h. elim h [ ])
