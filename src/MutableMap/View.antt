-- ===== src/MutableMap/View.antt =====
-- The finite map that a table stands for, read off its items with no regard to the probing order.
use refined_c.Base.{
  ℕ, zero, suc, ◌≡◌, ◌≢◌, refl, Option, none, some, arith, ◌==◌, if◌then◌else◌, inl, inr,
  Option-cases, List, [], ◌∷◌, get_elem?, set, replicate,
}
use refined_c.MutableMap.{Item, empty, entry, tombstone}
use refined_c.MutableMap.Order.{First, Located, First-unique}
use refined_c.MutableMap.Probe.{key_at}

abbrev pub or_else {ℓ} : {A : Type ℓ} → Option A → Option A → Option A
or_else none b = b
or_else (some a) b = some a

module _ {ℓ} {V : Type ℓ} where
  -- The value that one item gives for a key.
  abbrev pub value_in : Item V → ℕ → Option V
  value_in (entry k v) key = if k == key then some v else none
  value_in _ key = none

  -- The map of a list of items. Of two entries with one key the later would win.
  abbrev pub view : List (Item V) → ℕ → Option V
  view [] key = none
  view (x ∷ xs) key = or_else (view xs key) (value_in x key)

  -- The value that a slot gives for a key.
  abbrev pub value_at : List (Item V) → ℕ → ℕ → Option V
  value_at [] i key = none
  value_at (x ∷ xs) zero key = value_in x key
  value_at (x ∷ xs) (suc i) key = value_at xs i key

  pub value_at-get_elem? :
      (xs : List (Item V)) (i key : ℕ) {x : Item V}
      → get_elem? xs i ≡ some x
      → value_at xs i key ≡ value_in x key
  value_at-get_elem? [] i key e = cc
  value_at-get_elem? (x ∷ xs) zero key e = cc
  value_at-get_elem? (x ∷ xs) (suc i) key e = value_at-get_elem? xs i key e

  -- A slot that gives a value for a key holds that key.
  pub key_at_of_value_at :
      (xs : List (Item V)) (i key : ℕ) {v : V} → value_at xs i key ≡ some v → key_at xs i ≡ some key
  key_at_of_value_at [] i key e = cc
  key_at_of_value_at (empty ∷ xs) zero key e = cc
  key_at_of_value_at (entry k v ∷ xs) zero key e = ground arith
  key_at_of_value_at (tombstone k ∷ xs) zero key e = cc
  key_at_of_value_at (x ∷ xs) (suc i) key e = key_at_of_value_at xs i key e

  pub view-none :
      (xs : List (Item V)) (key : ℕ) → ((i : ℕ) → value_at xs i key ≡ none) → view xs key ≡ none
  view-none [] key h = refl
  view-none (x ∷ xs) key h = rw (view-none xs key (λ i. h (suc i)), h 0)

  -- If one slot alone gives values for the key, its value is the map's.
  pub view-value_at :
      (xs : List (Item V)) (key p : ℕ)
      → ((i : ℕ) → i ≢ p → value_at xs i key ≡ none)
      → view xs key ≡ value_at xs p key
  view-value_at [] key p alone = refl
  view-value_at (y ∷ xs) key zero alone = rw (view-none xs key (λ i. alone (suc i) (omega arith)))
  view-value_at (y ∷ xs) key (suc p) alone =
      rw (view-value_at xs key p (λ i ne. alone (suc i) (omega arith)), alone 0 (omega arith))
        (ground arith)

  -- A write changes the map at no key for which the item gives nothing, before or after.
  pub view-set_other :
      (xs : List (Item V)) (p key : ℕ) (x : Item V)
      → value_at xs p key ≡ none
      → value_in x key ≡ none
      → view (set xs p x) key ≡ view xs key
  view-set_other [] p key x old new = refl
  view-set_other (y ∷ xs) zero key x old new = rw (old, new)
  view-set_other (y ∷ xs) (suc p) key x old new = rw (view-set_other xs p key x old new)

  -- In a located table the probe's end is the only slot that may give a value.
  pub view-First :
      (xs : List (Item V)) (n key p : ℕ)
      → Located (key_at xs) n
      → First (key_at xs) n key p
      → view xs key ≡ value_at xs p key
  view-First xs n key p located first = view-value_at xs key p λ i ne.
      elim (Option-cases (value_at xs i key)) [
        | inl e ↦ e
        | inr (v, e) ↦
            absurd (ne (First-unique (located i key (key_at_of_value_at xs i key e)) first))
      ]

pub view-replicate {ℓ} : (V : Type ℓ) (n key : ℕ) → view {V = V} (replicate n empty) key ≡ none
view-replicate V zero key = refl
view-replicate V (suc n) key = rw (view-replicate V n key)
