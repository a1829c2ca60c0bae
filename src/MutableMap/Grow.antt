-- ===== src/MutableMap/Grow.antt =====
-- `fsm_realloc_if_necessary` and `fsm_insert`: copying into the doubled table keeps the map, and the
-- nested calls never reallocate again.
use refined_c.Base.{
  ℕ, zero, suc, ◌+◌, ◌-◌, ◌*◌, ◌/◌, ◌%◌, ◌<◌, ◌≤◌, ◌≡◌, refl, sym, ap, ◌∙◌, true, false, Option,
  none, some, arith, ◌==◌, if◌then◌else◌, ltb, leb, leb→le, leb→gt, lt→ltb, ◌⊎◌, inl, inr,
  Bool-cases, List, [], ◌∷◌, length, get_elem?, replicate, length-replicate,
}
use refined_c.Base.Run.{Run, ok, hang, Returns}
use refined_c.MutableMap.{
  Item, empty, entry, tombstone, FixedSizeMap, insert_at_slot, insert_depth, realloc_with,
  fsm_insert, fsm_realloc_if_necessary, copy_item, copy_loop, fsm_init, size_mod, item_size,
  compute_min_count,
}
use refined_c.MutableMap.Probe.{key_at, IsMap, count_empty}
use refined_c.MutableMap.View.{value_in, view, or_else, view-replicate}
use refined_c.MutableMap.Update.{insert_at_slot-Updated}

-- A table of at least this many slots is not doubled.
abbrev pub grow_limit : ℕ
grow_limit = (size_mod - 1) / 2 / item_size - 16

count_empty-replicate {ℓ} : (V : Type ℓ) (n : ℕ) → count_empty {V = V} (replicate n empty) ≡ n
count_empty-replicate V zero = refl
count_empty-replicate V (suc n) = omega (arith, count_empty-replicate V n)

key_at-replicate {ℓ} : (V : Type ℓ) (n i : ℕ) → key_at {V = V} (replicate n empty) i ≡ none
key_at-replicate V zero i = refl
key_at-replicate V (suc n) zero = refl
key_at-replicate V (suc n) (suc i) = key_at-replicate V n i

or_else_assoc {ℓ} :
    {A : Type ℓ} (a b c : Option A) → or_else a (or_else b c) ≡ or_else (or_else a b) c
or_else_assoc none b c = refl
or_else_assoc (some x) b c = refl

none-ne-some : {a : ℕ} → ¬ (◌≡◌ {A = Option ℕ} none (some a))
none-ne-some e = cc

or_else-none {ℓ} : {A : Type ℓ} (a : Option A) → or_else a none ≡ a
or_else-none none = refl
or_else-none (some x) = refl

-- `fsm_init` makes an empty map.
pub fsm_init-IsMap {ℓ} : (V : Type ℓ) (n : ℕ) → 1 < n → n < size_mod → IsMap {V = V} (fsm_init n)
unfolding fsm_init
fsm_init-IsMap V n large fits = record {
  size = length-replicate n empty;
  fits = fits;
  large = large;
  empties = sym (count_empty-replicate V n);
  room = omega arith;
  located = λ i k e. absurd (none-ne-some (sym (key_at-replicate V n i) ∙ e));
}

module _ {ℓ} {V : Type ℓ} where
  realloc_with-enough :
      (insert : FixedSizeMap V → ℕ → V → Run (FixedSizeMap V × Option V)) (m : FixedSizeMap V)
      → 1 < m.count
      → realloc_with insert m ≡ ok m
  unfolding realloc_with compute_min_count
  realloc_with-enough insert m h = ground arith

  realloc_with-few :
      (insert : FixedSizeMap V → ℕ → V → Run (FixedSizeMap V × Option V)) (m : FixedSizeMap V)
      → leb 2 m.count ≡ false
      → ltb m.length grow_limit ≡ true
      → realloc_with insert m
        ≡ copy_loop insert m.items m.length 0 (fsm_init (m.length * 2 % size_mod))
  unfolding realloc_with compute_min_count
  realloc_with-few insert m few short = rw (few, short)

  insert_depth-enough :
      (depth : ℕ) (m : FixedSizeMap V) (key : ℕ) (value : V)
      → 1 < m.count
      → insert_depth (suc depth) m key value ≡ insert_at_slot m key value
  unfolding insert_depth
  insert_depth-enough depth m key value h = rw (realloc_with-enough (insert_depth depth) m h)

  -- `m'` is `m2` with the entries of `rest` put in.
  record Copied (rest : List (Item V)) (m2 m' : FixedSizeMap V) : Type ℓ where
    is_map : IsMap m'
    same_length : m'.length ≡ m2.length
    viewed : (k : ℕ) → view m'.items k ≡ or_else (view rest k) (view m2.items k)
    slots : m2.count + count_empty rest ≤ m'.count + length rest

  copy_item-Copied :
      (x : Item V) (m2 : FixedSizeMap V)
      → IsMap m2
      → 1 < m2.count
      → Returns (copy_item (insert_depth 1) x m2) (Copied (x ∷ []) m2)
  unfolding copy_item
  copy_item-Copied empty m2 is room = (
    m2,
    refl,
    record { is_map = is; same_length = refl; viewed = λ k. refl; slots = omega arith },
  )
  copy_item-Copied (tombstone key) m2 is room = (
    m2,
    refl,
    record { is_map = is; same_length = refl; viewed = λ k. refl; slots = omega arith },
  )
  copy_item-Copied (entry key v) m2 is room =
      let (r, run, facts) = insert_at_slot-Updated m2 key v is room in
      let up = facts.0 in
      (
        r.0,
        rw (insert_depth-enough 0 m2 key v room, run),
        record {
          is_map = up.is_map;
          same_length = up.same_length;
          viewed = λ k. up.viewed k ∙ ground arith;
          slots = omega (arith, facts.2);
        },
      )

  -- The loop, from index `i` on, where the items from there on are `rest`.
  copy_loop-Copied :
      (items rest : List (Item V)) (i : ℕ) (m2 : FixedSizeMap V)
      → ((j : ℕ) → get_elem? items (i + j) ≡ get_elem? rest j)
      → IsMap m2
      → 1 + length rest < m2.count
      → Returns (copy_loop (insert_depth 1) items (length rest) i m2) (Copied rest m2)
  unfolding copy_loop
  copy_loop-Copied items [] i m2 from is room = (
    m2,
    refl,
    record { is_map = is; same_length = refl; viewed = λ k. refl; slots = omega arith },
  )
  copy_loop-Copied items (x ∷ rest) i m2 from is room =
      let (m3, run, one) = copy_item-Copied x m2 is (omega arith) in
      let here : get_elem? items i ≡ some x = ap (get_elem? items) (omega arith) ∙ from 0 in
      let (m', runs, more) =
        copy_loop-Copied items rest (i + 1) m3
          (λ j. ap (get_elem? items) (omega arith) ∙ from (suc j)) one.is_map
          (omega (arith, one.slots)) in
      (
        m',
        rw (here, run, runs),
        record {
          is_map = more.is_map;
          same_length = more.same_length ∙ one.same_length;
          viewed = λ k.
              more.viewed k
              ∙ (ap (or_else (view rest k)) (one.viewed k)
                  ∙ or_else_assoc (view rest k) (value_in x k) (view m2.items k));
          slots = omega (arith, more.slots, one.slots);
        },
      )

  -- What the reallocation gives: the same map, in a table with two empty slots at least and no more
  -- slots in use than before.
  pub record Grown (m m' : FixedSizeMap V) : Type ℓ where
    pub is_map : IsMap m'
    pub viewed : (k : ℕ) → view m'.items k ≡ view m.items k
    pub enough : 1 < m'.count
    pub more_slots : m.count ≤ m'.count
    pub longer : m.length ≤ m'.length
    pub at_most_doubled : m'.length ≤ m.length * 2
    pub at_most_used : m'.length + m.count ≤ m'.count + m.length

  copy_all :
      (items : List (Item V)) (n : ℕ) (m2 : FixedSizeMap V)
      → n ≡ length items
      → IsMap m2
      → 1 + length items < m2.count
      → Returns (copy_loop (insert_depth 1) items n 0 m2) (Copied items m2)
  copy_all items n m2 e is room =
      rw e (copy_loop-Copied items items 0 m2 (λ j. ap (get_elem? items) (omega arith)) is room)

  copy-Grown :
      (m : FixedSizeMap V)
      → IsMap m
      → m.length < grow_limit
      → m.count ≤ 1
      → Returns
          (copy_loop (insert_depth 1) m.items m.length 0 (fsm_init (m.length * 2 % size_mod)))
          (Grown m)
  unfolding fsm_init
  copy-Grown m is short few =
      let double : m.length * 2 % size_mod ≡ m.length * 2 = omega arith in
      let (m', run, done) =
        copy_all m.items m.length (fsm_init (m.length * 2)) (sym is.size)
          (fsm_init-IsMap V (m.length * 2) (omega (arith, is.large)) (omega arith))
          (omega (arith, is.size, is.large)) in
      (
        m',
        ap (λ t. copy_loop (insert_depth 1) m.items m.length 0 (fsm_init t)) double ∙ run,
        record {
          is_map = done.is_map;
          viewed = λ k.
              done.viewed k
              ∙ (ap (or_else (view m.items k)) (view-replicate V (m.length * 2) k)
                  ∙ or_else-none (view m.items k));
          enough = omega (arith, done.slots, is.size, is.large);
          more_slots = omega (arith, done.slots, is.size, is.large);
          longer = omega (arith, done.same_length);
          at_most_doubled = omega (arith, done.same_length);
          at_most_used = omega (arith, done.slots, done.same_length, is.size, is.empties);
        },
      )

  -- `fsm_realloc_if_necessary` ends unless the table is both full and too long to be doubled, and
  -- keeps the map.
  pub fsm_realloc_if_necessary-Grown :
      (m : FixedSizeMap V)
      → IsMap m
      → (1 < m.count) ⊎ (m.length < grow_limit)
      → Returns (fsm_realloc_if_necessary m) (Grown m)
  unfolding fsm_realloc_if_necessary compute_min_count
  fsm_realloc_if_necessary-Grown m is can = elim (Bool-cases (leb 2 m.count)) [
    | inl enough ↦ (
      m,
      rw enough,
      record {
        is_map = is;
        viewed = λ k. refl;
        enough = leb→le 2 m.count enough;
        more_slots = omega arith;
        longer = omega arith;
        at_most_doubled = omega arith;
        at_most_used = omega arith;
      },
    )
    | inr few ↦
        let short : m.length < grow_limit = omega (arith, can, leb→gt 2 m.count few) in
        let (m', run, grown) = copy-Grown m is short (omega (arith, leb→gt 2 m.count few)) in
        (m', realloc_with-few (insert_depth 1) m few (lt→ltb _ _ short) ∙ run, grown)
  ]

  -- What `fsm_insert` gives: the new binding and no other change, in a table that is no shorter and
  -- has at most one slot more in use.
  pub record Inserted (m : FixedSizeMap V) (key : ℕ) (value : V) (m' : FixedSizeMap V)
      : Type ℓ where
    pub is_map : IsMap m'
    pub viewed : (k : ℕ) → view m'.items k ≡ (if key == k then some value else view m.items k)
    pub longer : m.length ≤ m'.length
    pub slots : m.count ≤ m'.count + 1
    pub at_most_doubled : m'.length ≤ m.length * 2
    pub at_most_used : m'.length + m.count ≤ m'.count + m.length + 1

  -- `fsm_insert` ends if the table has two empty slots or can be doubled. It binds the key to the
  -- value, changes no other key, and hands back the value that the key had.
  pub fsm_insert-Inserted :
      (m : FixedSizeMap V) (key : ℕ) (value : V)
      → IsMap m
      → (1 < m.count) ⊎ (m.length < grow_limit)
      → Returns
          (fsm_insert m key value)
          (λ (m', old). Inserted m key value m' × (old ≡ view m.items key))
  unfolding fsm_insert fsm_realloc_if_necessary
  fsm_insert-Inserted m key value is can =
      let (g, grows, grown) = fsm_realloc_if_necessary-Grown m is can in
      let (r, run, facts) = insert_at_slot-Updated g key value grown.is_map grown.enough in
      let up = facts.0 in
      (
        r,
        rw (grows, run),
        (
          record {
            is_map = up.is_map;
            viewed =
                λ k. up.viewed k ∙ ap (λ o. if key == k then some value else o) (grown.viewed k);
            longer = omega (arith, grown.longer, up.same_length);
            slots = omega (arith, grown.more_slots, facts.2);
            at_most_doubled = omega (arith, grown.at_most_doubled, up.same_length);
            at_most_used = omega (arith, grown.at_most_used, up.same_length, facts.2);
          },
          facts.1 ∙ grown.viewed key,
        ),
      )

  -- A table with fewer than two empty slots that is too long to be doubled makes `fsm_insert` spin
  -- for ever.
  pub fsm_insert-hang :
      (m : FixedSizeMap V) (key : ℕ) (value : V)
      → m.count < 2
      → grow_limit ≤ m.length
      → fsm_insert m key value ≡ hang
  unfolding fsm_insert compute_min_count
  fsm_insert-hang m key value few long =
      let few' : leb 2 m.count ≡ false = ground arith in
      let long' : ltb m.length grow_limit ≡ false = ground arith in rw (few', long')
