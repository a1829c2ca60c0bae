-- ===== src/TreeSet/Search.antt =====
-- Search and insertion against the set of a tree's keys.
use refined_c.Base.{
  ℕ, ◌<◌, ◌≡◌, refl, sym, ap, ◌∙◌, Bool, true, false, ◌||◌, [], ltb, ◌==◌, arith, Bool-cases, inl,
  inr,
}
use refined_c.TreeSet.{
  Tree, leaf, branch, member_rec, insert_rec, Turn, left, right, Stop, at_key, at_null, turned,
  cursor_loop, found, member, stored, insert,
}

-- Is `k` a key of the tree? The order of the keys plays no part.
abbrev pub has : Tree → ℕ → Bool
has leaf k = false
has (branch l key r) k = (k == key) || (has l k || has r k)

abbrev pub IsSearch : Tree → Type 0
IsSearch leaf = Unit {0}
IsSearch (branch l key r) =
    IsSearch l
    × IsSearch r
    × ((k : ℕ) → has l k ≡ true → k < key)
    × ((k : ℕ) → has r k ≡ true → key < k)

pub has-false : (t : Tree) (k : ℕ) → (has t k ≡ true → k < k) → has t k ≡ false
has-false t k h = elim (Bool-cases (has t k)) [
  | inl found ↦ absurd (omega (arith, h found))
  | inr out ↦ out
]

-- Where a key is not, by the order.
pub has_above : (l r : Tree) (key k : ℕ) → IsSearch (branch l key r) → k < key → has r k ≡ false
has_above l r key k is lt = has-false r k (λ e. omega (arith, is.3 k e))

pub has_below : (l r : Tree) (key k : ℕ) → IsSearch (branch l key r) → key < k → has l k ≡ false
has_below l r key k is lt = has-false l k (λ e. omega (arith, is.2 k e))

pub member_rec-has : (t : Tree) (k : ℕ) → IsSearch t → member_rec t k ≡ has t k
unfolding member_rec
member_rec-has leaf k is = refl
member_rec-has (branch l key r) k is =
    let low = member_rec-has l k is.0 in
    let high = member_rec-has r k is.1 in
    elim (Bool-cases (key == k)) [
      | inl same ↦ ground arith
      | inr other ↦ elim (Bool-cases (ltb k key)) [
        | inl less ↦ let out = has_above l r key k is (ground arith) in ground (arith, out, low)
        | inr more ↦ let out = has_below l r key k is (ground arith) in ground (arith, out, high)
      ]
    ]

-- Insertion adds the key and no other.
pub insert_rec-has :
    (t : Tree) (k : ℕ)
    → IsSearch t
    → IsSearch (insert_rec t k) × ((q : ℕ) → has (insert_rec t k) q ≡ ((q == k) || has t q))
unfolding insert_rec
insert_rec-has leaf k is = ((tt, tt, λ q e. cc, λ q e. cc), λ q. refl)
insert_rec-has (branch l key r) k is =
    let (low_is, low) = insert_rec-has l k is.0 in
    let (high_is, high) = insert_rec-has r k is.1 in
    elim (Bool-cases (key == k)) [
      | inl same ↦ rw same (is, λ q. ground arith)
      | inr other ↦ elim (Bool-cases (ltb k key)) [
        | inl less ↦
            rw (other, less)
              (
                (
                  low_is,
                  is.1,
                  λ q e. added_below key k q (has l q) (ground arith) (is.2 q) (sym (low q) ∙ e),
                  is.3,
                ),
                λ q. ground (arith, low q),
              )
        | inr more ↦
            rw (other, more)
              (
                (
                  is.0,
                  high_is,
                  is.2,
                  λ q e. added_above key k q (has r q) (ground arith) (is.3 q) (sym (high q) ∙ e),
                ),
                λ q. ground (arith, high q),
              )
      ]
    ]
  where
    added_below :
        (key k q : ℕ) (old : Bool)
        → k < key
        → (old ≡ true → q < key)
        → ((q == k) || old) ≡ true
        → q < key
    added_below key k q true lt h e = h refl
    added_below key k q false lt h e = ground arith

    added_above :
        (key k q : ℕ) (old : Bool)
        → key < k
        → (old ≡ true → key < q)
        → ((q == k) || old) ≡ true
        → key < q
    added_above key k q true lt h e = h refl
    added_above key k q false lt h e = ground arith

-- Where the loop stops at a node.
module _ (l r : Tree) (key k : ℕ) where
  stops_here : (key == k) ≡ true → cursor_loop (branch l key r) k ≡ at_key []
  unfolding cursor_loop
  stops_here same = rw same

  goes_left :
      (key == k) ≡ false
      → ltb k key ≡ true
      → cursor_loop (branch l key r) k ≡ turned left (cursor_loop l k)
  unfolding cursor_loop
  goes_left other less = rw (other, less)

  goes_right :
      (key == k) ≡ false
      → ltb k key ≡ false
      → cursor_loop (branch l key r) k ≡ turned right (cursor_loop r k)
  unfolding cursor_loop
  goes_right other more = rw (other, more)

  stored_left : (s : Stop) → stored (branch l key r) k (turned left s) ≡ branch (stored l k s) key r
  stored_left (at_key ds) = refl
  stored_left (at_null ds) = refl

  stored_right :
      (s : Stop) → stored (branch l key r) k (turned right s) ≡ branch l key (stored r k s)
  stored_right (at_key ds) = refl
  stored_right (at_null ds) = refl

found-turned : (d : Turn) (s : Stop) → found (turned d s) ≡ found s
found-turned d (at_key ds) = refl
found-turned d (at_null ds) = refl

-- The loop of `member` finds what the recursion finds.
pub member-member_rec : (t : Tree) (k : ℕ) → member t k ≡ member_rec t k
unfolding member cursor_loop member_rec
member-member_rec leaf k = refl
member-member_rec (branch l key r) k = elim (Bool-cases (key == k)) [
  | inl same ↦ ap found (stops_here l r key k same) ∙ rw same
  | inr other ↦ elim (Bool-cases (ltb k key)) [
    | inl less ↦
        ap found (goes_left l r key k other less)
        ∙ (found-turned left (cursor_loop l k) ∙ (member-member_rec l k ∙ rw (other, less)))
    | inr more ↦
        ap found (goes_right l r key k other more)
        ∙ (found-turned right (cursor_loop r k) ∙ (member-member_rec r k ∙ rw (other, more)))
  ]
]

-- The loop of `insert` and its store through the cursor make the tree that the recursion makes.
pub insert-insert_rec : (t : Tree) (k : ℕ) → insert t k ≡ insert_rec t k
unfolding insert cursor_loop insert_rec
insert-insert_rec leaf k = refl
insert-insert_rec (branch l key r) k =
    let t = branch l key r in
    elim (Bool-cases (key == k)) [
      | inl same ↦ ap (stored t k) (stops_here l r key k same) ∙ rw same
      | inr other ↦ elim (Bool-cases (ltb k key)) [
        | inl less ↦
            ap (stored t k) (goes_left l r key k other less)
            ∙ (stored_left l r key k (cursor_loop l k)
                ∙ (ap (λ u. branch u key r) (insert-insert_rec l k) ∙ rw (other, less)))
        | inr more ↦
            ap (stored t k) (goes_right l r key k other more)
            ∙ (stored_right l r key k (cursor_loop r k)
                ∙ (ap (λ u. branch l key u) (insert-insert_rec r k) ∙ rw (other, more)))
      ]
    ]

-- `member` on a search tree tells whether the key is in it.
pub member-has : (t : Tree) (k : ℕ) → IsSearch t → member t k ≡ has t k
member-has t k is = member-member_rec t k ∙ member_rec-has t k is

-- `insert` on a search tree gives a search tree that has the key and the former keys, and no others.
pub insert-has :
    (t : Tree) (k : ℕ)
    → IsSearch t
    → IsSearch (insert t k) × ((q : ℕ) → has (insert t k) q ≡ ((q == k) || has t q))
insert-has t k is = rw (insert-insert_rec t k) (insert_rec-has t k is)
