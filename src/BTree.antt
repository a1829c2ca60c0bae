-- ===== src/BTree.antt =====
-- The B-tree of examples/btree.h and examples/btree.c. A tree owns its nodes, so a `btree_t` is a tree,
-- with NULL as `null`; the arrays of a node are lists of their full length, which hold anything behind
-- the first `nb_keys` places. An `int` is the number 2 ^ 31 above it, which keeps the order of the keys,
-- and a `void*` is a number. An access outside an array is a fault.
pub mod Splitting
pub mod Growing
pub mod Entries
pub mod Order
pub mod Shape
pub mod Place
pub mod Find
pub mod Cases
pub mod Branch
pub mod Route
pub mod Descend
pub mod Root
pub mod Ascend
pub mod Overrun
pub mod Insert
pub mod Bounds
pub mod Session
mod Examples
use refined_c.Base.{
  ℕ, zero, suc, ◌+◌, ◌-◌, Bool, true, false, Option, none, some, List, [], ◌∷◌, length, get_elem?,
  set, ltb, ◌==◌, if◌then◌else◌,
}
use refined_c.Base.Run.{Run, ok, fault, need, ◌>>=◌}

mutual
  pub data Btree : Type 0 where
    null : Btree
    at : (nb_keys : ℕ) (keys : List ℕ) (vals : List ℕ) (children : Forest) (height : ℕ) → Btree

  -- The array of children.
  pub data Forest : Type 0 where
    nil : Forest
    cons : Btree → Forest → Forest

-- What a pointer that is not NULL leads to.
pub record Node : Type 0 where
  pub nb_keys : ℕ
  pub keys : List ℕ
  pub vals : List ℕ
  pub children : Forest
  pub height : ℕ

abbrev pub as_tree : Node → Btree
as_tree node = at node.nb_keys node.keys node.vals node.children node.height

-- The number of children of a node, at most.
abbrev pub order : ℕ
order = 5

-- `a[i] = v`
abbrev pub store : List ℕ → ℕ → ℕ → Run (List ℕ)
store [] i v = fault
store (x ∷ xs) zero v = ok (v ∷ xs)
store (x ∷ xs) (suc i) v = store xs i v >>= λ ys. ok (x ∷ ys)

abbrev pub get_child : Forest → ℕ → Run Btree
get_child nil i = fault
get_child (cons c cs) zero = ok c
get_child (cons c cs) (suc i) = get_child cs i

abbrev pub store_child : Forest → ℕ → Btree → Run Forest
store_child nil i t = fault
store_child (cons c cs) zero t = ok (cons t cs)
store_child (cons c cs) (suc i) t = store_child cs i t >>= λ ds. ok (cons c ds)

-- The loop of `key_index`, with `rounds` for `n - slot` and `ar` for the array from `slot` on.
unfoldable pub key_loop : (rounds : ℕ) (ar : List ℕ) (slot k : ℕ) → Run ℕ
key_loop zero ar slot k = ok slot
key_loop (suc rounds) [] slot k = fault
key_loop (suc rounds) (x ∷ ar) slot k =
    let next = key_loop rounds ar (suc slot) k in if ltb x k then next else ok slot

unfoldable pub key_index : (ar : List ℕ) (n k : ℕ) → Run ℕ
key_index ar n k = key_loop n ar 0 k

-- `i < nb_keys && keys[i] == k`
abbrev pub is_at : (i n : ℕ) (keys : List ℕ) (k : ℕ) → Run Bool
is_at i n keys k = if ltb i n then (need (get_elem? keys i) >>= λ x. ok (x == k)) else ok false

-- The loop of `btree_member`; the second function follows the pointer to child `i`.
unfoldable mutual
  pub btree_member : Btree → ℕ → Run Bool
  btree_member null k = ok false
  btree_member (at n keys vals children h) k = key_index keys n k >>= λ i.
      is_at i n keys k >>= λ hit.
      let below = member_child children i k in if hit then ok true else below

  pub member_child : Forest → ℕ → ℕ → Run Bool
  member_child nil i k = fault
  member_child (cons c cs) zero k = btree_member c k
  member_child (cons c cs) (suc i) k = member_child cs i k

-- `btree_find`, with the value in the place of the pointer to it.
unfoldable mutual
  pub btree_find : Btree → ℕ → Run (Option ℕ)
  btree_find null k = ok none
  btree_find (at n keys vals children h) k = key_index keys n k >>= λ i. is_at i n keys k >>= λ hit.
      let below = find_child children i k in
      if hit then (need (get_elem? vals i) >>= λ v. ok (some v)) else below

  pub find_child : Forest → ℕ → ℕ → Run (Option ℕ)
  find_child nil i k = fault
  find_child (cons c cs) zero k = btree_find c k
  find_child (cons c cs) (suc i) k = find_child cs i k

-- `*new_btree()`
abbrev pub new_btree : Btree
new_btree = null

-- `free_btree_nodes` frees the children up to `nb_keys` and the node. The result is how many nodes were
-- freed; `rounds` is `nb_keys + 1 - i`.
unfoldable mutual
  pub free_btree_nodes : Btree → Run ℕ
  free_btree_nodes null = ok 0
  free_btree_nodes (at n keys vals children h) =
      free_loop children (n + 1) >>= λ freed. ok (freed + 1)

  pub free_loop : Forest → (rounds : ℕ) → Run ℕ
  free_loop cs zero = ok 0
  free_loop nil (suc rounds) = fault
  free_loop (cons c cs) (suc rounds) =
      free_btree_nodes c >>= λ here. free_loop cs rounds >>= λ rest. ok (here + rest)
