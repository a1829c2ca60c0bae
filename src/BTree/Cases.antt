-- ===== src/BTree/Cases.antt =====
-- insert_br on a node with its arrays written out, case by case.
use mathlib.Core.List.{append_assoc, append-nil}
use refined_c.Base.{
  ℕ, zero, suc, ◌<◌, ◌≤◌, ◌≡◌, refl, Option, none, some, List, [], ◌∷◌, ◌++◌, arith,
}
use refined_c.Base.Run.{ok, fault}
use refined_c.BTree.{Btree, nil, cons, Node, as_tree}
use refined_c.BTree.Splitting.{insert_at_slot, Split}
use refined_c.BTree.Entries.{Entry, entries}
use refined_c.BTree.Shape.{IsBalanced, child_at, before, after}

ruleset list_laws = (append_assoc, append-nil)

-- A node with its arrays written out.
module _ (k0 k1 k2 k3 v0 v1 v2 v3 : ℕ) (c0 c1 c2 c3 c4 : Btree) where
  abbrev pub node_of : (n h : ℕ) → Node
  node_of n h = record {
    nb_keys = n;
    keys = k0 ∷ k1 ∷ k2 ∷ k3 ∷ [];
    vals = v0 ∷ v1 ∷ v2 ∷ v3 ∷ [];
    children = cons c0 (cons c1 (cons c2 (cons c3 (cons c4 nil))));
    height = h;
  }

-- The entries of a node with a new one, and the branch right of it, in place `s`.
abbrev pub widened : (node : Node) (s k v : ℕ) (b : Btree) → List Entry
widened node s k v b =
    before s node.keys node.vals node.children
    ++ (entries (child_at node.children s)
        ++ (k, v) ∷ (entries b ++ after s node.nb_keys node.keys node.vals node.children))

abbrev pub Widened : (node : Node) (s k v : ℕ) (b : Btree) (e : ℕ) → Node × Option Split → Type 0
Widened node s k v b e (node', none) =
    (entries (as_tree node') ≡ widened node s k v b)
    × IsBalanced (as_tree node') (suc node.nb_keys) (suc e)
Widened node s k v b e (node', some new) =
    (entries (as_tree node') ++ (new.med_k, new.med_v) ∷ entries (as_tree new.new_node)
      ≡ widened node s k v b)
    × IsBalanced (as_tree node') 2 (suc e)
    × IsBalanced (as_tree new.new_node) 2 (suc e)
    × (node.nb_keys ≡ 4)

module _ (k0 k1 k2 k3 v0 v1 v2 v3 : ℕ) (c0 c1 c2 c3 c4 : Btree) (raw : Node) (k v e : ℕ)
    (b : Btree) where
  -- The outcome of a call at slot `s` of the node with `n` entries.
  abbrev pub Adds : (n s : ℕ) → Type 0
  Adds n s =
      let node = node_of k0 k1 k2 k3 v0 v1 v2 v3 c0 c1 c2 c3 c4 n (suc e) in
      IsBalanced (as_tree node) 1 (suc e)
      → IsBalanced b 2 e
      → (out : Node × Option Split) × (insert_at_slot raw node s k v b ≡ ok out)
        × Widened node s k v b e out

  pub free_one : (s : ℕ) → s ≤ 1 → Adds 1 s
  unfolding insert_at_slot IsBalanced entries
  free_one zero h bal bb = (_, refl, (refl, ground arith))
  free_one (suc zero) h bal bb = (_, refl, (simp list_laws, ground arith))
  free_one (suc (suc s)) h bal bb = absurd (omega arith)

  pub free_two : (s : ℕ) → s ≤ 2 → Adds 2 s
  unfolding insert_at_slot IsBalanced entries
  free_two zero h bal bb = (_, refl, (refl, ground arith))
  free_two (suc zero) h bal bb = (_, refl, (simp list_laws, ground arith))
  free_two (suc (suc zero)) h bal bb = (_, refl, (simp list_laws, ground arith))
  free_two (suc (suc (suc s))) h bal bb = absurd (omega arith)

  pub free_three : (s : ℕ) → s ≤ 3 → Adds 3 s
  unfolding insert_at_slot IsBalanced entries
  free_three zero h bal bb = (_, refl, (refl, ground arith))
  free_three (suc zero) h bal bb = (_, refl, (simp list_laws, ground arith))
  free_three (suc (suc zero)) h bal bb = (_, refl, (simp list_laws, ground arith))
  free_three (suc (suc (suc zero))) h bal bb = (_, refl, (simp list_laws, ground arith))
  free_three (suc (suc (suc (suc s)))) h bal bb = absurd (omega arith)

module _ (k0 k1 k2 k3 v0 v1 v2 v3 : ℕ) (c0 c1 c2 c3 c4 : Btree) (j0 j1 j2 j3 w0 w1 w2 w3 : ℕ)
    (d0 d1 d2 d3 d4 : Btree) (n h k v e : ℕ) (b : Btree) where
  -- The outcome of a call at slot `s` of a full node, with the block that `xmalloc` gives.
  abbrev pub Splits : (s : ℕ) → Type 0
  Splits s =
      let node = node_of k0 k1 k2 k3 v0 v1 v2 v3 c0 c1 c2 c3 c4 4 (suc e) in
      let raw = node_of j0 j1 j2 j3 w0 w1 w2 w3 d0 d1 d2 d3 d4 n h in
      IsBalanced (as_tree node) 1 (suc e)
      → IsBalanced b 2 e
      → (out : Node × Option Split) × (insert_at_slot raw node s k v b ≡ ok out)
        × Widened node s k v b e out

  pub full_two : Splits 2
  unfolding insert_at_slot IsBalanced entries
  full_two bal bb = (_, refl, (simp list_laws, ground arith, ground arith, refl))

  pub full_three : Splits 3
  unfolding insert_at_slot IsBalanced entries
  full_three bal bb = (_, refl, (simp list_laws, ground arith, ground arith, refl))

  pub full_four : Splits 4
  unfolding insert_at_slot IsBalanced entries
  full_four bal bb = (_, refl, (simp list_laws, ground arith, ground arith, refl))

  pub overrun :
      (s : ℕ)
      → s < 2
      → insert_at_slot
          (node_of j0 j1 j2 j3 w0 w1 w2 w3 d0 d1 d2 d3 d4 n h)
          (node_of k0 k1 k2 k3 v0 v1 v2 v3 c0 c1 c2 c3 c4 4 (suc e))
          s
          k
          v
          b
        ≡ fault
  unfolding insert_at_slot
  overrun zero h = refl
  overrun (suc zero) h = refl
  overrun (suc (suc s)) h = absurd (omega arith)
