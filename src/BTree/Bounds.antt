-- ===== src/BTree/Bounds.antt =====
-- How many entries a B-tree has for its height, which bounds the loops over its levels.
use Prim.Native.Nat.pow
use native.Mathlib.Nat.{mul_comm}
use refined_c.Base.{
  ℕ, zero, suc, ◌+◌, ◌*◌, ◌-◌, ◌^◌, ◌<◌, ◌≤◌, ◌≡◌, ◌∙◌, List, [], ◌∷◌, ◌++◌, length, arith,
  length-append,
}
use refined_c.BTree.{Btree, null, at, Forest, nil, cons}
use refined_c.BTree.Growing.{height_of}
use refined_c.BTree.Entries.{Entry, entries, flatten}
use refined_c.BTree.Shape.{IsBalanced, AllBalanced, IsBtree}
use refined_c.BTree.Place.{Holds}
use refined_c.BTree.Find.{node-Holds}

length-node : (e : Entry) (xs ys : List Entry) → length (xs ++ e ∷ ys) ≡ length xs + suc (length ys)
length-node e xs ys = length-append xs (e ∷ ys)

pow_step : (b e : ℕ) → b ^ suc e ≡ b * b ^ e
pow_step b e = pow.suc b e ∙ mul_comm (b ^ e) b

mutual
  unfolding IsBalanced entries

  length_tree :
      (t : Btree) (d : ℕ)
      → IsBalanced t 2 d
      → (3 ^ d ≤ suc (length (entries t))) × (suc (length (entries t)) ≤ 5 ^ d)
  length_tree null d b = rw b (omega arith)
  length_tree (at n keys vals cs h) zero b = elim b [ ]
  length_tree (at n keys vals cs h) (suc e) b =
      let (low, high) = length_forest n e keys vals cs (node-Holds n h 2 e keys vals cs b) b.6 in
      (grind (arith, low, pow_step 3 e, b.1), grind (arith, high, pow_step 5 e, b.2))

  length_forest :
      (n e : ℕ) (keys vals : List ℕ) (cs : Forest)
      → Holds n keys vals cs
      → AllBalanced cs (suc n) e
      → (suc n * 3 ^ e ≤ suc (length (flatten n keys vals cs)))
        × (suc (length (flatten n keys vals cs)) ≤ suc n * 5 ^ e)
  length_forest n e keys vals nil h b = absurd (omega (arith, h.2))
  length_forest zero e keys vals (cons c cs) h b =
      let (low, high) = length_tree c e b.0 in (omega (arith, low), omega (arith, high))
  length_forest (suc n) e [] vals (cons c cs) h b = absurd (omega (arith, h.0))
  length_forest (suc n) e (k ∷ keys) [] (cons c cs) h b = absurd (omega (arith, h.1))
  length_forest (suc n) e (k ∷ keys) (v ∷ vals) (cons c cs) h b =
      let (low, high) = length_tree c e b.0 in
      let (low', high') =
        length_forest n e keys vals cs (omega (arith, h.0), omega (arith, h.1), omega (arith, h.2))
          b.1 in
      let sum = length-node (k, v) (entries c) (flatten n keys vals cs) in
      (grind (arith, low, low', sum), grind (arith, high, high', sum))

-- A B-tree of height h that is not empty has at least 2 * 3 ^ (h - 1) - 1 and at most 5 ^ h - 1 entries.
pub height-length :
    (t : Btree)
    → IsBtree t
    → 0 < height_of t
    → (2 * 3 ^ (height_of t - 1) ≤ suc (length (entries t)))
      × (suc (length (entries t)) ≤ 5 ^ height_of t)
unfolding IsBalanced entries
height-length t is pos = go t is.depth is.balanced pos
  where
    go :
        (t : Btree) (d : ℕ)
        → IsBalanced t 1 d
        → 0 < height_of t
        → (2 * 3 ^ (height_of t - 1) ≤ suc (length (entries t)))
          × (suc (length (entries t)) ≤ 5 ^ height_of t)
    go null d b pos = absurd (omega arith)
    go (at n keys vals cs h) zero b pos = elim b [ ]
    go (at n keys vals cs h) (suc e) b pos =
        let (low, high) = length_forest n e keys vals cs (node-Holds n h 1 e keys vals cs b) b.6 in
        let less : h - 1 ≡ e = omega (arith, b.0) in
        let eq : h ≡ suc e = b.0 in
        (rw less (grind (arith, low, b.1)), rw eq (grind (arith, high, pow_step 5 e, b.2)))
