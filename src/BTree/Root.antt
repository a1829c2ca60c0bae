-- ===== src/BTree/Root.antt =====
-- btree_make_root: a tree of one more level.
use mathlib.Core.Path.{subst}
use refined_c.Base.{ℕ, zero, suc, ◌≡◌, refl, sym, ◌∷◌, ◌++◌, arith}
use refined_c.Base.Run.{ok}
use refined_c.BTree.{Btree, null, at, Node, as_tree}
use refined_c.BTree.Growing.{btree_make_root, height_of}
use refined_c.BTree.Entries.{entries}
use refined_c.BTree.Shape.{IsBalanced}
use refined_c.BTree.Branch.{IsStruct, written_out}
use refined_c.BTree.Cases.{node_of}
use refined_c.BTree.Route.{Grown}

-- A new root
pub height-IsBalanced : (t : Btree) (low e : ℕ) → IsBalanced t low e → height_of t ≡ e
unfolding IsBalanced
height-IsBalanced null low e b = sym b
height-IsBalanced (at n keys vals cs h) low zero b = elim b [ ]
height-IsBalanced (at n keys vals cs h) low (suc e) b = b.0

module _ (l r : Btree) (k v e : ℕ) (bl : IsBalanced l 2 e) (br : IsBalanced r 2 e) where
  root_of :
      (k0 k1 k2 k3 v0 v1 v2 v3 : ℕ) (c0 c1 c2 c3 c4 : Btree) (n h : ℕ)
      → (root : Node) × (btree_make_root
            (node_of k0 k1 k2 k3 v0 v1 v2 v3 c0 c1 c2 c3 c4 n h)
            l
            r
            k
            v
          ≡ ok root)
        × Grown (as_tree root) (entries l ++ (k, v) ∷ entries r)
  unfolding btree_make_root IsBalanced entries
  root_of k0 k1 k2 k3 v0 v1 v2 v3 c0 c1 c2 c3 c4 n h =
      let height = height-IsBalanced l 2 e bl in
      (
        _,
        refl,
        record {
          depth = suc e;
          balanced =
              (omega (arith, height), omega arith, omega arith, refl, refl, refl, (bl, (br, tt)));
          holds = refl;
        },
      )

  pub make_root-Grown :
      (raw : Node)
      → IsStruct raw
      → (root : Node) × (btree_make_root raw l r k v ≡ ok root)
        × Grown (as_tree root) (entries l ++ (k, v) ∷ entries r)
  make_root-Grown raw s =
      let (k0, k1, k2, k3, v0, v1, v2, v3, c0, c1, c2, c3, c4, e) = written_out raw s in
      subst
        (λ x.
          (root : Node) × (btree_make_root x l r k v ≡ ok root)
          × Grown (as_tree root) (entries l ++ (k, v) ∷ entries r))
        (sym e) (root_of k0 k1 k2 k3 v0 v1 v2 v3 c0 c1 c2 c3 c4 raw.nb_keys raw.height)
