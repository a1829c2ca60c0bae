-- ===== src/BTree/Growing.antt =====
-- btree_insert and btree_make_root of examples/btree.c: the way down to the key, and up through the
-- nodes that are split.
use refined_c.Base.{ℕ, zero, suc, ◌+◌, none, some, List, [], ◌∷◌, length, if◌then◌else◌}
use refined_c.Base.Run.{Run, ok, fault, ◌>>=◌}
use refined_c.BTree.{
  Btree, null, at, Forest, nil, cons, Node, as_tree, store, store_child, key_index, is_at,
}
use refined_c.BTree.Splitting.{insert_br}

abbrev pub height_of : Btree → ℕ
height_of null = 0
height_of (at n keys vals children h) = h

-- `l->height + 1`, or 1 if `l` is NULL, is the height of the new root.
unfoldable pub btree_make_root : (raw : Node) (l r : Btree) (k v : ℕ) → Run Node
btree_make_root raw l r k v =
    let root = record raw { height = height_of l + 1; nb_keys = 1 } in
    store root.keys 0 k >>= λ keys. store root.vals 0 v >>= λ vals.
    store_child root.children 0 l >>= λ some_children. store_child some_children 1 r >>= λ children.
    ok (record root { keys = keys; vals = vals; children = children })

-- `path_ptrs[cur]` is the address of a child of the node at `path_ptrs[cur - 1]`. The path holds for each
-- pointer but the first that node and the place of the child, the last pointer first.
pub record Frame : Type 0 where
  pub node : Node
  pub slot : ℕ

-- The loop that goes down ends at a key, or at a NULL.
pub data Stop : Type 0 where
  at_key : (path : List Frame) (node : Node) (i : ℕ) → Stop
  at_null : (path : List Frame) → Stop

-- `room` is how many elements of `path_keys` are left; `path_ptrs` has one more.
unfoldable mutual
  pub descend : Btree → (room : ℕ) → (path : List Frame) → (k : ℕ) → Run Stop
  descend null room path k = ok (at_null path)
  descend (at n keys vals children h) room path k =
      let node : Node = record {
        nb_keys = n;
        keys = keys;
        vals = vals;
        children = children;
        height = h;
      } in
      key_index keys n k >>= λ i. is_at i n keys k >>= λ hit.
      let below = follow children i room (record { node = node; slot = i } ∷ path) k in
      if hit then ok (at_key path node i) else below

  -- `path_keys[cur] = i; cur++; path_ptrs[cur] = &children[i];`
  pub follow : Forest → (i room : ℕ) → (path : List Frame) → (k : ℕ) → Run Stop
  follow nil i room path k = fault
  follow (cons c cs) i zero path k = fault
  follow (cons c cs) zero (suc room) path k = descend c room path k
  follow (cons c cs) (suc i) (suc room) path k = follow cs i (suc room) path k

-- The node of a frame with what its child has become.
abbrev pub hold : Frame → Btree → Run Node
hold f sub = store_child f.node.children f.slot sub >>= λ children.
    ok (record f.node { children = children })

-- The whole tree, from what is at the end of the path.
abbrev pub plug : List Frame → Btree → Run Btree
plug [] t = ok t
plug (f ∷ path) t = hold f t >>= λ node. plug path (as_tree node)

-- `while(cur > 0)`, and the new root behind it. The block that `xmalloc` gives next is `raw cur` with
-- `cur` frames left.
unfoldable pub ascend :
    (raw : ℕ → Node) (path : List Frame) (sub : Btree) (ins_k ins_v : ℕ) (ins_b : Btree) → Run Btree
ascend raw [] sub ins_k ins_v ins_b =
    btree_make_root (raw 0) sub ins_b ins_k ins_v >>= λ root. ok (as_tree root)
ascend raw (f ∷ path) sub ins_k ins_v ins_b = hold f sub >>= λ node.
    insert_br (raw (length (f ∷ path))) node ins_k ins_v ins_b >>= λ (node', new). elim new [
      | none ↦ plug path (as_tree node')
      | some s ↦ ascend raw path (as_tree node') s.med_k s.med_v (as_tree s.new_node)
    ]

abbrev pub finish : (raw : ℕ → Node) → Stop → (k v : ℕ) → Run Btree
finish raw (at_key path node i) k v =
    store node.vals i v >>= λ vals. plug path (as_tree (record node { vals = vals }))
finish raw (at_null path) k v = ascend raw path null k v null

unfoldable pub btree_insert : (raw : ℕ → Node) → Btree → (k v : ℕ) → Run Btree
unfolding btree_make_root descend ascend
btree_insert raw null k v = btree_make_root (raw 0) null null k v >>= λ root. ok (as_tree root)
btree_insert raw (at n keys vals children h) k v =
    descend (at n keys vals children h) h [] k >>= λ stop. finish raw stop k v
