-- ===== src/BTree/Examples.antt =====
-- A B-tree of two levels, and the theorems at it.
use refined_c.Base.{List, ◌<◌, ℕ, ◌-◌, ◌*◌, ◌^◌, ◌≤◌, ◌≡◌, refl, [], ◌∷◌, some, true, false, arith}
use refined_c.Base.Run.{ok, fault, ◌>>=◌}
use refined_c.BTree.{
  Node, Btree, null, at, Forest, nil, cons, btree_find, btree_member, key_index, key_loop,
  free_btree_nodes,
}
use refined_c.BTree.Growing.{height_of, btree_insert, descend}
use refined_c.BTree.Splitting.{insert_br}
use refined_c.BTree.Entries.{Entry, entries, lookup, insert}
use refined_c.BTree.Shape.{IsBalanced, IsBtree}
use refined_c.BTree.Find.{is_some, btree_find-lookup}
use refined_c.BTree.Ascend.{overruns}
use refined_c.BTree.Insert.{insert_overruns, btree_insert-IsBtree, btree_insert-fault}
use refined_c.BTree.Session.{insert_all, some_overruns, inserted, insert_all-height_of}

abbrev five_nulls : Forest
five_nulls = cons null (cons null (cons null (cons null (cons null nil))))

-- What a block of `xmalloc` holds
abbrev block : ℕ → Node
block cur = record {
  nb_keys = 77;
  keys = 91 ∷ 92 ∷ 93 ∷ 94 ∷ [];
  vals = 81 ∷ 82 ∷ 83 ∷ 84 ∷ [];
  children = five_nulls;
  height = 55;
}

abbrev low_leaf : Btree
low_leaf = at 2 (10 ∷ 20 ∷ 30 ∷ 40 ∷ []) (1 ∷ 2 ∷ 3 ∷ 4 ∷ []) five_nulls 1

abbrev full_leaf : Btree
full_leaf = at 4 (30 ∷ 35 ∷ 40 ∷ 50 ∷ []) (3 ∷ 3 ∷ 4 ∷ 5 ∷ []) five_nulls 1

abbrev two_levels : Btree
two_levels =
    at 1 (25 ∷ 0 ∷ 0 ∷ 0 ∷ []) (2 ∷ 0 ∷ 0 ∷ 0 ∷ [])
      (cons low_leaf (cons full_leaf (cons null (cons null (cons null nil))))) 2

finds : btree_find two_levels 40 ≡ ok (some 4)
unfolding btree_find key_index key_loop
finds = refl

-- The full leaf is split, and its median joins the root.
adds :
    (btree_insert block two_levels 60 6 >>= λ t. ok (entries t))
    ≡ ok ((10, 1) ∷ (20, 2) ∷ (25, 2) ∷ (30, 3) ∷ (35, 3) ∷ (40, 4) ∷ (50, 5) ∷ (60, 6) ∷ [])
unfolding btree_insert insert_br entries key_index key_loop
adds = refl

frees : free_btree_nodes two_levels ≡ ok 3
unfolding free_btree_nodes
frees = refl

two_levels-IsBtree : IsBtree two_levels
unfolding IsBalanced entries
two_levels-IsBtree = record { depth = 2; balanced = omega arith; ascending = omega arith }

btree_find-lookup_example :
    (btree_find two_levels 40 ≡ ok (lookup 40 (entries two_levels)))
    × (btree_member two_levels 40 ≡ ok (is_some (lookup 40 (entries two_levels))))
btree_find-lookup_example = btree_find-lookup two_levels 40 two_levels-IsBtree

room_for_60 : insert_overruns two_levels 60 ≡ false
unfolding insert_overruns overruns descend key_index key_loop
room_for_60 = refl

no_room_for_32 : insert_overruns two_levels 32 ≡ true
unfolding insert_overruns overruns descend key_index key_loop
no_room_for_32 = refl

btree_insert-IsBtree_example :
    (t : Btree) × (btree_insert block two_levels 60 6 ≡ ok t)
    × IsBtree t
    × (entries t ≡ insert 60 6 (entries two_levels))
btree_insert-IsBtree_example =
    btree_insert-IsBtree block two_levels 60 6 (λ cur. (refl, refl, refl)) two_levels-IsBtree
      room_for_60

btree_insert-fault_example : btree_insert block two_levels 32 6 ≡ fault
btree_insert-fault_example =
    btree_insert-fault block two_levels 32 6 (λ cur. (refl, refl, refl)) two_levels-IsBtree
      no_room_for_32

-- Five keys, of which the last splits the root.
abbrev calls : List Entry
calls = (1, 10) ∷ (2, 20) ∷ (3, 30) ∷ (4, 40) ∷ (5, 50) ∷ []

calls_fit : some_overruns block null calls ≡ false
unfolding insert_overruns overruns btree_insert descend insert_br key_index key_loop
calls_fit = refl

insert_all-height_of_example :
    (t : Btree) × (insert_all block null calls ≡ ok t)
    × ((k : ℕ) → btree_find t k ≡ ok (lookup k (inserted [] calls)))
    × (0 < height_of t → 2 * 3 ^ (height_of t - 1) ≤ 6)
insert_all-height_of_example =
    insert_all-height_of block calls (λ cur. (refl, refl, refl)) calls_fit
