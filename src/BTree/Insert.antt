-- ===== src/BTree/Insert.antt =====
-- btree_insert: what it does to a tree's entries, and where it writes past an array.
use mathlib.Core.Path.{subst}
use mathlib.Core.List.{append-nil, append_assoc}
use refined_c.Base.{
  ℕ, zero, suc, ◌≡◌, refl, sym, ap, ◌∙◌, Bool, true, false, some, List, [], ◌∷◌, ◌++◌, set,
  get_elem?, length-set,
}
use refined_c.Base.Run.{Run, ok, fault, Returns}
use refined_c.BTree.{Btree, null, at, Node, as_tree, store}
use refined_c.BTree.Growing.{Frame, Stop, at_key, at_null, descend, finish, btree_insert, height_of}
use refined_c.BTree.Entries.{Entry, entries, insert, IsAscending}
use refined_c.BTree.Order.{
  IsAscending-between, IsAscending-AllBelow, insert-between, insert-replace, insert-IsAscending,
}
use refined_c.BTree.Shape.{IsBalanced, IsBtree, child_at, before}
use refined_c.BTree.Place.{flatten-set, flatten_around}
use refined_c.BTree.Find.{node-Holds}
use refined_c.BTree.Branch.{IsStruct}
use refined_c.BTree.Route.{left_of, right_of, least, Grown, plug-Grown}
use refined_c.BTree.Descend.{Stopped, descend-Stopped}
use refined_c.BTree.Ascend.{overruns, ascend-Grown}
use refined_c.BTree.Overrun.{ascend-fault}
use refined_c.BTree.Root.{make_root-Grown, height-IsBalanced}

-- The path to the place of the key, if it is not in the tree, meets a full node at a slot left of its
-- median before one with a free place, from the leaf on.
abbrev stop_overruns : Run Stop → Bool
stop_overruns (ok (at_null path)) = overruns path
stop_overruns _ = false

unfoldable pub insert_overruns : Btree → ℕ → Bool
insert_overruns t k = stop_overruns (descend t (height_of t) [] k)

-- An array that is long enough takes a value.
store-set :
    (xs : List ℕ) (i v : ℕ) {old : ℕ} → get_elem? xs i ≡ some old → store xs i v ≡ ok (set xs i v)
store-set [] i v e = cc
store-set (x ∷ xs) zero v e = refl
store-set (x ∷ xs) (suc i) v e = rw (store-set xs i v e) refl

around_entry :
    (left bf c : List Entry) (x : Entry) (more right : List Entry)
    → left ++ ((bf ++ (c ++ x ∷ more)) ++ right) ≡ (left ++ (bf ++ c)) ++ x ∷ (more ++ right)
around_entry left bf c x more right = simp append_assoc

-- What is left of btree_insert when the loop down stopped.
module _ (raw : ℕ → Node) (structs : (cur : ℕ) → IsStruct (raw cur)) (k v : ℕ) (m : List Entry)
    (asc : IsAscending m) where
  finish-at_null :
      (path : List Frame)
      → Stopped k m (at_null path)
      → overruns path ≡ false
      → (t : Btree) × (finish raw (at_null path) k v ≡ ok t) × Grown t (insert k v m)
  unfolding IsBalanced entries
  finish-at_null path (is, low, high, e) o =
      let same : insert k v m ≡ left_of path ++ (k, v) ∷ right_of path =
        ap (insert k v) e ∙ insert-between k v (left_of path) (right_of path) low high in
      let (t, run, g) =
        ascend-Grown raw structs path null k v null 0 is refl refl
          (IsAscending-between k v (left_of path) (right_of path) (rw e at asc) low high) o in
      (t, run, record { depth = g.depth; balanced = g.balanced; holds = g.holds ∙ sym same })

  finish-overruns :
      (path : List Frame)
      → Stopped k m (at_null path)
      → overruns path ≡ true
      → finish raw (at_null path) k v ≡ fault
  unfolding IsBalanced entries
  finish-overruns path (is, low, high, e) o =
      ascend-fault raw structs path null k v null 0 is refl refl
        (IsAscending-between k v (left_of path) (right_of path) (rw e at asc) low high) o

  finish-at_key :
      (path : List Frame) (node : Node) (i : ℕ)
      → Stopped k m (at_key path node i)
      → (t : Btree) × (finish raw (at_key path node i) k v ≡ ok t) × Grown t (insert k v m)
  unfolding IsBalanced entries
  finish-at_key path node i (e, is, bal, bound, low, old, more, get, next, left, whole) =
      let n = node.nb_keys in
      let cs = node.children in
      let holds = node-Holds n node.height (least path) e node.keys node.vals cs bal in
      let c = entries (child_at cs i) in
      let bf = before i node.keys node.vals cs in
      let content =
        flatten_around n node.keys node.vals cs i holds bound ∙ ap (λ r. bf ++ (c ++ r)) next in
      let whole' =
        whole
        ∙ (ap (λ r. left_of path ++ (r ++ right_of path)) content
            ∙ around_entry (left_of path) bf c (k, old) more (right_of path)) in
      let front = left_of path ++ (bf ++ c) in
      let back = more ++ right_of path in
      let below = IsAscending-AllBelow k old front back (rw whole' at asc) in
      let new = record node { vals = set node.vals i v } in
      let (height, some_keys, room, keys, vals, children, all) = bal in
      let bal' : IsBalanced (as_tree new) (least path) (suc e) =
        (height, some_keys, room, keys, length-set node.vals i v ∙ vals, children, all) in
      let (t, run, g) = plug-Grown path (as_tree new) (suc e) is bal' in
      (
        t,
        rw (store-set node.vals i v get) run,
        record {
          depth = g.depth;
          balanced = g.balanced;
          holds =
              g.holds
              ∙ (ap (λ r. left_of path ++ (r ++ right_of path))
                    (flatten-set n node.keys node.vals cs i k old v more holds next)
                  ∙ (around_entry (left_of path) bf c (k, v) more (right_of path)
                      ∙ sym (ap (insert k v) whole' ∙ insert-replace k v old front back below)));
        },
      )

  finish-Grown :
      (stop : Stop)
      → Stopped k m stop
      → stop_overruns (ok stop) ≡ false
      → (t : Btree) × (finish raw stop k v ≡ ok t) × Grown t (insert k v m)
  finish-Grown (at_null path) known o = finish-at_null path known o
  finish-Grown (at_key path node i) known o = finish-at_key path node i known

  finish-fault :
      (stop : Stop)
      → Stopped k m stop
      → stop_overruns (ok stop) ≡ true
      → finish raw stop k v ≡ fault
  finish-fault (at_null path) known o = finish-overruns path known o
  finish-fault (at_key path node i) known o = cc

-- The dictionary after an insertion is that with the key and the value inserted.
Grown-IsBtree :
    (k v : ℕ) (t t' : Btree)
    → IsAscending (insert k v (entries t))
    → Grown t' (insert k v (entries t))
    → IsBtree t' × (entries t' ≡ insert k v (entries t))
Grown-IsBtree k v t t' asc g = (
  record {
    depth = g.depth;
    balanced = g.balanced;
    ascending = subst IsAscending (sym g.holds) asc;
  },
  g.holds,
)

module _ (t : Btree) (k : ℕ) (is : IsBtree t) where
  stopped : Returns (descend t (height_of t) [] k) (Stopped k (entries t))
  stopped =
      let height = height-IsBalanced t 1 is.depth is.balanced in
      rw height (
        descend-Stopped t is.depth [] k (entries t) tt is.balanced is.ascending
          (tt, tt, sym (append-nil (entries t))))

-- btree_insert of a B-tree, where no full node on the way up takes the new key left of its median: it
-- ends with a B-tree, whose entries are the former ones with the key and the value inserted.
pub btree_insert-IsBtree :
    (raw : ℕ → Node) (t : Btree) (k v : ℕ)
    → ((cur : ℕ) → IsStruct (raw cur))
    → IsBtree t
    → insert_overruns t k ≡ false
    → (t' : Btree) × (btree_insert raw t k v ≡ ok t')
      × IsBtree t'
      × (entries t' ≡ insert k v (entries t))
unfolding btree_insert insert_overruns entries IsBalanced
btree_insert-IsBtree raw null k v structs is o =
    let (root, run, g) = make_root-Grown null null k v 0 refl refl (raw 0) (structs 0) in
    let (is', same) = Grown-IsBtree k v null (as_tree root) (insert-IsAscending k v [] tt) g in
    (as_tree root, rw run refl, is', same)
btree_insert-IsBtree raw (at n keys vals cs h) k v structs is o =
    let t = at n keys vals cs h in
    let (stop, run, known) = stopped t k is in
    let (t', run', g) =
      finish-Grown raw structs k v (entries t) is.ascending stop known
        (ap stop_overruns (sym run) ∙ o) in
    let (is', same) = Grown-IsBtree k v t t' (insert-IsAscending k v (entries t) is.ascending) g in
    (t', rw run run', is', same)

-- btree_insert of a B-tree, where it comes on the way up to a full node that takes the new key left
-- of its median, before a node with a free place: it accesses an element outside an array.
pub btree_insert-fault :
    (raw : ℕ → Node) (t : Btree) (k v : ℕ)
    → ((cur : ℕ) → IsStruct (raw cur))
    → IsBtree t
    → insert_overruns t k ≡ true
    → btree_insert raw t k v ≡ fault
unfolding btree_insert insert_overruns descend overruns
btree_insert-fault raw null k v structs is o = cc
btree_insert-fault raw (at n keys vals cs h) k v structs is o =
    let t = at n keys vals cs h in
    let (stop, run, known) = stopped t k is in
    rw run (
      finish-fault raw structs k v (entries t) is.ascending stop known
        (ap stop_overruns (sym run) ∙ o))
