-- ===== src/BTree/Find.antt =====
-- btree_find and btree_member against the dictionary of a tree's entries.
use refined_c.Base.{
  ℕ, zero, suc, ◌<◌, ◌≤◌, ◌≡◌, refl, sym, ap, ◌∙◌, inl, inr, Bool, true, false, Option, none, some,
  List, ◌∷◌, ◌++◌, ◌==◌, arith,
}
use refined_c.Base.Run.{ok}
use refined_c.BTree.{
  Btree, null, at, Forest, nil, cons, btree_find, find_child, btree_member, member_child,
}
use refined_c.BTree.Entries.{Entry, entries, flatten, lookup, AllBelow, AllAbove, IsAscending}
use refined_c.BTree.Order.{
  IsAscending-left, IsAscending-right, IsAscending-AllBelow, lookup-append_below,
  lookup-append_above,
}
use refined_c.BTree.Shape.{child_at, before, after, IsBalanced, AllBalanced, IsBtree}
use refined_c.BTree.Place.{Holds, Place, place, key_index-place, flatten_around}

pub node-Holds :
    (n h low e : ℕ) (keys vals : List ℕ) (cs : Forest)
    → IsBalanced (at n keys vals cs h) low (suc e)
    → Holds n keys vals cs
unfolding IsBalanced
node-Holds n h low e keys vals cs b =
    (omega (arith, b.2, b.3), omega (arith, b.2, b.4), omega (arith, b.2, b.5))

-- What an ascending node says of the child between its entries.
pub child-IsAscending :
    (n i : ℕ) (keys vals : List ℕ) (cs : Forest)
    → Holds n keys vals cs
    → i ≤ n
    → IsAscending (flatten n keys vals cs)
    → IsAscending (entries (child_at cs i))
child-IsAscending n i keys vals cs h b a =
    let around = rw (flatten_around n keys vals cs i h b) at a in
    IsAscending-left (entries (child_at cs i)) (after i n keys vals cs) (
      IsAscending-right (before i keys vals cs) (entries (child_at cs i) ++ after i n keys vals cs)
        around)

module _ (n : ℕ) (keys vals : List ℕ) (cs : Forest) (k : ℕ) (h : Holds n keys vals cs) where
  -- A key that stands in the node
  lookup_hit :
      (i v : ℕ) (more : List Entry)
      → i ≤ n
      → IsAscending (flatten n keys vals cs)
      → AllBelow k (before i keys vals cs)
      → after i n keys vals cs ≡ (k, v) ∷ more
      → lookup k (flatten n keys vals cs) ≡ some v
  lookup_hit i v more b a low e =
      let c = entries (child_at cs i) in
      let left = before i keys vals cs in
      let whole = flatten_around n keys vals cs i h b ∙ ap (λ m. left ++ (c ++ m)) e in
      let asc = rw whole at a in
      let low_c =
        IsAscending-AllBelow k v c more (IsAscending-right left (c ++ (k, v) ∷ more) asc) in
      let same : (k == k) ≡ true = ground arith in
      ap (lookup k) whole
      ∙ (lookup-append_below k left (c ++ (k, v) ∷ more) low
          ∙ (lookup-append_below k c ((k, v) ∷ more) low_c ∙ rw same refl))

  -- A key that can only be below child `i`
  lookup_miss :
      (i : ℕ)
      → i ≤ n
      → AllBelow k (before i keys vals cs)
      → AllAbove k (after i n keys vals cs)
      → lookup k (flatten n keys vals cs) ≡ lookup k (entries (child_at cs i))
  lookup_miss i b low high =
      let c = entries (child_at cs i) in
      let left = before i keys vals cs in
      ap (lookup k) (flatten_around n keys vals cs i h b)
      ∙ (lookup-append_below k left (c ++ after i n keys vals cs) low
          ∙ lookup-append_above k c (after i n keys vals cs) high)

-- One step, once the place of the key is known.
find_node :
    (n : ℕ) (keys vals : List ℕ) (cs : Forest) (h k : ℕ)
    → (holds : Holds n keys vals cs) → IsAscending (flatten n keys vals cs)
    → (p : Place n keys vals cs k) → find_child cs p.i k ≡ ok (lookup k (entries (child_at cs p.i)))
    → btree_find (at n keys vals cs h) k ≡ ok (lookup k (flatten n keys vals cs))
unfolding btree_find
find_node n keys vals cs h k holds a p below = elim p.verdict [
  | inl (here, v, more, e, f) ↦ rw (key_index-place n keys vals cs k p) (
      rw here (rw e (ap ok (sym (lookup_hit n keys vals cs k holds p.i v more p.bound a p.low f)))))
  | inr (off, above) ↦
      rw (key_index-place n keys vals cs k p)
        (rw off (below ∙ ap ok (sym (lookup_miss n keys vals cs k holds p.i p.bound p.low above))))
]

mutual
  unfolding btree_find IsBalanced entries

  find_tree :
      (t : Btree) (low d k : ℕ)
      → IsBalanced t low d
      → IsAscending (entries t)
      → btree_find t k ≡ ok (lookup k (entries t))
  find_tree null low d k b a = refl
  find_tree (at n keys vals cs h) low zero k b a = elim b [ ]
  find_tree (at n keys vals cs h) low (suc e) k b a =
      let holds = node-Holds n h low e keys vals cs b in
      let p = place n keys vals cs k holds a in
      find_node n keys vals cs h k holds a p (
        find_forest cs (suc n) e p.i k b.6 (omega (arith, p.bound))
          (child-IsAscending n p.i keys vals cs holds p.bound a))

  find_forest :
      (cs : Forest) (m e i k : ℕ)
      → AllBalanced cs m e
      → i < m
      → IsAscending (entries (child_at cs i))
      → find_child cs i k ≡ ok (lookup k (entries (child_at cs i)))
  find_forest cs zero e i k b h a = elim h [ ]
  find_forest nil (suc m) e i k b h a = elim b [ ]
  find_forest (cons c cs) (suc m) e zero k b h a = find_tree c 2 e k b.0 a
  find_forest (cons c cs) (suc m) e (suc i) k b h a = find_forest cs m e i k b.1 (omega arith) a

abbrev pub is_some : Option ℕ → Bool
is_some none = false
is_some (some v) = true

member_node :
    (n : ℕ) (keys vals : List ℕ) (cs : Forest) (h k : ℕ)
    → (holds : Holds n keys vals cs) → IsAscending (flatten n keys vals cs)
    → (p : Place n keys vals cs k)
    → member_child cs p.i k ≡ ok (is_some (lookup k (entries (child_at cs p.i))))
    → btree_member (at n keys vals cs h) k ≡ ok (is_some (lookup k (flatten n keys vals cs)))
unfolding btree_member
member_node n keys vals cs h k holds a p below = elim p.verdict [
  | inl (here, v, more, e, f) ↦ rw (key_index-place n keys vals cs k p) (
      rw here (
        ap (λ o. ok (is_some o))
          (sym (lookup_hit n keys vals cs k holds p.i v more p.bound a p.low f))))
  | inr (off, above) ↦ rw (key_index-place n keys vals cs k p) (
      rw off (
        below
        ∙ ap (λ o. ok (is_some o))
            (sym (lookup_miss n keys vals cs k holds p.i p.bound p.low above))))
]

mutual
  unfolding btree_member IsBalanced entries

  member_tree :
      (t : Btree) (low d k : ℕ)
      → IsBalanced t low d
      → IsAscending (entries t)
      → btree_member t k ≡ ok (is_some (lookup k (entries t)))
  member_tree null low d k b a = refl
  member_tree (at n keys vals cs h) low zero k b a = elim b [ ]
  member_tree (at n keys vals cs h) low (suc e) k b a =
      let holds = node-Holds n h low e keys vals cs b in
      let p = place n keys vals cs k holds a in
      member_node n keys vals cs h k holds a p (
        member_forest cs (suc n) e p.i k b.6 (omega (arith, p.bound))
          (child-IsAscending n p.i keys vals cs holds p.bound a))

  member_forest :
      (cs : Forest) (m e i k : ℕ)
      → AllBalanced cs m e
      → i < m
      → IsAscending (entries (child_at cs i))
      → member_child cs i k ≡ ok (is_some (lookup k (entries (child_at cs i))))
  member_forest cs zero e i k b h a = elim h [ ]
  member_forest nil (suc m) e i k b h a = elim b [ ]
  member_forest (cons c cs) (suc m) e zero k b h a = member_tree c 2 e k b.0 a
  member_forest (cons c cs) (suc m) e (suc i) k b h a = member_forest cs m e i k b.1 (omega arith) a

-- On a B-tree `btree_find` ends, with the value that the entries of the tree have for the key or with
-- none, and `btree_member` ends and tells whether there is one.
pub btree_find-lookup :
    (t : Btree) (k : ℕ)
    → IsBtree t
    → (btree_find t k ≡ ok (lookup k (entries t)))
      × (btree_member t k ≡ ok (is_some (lookup k (entries t))))
btree_find-lookup t k is = (
  find_tree t 1 is.depth k is.balanced is.ascending,
  member_tree t 1 is.depth k is.balanced is.ascending,
)
