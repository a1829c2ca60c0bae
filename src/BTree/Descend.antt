-- ===== src/BTree/Descend.antt =====
-- The loop of btree_insert that goes down to the key, or to the NULL where it belongs.
use refined_c.Base.{
  ℕ, zero, suc, ◌<◌, ◌≤◌, ◌≡◌, refl, ap, ◌∙◌, inl, inr, some, List, ◌∷◌, ◌++◌, get_elem?, arith,
}
use refined_c.Base.Run.{Returns}
use refined_c.BTree.{Btree, null, at, Forest, nil, cons, as_tree}
use refined_c.BTree.Growing.{Frame, Stop, at_key, at_null, descend, follow}
use refined_c.BTree.Entries.{Entry, entries, AllBelow, AllAbove, IsAscending}
use refined_c.BTree.Order.{AllBelow-append, AllAbove-append}
use refined_c.BTree.Shape.{IsBalanced, AllBalanced, child_at, before, after}
use refined_c.BTree.Place.{Holds, Place, place, key_index-place, flatten_around}
use refined_c.BTree.Find.{node-Holds, child-IsAscending}
use refined_c.BTree.Route.{left_of, right_of, least, IsPath, regroup}

-- What is known where the loop stops, of a tree with the entries `m`.
abbrev pub Stopped : (k : ℕ) (m : List Entry) → Stop → Type 0
Stopped k m (at_null path) =
    IsPath path 0
    × AllBelow k (left_of path)
    × AllAbove k (right_of path)
    × (m ≡ left_of path ++ right_of path)
Stopped k m (at_key path node i) =
    (e : ℕ) × IsPath path (suc e)
    × IsBalanced (as_tree node) (least path) (suc e)
    × (i ≤ node.nb_keys)
    × AllBelow k (left_of path)
    × (v : ℕ) × (more : List Entry) × (get_elem? node.vals i ≡ some v)
    × (after i node.nb_keys node.keys node.vals node.children ≡ (k, v) ∷ more)
    × AllBelow k (before i node.keys node.vals node.children)
    × (m ≡ left_of path ++ (entries (as_tree node) ++ right_of path))

-- The tree at the end of a path, and what is around it
abbrev pub Around : (k : ℕ) (m : List Entry) (path : List Frame) (t : Btree) → Type 0
Around k m path t =
    AllBelow k (left_of path)
    × AllAbove k (right_of path)
    × (m ≡ left_of path ++ (entries t ++ right_of path))

abbrev frame_of : (n : ℕ) (keys vals : List ℕ) (cs : Forest) (h i : ℕ) → Frame
frame_of n keys vals cs h i = record {
  node = record { nb_keys = n; keys = keys; vals = vals; children = cs; height = h };
  slot = i;
}

-- One step down
module _ (n : ℕ) (keys vals : List ℕ) (cs : Forest) (h k e : ℕ) (m : List Entry) (path : List Frame)
    (holds : Holds n keys vals cs) (is : IsPath path (suc e))
    (bal : IsBalanced (at n keys vals cs h) (least path) (suc e))
    (around : Around k m path (at n keys vals cs h)) (p : Place n keys vals cs k) where
  Around-child :
      AllAbove k (after p.i n keys vals cs)
      → Around k m (frame_of n keys vals cs h p.i ∷ path) (child_at cs p.i)
  unfolding entries
  Around-child above = (
    AllBelow-append k (left_of path) (before p.i keys vals cs) around.0 p.low,
    AllAbove-append k (after p.i n keys vals cs) (right_of path) above around.1,
    around.2
        ∙ (ap (λ t. left_of path ++ (t ++ right_of path))
              (flatten_around n keys vals cs p.i holds p.bound)
            ∙ regroup (left_of path) (before p.i keys vals cs) (entries (child_at cs p.i))
                (after p.i n keys vals cs) (right_of path)),
  )

  descend_node :
      (AllAbove k (after p.i n keys vals cs)
        → Returns (follow cs p.i (suc e) (frame_of n keys vals cs h p.i ∷ path) k) (Stopped k m))
      → Returns (descend (at n keys vals cs h) (suc e) path k) (Stopped k m)
  unfolding descend
  descend_node below = elim p.verdict [
    | inl (here, v, more, get, next) ↦ rw (key_index-place n keys vals cs k p) (
        rw here (
          at_key path record { nb_keys = n; keys = keys; vals = vals; children = cs; height = h }
              p.i,
          refl,
          (e, is, bal, p.bound, around.0, v, more, get, next, p.low, around.2),
        ))
    | inr (off, above) ↦ rw (key_index-place n keys vals cs k p) (rw off (below above))
  ]

mutual
  unfolding descend IsBalanced entries

  pub descend-Stopped :
      (t : Btree) (d : ℕ) (path : List Frame) (k : ℕ) (m : List Entry)
      → IsPath path d
      → IsBalanced t (least path) d
      → IsAscending (entries t)
      → Around k m path t
      → Returns (descend t d path k) (Stopped k m)
  descend-Stopped null d path k m is b asc around =
      (at_null path, refl, (rw b at is, around.0, around.1, around.2))
  descend-Stopped (at n keys vals cs h) zero path k m is b asc around = elim b [ ]
  descend-Stopped (at n keys vals cs h) (suc e) path k m is b asc around =
      let holds = node-Holds n h (least path) e keys vals cs b in
      let p = place n keys vals cs k holds asc in
      descend_node n keys vals cs h k e m path holds is b around p (λ above.
        follow-Stopped cs (suc n) e p.i (frame_of n keys vals cs h p.i ∷ path) k m refl
          (b, p.bound, is) b.6 (omega (arith, p.bound))
          (child-IsAscending n p.i keys vals cs holds p.bound asc)
          (Around-child n keys vals cs h k e m path holds is b around p above))

  follow-Stopped :
      (cs : Forest) (c e i : ℕ) (path : List Frame) (k : ℕ) (m : List Entry)
      → least path ≡ 2
      → IsPath path e
      → AllBalanced cs c e
      → i < c
      → IsAscending (entries (child_at cs i))
      → Around k m path (child_at cs i)
      → Returns (follow cs i (suc e) path k) (Stopped k m)
  follow-Stopped cs zero e i path k m l is b h asc around = elim h [ ]
  follow-Stopped nil (suc c) e i path k m l is b h asc around = elim b [ ]
  follow-Stopped (cons t cs) (suc c) e zero path k m l is b h asc around =
      descend-Stopped t e path k m is (rw l b.0) asc around
  follow-Stopped (cons t cs) (suc c) e (suc i) path k m l is b h asc around =
      follow-Stopped cs c e i path k m l is b.1 (omega arith) asc around
