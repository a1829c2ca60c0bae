-- ===== src/BTree/Route.antt =====
-- The path of btree_insert: the entries on both sides of its end, and the tree that it gives back.
use mathlib.Core.List.{append_assoc, append-nil}
use refined_c.Base.{
  ℕ, zero, suc, ◌+◌, ◌<◌, ◌≤◌, ◌≡◌, refl, sym, ap, ◌∙◌, true, false, List, [], ◌∷◌, ◌++◌, ltb,
  arith,
}
use refined_c.Base.Run.{ok}
use refined_c.BTree.{Btree, Forest, nil, cons, Node, as_tree, key_loop}
use refined_c.BTree.Growing.{Frame, hold, plug}
use refined_c.BTree.Entries.{Entry, entries, AllBelow, AllAbove}
use refined_c.BTree.Shape.{
  size, IsBalanced, child_at, set_child, store_child-set_child, size-set_child,
  set_child-AllBalanced, before, after,
}
use refined_c.BTree.Place.{Holds, flatten-set_child}
use refined_c.BTree.Order.{AllBelow-right}
use refined_c.BTree.Find.{node-Holds}

abbrev pub frame_left : Frame → List Entry
frame_left f = before f.slot f.node.keys f.node.vals f.node.children

abbrev pub frame_right : Frame → List Entry
frame_right f = after f.slot f.node.nb_keys f.node.keys f.node.vals f.node.children

abbrev pub left_of : List Frame → List Entry
left_of [] = []
left_of (f ∷ path) = left_of path ++ frame_left f

abbrev pub right_of : List Frame → List Entry
right_of [] = []
right_of (f ∷ path) = frame_right f ++ right_of path

-- The keys that a node below the path has at least
abbrev pub least : List Frame → ℕ
least [] = 1
least (f ∷ path) = 2

-- A path in a B-tree, down to a tree of height `e`.
abbrev pub IsPath : List Frame → (e : ℕ) → Type 0
IsPath [] e = Unit {0}
IsPath (f ∷ path) e =
    IsBalanced (as_tree f.node) (least path) (suc e)
    × (f.slot ≤ f.node.nb_keys)
    × IsPath path (suc e)

pub IsBalanced-le :
    (node : Node) (low less d : ℕ)
    → less ≤ low
    → IsBalanced (as_tree node) low d
    → IsBalanced (as_tree node) less d
unfolding IsBalanced
IsBalanced-le node low less zero h b = elim b [ ]
IsBalanced-le node low less (suc e) h b = (b.0, omega (arith, b.1), b.2, b.3, b.4, b.5, b.6)

-- Another child in place `i` changes nothing beside it.
pub before-set_child :
    (i : ℕ) (keys vals : List ℕ) (cs : Forest) (t : Btree)
    → before i keys vals (set_child cs i t) ≡ before i keys vals cs
before-set_child zero keys vals cs t = refl
before-set_child (suc i) [] vals nil t = refl
before-set_child (suc i) [] vals (cons c cs) t = refl
before-set_child (suc i) (k ∷ keys) [] nil t = refl
before-set_child (suc i) (k ∷ keys) [] (cons c cs) t = refl
before-set_child (suc i) (k ∷ keys) (v ∷ vals) nil t = refl
before-set_child (suc i) (k ∷ keys) (v ∷ vals) (cons c cs) t =
    ap (λ m. entries c ++ (k, v) ∷ m) (before-set_child i keys vals cs t)

pub after-set_child :
    (i n : ℕ) (keys vals : List ℕ) (cs : Forest) (t : Btree)
    → after i n keys vals (set_child cs i t) ≡ after i n keys vals cs
after-set_child zero n keys vals nil t = refl
after-set_child zero n keys vals (cons c cs) t = refl
after-set_child (suc i) zero keys vals nil t = refl
after-set_child (suc i) zero keys vals (cons c cs) t = refl
after-set_child (suc i) (suc n) [] vals nil t = refl
after-set_child (suc i) (suc n) [] vals (cons c cs) t = refl
after-set_child (suc i) (suc n) (k ∷ keys) [] nil t = refl
after-set_child (suc i) (suc n) (k ∷ keys) [] (cons c cs) t = refl
after-set_child (suc i) (suc n) (k ∷ keys) (v ∷ vals) nil t = refl
after-set_child (suc i) (suc n) (k ∷ keys) (v ∷ vals) (cons c cs) t =
    after-set_child i n keys vals cs t

pub child_at-set_child :
    (cs : Forest) (i : ℕ) (t : Btree) → i < size cs → child_at (set_child cs i t) i ≡ t
child_at-set_child nil i t h = elim h [ ]
child_at-set_child (cons c cs) zero t h = refl
child_at-set_child (cons c cs) (suc i) t h = child_at-set_child cs i t (omega arith)

-- The node of a frame with another child
abbrev pub held : Frame → Btree → Node
held f sub = record f.node { children = set_child f.node.children f.slot sub }

module _ (f : Frame) (path : List Frame) (sub : Btree) (e : ℕ) (is : IsPath (f ∷ path) e) where
  pub frame-Holds : Holds f.node.nb_keys f.node.keys f.node.vals f.node.children
  frame-Holds =
      node-Holds f.node.nb_keys f.node.height (least path) e f.node.keys f.node.vals f.node.children
        is.0

  pub hold-held : hold f sub ≡ ok (held f sub)
  hold-held =
      rw (store_child-set_child f.node.children f.slot sub (omega (arith, frame-Holds, is.1))) refl

  pub held-IsBalanced : IsBalanced sub 2 e → IsBalanced (as_tree (held f sub)) (least path) (suc e)
  unfolding IsBalanced
  held-IsBalanced b =
      let (height, low, high, keys, vals, children, all) = is.0 in
      (
        height,
        low,
        high,
        keys,
        vals,
        size-set_child f.node.children f.slot sub ∙ children,
        set_child-AllBalanced f.node.children (suc f.node.nb_keys) f.slot e sub all b,
      )

  pub held-entries : entries (as_tree (held f sub)) ≡ frame_left f ++ (entries sub ++ frame_right f)
  unfolding entries
  held-entries =
      flatten-set_child f.node.nb_keys f.node.keys f.node.vals f.node.children f.slot sub
        frame-Holds is.1

-- A tree as btree_insert leaves it: the root may have one key.
pub record Grown (t : Btree) (m : List Entry) : Type 0 where
  pub depth : ℕ
  pub balanced : IsBalanced t 1 depth
  pub holds : entries t ≡ m

pub regroup :
    (left l e r right : List Entry)
    → left ++ ((l ++ (e ++ r)) ++ right) ≡ (left ++ l) ++ (e ++ (r ++ right))
regroup left l e r right = simp append_assoc

-- The tree around the end of a path
pub plug-Grown :
    (path : List Frame) (t : Btree) (d : ℕ)
    → IsPath path d
    → IsBalanced t (least path) d
    → (t' : Btree) × (plug path t ≡ ok t') × Grown t' (left_of path ++ (entries t ++ right_of path))
plug-Grown [] t d is b =
    (t, refl, record { depth = d; balanced = b; holds = sym (append-nil (entries t)) })
plug-Grown (f ∷ path) t d is b =
    let (t', run, g) =
      plug-Grown path (as_tree (held f t)) (suc d) is.2 (held-IsBalanced f path t d is b) in
    (
      t',
      rw (hold-held f path t d is) run,
      record {
        depth = g.depth;
        balanced = g.balanced;
        holds =
            g.holds
            ∙ (ap (λ m. left_of path ++ (m ++ right_of path)) (held-entries f path t d is)
                ∙ regroup (left_of path) (frame_left f) (entries t) (frame_right f)
                    (right_of path));
      },
    )

-- key_index finds the place of a key between its neighbours.
pub key_loop_between :
    (i n : ℕ) (keys vals : List ℕ) (cs : Forest) (k slot : ℕ)
    → Holds n keys vals cs
    → i ≤ n
    → AllBelow k (before i keys vals cs)
    → AllAbove k (after i n keys vals cs)
    → key_loop n keys slot k ≡ ok (slot + i)
unfolding key_loop
key_loop_between i n keys vals nil k slot h b low high = absurd (omega (arith, h.2))
key_loop_between zero zero keys vals (cons c cs) k slot h b low high = ap ok (omega arith)
key_loop_between (suc i) zero keys vals (cons c cs) k slot h b low high = absurd (omega arith)
key_loop_between i (suc n) [] vals (cons c cs) k slot h b low high = absurd (omega (arith, h.0))
key_loop_between i (suc n) (x ∷ keys) [] (cons c cs) k slot h b low high =
    absurd (omega (arith, h.1))
key_loop_between zero (suc n) (x ∷ keys) (v ∷ vals) (cons c cs) k slot h b low high =
    let more : ltb x k ≡ false = ground (arith, high.0) in rw more (ap ok (omega arith))
key_loop_between (suc i) (suc n) (x ∷ keys) (v ∷ vals) (cons c cs) k slot h b low high =
    let right = AllBelow-right k (entries c) ((x, v) ∷ before i keys vals cs) low in
    let less : ltb x k ≡ true = ground (arith, right.0) in
    rw less (
      key_loop_between i n keys vals cs k (suc slot)
        (omega (arith, h.0), omega (arith, h.1), omega (arith, h.2)) (omega arith) right.1 high
      ∙ ap ok (omega arith))
