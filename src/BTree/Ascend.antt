-- ===== src/BTree/Ascend.antt =====
-- The loop of btree_insert that goes up and splits the full nodes.
use mathlib.Core.Path.{subst}
use mathlib.Core.List.{append_assoc, append-nil}
use refined_c.Base.{
  ℕ, suc, ◌≤◌, ◌≡◌, refl, sym, ap, ◌∙◌, Bool, true, false, Option, none, some, List, [], ◌∷◌, ◌++◌,
  length, if◌then◌else◌, ltb, arith,
}
use refined_c.Base.Run.{Run, ok}
use refined_c.BTree.{Btree, Node, as_tree, key_index}
use refined_c.BTree.Growing.{Frame, plug, ascend}
use refined_c.BTree.Splitting.{Split, insert_br, insert_at_slot}
use refined_c.BTree.Entries.{Entry, entries, AllBelow, AllAbove, IsAscending}
use refined_c.BTree.Order.{
  AllBelow-left, AllBelow-right, AllAbove-left, AllAbove-right, IsAscending-right,
  IsAscending-AllBelow,
}
use refined_c.BTree.Shape.{IsBalanced}
use refined_c.BTree.Branch.{IsStruct, overruns_at, insert_at_slot-Widened}
use refined_c.BTree.Cases.{Widened, widened}
use refined_c.BTree.Route.{
  frame_left, frame_right, left_of, right_of, least, IsPath, IsBalanced-le, held, frame-Holds,
  hold-held, held-IsBalanced, Grown, plug-Grown, key_loop_between, before-set_child,
  after-set_child, child_at-set_child,
}
use refined_c.BTree.Root.{make_root-Grown}

-- The loop meets a full node, at a slot left of its median, before one with a free place.
unfoldable pub overruns : List Frame → Bool
overruns [] = false
overruns (f ∷ path) =
    let above = overruns path in
    if ltb f.node.nb_keys 4 then false else if ltb f.slot 2 then true else above

-- The entries when the new one, with the branch behind it, stands between the two sides of a path.
abbrev pub joined : (path : List Frame) (sub : Btree) (k v : ℕ) (b : Btree) → List Entry
joined path sub k v b = left_of path ++ (entries sub ++ (k, v) ∷ (entries b ++ right_of path))

pub least-pos : (path : List Frame) → 1 ≤ least path
least-pos [] = omega arith
least-pos (f ∷ path) = omega arith

-- One round of the loop
module _ (f : Frame) (path : List Frame) (sub : Btree) (k v : ℕ) (b : Btree) (e : ℕ)
    (is : IsPath (f ∷ path) e) (asc : IsAscending (joined (f ∷ path) sub k v b)) where
  key_low : AllBelow k (frame_left f)
  key_low =
      let left = left_of (f ∷ path) in
      let behind = (k, v) ∷ (entries b ++ right_of (f ∷ path)) in
      let whole = rw (← append_assoc left (entries sub) behind) at asc in
      AllBelow-right k (left_of path) (frame_left f) (
        AllBelow-left k left (entries sub)
          (IsAscending-AllBelow k v (left ++ entries sub) (entries b ++ right_of (f ∷ path)) whole))

  key_high : AllAbove k (frame_right f)
  key_high =
      let left = left_of (f ∷ path) in
      let behind = (k, v) ∷ (entries b ++ right_of (f ∷ path)) in
      let from_key =
        IsAscending-right (entries sub) behind
          (IsAscending-right left (entries sub ++ behind) asc) in
      AllAbove-left k (frame_right f) (right_of path)
        (AllAbove-right k (entries b) (right_of (f ∷ path)) from_key.0)

  -- The new key belongs in the frame's slot.
  slot_again : key_index (held f sub).keys (held f sub).nb_keys k ≡ ok f.slot
  unfolding key_index
  slot_again =
      key_loop_between f.slot f.node.nb_keys f.node.keys f.node.vals f.node.children k 0
        (frame-Holds f path sub e is) is.1 key_low key_high
      ∙ ap ok (omega arith)

  pub inserts_at :
      (raw : Node) → insert_br raw (held f sub) k v b ≡ insert_at_slot raw (held f sub) f.slot k v b
  unfolding insert_br
  inserts_at raw = rw slot_again refl

  pub widened-joined :
      left_of path ++ (widened (held f sub) f.slot k v b ++ right_of path)
      ≡ joined (f ∷ path) sub k v b
  widened-joined =
      let cs = f.node.children in
      let holds = frame-Holds f path sub e is in
      rw (before-set_child f.slot f.node.keys f.node.vals cs sub) (
        rw (after-set_child f.slot f.node.nb_keys f.node.keys f.node.vals cs sub)
          (rw (child_at-set_child cs f.slot sub (omega (arith, holds, is.1))) (simp append_assoc)))

-- What the loop does with the outcome of insert_br.
abbrev pub proceed : (raw : ℕ → Node) (path : List Frame) → Node × Option Split → Run Btree
proceed raw path (node', new) = elim new [
  | none ↦ plug path (as_tree node')
  | some s ↦ ascend raw path (as_tree node') s.med_k s.med_v (as_tree s.new_node)
]

pub ascend-proceed :
    (raw : ℕ → Node) (f : Frame) (path : List Frame) (sub : Btree) (k v : ℕ) (b : Btree) (e : ℕ)
    (out : Node × Option Split)
    → IsPath (f ∷ path) e
    → IsAscending (joined (f ∷ path) sub k v b)
    → insert_at_slot (raw (length (f ∷ path))) (held f sub) f.slot k v b ≡ ok out
    → ascend raw (f ∷ path) sub k v b ≡ proceed raw path out
unfolding ascend
ascend-proceed raw f path sub k v b e out is asc run =
    rw (hold-held f path sub e is)
      (rw (inserts_at f path sub k v b e is asc (raw (length (f ∷ path)))) (rw run refl))

-- A claim about the loop, for the paths that are shorter.
abbrev Joins : (raw : ℕ → Node) (path : List Frame) → Type 0
Joins raw path =
    (sub : Btree) (k v : ℕ) (b : Btree) (e : ℕ)
    → IsPath path e
    → IsBalanced sub 2 e
    → IsBalanced b 2 e
    → IsAscending (joined path sub k v b)
    → overruns path ≡ false
    → (t : Btree) × (ascend raw path sub k v b ≡ ok t) × Grown t (joined path sub k v b)

pub regroup_split :
    (left l : List Entry) (x : Entry) (r right : List Entry)
    → left ++ (l ++ x ∷ (r ++ right)) ≡ left ++ ((l ++ x ∷ r) ++ right)
regroup_split left l x r right = simp append_assoc

proceed-Grown :
    (raw : ℕ → Node) (f : Frame) (path : List Frame) (sub : Btree) (k v : ℕ) (b : Btree) (e : ℕ)
    (out : Node × Option Split)
    → Joins raw path
    → IsPath (f ∷ path) e
    → IsAscending (joined (f ∷ path) sub k v b)
    → (f.node.nb_keys ≡ 4 → overruns path ≡ false)
    → Widened (held f sub) f.slot k v b e out
    → (t : Btree) × (proceed raw path out ≡ ok t) × Grown t (joined (f ∷ path) sub k v b)
unfolding IsBalanced
proceed-Grown raw f path sub k v b e (node', none) rec is asc o (content, bal) =
    let low : least path ≤ suc f.node.nb_keys = omega (arith, is.0.1) in
    let (t, run, g) =
      plug-Grown path (as_tree node') (suc e) is.2
        (IsBalanced-le node' (suc f.node.nb_keys) (least path) (suc e) low bal) in
    (
      t,
      run,
      record {
        depth = g.depth;
        balanced = g.balanced;
        holds =
            g.holds
            ∙ (ap (λ m. left_of path ++ (m ++ right_of path)) content
                ∙ widened-joined f path sub k v b e is asc);
      },
    )
proceed-Grown raw f path sub k v b e (node', some s) rec is asc o (content, bal, bal', full) =
    let same =
      regroup_split (left_of path) (entries (as_tree node')) (s.med_k, s.med_v)
        (entries (as_tree s.new_node)) (right_of path)
      ∙ (ap (λ m. left_of path ++ (m ++ right_of path)) content
          ∙ widened-joined f path sub k v b e is asc) in
    let (t, run, g) =
      rec (as_tree node') s.med_k s.med_v (as_tree s.new_node) (suc e) is.2 bal bal'
        (subst IsAscending (sym same) asc) (o full) in
    (t, run, record { depth = g.depth; balanced = g.balanced; holds = g.holds ∙ same })

-- The loop ends, with the new entry between the sides of the path.
pub ascend-Grown :
    (raw : ℕ → Node) → ((cur : ℕ) → IsStruct (raw cur)) → (path : List Frame) → Joins raw path
unfolding ascend overruns
ascend-Grown raw structs [] sub k v b e is bs bb asc o =
    let (root, run, g) = make_root-Grown sub b k v e bs bb (raw 0) (structs 0) in
    (
      as_tree root,
      rw run refl,
      record {
        depth = g.depth;
        balanced = g.balanced;
        holds = g.holds ∙ ap (λ m. entries sub ++ (k, v) ∷ m) (sym (append-nil (entries b)));
      },
    )
ascend-Grown raw structs (f ∷ path) sub k v b e is bs bb asc o =
    let bal =
      IsBalanced-le (held f sub) (least path) 1 (suc e) (least-pos path)
        (held-IsBalanced f path sub e is bs) in
    let here : overruns_at f.node.nb_keys f.slot ≡ false = ground arith in
    let (out, run, w) =
      insert_at_slot-Widened (raw (length (f ∷ path))) (held f sub) f.slot k v e b
        (structs (length (f ∷ path))) is.1 here bal bb in
    let (t, run', g) =
      proceed-Grown raw f path sub k v b e out (ascend-Grown raw structs path) is asc
        (λ full. ground arith) w in
    (t, ascend-proceed raw f path sub k v b e out is asc run ∙ run', g)
