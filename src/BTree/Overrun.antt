-- ===== src/BTree/Overrun.antt =====
-- Where the loop of btree_insert that goes up accesses an element outside an array.
use mathlib.Core.Path.{subst}
use refined_c.Base.{
  ℕ, suc, ◌≤◌, ◌≡◌, refl, sym, ap, ◌∙◌, inl, inr, Bool, true, false, Option, none, some, List, [],
  ◌∷◌, ◌++◌, length, if◌then◌else◌, ltb, arith, Bool-cases,
}
use refined_c.Base.Run.{fault}
use refined_c.BTree.{Btree, Node, as_tree}
use refined_c.BTree.Growing.{Frame, ascend}
use refined_c.BTree.Splitting.{Split, insert_at_slot}
use refined_c.BTree.Entries.{entries, IsAscending}
use refined_c.BTree.Shape.{IsBalanced}
use refined_c.BTree.Branch.{IsStruct, overruns_at, insert_at_slot-Widened, insert_at_slot-fault}
use refined_c.BTree.Cases.{Widened}
use refined_c.BTree.Route.{
  left_of, right_of, least, IsPath, IsBalanced-le, held, hold-held, held-IsBalanced,
}
use refined_c.BTree.Ascend.{
  overruns, joined, least-pos, inserts_at, widened-joined, proceed, ascend-proceed, regroup_split,
}

ascend-faulted :
    (raw : ℕ → Node) (f : Frame) (path : List Frame) (sub : Btree) (k v : ℕ) (b : Btree) (e : ℕ)
    → IsPath (f ∷ path) e
    → IsAscending (joined (f ∷ path) sub k v b)
    → insert_at_slot (raw (length (f ∷ path))) (held f sub) f.slot k v b ≡ fault
    → ascend raw (f ∷ path) sub k v b ≡ fault
unfolding ascend
ascend-faulted raw f path sub k v b e is asc run =
    rw (hold-held f path sub e is)
      (rw (inserts_at f path sub k v b e is asc (raw (length (f ∷ path)))) (rw run refl))

-- A split writes past an array before any node with a free place: the loop is undefined behaviour.
abbrev Faults : (raw : ℕ → Node) (path : List Frame) → Type 0
Faults raw path =
    (sub : Btree) (k v : ℕ) (b : Btree) (e : ℕ)
    → IsPath path e
    → IsBalanced sub 2 e
    → IsBalanced b 2 e
    → IsAscending (joined path sub k v b)
    → overruns path ≡ true
    → ascend raw path sub k v b ≡ fault

proceed-fault :
    (raw : ℕ → Node) (f : Frame) (path : List Frame) (sub : Btree) (k v : ℕ) (b : Btree) (e : ℕ)
    (out : Node × Option Split)
    → Faults raw path
    → IsPath (f ∷ path) e
    → IsAscending (joined (f ∷ path) sub k v b)
    → 4 ≤ f.node.nb_keys
    → overruns path ≡ true
    → Widened (held f sub) f.slot k v b e out
    → proceed raw path out ≡ fault
unfolding IsBalanced
proceed-fault raw f path sub k v b e (node', none) rec is asc full o (content, bal) =
    absurd (omega (arith, bal.1, bal.2))
proceed-fault raw f path sub k v b e (node', some s) rec is asc full o (content, bal, bal', four) =
    let same =
      regroup_split (left_of path) (entries (as_tree node')) (s.med_k, s.med_v)
        (entries (as_tree s.new_node)) (right_of path)
      ∙ (ap (λ m. left_of path ++ (m ++ right_of path)) content
          ∙ widened-joined f path sub k v b e is asc) in
    rec (as_tree node') s.med_k s.med_v (as_tree s.new_node) (suc e) is.2 bal bal'
      (subst IsAscending (sym same) asc) o

passed_on :
    (n s : ℕ) (above : Bool)
    → (if ltb n 4 then false else if ltb s 2 then true else above) ≡ true
    → overruns_at n s ≡ false
    → (4 ≤ n) × (above ≡ true)
passed_on n s above h o = ground arith

pub ascend-fault :
    (raw : ℕ → Node) → ((cur : ℕ) → IsStruct (raw cur)) → (path : List Frame) → Faults raw path
unfolding overruns
ascend-fault raw structs [] sub k v b e is bs bb asc o = cc
ascend-fault raw structs (f ∷ path) sub k v b e is bs bb asc o =
    let block = raw (length (f ∷ path)) in
    let struct = structs (length (f ∷ path)) in
    let bal =
      IsBalanced-le (held f sub) (least path) 1 (suc e) (least-pos path)
        (held-IsBalanced f path sub e is bs) in
    elim (Bool-cases (overruns_at f.node.nb_keys f.slot)) [
      | inl here ↦
          ascend-faulted raw f path sub k v b e is asc
            (insert_at_slot-fault block (held f sub) f.slot k v e b struct here bal)
      | inr there ↦
          let more = passed_on f.node.nb_keys f.slot (overruns path) o there in
          let (out, run, w) =
            insert_at_slot-Widened block (held f sub) f.slot k v e b struct is.1 there bal bb in
          ascend-proceed raw f path sub k v b e out is asc run
          ∙ proceed-fault raw f path sub k v b e out (ascend-fault raw structs path) is asc more.0
              more.1 w
    ]
