-- ===== src/BTree/Session.antt =====
-- Calls of btree_insert one after the other, from the empty tree, and the height that they lead to.
use refined_c.Base.{
  ℕ, suc, ◌+◌, ◌*◌, ◌-◌, ◌^◌, ◌<◌, ◌≤◌, ◌≡◌, refl, ap, ◌∙◌, Bool, true, false, List, [], ◌∷◌,
  length, arith, if◌then◌else◌, Bool-cases, inl, inr,
}
use refined_c.Base.Run.{Run, ok, fault, hang, out_of_fuel, ◌>>=◌}
use refined_c.BTree.{Btree, null, Node, btree_find}
use refined_c.BTree.Growing.{height_of, btree_insert}
use refined_c.BTree.Entries.{Entry, entries, insert, lookup}
use refined_c.BTree.Shape.{IsBalanced, IsBtree}
use refined_c.BTree.Branch.{IsStruct}
use refined_c.BTree.Find.{btree_find-lookup}
use refined_c.BTree.Insert.{insert_overruns, btree_insert-IsBtree}
use refined_c.BTree.Bounds.{height-length}

-- The blocks that `xmalloc` gives to the calls, and what the calls insert
abbrev pub insert_all : (raw : ℕ → Node) → Btree → List Entry → Run Btree
insert_all raw t [] = ok t
insert_all raw t ((k, v) ∷ calls) = btree_insert raw t k v >>= λ t'. insert_all raw t' calls

-- One of the calls meets a full node that takes the new key left of its median, before a node with a
-- free place.
abbrev pub some_overruns : (raw : ℕ → Node) → Btree → List Entry → Bool
some_overruns raw t [] = false
some_overruns raw t ((k, v) ∷ calls) =
    let rest : Bool = elim (btree_insert raw t k v) [
      | ok t' ↦ some_overruns raw t' calls
      | fault ↦ false
      | hang ↦ false
      | out_of_fuel ↦ false
    ] in
    if insert_overruns t k then true else rest

-- The same on a dictionary
abbrev pub inserted : List Entry → List Entry → List Entry
inserted m [] = m
inserted m ((k, v) ∷ calls) = inserted (insert k v m) calls

length-insert : (k v : ℕ) (m : List Entry) → length (insert k v m) ≤ suc (length m)
length-insert k v [] = omega arith
length-insert k v ((j, w) ∷ m) = ground (arith, length-insert k v m)

length-inserted : (m calls : List Entry) → length (inserted m calls) ≤ length m + length calls
length-inserted m [] = omega arith
length-inserted m ((k, v) ∷ calls) =
    omega (arith, length-inserted (insert k v m) calls, length-insert k v m)

null-IsBtree : IsBtree null
unfolding IsBalanced entries
null-IsBtree = record { depth = 0; balanced = refl; ascending = tt }

true_not_false : true ≡ false → ⊥
true_not_false e = cc

insert_all-IsBtree :
    (raw : ℕ → Node) (t : Btree) (calls : List Entry)
    → ((cur : ℕ) → IsStruct (raw cur))
    → IsBtree t
    → some_overruns raw t calls ≡ false
    → (t' : Btree) × (insert_all raw t calls ≡ ok t')
      × IsBtree t'
      × (entries t' ≡ inserted (entries t) calls)
insert_all-IsBtree raw t [] structs is o = (t, refl, is, refl)
insert_all-IsBtree raw t ((k, v) ∷ calls) structs is o = elim (Bool-cases (insert_overruns t k)) [
  | inl over ↦ absurd (true_not_false (rw over at o))
  | inr room ↦
      let (t', run, is', same) = btree_insert-IsBtree raw t k v structs is room in
      let rest : some_overruns raw t' calls ≡ false = rw (room, run) at o in
      let (u, runs, is'', sames) = insert_all-IsBtree raw t' calls structs is' rest in
      (u, rw run runs, is'', sames ∙ ap (λ m. inserted m calls) same)
]

-- Any calls of btree_insert from the empty tree, of which none meets a full node that takes the new key
-- left of its median before a node with a free place, end with a tree in which btree_find finds what the
-- dictionary of these insertions has, and whose height h is 0 or satisfies 2 * 3 ^ (h - 1) <= n + 1 for n
-- calls.
pub insert_all-height_of :
    (raw : ℕ → Node) (calls : List Entry)
    → ((cur : ℕ) → IsStruct (raw cur))
    → some_overruns raw null calls ≡ false
    → (t : Btree) × (insert_all raw null calls ≡ ok t)
      × ((k : ℕ) → btree_find t k ≡ ok (lookup k (inserted [] calls)))
      × (0 < height_of t → 2 * 3 ^ (height_of t - 1) ≤ suc (length calls))
unfolding entries
insert_all-height_of raw calls structs o =
    let (t, run, is, same) = insert_all-IsBtree raw null calls structs null-IsBtree o in
    (
      t,
      run,
      (λ k. (btree_find-lookup t k is).0 ∙ ap (λ m. ok (lookup k m)) same),
      λ pos. omega (
        arith,
        (height-length t is pos).0,
        length-inserted [] calls,
        ap (length {A = Entry}) same,
      ),
    )
