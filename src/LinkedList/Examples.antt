-- ===== src/LinkedList/Examples.antt =====
-- Two lists on a heap, and the theorems at them.
use refined_c.Base.{
  ◌≡◌, ◌∙◌, refl, true, false, none, some, [], ◌∷◌, ◌++◌, ◌==◌, if◌then◌else◌, arith,
}
use refined_c.Base.Run.{ok, ◌>>=◌, Returns}
use refined_c.LinkedList
use refined_c.LinkedList.{
  rev_append, length_val_rec, read_slot, load, write_slot, set_tail, null, node, Heap, reverse,
  append, is_empty, length_val, member, Numbers,
}
use refined_c.LinkedList.Chain.{Cells, Chain, Apart}
use refined_c.LinkedList.Reverse.{Relinked, backwards, reverse-Relinked}
use refined_c.LinkedList.Reading.{
  length-length_val, length_val_rec-length, length_val-length, member-has,
}
use refined_c.LinkedList.Append.{append-Relinked}

-- The nodes at 8 and 16 are one list, the node at 24 is another.
abbrev heap : Heap
heap a =
    if a == 8
    then some (node 100 16)
    else if a == 16
    then some (node 200 null)
    else if a == 24
    then some (node 300 null)
    else none

abbrev two : Cells
two = (8, 100) ∷ (16, 200) ∷ []

abbrev one : Cells
one = (24, 300) ∷ []

two-Chain : Chain heap 8 two
two-Chain = (refl, ground arith, refl, (16, refl, (refl, ground arith, refl, (null, refl, refl))))

one-Chain : Chain heap 24 one
one-Chain = (refl, ground arith, refl, (null, refl, refl))

two-Apart : Apart two one
two-Apart a h = ground (arith, h)

reverse-Relinked_example : Returns (reverse 3 heap 8) (Relinked heap two (backwards two))
reverse-Relinked_example = reverse-Relinked heap 8 two two-Chain 3 (omega arith)

append-Relinked_example : Returns (append 3 heap 8 24) (Relinked heap two (two ++ one))
append-Relinked_example =
    append-Relinked heap 8 24 two one two-Chain one-Chain two-Apart 3 (omega arith)

-- The nodes of both lists, from the last one.
joined : (append 3 heap 8 24 >>= λ r. reverse 4 r.0 r.1 >>= λ s. ok s.1) ≡ ok 24
unfolding append reverse read_slot load write_slot set_tail
joined = refl

joined_is_empty :
    (append 3 heap 8 24 >>= λ r. reverse 4 r.0 r.1 >>= λ s. ok (is_empty s.1)) ≡ ok false
unfolding append reverse is_empty read_slot load write_slot set_tail
joined_is_empty = refl

abbrev numbers : Numbers
numbers a = if a == 100 then some 1 else if a == 200 then some 2 else none

counted : length_val 3 heap 8 ≡ ok 2
counted = length_val-length heap 8 two two-Chain (omega arith) 3 (omega arith)

found : member 3 heap numbers 8 2 ≡ ok true
found = member-has heap numbers 8 two 2 two-Chain ((1, refl), ((2, refl), tt)) 3 (omega arith)

turned : (rev_append 3 heap 8 24 >>= λ r. ok r.1) ≡ ok 16
unfolding rev_append load set_tail
turned = refl

-- All three ways to count.
counted_by_slots : LinkedList.length 3 heap 8 ≡ ok 2
counted_by_slots = length-length_val heap 8 two two-Chain 3 ∙ counted

counted_by_calls : length_val_rec 3 heap 8 ≡ ok 2
counted_by_calls = length_val_rec-length heap 8 two two-Chain (omega arith) 3 (omega arith)
