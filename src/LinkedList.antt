-- ===== src/LinkedList.antt =====
-- Singly linked lists on a heap: tutorial/t03_list.c. A loop of the code is recursion on `fuel`.
pub mod Chain
pub mod Reverse
pub mod Append
pub mod Reading
pub mod Examples
use refined_c.Base.{
  ℕ, zero, suc, ◌+◌, ◌^◌, ◌%◌, ◌≡◌, Bool, true, false, Option, none, some, List, [], ◌∷◌, ◌==◌,
  if◌then◌else◌,
}
use refined_c.Base.Run.{Run, ok, fault, out_of_fuel, ◌>>=◌, need}

abbrev pub Ptr : Type 0
Ptr = ℕ

abbrev pub null : Ptr
null = 0

-- `struct list`
pub record Node : Type 0 where
  pub head : Ptr
  pub tail : Ptr

abbrev pub node : Ptr → Ptr → Node
node x p = record { head = x; tail = p }

abbrev pub Heap : Type 0
Heap = Ptr → Option Node

abbrev pub write : Heap → Ptr → Node → Heap
write h p n a = if a == p then some n else h a

-- `*p`, undefined where no node is allocated
unfoldable pub load : Heap → Ptr → Run Node
load h p = if p == null then fault else need (h p)

-- `p->tail = q`
unfoldable pub set_tail : Heap → Ptr → Ptr → Run Heap
set_tail h p q = load h p >>= λ n. ok (write h p (record n { tail = q }))

abbrev pub init : Ptr
init = null

-- The address of a `list_t`: the caller's variable, or the `tail` of a node.
pub data Slot : Type 0 where
  variable : Slot
  tail_slot : Ptr → Slot

-- `*s`, where `l` is the value of the caller's variable
unfoldable pub read_slot : Heap → Ptr → Slot → Run Ptr
read_slot h l variable = ok l
read_slot h l (tail_slot p) = load h p >>= λ n. ok n.tail

-- `*s = q`
unfoldable pub write_slot : Heap → Ptr → Slot → Ptr → Run (Heap × Ptr)
write_slot h l variable q = ok (h, q)
write_slot h l (tail_slot p) q = set_tail h p q >>= λ h'. ok (h', l)

-- The argument is `*l`.
unfoldable pub is_empty : Ptr → Bool
is_empty l = l == null

-- `while (p != NULL)`
unfoldable pub reverse_loop : (fuel : ℕ) → Heap → (p w : Ptr) → Run (Heap × Ptr)
reverse_loop zero h p w = out_of_fuel
reverse_loop (suc fuel) h p w =
    let round = load h p >>= λ n. set_tail h p w >>= λ h'. reverse_loop fuel h' n.tail p in
    if p == null then ok (h, w) else round

unfoldable pub reverse : (fuel : ℕ) → Heap → (p : Ptr) → Run (Heap × Ptr)
unfolding reverse_loop
reverse fuel h p = reverse_loop fuel h p null

-- `while (*end != NULL)`
unfoldable pub append_loop : (fuel : ℕ) → Heap → (l1 : Ptr) (end : Slot) → Run Slot
append_loop zero h l1 end = out_of_fuel
append_loop (suc fuel) h l1 end = read_slot h l1 end >>= λ p.
    let round = append_loop fuel h l1 (tail_slot p) in if p == null then ok end else round

-- `l1` is the value of `*l1`, which is returned with the heap.
unfoldable pub append : (fuel : ℕ) → Heap → (l1 l2 : Ptr) → Run (Heap × Ptr)
unfolding append_loop
append fuel h l1 l2 = append_loop fuel h l1 variable >>= λ end. write_slot h l1 end l2

-- `while (p != NULL)`
unfoldable pub length_val_loop : (fuel : ℕ) → Heap → (p len : ℕ) → Run ℕ
length_val_loop zero h p len = out_of_fuel
length_val_loop (suc fuel) h p len =
    let round = load h p >>= λ n. length_val_loop fuel h n.tail ((len + 1) % 2 ^ 64) in
    if p == null then ok len else round

unfoldable pub length_val : (fuel : ℕ) → Heap → (p : Ptr) → Run ℕ
unfolding length_val_loop
length_val fuel h p = length_val_loop fuel h p 0

-- The numbers of type `size_t` on the heap.
abbrev pub Numbers : Type 0
Numbers = Ptr → Option ℕ

-- `while (*prev != NULL)`
unfoldable pub member_loop :
    (fuel : ℕ) → Heap → Numbers → (p : Ptr) (prev : Slot) (k : ℕ) → Run Bool
member_loop zero h d p prev k = out_of_fuel
member_loop (suc fuel) h d p prev k = read_slot h p prev >>= λ cur.
    let onward = member_loop fuel h d p (tail_slot cur) k in
    let round =
      load h cur >>= λ n. need (d n.head) >>= λ head. if head == k then ok true else onward in
    if cur == null then ok false else round

-- `p` is the value of `*p`.
unfoldable pub member : (fuel : ℕ) → Heap → Numbers → (p : Ptr) (k : ℕ) → Run Bool
unfolding member_loop
member fuel h d p k = member_loop fuel h d p variable k

unfoldable pub length_val_rec : (fuel : ℕ) → Heap → (p : Ptr) → Run ℕ
length_val_rec zero h p = out_of_fuel
length_val_rec (suc fuel) h p =
    let behind =
      load h p >>= λ n. length_val_rec fuel h n.tail >>= λ len. ok ((len + 1) % 2 ^ 64) in
    if p == null then ok 0 else behind

-- `while (*p != NULL)`, where `l` is the value of the caller's variable
unfoldable pub length_loop : (fuel : ℕ) → Heap → (l : Ptr) (p : Slot) (len : ℕ) → Run ℕ
length_loop zero h l p len = out_of_fuel
length_loop (suc fuel) h l p len = read_slot h l p >>= λ q.
    let round = length_loop fuel h l (tail_slot q) ((len + 1) % 2 ^ 64) in
    if q == null then ok len else round

unfoldable pub length : (fuel : ℕ) → Heap → (l : Ptr) → Run ℕ
unfolding length_loop
length fuel h l = length_loop fuel h l variable 0

-- `while (cur != NULL)`
unfoldable pub rev_append_loop : (fuel : ℕ) → Heap → (cur l2 : Ptr) → Run (Heap × Ptr)
rev_append_loop zero h cur l2 = out_of_fuel
rev_append_loop (suc fuel) h cur l2 =
    let round =
      load h cur >>= λ n. set_tail h cur l2 >>= λ h'. rev_append_loop fuel h' n.tail cur in
    if cur == null then ok (h, l2) else round

-- `l2` is the value of `*l2`, which is returned with the heap.
unfoldable pub rev_append : (fuel : ℕ) → Heap → (l1 l2 : Ptr) → Run (Heap × Ptr)
unfolding rev_append_loop
rev_append fuel h l1 l2 = rev_append_loop fuel h l1 l2
