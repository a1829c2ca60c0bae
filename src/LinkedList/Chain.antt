-- ===== src/LinkedList/Chain.antt =====
-- What a linked list on the heap holds.
use refined_c.Base.{
  ◌≡◌, ◌≢◌, ◌∙◌, Bool, true, false, some, List, [], ◌∷◌, ◌++◌, ◌==◌, refl, arith, ◌||◌,
}
use refined_c.Base.Run.{ok}
use refined_c.LinkedList.{tail_slot, read_slot, Ptr, null, Node, node, Heap, write, load, set_tail}

-- The address and the element of each node, in order.
abbrev pub Cells : Type 0
Cells = List (Ptr × Ptr)

abbrev pub holds : Cells → Ptr → Bool
holds [] a = false
holds ((p, x) ∷ xs) a = (a == p) || holds xs a

-- From `p` the `tail` pointers lead through the distinct nodes `xs` to NULL.
abbrev pub Chain : Heap → Ptr → Cells → Type 0
Chain h p [] = p ≡ null
Chain h p ((a, x) ∷ xs) =
    (p ≡ a)
    × (a ≢ null)
    × (holds xs a ≡ false)
    × ((n : Ptr) × (h a ≡ some (node x n)) × Chain h n xs)

-- No node belongs to both lists.
abbrev pub Apart : Cells → Cells → Type 0
Apart xs ys = (a : Ptr) → holds xs a ≡ true → holds ys a ≡ false

-- A chain survives any change that spares its nodes.
pub Chain-frame :
    (h g : Heap) (p : Ptr) (xs : Cells)
    → ((a : Ptr) → holds xs a ≡ true → g a ≡ h a)
    → Chain h p xs
    → Chain g p xs
Chain-frame h g p [] same c = c
Chain-frame h g p ((a, x) ∷ xs) same (at, ne, out, (n, e, rest)) = (
  at,
  ne,
  out,
  (n, same a (ground arith) ∙ e, Chain-frame h g n xs (λ b i. same b (ground (arith, i))) rest),
)

-- A write outside the list keeps it.
pub Chain-write :
    (h : Heap) (p a : Ptr) (n : Node) (xs : Cells)
    → holds xs a ≡ false
    → Chain h p xs
    → Chain (write h a n) p xs
Chain-write h p a n xs out c = Chain-frame h (write h a n) p xs (λ b i. ground (arith, out, i)) c

pub load-ok : (h : Heap) (p : Ptr) (n : Node) → p ≢ null → h p ≡ some n → load h p ≡ ok n
unfolding load
load-ok h p n ne e = let live : (p == null) ≡ false = ground arith in rw (live, e)

pub set_tail-ok :
    (h : Heap) (p q : Ptr) (n : Node)
    → p ≢ null
    → h p ≡ some n
    → set_tail h p q ≡ ok (write h p (record n { tail = q }))
unfolding set_tail
set_tail-ok h p q n ne e = rw (load-ok h p n ne e)

pub holds-append : (xs ys : Cells) (a : Ptr) → holds (xs ++ ys) a ≡ (holds xs a || holds ys a)
holds-append [] ys a = refl
holds-append ((p, x) ∷ xs) ys a = ground (arith, holds-append xs ys a)

pub read_slot-ok :
    (h : Heap) (l a : Ptr) (n : Node)
    → a ≢ null
    → h a ≡ some n
    → read_slot h l (tail_slot a) ≡ ok n.tail
unfolding read_slot
read_slot-ok h l a n ne e = rw (load-ok h a n ne e)
