-- ===== src/Scheduler/Queue/Chain.antt =====
-- Linked lists of messages on the heap.
use refined_c.Base.{
  ◌≡◌, ◌≢◌, refl, ◌∙◌, Bool, true, false, none, some, List, [], ◌∷◌, ◌++◌, ◌==◌, arith, ◌||◌,
}
use refined_c.Scheduler.Queue.{
  Ptr, null, Message, Node, node, Heap, write, Slot, first_slot, next_slot,
}

-- What a queue holds: the address and the message of each node, in order.
abbrev pub Cells : Type 0
Cells = List (Ptr × Message)

abbrev pub holds : Cells → Ptr → Bool
holds [] a = false
holds ((p, m) ∷ xs) a = (a == p) || holds xs a

-- From `p` the `next` pointers lead through the distinct nodes `xs` to NULL.
abbrev pub Chain : Heap → Ptr → Cells → Type 0
Chain h p [] = p ≡ null
Chain h p ((a, m) ∷ xs) =
    (p ≡ a)
    × (a ≢ null)
    × (holds xs a ≡ false)
    × ((n : Ptr) × (h a ≡ some (node m n)) × Chain h n xs)

-- The slot that ends the list.
abbrev pub end_slot : Cells → Slot
end_slot [] = first_slot
end_slot ((a, m) ∷ []) = next_slot a
end_slot ((a, m) ∷ b ∷ xs) = end_slot (b ∷ xs)

-- The address of the last node, of those behind a first one.
abbrev pub last_address : Ptr → Cells → Ptr
last_address a [] = a
last_address a ((b, m) ∷ xs) = last_address b xs

pub end_slot-cons :
    (a : Ptr) (m : Message) (xs : Cells) → end_slot ((a, m) ∷ xs) ≡ next_slot (last_address a xs)
end_slot-cons a m [] = refl
end_slot-cons a m ((b, k) ∷ xs) = end_slot-cons b k xs

pub holds-append : (xs ys : Cells) (a : Ptr) → holds (xs ++ ys) a ≡ (holds xs a || holds ys a)
holds-append [] ys a = refl
holds-append ((p, m) ∷ xs) ys a = ground (arith, holds-append xs ys a)

pub holds-last_address :
    (a : Ptr) (m : Message) (xs : Cells) → holds ((a, m) ∷ xs) (last_address a xs) ≡ true
holds-last_address a m [] = ground arith
holds-last_address a m ((b, k) ∷ xs) = ground (arith, holds-last_address b k xs)

-- A chain survives any change that spares its nodes.
pub Chain-frame :
    (h g : Heap) (p : Ptr) (xs : Cells)
    → ((a : Ptr) → holds xs a ≡ true → g a ≡ h a)
    → Chain h p xs
    → Chain g p xs
Chain-frame h g p [] same c = c
Chain-frame h g p ((a, m) ∷ xs) same (at, ne, out, (n, e, rest)) = (
  at,
  ne,
  out,
  (n, same a (ground arith) ∙ e, Chain-frame h g n xs (λ b i. same b (ground (arith, i))) rest),
)

-- Where no node is allocated the chain has none.
pub holds-none :
    (h : Heap) (p a : Ptr) (xs : Cells) → Chain h p xs → h a ≡ none → holds xs a ≡ false
holds-none h p a [] c unused = refl
holds-none h p a ((b, m) ∷ xs) (at, ne, out, (n, e, rest)) unused =
    ground (arith, holds-none h n a xs rest unused)

-- Linking a node `b` that ends in NULL behind the last node.
pub Chain-snoc :
    (h : Heap) (p a b : Ptr) (m k : Message) (xs : Cells)
    → Chain h p ((a, m) ∷ xs)
    → holds ((a, m) ∷ xs) b ≡ false
    → b ≢ null
    → h b ≡ some (node k null)
    → (l : Node) → h (last_address a xs) ≡ some l
    → Chain (write h (last_address a xs) (record l { next = b })) p ((a, m) ∷ xs ++ (b, k) ∷ [])
Chain-snoc h p a b m k [] (at, ne, out, (n, e, rest)) new nb hb l el = (
  at,
  ne,
  ground (arith, new),
  (b, ground (arith, e, el), (refl, nb, refl, (null, ground (arith, hb, new), refl))),
)
Chain-snoc h p a b m k ((a', m') ∷ xs) (at, ne, out, (n, e, rest)) new nb hb l el = (
  at,
  ne,
  ground (arith, holds-append ((a', m') ∷ xs) ((b, k) ∷ []) a, out, new),
  (
    n,
    ground (arith, e, out, apart, holds-last_address a' m' xs),
    Chain-snoc h n a' b m' k xs rest (ground (arith, new)) nb hb l el,
  ),
)
  where
    apart : a ≡ last_address a' xs → holds ((a', m') ∷ xs) a ≡ true
    apart same = rw same (holds-last_address a' m' xs)

-- The last node is allocated.
pub Chain-last :
    (h : Heap) (p a : Ptr) (m : Message) (xs : Cells)
    → Chain h p ((a, m) ∷ xs)
    → (last_address a xs ≢ null) × ((l : Node) × (h (last_address a xs) ≡ some l))
Chain-last h p a m [] (at, ne, out, (n, e, rest)) = (ne, (node m n, e))
Chain-last h p a m ((b, k) ∷ xs) (at, ne, out, (n, e, rest)) = Chain-last h n b k xs rest

pub end_slot-snoc :
    (xs : Cells) (a : Ptr) (m : Message) → end_slot (xs ++ (a, m) ∷ []) ≡ next_slot a
end_slot-snoc [] a m = refl
end_slot-snoc ((b, k) ∷ []) a m = refl
end_slot-snoc ((b, k) ∷ c ∷ xs) a m = end_slot-snoc (c ∷ xs) a m

abbrev pub is_nil : Cells → Bool
is_nil [] = true
is_nil (x ∷ xs) = false
