-- ===== src/Scheduler/Queue/Fifo.antt =====
-- The queue operations refine those of a list: add at the end, remove from the front.
use refined_c.Base.{◌≡◌, ◌≢◌, refl, sym, ◌∙◌, true, false, some, [], ◌∷◌, ◌++◌, ◌==◌, arith}
use refined_c.Base.Run.{ok, Returns}
use refined_c.Scheduler.Queue.{
  Ptr, null, Message, Node, node, Heap, write, first_slot, next_slot, MessageQueue, load, set_next,
  store_last, message_queue_add, message_queue_empty, message_queue_remove,
}
use refined_c.Scheduler.Queue.Chain.{
  Cells, holds, Chain, end_slot, last_address, end_slot-cons, holds-last_address, Chain-frame,
  Chain-snoc, Chain-last, end_slot-snoc, is_nil,
}

-- The queue `q` on the heap `h` holds the messages `xs`.
pub record IsQueue (h : Heap) (q : MessageQueue) (xs : Cells) : Type 0 where
  pub chain : Chain h q.first xs
  pub last : q.last ≡ end_slot xs

pub load-ok : (h : Heap) (p : Ptr) (n : Node) → p ≢ null → h p ≡ some n → load h p ≡ ok n
unfolding load
load-ok h p n ne e = let live : (p == null) ≡ false = ground arith in rw (live, e)

pub set_next-ok :
    (h : Heap) (p q : Ptr) (n : Node)
    → p ≢ null
    → h p ≡ some n
    → set_next h p q ≡ ok (write h p (record n { next = q }))
unfolding set_next
set_next-ok h p q n ne e = rw (load-ok h p n ne e)

-- What adding the message at `a` to the queue gives.
pub record Added (h : Heap) (xs : Cells) (a : Ptr) (m : Message) (r : Heap × MessageQueue)
    : Type 0 where
  pub queue : IsQueue r.0 r.1 (xs ++ (a, m) ∷ [])
  pub frame : (b : Ptr) → b ≢ a → holds xs b ≡ false → r.0 b ≡ h b

pub IsQueue-frame :
    (h g : Heap) (q : MessageQueue) (xs : Cells)
    → ((a : Ptr) → holds xs a ≡ true → g a ≡ h a)
    → IsQueue h q xs
    → IsQueue g q xs
IsQueue-frame h g q xs same is = record {
  chain = Chain-frame h g q.first xs same is.chain;
  last = is.last;
}

add-Added :
    (h : Heap) (q : MessageQueue) (xs : Cells) (a : Ptr) (n : Node)
    → IsQueue (write h a (node n.message null)) q xs
    → a ≢ null
    → holds xs a ≡ false
    → Returns
        (store_last (write h a (node n.message null)) q a q.last)
        (λ r. Added h xs a n.message (r.0, record { first = r.1.first; last = next_slot a }))
unfolding store_last
add-Added h q [] a n is ne new =
    let g = write h a (node n.message null) in
    (
      (g, record q { first = a }),
      rw is.last,
      record {
        queue = record { chain = (refl, ne, refl, (null, ground arith, refl)); last = refl };
        frame = λ c nc out. ground arith;
      },
    )
add-Added h q ((b, m) ∷ xs) a n is ne new =
    let g = write h a (node n.message null) in
    let e : q.last ≡ next_slot (last_address b xs) = is.last ∙ end_slot-cons b m xs in
    let (live, (l, el)) = Chain-last g q.first b m xs is.chain in
    (
      (write g (last_address b xs) (record l { next = a }), q),
      rw (e, set_next-ok g (last_address b xs) a l live el),
      record {
        queue = record {
          chain = Chain-snoc g q.first b a m n.message xs is.chain new ne (ground arith) l el;
          last = sym (end_slot-snoc ((b, m) ∷ xs) a n.message);
        };
        frame = λ c nc out. ground (arith, holds-last_address b m xs);
      },
    )

-- `message_queue_add` puts the message behind the others. It writes to that message and to the
-- queue's own messages only.
pub message_queue_add-Added :
    (h : Heap) (q : MessageQueue) (xs : Cells) (a : Ptr) (n : Node)
    → IsQueue h q xs
    → a ≢ null
    → h a ≡ some n
    → holds xs a ≡ false
    → Returns (message_queue_add h q a) (Added h xs a n.message)
unfolding message_queue_add
message_queue_add-Added h q xs a n is ne e new =
    let (r, run, added) =
      add-Added h q xs a n (IsQueue-frame h _ q xs (λ b i. ground (arith, new, i)) is) ne new in
    (
      (r.0, record { first = r.1.first; last = next_slot a }),
      rw (set_next-ok h a null n ne e, run),
      added,
    )

-- `message_queue_empty` tells whether the queue holds no message.
pub message_queue_empty-is_nil :
    (h : Heap) (q : MessageQueue) (xs : Cells) → IsQueue h q xs → message_queue_empty q ≡ is_nil xs
unfolding message_queue_empty
message_queue_empty-is_nil h q [] is = ground (arith, is.chain)
message_queue_empty-is_nil h q ((a, m) ∷ xs) is = ground (arith, is.chain.0, is.chain.1)

-- `message_queue_remove` returns the first message and leaves the others, in their order.
pub message_queue_remove-IsQueue :
    (h : Heap) (q : MessageQueue) (a : Ptr) (m : Message) (xs : Cells)
    → IsQueue h q ((a, m) ∷ xs)
    → Returns (message_queue_remove h q) (λ r. (r.0 ≡ a) × IsQueue h r.1 xs)
unfolding message_queue_remove
message_queue_remove-IsQueue h q a m [] is =
    let (at, ne, out, (n, e, rest)) = is.chain in
    let ended : (n == null) ≡ true = ground arith in
    (
      (q.first, record { first = null; last = first_slot }),
      rw (
        message_queue_empty-is_nil h q _ is,
        load-ok h q.first (node m n) (rw at ne) (rw at e),
        ended,
      ),
      (at, record { chain = refl; last = refl }),
    )
message_queue_remove-IsQueue h q a m ((b, k) ∷ xs) is =
    let (at, ne, out, (n, e, rest)) = is.chain in
    let goes_on : (n == null) ≡ false = ground (arith, rest.0, rest.1) in
    (
      (q.first, record q { first = n }),
      rw (
        message_queue_empty-is_nil h q _ is,
        load-ok h q.first (node m n) (rw at ne) (rw at e),
        goes_on,
      ),
      (at, record { chain = rest; last = is.last }),
    )
