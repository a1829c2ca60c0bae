-- ===== src/Scheduler/Queue.antt =====
-- Messages on a heap, and the FIFO queue of examples/scheduler/include/fdsched/message.h. A queue's
-- `last` is the address of the pointer that ends its list: `&q->first`, or some `&msg->next`.
pub mod Chain
pub mod Fifo
use refined_c.Base.{
  ℕ, zero, suc, ◌≡◌, Bool, true, false, Option, none, some, List, [], ◌∷◌, ◌==◌, if◌then◌else◌, not,
}
use refined_c.Base.Run.{Run, ok, fault, ◌>>=◌, ◌>>◌, need, check}

abbrev pub Ptr : Type 0
Ptr = ℕ

abbrev pub null : Ptr
null = 0

-- `struct message` without its link
pub record Message : Type 0 where
  pub type : ℕ
  pub len : ℕ
  pub bytes : List ℕ

pub record Node : Type 0 where
  pub message : Message
  pub next : Ptr

abbrev pub node : Message → Ptr → Node
node m p = record { message = m; next = p }

abbrev pub Heap : Type 0
Heap = Ptr → Option Node

abbrev pub write : Heap → Ptr → Node → Heap
write h p n a = if a == p then some n else h a

-- `*p`, undefined where no message is allocated
unfoldable pub load : Heap → Ptr → Run Node
load h p = if p == null then fault else need (h p)

-- `p->next = q`
unfoldable pub set_next : Heap → Ptr → Ptr → Run Heap
set_next h p q = load h p >>= λ n. ok (write h p (record n { next = q }))

-- The address of a `struct message *`.
pub data Slot : Type 0 where
  first_slot : Slot
  next_slot : Ptr → Slot

pub record MessageQueue : Type 0 where
  pub first : Ptr
  pub last : Slot

-- `*q->last = msg`
unfoldable pub store_last : Heap → MessageQueue → Ptr → Slot → Run (Heap × MessageQueue)
store_last h q msg first_slot = ok (h, record q { first = msg })
store_last h q msg (next_slot p) = set_next h p msg >>= λ h'. ok (h', q)

unfoldable pub message_queue_add : Heap → MessageQueue → Ptr → Run (Heap × MessageQueue)
unfolding store_last
message_queue_add h q msg = do
  h1 ← set_next h msg null
  r ← store_last h1 q msg q.last
  ok (r.0, record { first = r.1.first; last = next_slot msg })

unfoldable pub message_queue_empty : MessageQueue → Bool
message_queue_empty q = q.first == null

unfoldable pub message_queue_remove : Heap → MessageQueue → Run (Ptr × MessageQueue)
message_queue_remove h q = do
  check (not (message_queue_empty q))
  n ← load h q.first
  ok (
    q.first,
    if n.next == null
        then record { first = null; last = first_slot }
        else record q { first = n.next },
  )
