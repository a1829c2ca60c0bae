-- ===== src/Scheduler/Npfp/Pending.antt =====
-- The scheduler's invariant: the pending messages of each priority.
use refined_c.Base.{
  ℕ, ◌<◌, ◌≡◌, ◌≢◌, ◌∙◌, true, false, some, ◌==◌, if◌then◌else◌, not, arith, Bool-cases, inl, inr,
  length, get_elem?, set, get_elem?-set_self, get_elem?-set_ne,
}
use refined_c.Scheduler.Priority.{PrioBitmap}
use refined_c.Scheduler.Priority.Levels.{level, IsBitmap}
use refined_c.Scheduler.Queue.{Ptr, Heap, MessageQueue}
use refined_c.Scheduler.Queue.Chain.{Cells, holds, is_nil}
use refined_c.Scheduler.Queue.Fifo.{IsQueue, IsQueue-frame}
use refined_c.Scheduler.Npfp.{Callback, NpfpScheduler}

-- `contents p` are the pending messages of priority `p`, the oldest first.
abbrev pub Contents : Type 0
Contents = ℕ → Cells

abbrev pub update : Contents → ℕ → Cells → Contents
update contents p xs q = if p == q then xs else contents q

-- A callback for each message type, with a priority for which there is a queue.
pub record HasCallbacks (s : NpfpScheduler) : Type 0 where
  pub all_types : length s.callbacks ≡ 256
  pub in_range : (t : ℕ) (c : Callback) → get_elem? s.callbacks t ≡ some c → c.prio < 256

-- The queue of priority `p` on the heap.
abbrev pub QueueAt : Heap → NpfpScheduler → ℕ → Cells → Type 0
QueueAt h s p xs = (q : MessageQueue) × (get_elem? s.pending p ≡ some q) × IsQueue h q xs

pub record IsScheduler (h : Heap) (s : NpfpScheduler) (contents : Contents) : Type 0 where
  pub callbacks : HasCallbacks s
  pub all_priorities : length s.pending ≡ 256
  pub queues : (p : ℕ) → p < 256 → QueueAt h s p (contents p)
  pub apart :
      (p q : ℕ) (a : Ptr)
      → p < 256
      → q < 256
      → p ≢ q
      → holds (contents p) a ≡ true
      → holds (contents q) a ≡ false
  pub bitmap : IsBitmap s.prio_levels
  pub marked : (p : ℕ) → p < 256 → level s.prio_levels p ≡ not (is_nil (contents p))

-- A message that no queue holds.
abbrev pub Unqueued : Contents → Ptr → Type 0
Unqueued contents a = (p : ℕ) → p < 256 → holds (contents p) a ≡ false

-- The queues after a change at one priority that spares the messages of the others.
pub queues-set :
    (h g : Heap) (s : NpfpScheduler) (contents : Contents) (p : ℕ) (q' : MessageQueue) (xs : Cells)
    (bm : PrioBitmap)
    → IsScheduler h s contents
    → p < 256
    → IsQueue g q' xs
    → ((r : ℕ) → r < 256 → p ≢ r → (a : Ptr) → holds (contents r) a ≡ true → g a ≡ h a)
    → (r : ℕ) → r < 256
    → QueueAt g
        (record s { pending = set s.pending p q'; prio_levels = bm })
        r
        (update contents p xs r)
queues-set h g s contents p q' xs bm is lt new spared r lr = elim (Bool-cases (p == r)) [
  | inl same ↦
      let e : p ≡ r = ground arith in
      rw (same, ← e) (q', get_elem?-set_self s.pending p q' (omega (arith, is.all_priorities)), new)
  | inr other ↦
      let ne : p ≢ r = ground arith in
      let (q, at, old) = is.queues r lr in
      rw other (
        q,
        get_elem?-set_ne s.pending p r q' ne ∙ at,
        IsQueue-frame h g q (contents r) (spared r lr ne) old,
      )
]
