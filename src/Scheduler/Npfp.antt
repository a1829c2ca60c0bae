-- ===== src/Scheduler/Npfp.antt =====
-- The scheduler's queues, one for each priority: examples/scheduler/include/fdsched/scheduler.h.
-- `message_identify_type` and the callbacks are the user's, so they are parameters.
pub mod Pending
pub mod Enqueue
pub mod Dequeue
use refined_c.Base.{
  ℕ, zero, suc, Bool, true, false, Option, none, some, List, [], ◌∷◌, ◌==◌, if◌then◌else◌,
  get_elem?, set,
}
use refined_c.Base.Run.{Run, ok, fault, ◌>>=◌, ◌>>◌, need}
use refined_c.Base.Int.{ℤ, pos, negsuc}
use refined_c.Scheduler.Priority.{
  PrioBitmap, highest_pending_priority, priority_search_none_found, priority_level_set,
  priority_level_clear,
}
use refined_c.Scheduler.Queue.{
  Ptr, Message, Node, Heap, write, MessageQueue, load, message_queue_add, message_queue_empty,
  message_queue_remove,
}

-- `struct callback`: the function is named by an index.
pub record Callback : Type 0 where
  pub prio : ℕ
  pub f : ℕ

pub record NpfpScheduler : Type 0 where
  pub callbacks : List Callback
  pub pending : List MessageQueue
  pub prio_levels : PrioBitmap

-- `msg->type = message_identify_type(msg)`
abbrev pub typed : (Message → ℕ) → Node → Node
typed identify n = record n { message = record (n.message) { type = identify n.message } }

unfoldable pub npfp_enqueue :
    (identify : Message → ℕ) → Heap → NpfpScheduler → Ptr → Run (Heap × NpfpScheduler)
npfp_enqueue identify h sched msg = do
  n ← load h msg
  let h1 = write h msg (typed identify n)
  callback ← need (get_elem? sched.callbacks (identify n.message))
  let msg_prio = callback.prio
  queue ← need (get_elem? sched.pending msg_prio)
  r ← message_queue_add h1 queue msg
  ok (
    r.0,
    record sched {
      pending = set sched.pending msg_prio r.1;
      prio_levels = priority_level_set sched.prio_levels msg_prio;
    },
  )

-- The branch of `npfp_dequeue` that found a level.
unfoldable pub dequeue_at : Heap → NpfpScheduler → ℕ → Run (Option Ptr × NpfpScheduler)
dequeue_at h sched top_prio = do
  queue ← need (get_elem? sched.pending top_prio)
  r ← message_queue_remove h queue
  ok (
    some r.0,
    record sched {
      pending = set sched.pending top_prio r.1;
      prio_levels =
          if message_queue_empty r.1
          then priority_level_clear sched.prio_levels top_prio
          else sched.prio_levels;
    },
  )

-- A negative index would be a fault; the test excludes it.
abbrev pub dequeue_found : Heap → NpfpScheduler → ℤ → Run (Option Ptr × NpfpScheduler)
dequeue_found h sched (pos top_prio) = dequeue_at h sched top_prio
dequeue_found h sched (negsuc n) = fault

unfoldable pub npfp_dequeue : Heap → NpfpScheduler → Run (Option Ptr × NpfpScheduler)
npfp_dequeue h sched =
    let top_prio = highest_pending_priority sched.prio_levels in
    if priority_search_none_found top_prio then ok (none, sched) else dequeue_found h sched top_prio

-- `call` is what a callback returns for a message.
unfoldable pub npfp_dispatch : (call : ℕ → Message → ℤ) → Heap → NpfpScheduler → Ptr → Run ℤ
npfp_dispatch call h sched msg = do
  n ← load h msg
  callback ← need (get_elem? sched.callbacks n.message.type)
  ok (call callback.f n.message)
