-- ===== src/Scheduler/Npfp/Enqueue.antt =====
-- `npfp_enqueue` puts the message at the end of the queue of its type's priority.
use refined_c.Base.{
  ℕ, ◌<◌, ◌≡◌, ◌≢◌, refl, sym, ◌∙◌, true, false, some, [], ◌∷◌, ◌++◌, ◌==◌, if◌then◌else◌, not,
  arith, ◌||◌, ◌&&◌, Bool-cases, inl, inr, get_elem?, set, length-set, get_elem?-lt_length,
}
use refined_c.Base.Run.{Returns}
use refined_c.Scheduler.Priority.{priority_level_set}
use refined_c.Scheduler.Priority.Levels.{
  level, level-priority_level_set, priority_level_set-IsBitmap,
}
use refined_c.Scheduler.Queue.{Ptr, null, Message, Node, Heap, write}
use refined_c.Scheduler.Queue.Chain.{Cells, holds, is_nil, holds-append}
use refined_c.Scheduler.Queue.Fifo.{IsQueue-frame, load-ok, message_queue_add-Added}
use refined_c.Scheduler.Npfp.{Callback, NpfpScheduler, npfp_enqueue, typed}
use refined_c.Scheduler.Npfp.Pending.{Contents, update, IsScheduler, Unqueued, queues-set}

-- The contents after the message at `a` has come in for priority `p`.
abbrev pub arrive : Contents → ℕ → Ptr → Message → Contents
arrive contents p a m = update contents p (contents p ++ (a, m) ∷ [])

pub record Enqueued (identify : Message → ℕ) (h : Heap) (s : NpfpScheduler) (contents : Contents)
    (a : Ptr) (n : Node) (r : Heap × NpfpScheduler) : Type 0 where
  pub callback : Callback
  pub registered : get_elem? s.callbacks (identify n.message) ≡ some callback
  pub scheduler : IsScheduler r.0 r.1 (arrive contents callback.prio a (typed identify n).message)
  pub same_callbacks : r.1.callbacks ≡ s.callbacks
  pub frame : (b : Ptr) → b ≢ a → Unqueued contents b → r.0 b ≡ h b

holds-arrive :
    (contents : Contents) (p q : ℕ) (a b : Ptr) (m : Message)
    → holds (arrive contents p a m q) b
      ≡ (holds (contents q) b || ((if p == q then true else false) && (b == a)))
holds-arrive contents p q a b m = elim (Bool-cases (p == q)) [
  | inl same ↦
      let e : p ≡ q = ground arith in
      rw (same, ← e) (holds-append (contents p) ((a, m) ∷ []) b ∙ ground arith)
  | inr other ↦ rw other (ground arith)
]

is_nil-snoc : (xs : Cells) (x : Ptr × Message) → is_nil (xs ++ x ∷ []) ≡ false
is_nil-snoc [] x = refl
is_nil-snoc (y ∷ xs) x = refl

module _ (h : Heap) (s : NpfpScheduler) (contents : Contents) (is : IsScheduler h s contents)
    (p : ℕ) (lt : p < 256) (a : Ptr) (m : Message) (new : Unqueued contents a) where
  arrive-apart :
      (x y : ℕ) (b : Ptr)
      → x < 256
      → y < 256
      → x ≢ y
      → holds (arrive contents p a m x) b ≡ true
      → holds (arrive contents p a m y) b ≡ false
  arrive-apart x y b lx ly ne i = ground (
    arith,
    i,
    holds-arrive contents p x a b m,
    holds-arrive contents p y a b m,
    is.apart x y b lx ly ne,
    new x lx,
    new y ly,
  )

  -- The messages of the other queues are neither the new one nor in the queue of `p`.
  arrive-spared :
      (n : Node) (g : Heap)
      → ((b : Ptr) → b ≢ a → holds (contents p) b ≡ false → g b ≡ write h a n b)
      → (x : ℕ) → x < 256
      → p ≢ x
      → (b : Ptr) → holds (contents x) b ≡ true
      → g b ≡ h b
  arrive-spared n g frame x lx ne b i =
      let other : (b == a) ≡ false = ground (arith, i, new x lx) in
      let out : holds (contents p) b ≡ false = is.apart x p b lx lt (λ e. ne (sym e)) i in
      frame b (ground (arith, other)) out ∙ rw other

  arrive-marked :
      (x : ℕ)
      → x < 256
      → level (priority_level_set s.prio_levels p) x ≡ not (is_nil (arrive contents p a m x))
  arrive-marked x lx =
      level-priority_level_set s.prio_levels p is.bitmap lt x ∙ elim (Bool-cases (p == x)) [
        | inl same ↦ rw (same, is_nil-snoc (contents p) (a, m))
        | inr other ↦ rw other (is.marked x lx)
      ]

-- `npfp_enqueue` ends. It stores the message's type in it and puts it behind the pending messages
-- of the priority that is registered for this type. The other queues, the callbacks and the messages
-- in no queue stay as they were.
pub npfp_enqueue-Enqueued :
    (identify : Message → ℕ)
    → ((m : Message) → identify m < 256)
    → (h : Heap) (s : NpfpScheduler) (contents : Contents) (a : Ptr) (n : Node)
    → IsScheduler h s contents
    → a ≢ null
    → h a ≡ some n
    → Unqueued contents a
    → Returns (npfp_enqueue identify h s a) (Enqueued identify h s contents a n)
unfolding npfp_enqueue
npfp_enqueue-Enqueued identify types h s contents a n is ne e new =
    let (c, reg) =
      get_elem?-lt_length s.callbacks (identify n.message)
        (rw is.callbacks.all_types (types n.message)) in
    let lt = is.callbacks.in_range (identify n.message) c reg in
    let (q, at, queue) = is.queues c.prio lt in
    let h1 = write h a (typed identify n) in
    let queue1 =
      IsQueue-frame h h1 q (contents c.prio) (λ b i. ground (arith, new c.prio lt, i)) queue in
    let (r, run, added) =
      message_queue_add-Added h1 q (contents c.prio) a (typed identify n) queue1 ne (ground arith)
        (new c.prio lt) in
    (
      (
        r.0,
        record s {
          pending = set s.pending c.prio r.1;
          prio_levels = priority_level_set s.prio_levels c.prio;
        },
      ),
      rw (load-ok h a n ne e, reg, at, run),
      record {
        callback = c;
        registered = reg;
        scheduler = record {
          callbacks = record {
            all_types = is.callbacks.all_types;
            in_range = is.callbacks.in_range;
          };
          all_priorities = length-set s.pending c.prio r.1 ∙ is.all_priorities;
          queues =
              queues-set h r.0 s contents c.prio r.1 _ (priority_level_set s.prio_levels c.prio) is
                lt added.queue
                (arrive-spared h s contents is c.prio lt a (typed identify n).message new
                  (typed identify n) r.0 added.frame);
          apart = arrive-apart h s contents is c.prio lt a _ new;
          bitmap = priority_level_set-IsBitmap s.prio_levels c.prio is.bitmap lt;
          marked = arrive-marked h s contents is c.prio lt a _ new;
        };
        same_callbacks = refl;
        frame = λ b nb out. added.frame b nb (out c.prio lt) ∙ ground arith;
      },
    )
