-- ===== src/Scheduler/Npfp/Dequeue.antt =====
-- `npfp_dequeue` takes the oldest message of the highest pending priority.
use refined_c.Base.{
  ℕ, ◌<◌, ◌≡◌, ◌≢◌, refl, sym, ap, ◌∙◌, true, false, Option, none, some, [], ◌∷◌, ◌==◌,
  if◌then◌else◌, not, arith, Bool-cases, inl, inr, ◌⊎◌, ◌&&◌, set, length-set,
}
use refined_c.Base.Run.{ok, Returns}
use refined_c.Base.Int.{ℤ, pos, negsuc}
use refined_c.Scheduler.Priority.{
  PrioBitmap, priority_level_clear, highest_pending_priority, priority_search_none_found,
}
use refined_c.Scheduler.Priority.Levels.{
  level, IsBitmap, level-priority_level_clear, priority_level_clear-IsBitmap,
}
use refined_c.Scheduler.Priority.Search.{Highest, highest_pending_priority-Highest}
use refined_c.Scheduler.Queue.{Ptr, Message, Heap, MessageQueue, message_queue_empty}
use refined_c.Scheduler.Queue.Chain.{Cells, holds, is_nil}
use refined_c.Scheduler.Queue.Fifo.{message_queue_remove-IsQueue, message_queue_empty-is_nil}
use refined_c.Scheduler.Npfp.{NpfpScheduler, npfp_dequeue, dequeue_at, dequeue_found}
use refined_c.Scheduler.Npfp.Pending.{Contents, update, IsScheduler, queues-set}

-- The message at `a` was the oldest of priority `p`, and no message of a higher priority was pending.
pub record Taken (h : Heap) (s : NpfpScheduler) (contents : Contents) (a : Ptr) (s' : NpfpScheduler)
    : Type 0 where
  pub prio : ℕ
  pub small : prio < 256
  pub message : Message
  pub rest : Cells
  pub oldest : contents prio ≡ (a, message) ∷ rest
  pub highest : (q : ℕ) → q < prio → contents q ≡ []
  pub scheduler : IsScheduler h s' (update contents prio rest)
  pub same_callbacks : s'.callbacks ≡ s.callbacks

abbrev pub Dequeued : Heap → NpfpScheduler → Contents → Option Ptr × NpfpScheduler → Type 0
Dequeued h s contents (some a, s') = Taken h s contents a s'
Dequeued h s contents (none, s') = (s' ≡ s) × ((p : ℕ) → p < 256 → contents p ≡ [])

true-ne-false : ¬ (true ≡ false)
true-ne-false e = cc

-- A list that is not empty has a head.
nil-cases :
    (xs : Cells)
    → ((is_nil xs ≡ true) × (xs ≡ []))
      ⊎ ((a : Ptr) × (m : Message) × (rest : Cells) × (xs ≡ (a, m) ∷ rest))
nil-cases [] = inl (refl, refl)
nil-cases ((a, m) ∷ rest) = inr (a, m, rest, refl)

nil_of_is_nil : (xs : Cells) → not (is_nil xs) ≡ false → xs ≡ []
nil_of_is_nil [] e = refl
nil_of_is_nil (x ∷ xs) e = cc

module _ (h : Heap) (s : NpfpScheduler) (contents : Contents) (is : IsScheduler h s contents)
    (p : ℕ) (lt : p < 256) (a : Ptr) (m : Message) (rest : Cells)
    (full : contents p ≡ (a, m) ∷ rest) (above : (q : ℕ) → q < p → contents q ≡ []) where
  -- A message that is still pending was pending before.
  fewer :
      (x : ℕ) (b : Ptr) → holds (contents x) b ≡ false → holds (update contents p rest x) b ≡ false
  fewer x b out = elim (Bool-cases (p == x)) [
    | inl same ↦
        let e : p ≡ x = ground arith in
        let old : holds (contents x) b ≡ holds ((a, m) ∷ rest) b =
          ap (λ xs. holds xs b) (ap contents (sym e) ∙ full) in
        rw same (ground (arith, old, out))
    | inr other ↦ rw other out
  ]

  taken-apart :
      (x y : ℕ) (b : Ptr)
      → x < 256
      → y < 256
      → x ≢ y
      → holds (update contents p rest x) b ≡ true
      → holds (update contents p rest y) b ≡ false
  taken-apart x y b lx ly ne i = fewer y b (
      is.apart x y b lx ly ne (elim (Bool-cases (holds (contents x) b)) [
        | inl yes_there ↦ yes_there
        | inr gone ↦ absurd (true-ne-false (sym i ∙ fewer x b gone))
      ]))

  bits_after : MessageQueue → PrioBitmap
  bits_after q =
      if message_queue_empty q then priority_level_clear s.prio_levels p else s.prio_levels

  taken-IsBitmap : (q : MessageQueue) → IsBitmap (bits_after q)
  unfolding bits_after
  taken-IsBitmap q = elim (Bool-cases (message_queue_empty q)) [
    | inl e ↦ rw e (priority_level_clear-IsBitmap s.prio_levels p is.bitmap lt)
    | inr e ↦ rw e is.bitmap
  ]

  level-bits_after :
      (q : MessageQueue) (x : ℕ)
      → level (bits_after q) x
        ≡ (if message_queue_empty q && (p == x) then false else level s.prio_levels x)
  unfolding bits_after
  level-bits_after q x = elim (Bool-cases (message_queue_empty q)) [
    | inl e ↦ rw e (level-priority_level_clear s.prio_levels p is.bitmap lt x)
    | inr e ↦ rw e
  ]

  taken-marked :
      (q : MessageQueue) (x : ℕ)
      → message_queue_empty q ≡ is_nil rest
      → x < 256
      → level (bits_after q) x ≡ not (is_nil (update contents p rest x))
  taken-marked q x e lx = level-bits_after q x ∙ elim (Bool-cases (p == x)) [
    | inl same ↦
        let eq : p ≡ x = ground arith in
        let old : is_nil (contents x) ≡ false = ap is_nil (ap contents (sym eq) ∙ full) in
        let was : level s.prio_levels x ≡ true = is.marked x lx ∙ ap not old in
        rw (same, was) (ground (arith, e))
    | inr other ↦ rw other (ground (arith, is.marked x lx))
  ]

  dequeue_at-Taken : Returns (dequeue_at h s p) (λ (o, s'). (o ≡ some a) × Taken h s contents a s')
  unfolding dequeue_at bits_after
  dequeue_at-Taken =
      let (q, at, queue) = is.queues p lt in
      let (r, run, facts) = message_queue_remove-IsQueue h q a m rest (rw full at queue) in
      (
        (some r.0, record s { pending = set s.pending p r.1; prio_levels = bits_after r.1 }),
        rw (at, run),
        (
          ap some facts.0,
          record {
            prio = p;
            small = lt;
            message = m;
            rest = rest;
            oldest = full;
            highest = above;
            scheduler = record {
              callbacks = record {
                all_types = is.callbacks.all_types;
                in_range = is.callbacks.in_range;
              };
              all_priorities = length-set s.pending p r.1 ∙ is.all_priorities;
              queues =
                  queues-set h h s contents p r.1 rest (bits_after r.1) is lt facts.1
                    (λ x lx nx b i. refl);
              apart = taken-apart;
              bitmap = taken-IsBitmap r.1;
              marked = λ x. taken-marked r.1 x (message_queue_empty-is_nil h r.1 rest facts.1);
            };
            same_callbacks = refl;
          },
        ),
      )

-- What the search found decides the branch.
dequeue_found-Dequeued :
    (h : Heap) (s : NpfpScheduler) (contents : Contents) (top : ℤ)
    → IsScheduler h s contents
    → Highest s.prio_levels top
    → Returns
        (if priority_search_none_found top then ok (none, s) else dequeue_found h s top)
        (Dequeued h s contents)
dequeue_found-Dequeued h s contents (negsuc n) is (_, unmarked) = (
  (none, s),
  refl,
  (refl, λ p lt. nil_of_is_nil (contents p) (sym (is.marked p lt) ∙ unmarked p lt)),
)
dequeue_found-Dequeued h s contents (pos p) is (lt, marked, first) =
    let empty_above : (q : ℕ) → q < p → contents q ≡ [] =
      λ q lq. nil_of_is_nil (contents q) (sym (is.marked q (omega arith)) ∙ first q lq) in
    elim (nil-cases (contents p)) [
      | inl (e, _) ↦ absurd (true-ne-false (sym marked ∙ (is.marked p lt ∙ ap not e)))
      | inr (a, m, rest, full) ↦
          let (r, run, (out, taken)) =
            dequeue_at-Taken h s contents is p lt a m rest full empty_above in
          ((some a, r.1), run ∙ ap (λ o. ok (o, r.1)) out, taken)
    ]

-- `npfp_dequeue` ends. It takes the oldest message of the highest priority that has one, clearing
-- the level's mark if that was its last, and returns NULL exactly if no message is pending.
pub npfp_dequeue-Dequeued :
    (h : Heap) (s : NpfpScheduler) (contents : Contents)
    → IsScheduler h s contents
    → Returns (npfp_dequeue h s) (Dequeued h s contents)
unfolding npfp_dequeue
npfp_dequeue-Dequeued h s contents is =
    dequeue_found-Dequeued h s contents (highest_pending_priority s.prio_levels) is
      (highest_pending_priority-Highest s.prio_levels)
