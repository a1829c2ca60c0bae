-- ===== src/Scheduler/Fds/Receive.antt =====
-- `receive_messages` reads a channel until `read` fails: the messages are enqueued in their order.
use refined_c.Base.{
  ℕ, zero, suc, ◌<◌, ◌≡◌, ◌≢◌, refl, ap, ◌∙◌, Bool, true, false, List, [], ◌∷◌, ◌==◌, if◌then◌else◌,
  ◌||◌, not, arith,
}
use refined_c.Base.Run.{Run, ok, out_of_fuel, Returns}
use refined_c.Base.Int.{ℤ, pos, negsuc}
use refined_c.Scheduler.Queue.{Ptr, null, Message, node, write}
use refined_c.Scheduler.Npfp.{typed}
use refined_c.Scheduler.Npfp.Pending.{Contents, IsScheduler}
use refined_c.Scheduler.Npfp.Enqueue.{arrive, npfp_enqueue-Enqueued}
use refined_c.Scheduler.Fds.{
  System, State, received, failed, incoming, after_read, receive_one_message, receive_loop,
  receive_messages,
}
use refined_c.Scheduler.Fds.Arrivals.{
  view, arrivals, Receives, stops, reads, in_use, is_empty, size, Covers, unallocated-Unqueued,
  write-IsScheduler, view-arrival, free-same, Arrived,
}

module _ {W : Type 0} (sys : System W) (identify : Message → ℕ)
    (types : (m : Message) → identify m < 256) where
  -- One message.
  pub receive_one_message-received :
      (st : State W) (contents : Contents) (used : Ptr → Bool) (fd : ℤ) (w1 w2 : W) (a : Ptr)
      (payload : List ℕ)
      → IsScheduler st.heap st.fds.sched contents
      → Covers used st.heap
      → sys.xmalloc st.world ≡ (a, w1)
      → a ≢ null
      → used a ≡ false
      → sys.read w1 fd ≡ (received payload, w2)
      → Returns (receive_one_message sys identify st fd) (λ (err, st').
        (err ≡ pos 0)
        × (st'.world ≡ w2)
        × Covers (λ b. (b == a) || used b) st'.heap
        × Arrived identify st contents ((a, payload) ∷ []) st')
  unfolding receive_one_message after_read
  receive_one_message-received st contents used fd w1 w2 a payload is covers new ne free_ got =
      let live : (a == null) ≡ false = ground arith in
      let n = node (incoming payload) null in
      let here = covers a free_ in
      let is1 = write-IsScheduler st.heap st.fds.sched contents a n is here in
      let unqueued = unallocated-Unqueued st.heap st.fds.sched contents a is here in
      let (r, run, enq) =
        npfp_enqueue-Enqueued identify types (write st.heap a n) st.fds.sched contents a n is1 ne
          (ground arith) unqueued in
      (
        (pos 0, record st { heap = r.0; fds = record (st.fds) { sched = r.1 }; world = w2 }),
        rw (new, live, got, run),
        (
          refl,
          refl,
          λ b nb.
              let nba : b ≢ a = ground arith in
              let old : used b ≡ false = ground arith in
              let none_b = covers b old in
              enq.frame b nba (unallocated-Unqueued st.heap st.fds.sched contents b is none_b)
              ∙ ground arith,
          record {
            contents' = arrive contents enq.callback.prio a (typed identify n).message;
            scheduler = enq.scheduler;
            pending =
                view-arrival identify st.fds.sched.callbacks enq.callback contents a payload
                  enq.registered;
            same_callbacks = enq.same_callbacks;
            same_channels = refl;
            same_count = refl;
          },
        ),
      )

  -- The attempt that fails changes nothing but the system.
  receive_one_message-failed :
      (st : State W) (used : Ptr → Bool) (fd : ℤ) (w1 w2 : W) (a : Ptr) (e : ℕ)
      → Covers used st.heap
      → sys.xmalloc st.world ≡ (a, w1)
      → a ≢ null
      → used a ≡ false
      → sys.read w1 fd ≡ (failed e, w2)
      → receive_one_message sys identify st fd ≡ ok (negsuc 0, record st { world = w2; errno = e })
  unfolding receive_one_message after_read
  receive_one_message-failed st used fd w1 w2 a e covers new ne free_ got =
      let live : (a == null) ≡ false = ground arith in
      rw (new, live, got, free-same st.heap a (covers a free_))

  -- What the loop leaves.
  abbrev LoopEnds :
      State W
      → Contents
      → (Ptr → Bool)
      → Bool
      → List (Ptr × List ℕ)
      → ℕ
      → W
      → ℤ × Bool × State W
      → Type 0
  LoopEnds st contents used non_empty ds e w (err, non_empty', st') =
      (err ≡ negsuc 0)
      × (non_empty' ≡ (non_empty || not (is_empty ds)))
      × (st'.world ≡ w)
      × (st'.errno ≡ e)
      × Covers (in_use used ds) st'.heap
      × Arrived identify st contents ds st'

  receive_loop-LoopEnds :
      (fuel : ℕ) (st : State W) (contents : Contents) (non_empty : Bool) (fd : ℤ)
      → {used : Ptr → Bool} {w : W} {ds : List (Ptr × List ℕ)} {e : ℕ} {w' : W}
      → IsScheduler st.heap st.fds.sched contents
      → Covers used st.heap
      → st.world ≡ w
      → Receives sys fd used w ds e w'
      → size ds < fuel
      → Returns
          (receive_loop sys identify fuel st non_empty fd)
          (LoopEnds st contents used non_empty ds e w')
  unfolding receive_loop
  receive_loop-LoopEnds zero st contents non_empty fd is covers at rs lt = absurd (omega arith)
  receive_loop-LoopEnds (suc fuel) st contents non_empty fd is covers at
        (stops used w w1 w2 a e new ne free_ got) lt =
      (
        (negsuc 0, non_empty, record st { world = w2; errno = e }),
        rw (receive_one_message-failed st used fd w1 w2 a e covers (rw at new) ne free_ got),
        (
          refl,
          ground arith,
          refl,
          refl,
          covers,
          record {
            contents' = contents;
            scheduler = is;
            pending = refl;
            same_callbacks = refl;
            same_channels = refl;
            same_count = refl;
          },
        ),
      )
  receive_loop-LoopEnds (suc fuel) st contents non_empty fd is covers at
        (reads used w w1 w2 w3 a payload ds e new ne free_ got rs) lt =
      let ((err, st1), run, (e0, at1, covers1, arr)) =
        receive_one_message-received st contents used fd w1 w2 a payload is covers (rw at new) ne
          free_ got in
      let (res, run', (e1, ne1, at2, en, covers2, arr')) =
        receive_loop-LoopEnds fuel st1 arr.contents' true fd arr.scheduler covers1 at1 rs
          (omega arith) in
      (
        res,
        rw (run, e0, run'),
        (
          e1,
          rw ne1 (ground arith),
          at2,
          en,
          covers2,
          record {
            contents' = arr'.contents';
            scheduler = arr'.scheduler;
            pending =
                arr'.pending
                ∙ ap (λ t. arrivals identify t (view arr.contents') ds) arr.same_callbacks
                ∙ ap (λ t. arrivals identify st.fds.sched.callbacks t ds) arr.pending;
            same_callbacks = arr'.same_callbacks ∙ arr.same_callbacks;
            same_channels = arr'.same_channels ∙ arr.same_channels;
            same_count = arr'.same_count ∙ arr.same_count;
          },
        ),
      )

-- The result of `receive_messages` after `read` failed.
abbrev pub outcome : {W : Type 0} → System W → Bool → ℕ → ℤ
outcome sys none_read e =
    if e == sys.would_block || e == sys.again then if none_read then pos 0 else pos 1 else negsuc 0

pub record Ends {W : Type 0} (sys : System W) (identify : Message → ℕ) (st : State W)
    (contents : Contents) (used : Ptr → Bool) (ds : List (Ptr × List ℕ)) (e : ℕ) (w : W)
    (r : ℤ × State W) : Type 0 where
  pub result : r.0 ≡ outcome sys (is_empty ds) e
  pub world : r.1.world ≡ w
  pub covers : Covers (in_use used ds) r.1.heap
  pub arrived : Arrived identify st contents ds r.1

-- `receive_messages` on a channel on which `read` delivers some messages and then fails ends: all these
-- messages, and no others, are then pending, each as the last of its type's priority in the order of
-- arrival. The result is 1 if there were any and 0 if not, where the failure says that nothing is left
-- to read, and -1 otherwise.
pub receive_messages-Ends :
    {W : Type 0} (sys : System W) (identify : Message → ℕ)
    → ((m : Message) → identify m < 256)
    → (fuel : ℕ) (st : State W) (contents : Contents) (fd : ℤ) (used : Ptr → Bool)
      (ds : List (Ptr × List ℕ)) (e : ℕ) (w : W)
    → IsScheduler st.heap st.fds.sched contents
    → Covers used st.heap
    → Receives sys fd used st.world ds e w
    → size ds < fuel
    → Returns (receive_messages sys identify fuel st fd) (Ends sys identify st contents used ds e w)
unfolding receive_messages
receive_messages-Ends sys identify types fuel st contents fd used ds e w is covers rs lt =
    let ((err, non_empty, st'), run, (e1, ne, at, en, covers', arr)) =
      receive_loop-LoopEnds sys identify types fuel st contents false fd is covers refl rs lt in
    (
      (outcome sys (is_empty ds) e, st'),
      rw (run, en, ne, e1) (finish (e == sys.would_block || e == sys.again) (is_empty ds) st'),
      record { result = refl; world = at; covers = covers'; arrived = arr },
    )
  where
    finish :
        {A : Type 0} (nothing_left none_read : Bool) (a : A)
        → ◌≡◌ {A = Run (ℤ × A)}
            (if nothing_left
              then ok (if not none_read then pos 1 else pos 0, a)
              else ok (negsuc 0, a))
            (ok (if nothing_left then if none_read then pos 0 else pos 1 else negsuc 0, a))
    finish true true a = refl
    finish true false a = refl
    finish false none_read a = refl

-- The first reads of a channel, so many, all deliver.
pub data Delivers {W : Type 0} (sys : System W) (fd : ℤ) : (Ptr → Bool) → W → ℕ → Type 0 where
  enough : (used : Ptr → Bool) (w : W) → Delivers sys fd used w 0
  delivers :
      (used : Ptr → Bool) (w w1 w2 : W) (a : Ptr) (payload : List ℕ) (n : ℕ)
      → sys.xmalloc w ≡ (a, w1)
      → a ≢ null
      → used a ≡ false
      → sys.read w1 fd ≡ (received payload, w2)
      → Delivers sys fd (λ b. (b == a) || used b) w2 n
      → Delivers sys fd used w (suc n)

module _ {W : Type 0} (sys : System W) (identify : Message → ℕ)
    (types : (m : Message) → identify m < 256) where
  receive_loop-out_of_fuel :
      (fuel : ℕ) (st : State W) (contents : Contents) (non_empty : Bool) (fd : ℤ)
      → {used : Ptr → Bool} {w : W} → IsScheduler st.heap st.fds.sched contents
      → Covers used st.heap
      → st.world ≡ w
      → Delivers sys fd used w fuel
      → receive_loop sys identify fuel st non_empty fd ≡ out_of_fuel
  unfolding receive_loop
  receive_loop-out_of_fuel zero st contents non_empty fd is covers at ds = refl
  receive_loop-out_of_fuel (suc fuel) st contents non_empty fd is covers at
        (delivers used w w1 w2 a payload n new ne free_ got ds) =
      let ((err, st1), run, (e0, at1, covers1, arr)) =
        receive_one_message-received sys identify types st contents used fd w1 w2 a payload is
          covers (rw at new) ne free_ got in
      let rest =
        receive_loop-out_of_fuel fuel st1 arr.contents' true fd arr.scheduler covers1 at1 ds in
      rw (run, e0, rest)

-- `receive_messages` does not end as long as `read` delivers: no number of reads is enough. At the end of
-- a file `read` delivers 0 bytes for ever, and they are taken for empty messages.
pub receive_messages-out_of_fuel :
    {W : Type 0} (sys : System W) (identify : Message → ℕ)
    → ((m : Message) → identify m < 256)
    → (fuel : ℕ) (st : State W) (contents : Contents) (fd : ℤ) (used : Ptr → Bool)
    → IsScheduler st.heap st.fds.sched contents
    → Covers used st.heap
    → Delivers sys fd used st.world fuel
    → receive_messages sys identify fuel st fd ≡ out_of_fuel
unfolding receive_messages
receive_messages-out_of_fuel sys identify types fuel st contents fd used is covers ds =
    rw (receive_loop-out_of_fuel sys identify types fuel st contents false fd is covers refl ds)
