-- ===== src/Scheduler/Fds/Arrivals.antt =====
-- The specification of incoming messages: lists of messages for each priority, and what the operating
-- system does on a channel.
use mathlib.Core.Path.{fun_ext}
use refined_c.Base.{
  ℕ, suc, ◌≡◌, ◌≢◌, refl, sym, ap, ◌∙◌, Bool, true, false, none, some, List, [], ◌∷◌, ◌++◌, ◌==◌,
  if◌then◌else◌, ◌||◌, arith, Bool-cases, inl, inr, get_elem?,
}
use refined_c.Base.Int.{ℤ}
use refined_c.Scheduler.Queue.{Ptr, null, Message, Node, node, Heap, write}
use refined_c.Scheduler.Queue.Chain.{Cells, holds-none}
use refined_c.Scheduler.Queue.Fifo.{IsQueue-frame}
use refined_c.Scheduler.Npfp.{Callback, NpfpScheduler, typed}
use refined_c.Scheduler.Npfp.Pending.{Contents, IsScheduler, Unqueued}
use refined_c.Scheduler.Npfp.Enqueue.{arrive}
use refined_c.Scheduler.Fds.{System, State, received, failed, free, incoming}

-- The messages of a queue, without their addresses.
abbrev pub messages : Cells → List Message
messages [] = []
messages ((a, m) ∷ xs) = m ∷ messages xs

-- The specification's state: the messages of each priority, the oldest first.
abbrev pub Pending : Type 0
Pending = ℕ → List Message

abbrev pub view : Contents → Pending
view contents p = messages (contents p)

abbrev pub prio_of : List Callback → ℕ → ℕ
prio_of cs t = elim (get_elem? cs t) [ none ↦ 0 | some c ↦ c.prio ]

-- Bytes that come in are a message of the identified type, the last of its type's priority.
abbrev pub arrival : (identify : Message → ℕ) → List Callback → Pending → List ℕ → Pending
arrival identify cs pending payload q =
    let m = (typed identify (node (incoming payload) null)).message in
    if prio_of cs m.type == q then pending q ++ m ∷ [] else pending q

abbrev pub arrivals :
    (identify : Message → ℕ) → List Callback → Pending → List (Ptr × List ℕ) → Pending
arrivals identify cs pending [] = pending
arrivals identify cs pending ((a, payload) ∷ ds) =
    arrivals identify cs (arrival identify cs pending payload) ds

-- What the system does on a channel, where `used` tells the addresses in use: it allocates at the
-- addresses and reads the bytes listed, and then `read` fails with the error number.
pub data Receives {W : Type 0} (sys : System W) (fd : ℤ)
    : (Ptr → Bool) → W → List (Ptr × List ℕ) → ℕ → W → Type 0 where
  stops :
      (used : Ptr → Bool) (w w1 w2 : W) (a : Ptr) (e : ℕ)
      → sys.xmalloc w ≡ (a, w1)
      → a ≢ null
      → used a ≡ false
      → sys.read w1 fd ≡ (failed e, w2)
      → Receives sys fd used w [] e w2
  reads :
      (used : Ptr → Bool) (w w1 w2 w3 : W) (a : Ptr) (payload : List ℕ) (ds : List (Ptr × List ℕ))
      (e : ℕ)
      → sys.xmalloc w ≡ (a, w1)
      → a ≢ null
      → used a ≡ false
      → sys.read w1 fd ≡ (received payload, w2)
      → Receives sys fd (λ b. (b == a) || used b) w2 ds e w3
      → Receives sys fd used w ((a, payload) ∷ ds) e w3

-- The addresses in use after the messages came in.
abbrev pub in_use : (Ptr → Bool) → List (Ptr × List ℕ) → Ptr → Bool
in_use used [] = used
in_use used ((a, payload) ∷ ds) = in_use (λ b. (b == a) || used b) ds

abbrev pub is_empty : List (Ptr × List ℕ) → Bool
is_empty [] = true
is_empty (d ∷ ds) = false

abbrev pub size : List (Ptr × List ℕ) → ℕ
size [] = 0
size (d ∷ ds) = suc (size ds)

-- No message is allocated at an address that is not in use.
abbrev pub Covers : (Ptr → Bool) → Heap → Type 0
Covers used h = (b : Ptr) → used b ≡ false → h b ≡ none

-- An address without a message is in no queue.
pub unallocated-Unqueued :
    (h : Heap) (s : NpfpScheduler) (contents : Contents) (a : Ptr)
    → IsScheduler h s contents
    → h a ≡ none
    → Unqueued contents a
unallocated-Unqueued h s contents a is e p lt =
    let (q, at, queue) = is.queues p lt in holds-none h q.first a (contents p) queue.chain e

-- A new message changes no queue.
pub write-IsScheduler :
    (h : Heap) (s : NpfpScheduler) (contents : Contents) (a : Ptr) (n : Node)
    → IsScheduler h s contents
    → h a ≡ none
    → IsScheduler (write h a n) s contents
write-IsScheduler h s contents a n is e = record {
  callbacks = is.callbacks;
  all_priorities = is.all_priorities;
  queues = λ p lt.
      let (q, at, queue) = is.queues p lt in
      let out = unallocated-Unqueued h s contents a is e p lt in
      (q, at, IsQueue-frame h (write h a n) q (contents p) (λ b i. ground (arith, out, i)) queue);
  apart = is.apart;
  bitmap = is.bitmap;
  marked = is.marked;
}

messages-append : (xs ys : Cells) → messages (xs ++ ys) ≡ messages xs ++ messages ys
messages-append [] ys = refl
messages-append ((a, m) ∷ xs) ys = ap (λ t. m ∷ t) (messages-append xs ys)

view-arrive :
    (contents : Contents) (p : ℕ) (a : Ptr) (m : Message) (q : ℕ)
    → view (arrive contents p a m) q
      ≡ (if p == q then view contents q ++ m ∷ [] else view contents q)
view-arrive contents p a m q = elim (Bool-cases (p == q)) [
  | inl same ↦
      let e : p ≡ q = ground arith in rw (same, ← e) (messages-append (contents p) ((a, m) ∷ []))
  | inr other ↦ rw other
]

prio_of-some :
    (cs : List Callback) (t : ℕ) (c : Callback) → get_elem? cs t ≡ some c → prio_of cs t ≡ c.prio
prio_of-some cs t c e = ap (λ o. elim o [ none ↦ 0 | some d ↦ d.prio ]) e

pub view-arrival :
    (identify : Message → ℕ) (cs : List Callback) (c : Callback) (contents : Contents) (a : Ptr)
    (payload : List ℕ)
    → get_elem? cs (identify (incoming payload)) ≡ some c
    → view (arrive contents c.prio a (typed identify (node (incoming payload) null)).message)
      ≡ arrival identify cs (view contents) payload
view-arrival identify cs c contents a payload reg =
    let m = (typed identify (node (incoming payload) null)).message in
    fun_ext (λ q.
      view-arrive contents c.prio a m q
      ∙ ap (λ t. if t == q then view contents q ++ m ∷ [] else view contents q)
          (sym (prio_of-some cs (identify (incoming payload)) c reg)))

pub free-same : (h : Heap) (a : Ptr) → h a ≡ none → free h a ≡ h
free-same h a e = fun_ext (λ b. elim (Bool-cases (b == a)) [
  | inl same ↦ let eq : b ≡ a = ground arith in rw (same, eq, e)
  | inr other ↦ rw other
])

-- The state after messages came in: their effect is the specification's.
pub record Arrived {W : Type 0} (identify : Message → ℕ) (st : State W) (contents : Contents)
    (ds : List (Ptr × List ℕ)) (st' : State W) : Type 0 where
  pub contents' : Contents
  pub scheduler : IsScheduler st'.heap st'.fds.sched contents'
  pub pending : view contents' ≡ arrivals identify st.fds.sched.callbacks (view contents) ds
  pub same_callbacks : st'.fds.sched.callbacks ≡ st.fds.sched.callbacks
  pub same_channels : st'.fds.input_channels ≡ st.fds.input_channels
  pub same_count : st'.fds.num_channels ≡ st.fds.num_channels
