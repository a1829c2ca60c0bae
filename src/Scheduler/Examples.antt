-- ===== src/Scheduler/Examples.antt =====
-- A scheduler with two messages, and the theorems at it.
use refined_c.Base.{
  ℕ, zero, suc, ◌+◌, ◌<◌, ◌≤◌, ◌≡◌, refl, Bool, none, some, [], ◌∷◌, ◌==◌, ltb, if◌then◌else◌,
  arith, ◌||◌, replicate, length-replicate, get_or,
}
use refined_c.Base.Bits.{ones}
use refined_c.Base.Ffs.{ffs}
use refined_c.Base.Run.{out_of_fuel, Returns}
use refined_c.Base.Int.{pos, negsuc, ◌+ℤ◌}
use refined_c.Scheduler.Priority.{PrioBitmap, prio_level_init, highest_pending_priority}
use refined_c.Scheduler.Priority.Levels.{IsBitmap, prio_level_init-level}
use refined_c.Scheduler.Queue.{Ptr, null, Message, node, Heap, next_slot, MessageQueue}
use refined_c.Scheduler.Queue.Fifo.{IsQueue}
use refined_c.Scheduler.Npfp.{typed, Callback, NpfpScheduler, npfp_enqueue, npfp_dequeue}
use refined_c.Scheduler.Npfp.Pending.{Contents}
use refined_c.Scheduler.Npfp.Enqueue.{arrive, Enqueued, npfp_enqueue-Enqueued}
use refined_c.Scheduler.Npfp.Dequeue.{Dequeued, npfp_dequeue-Dequeued}
use refined_c.Scheduler.Fds.{
  FdScheduler, System, received, failed, fds_init, fds_add_channel, fds_set_callback, incoming,
  State, receive_messages, check_channels,
}
use refined_c.Scheduler.Fds.Arrivals.{Receives, stops, reads, Covers}
use refined_c.Scheduler.Fds.Receive.{
  Ends, Delivers, delivers, enough, receive_messages-Ends, receive_messages-out_of_fuel,
}
use refined_c.Scheduler.Fds.Channels.{Sweep, swept, channel, Checked, check_channels-Checked}
use refined_c.Scheduler.Fds.Init.{
  HasRoom, IsFds, ChannelAdded, no_messages, fds_init-IsFds, fds_add_channel-ChannelAdded,
  fds_set_callback-IsFds,
}

abbrev hello : Message
hello = incoming (70 ∷ 79 ∷ 79 ∷ [])

abbrev bye : Message
bye = incoming (88 ∷ 88 ∷ 88 ∷ [])

-- Two messages that no queue holds, at 8 and 16.
abbrev heap : Heap
heap a = if a == 8 then some (node hello null) else if a == 16 then some (node bye null) else none

abbrev one_queue : MessageQueue
one_queue = record { first = 8; last = next_slot 8 }

one_queue-IsQueue : IsQueue heap one_queue ((8, hello) ∷ [])
one_queue-IsQueue = record { chain = (refl, omega arith, refl, (null, refl, refl)); last = refl }

abbrev words : PrioBitmap
words = record { bits = 5 ∷ 0 ∷ 0 ∷ 9 ∷ [] }

words-IsBitmap : IsBitmap (prio_level_init words)
words-IsBitmap = (prio_level_init-level words refl).0

abbrev some_levels : PrioBitmap
some_levels = record { bits = 0 ∷ 8 ∷ 0 ∷ 9 ∷ [] }

some_levels-IsBitmap : IsBitmap some_levels
some_levels-IsBitmap = record { four = refl; words = small }
  where
    small : (i : ℕ) → i < 4 → get_or some_levels.bits i 0 ≤ ones 64
    small zero h = omega arith
    small (suc zero) h = omega arith
    small (suc (suc zero)) h = omega arith
    small (suc (suc (suc zero))) h = omega arith
    small (suc (suc (suc (suc i)))) h = absurd (omega arith)

-- Levels 67, 192 and 195 are marked.
lowest_level : highest_pending_priority some_levels ≡ pos 67
unfolding highest_pending_priority ffs ◌+ℤ◌
lowest_level = refl

abbrev old_callback : Callback
old_callback = record { prio = 300; f = 5 }

abbrev memory : FdScheduler
memory = record {
  input_channels = replicate 16 (pos 0);
  num_channels = 7;
  sched = record {
    callbacks = replicate 256 old_callback;
    pending = replicate 256 one_queue;
    prio_levels = words;
  };
}

memory-HasRoom : HasRoom memory
memory-HasRoom = record {
  channels = length-replicate 16 (pos 0);
  callbacks = length-replicate 256 old_callback;
  pending = length-replicate 256 one_queue;
  words = refl;
}

initial-IsFds : IsFds heap (fds_init memory) no_messages × ((fds_init memory).num_channels ≡ 0)
initial-IsFds = fds_init-IsFds heap memory memory-HasRoom

abbrev start : FdScheduler
start = fds_init memory

-- `fcntl` refuses channel 3, and `read` finds nothing.
abbrev system : System ℕ
system = record {
  read = λ w fd. (failed 11, w);
  fcntl =
      λ w fd. (elim fd [ pos n ↦ if n == 3 then negsuc 0 else pos 0 | negsuc n ↦ negsuc 0 ], w + 1);
  xmalloc = λ w. (w, w + 8);
  would_block = 11;
  again = 11;
}

fds_add_channel-ChannelAdded_example :
    Returns
      (fds_add_channel system 0 start (pos 5))
      (λ (err, fds', w'). (err ≡ pos 0) × ChannelAdded heap start no_messages (pos 5) err fds')
fds_add_channel-ChannelAdded_example =
    fds_add_channel-ChannelAdded system 0 heap start no_messages (pos 5) initial-IsFds.0
      (omega (arith, initial-IsFds.1))

-- Messages of type 1 have priority 67.
abbrev ready : FdScheduler
ready = fds_set_callback start 1 4 67

ready-IsFds : IsFds heap ready no_messages
ready-IsFds =
    (fds_set_callback-IsFds heap start no_messages 1 4 67 initial-IsFds.0 (omega arith)
      (omega arith)).0

abbrev by_length : Message → ℕ
by_length m = if m.len == 3 then 1 else 0

by_length-lt : (m : Message) → by_length m < 256
by_length-lt m = ground arith

npfp_enqueue-Enqueued_example :
    Returns
      (npfp_enqueue by_length heap ready.sched 8)
      (Enqueued by_length heap ready.sched no_messages 8 (node hello null))
npfp_enqueue-Enqueued_example =
    npfp_enqueue-Enqueued by_length by_length-lt heap ready.sched no_messages 8 (node hello null)
      ready-IsFds.scheduler (omega arith) refl (λ p lt. refl)

-- The heap and the scheduler after this, and its messages.
abbrev after_hello : Heap × NpfpScheduler
after_hello = npfp_enqueue-Enqueued_example.0

abbrev with_hello : Contents
with_hello =
    arrive no_messages npfp_enqueue-Enqueued_example.2.callback.prio 8
      (typed by_length (node hello null)).message

npfp_dequeue-Dequeued_example :
    Returns
      (npfp_dequeue after_hello.0 after_hello.1)
      (Dequeued after_hello.0 after_hello.1 with_hello)
npfp_dequeue-Dequeued_example =
    npfp_dequeue-Dequeued after_hello.0 after_hello.1 with_hello
      npfp_enqueue-Enqueued_example.2.scheduler

-- `read` finds one message of three bytes.
abbrev one_message : System ℕ
one_message = record system {
  read = λ w fd. if ltb w 40 then (received (1 ∷ 2 ∷ 3 ∷ []), w) else (failed 11, w);
}

abbrev state : State ℕ
state = record { heap = heap; fds = ready; world = 24; errno = 0 }

abbrev addresses : Ptr → Bool
addresses a = (a == 8) || (a == 16)

heap-Covers : Covers addresses heap
heap-Covers b e = ground arith

channel-Receives : Receives one_message (pos 5) addresses 24 ((24, 1 ∷ 2 ∷ 3 ∷ []) ∷ []) 11 40
channel-Receives =
    reads addresses 24 32 32 40 24 (1 ∷ 2 ∷ 3 ∷ []) [] 11 refl (omega arith) refl refl
      (stops _ 32 40 40 32 11 refl (omega arith) refl refl)

receive_messages-Ends_example :
    Returns
      (receive_messages one_message by_length 2 state (pos 5))
      (Ends one_message by_length state no_messages addresses ((24, 1 ∷ 2 ∷ 3 ∷ []) ∷ []) 11 40)
receive_messages-Ends_example =
    receive_messages-Ends one_message by_length by_length-lt 2 state no_messages (pos 5) addresses
      ((24, 1 ∷ 2 ∷ 3 ∷ []) ∷ []) 11 40 ready-IsFds.scheduler heap-Covers channel-Receives
      (omega arith)

-- `read` is at the end of a file.
abbrev end_of_file : System ℕ
end_of_file = record system { read = λ w fd. (received [], w) }

file-Delivers : Delivers end_of_file (pos 5) addresses 24 2
file-Delivers =
    delivers addresses 24 32 32 24 [] 1 refl (omega arith) refl refl
      (delivers _ 32 40 40 32 [] 0 refl (omega arith) refl refl (enough _ 40))

receive_messages-out_of_fuel_example :
    receive_messages end_of_file by_length 2 state (pos 5) ≡ out_of_fuel
receive_messages-out_of_fuel_example =
    receive_messages-out_of_fuel end_of_file by_length by_length-lt 2 state no_messages (pos 5)
      addresses ready-IsFds.scheduler heap-Covers file-Delivers

-- A scheduler with two channels, on which nothing is left after the message.
abbrev two_channels : FdScheduler
two_channels = record ready { input_channels = pos 5 ∷ pos 6 ∷ []; num_channels = 2 }

abbrev both_channels : State ℕ
both_channels = record { heap = heap; fds = two_channels; world = 24; errno = 0 }

channels-Sweep :
    Sweep one_message (pos 5 ∷ pos 6 ∷ []) addresses 24 (((24, 1 ∷ 2 ∷ 3 ∷ []) ∷ []) ∷ [] ∷ []) 48
channels-Sweep = channel (pos 5) _ addresses 24 40 48 _ _ 11 channel-Receives refl (
    channel (pos 6) [] _ 40 48 48 [] [] 11 (stops _ 40 48 48 40 11 refl (omega arith) refl refl)
      refl (swept _ 48))

check_channels-Checked_example :
    Returns
      (check_channels one_message by_length 2 both_channels)
      (Checked by_length both_channels no_messages addresses ((24, 1 ∷ 2 ∷ 3 ∷ []) ∷ []) (pos 0) 48)
check_channels-Checked_example =
    check_channels-Checked one_message by_length by_length-lt 2 both_channels no_messages
      (pos 5 ∷ pos 6 ∷ []) addresses (((24, 1 ∷ 2 ∷ 3 ∷ []) ∷ []) ∷ [] ∷ []) 48
      ready-IsFds.scheduler heap-Covers refl (λ i li. refl) channels-Sweep (omega arith)
