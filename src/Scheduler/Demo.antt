-- ===== src/Scheduler/Demo.antt =====
-- The demo program examples/scheduler/src/main.c: how it tells messages apart, and its callbacks. The
-- sockets and the output of the callbacks are left out.
use refined_c.Base.{
  ℕ, ◌<◌, ◌≡◌, ◌∙◌, Bool, ◌&&◌, ◌||◌, some, List, ltb, ◌==◌, if◌then◌else◌, arith, get_elem?,
  get_or,
}
use refined_c.Scheduler.Queue.{Message, Heap}
use refined_c.Scheduler.Fds.{FdScheduler, fds_init, fds_set_callback}
use refined_c.Scheduler.Fds.Init.{
  HasRoom, IsFds, no_messages, fds_init-IsFds, fds_set_callback-IsFds,
}

-- `enum message_types`
abbrev pub msg_foo : ℕ
msg_foo = 0

abbrev pub msg_bar : ℕ
msg_bar = 1

abbrev pub msg_sleep : ℕ
msg_sleep = 2

abbrev pub msg_exit : ℕ
msg_exit = 3

abbrev pub msg_garbage : ℕ
msg_garbage = 4

-- `!memcmp(word, data, 3)` for a word of three letters
abbrev pub starts_with : List ℕ → ℕ → ℕ → ℕ → Bool
starts_with payload a b c =
    get_or payload 0 0 == a && (get_or payload 1 0 == b && get_or payload 2 0 == c)

unfoldable pub message_identify_type : Message → ℕ
message_identify_type msg =
    let d = msg.bytes in
    if ltb msg.len 3
    then msg_garbage
    else if starts_with d 70 79 79 || starts_with d 102 111 111
    then msg_foo
    else if starts_with d 66 65 82 || starts_with d 98 97 114
    then msg_bar
    else if starts_with d 90 90 90 || starts_with d 122 122 122
    then msg_sleep
    else if starts_with d 88 88 88 || starts_with d 120 120 120
    then msg_exit
    else msg_garbage

-- The calls of `fds_set_callback` in `main`; the callbacks are counted from `on_foo` on, behind
-- `nop_callback`.
unfoldable pub set_callbacks : FdScheduler → FdScheduler
set_callbacks fds =
    let with_foo = fds_set_callback fds msg_foo 1 27 in
    let with_bar = fds_set_callback with_foo msg_bar 2 10 in
    let with_sleep = fds_set_callback with_bar msg_sleep 3 1 in
    let with_exit = fds_set_callback with_sleep msg_exit 4 2 in
    fds_set_callback with_exit msg_garbage 5 100

-- The type of every message is one of the five.
pub message_identify_type-lt : (m : Message) → message_identify_type m < 5
unfolding message_identify_type
message_identify_type-lt m = ground arith

-- `main` sets up a well-formed scheduler without messages, in which sleep messages come first, then
-- exit, bar, foo and garbage.
pub set_callbacks-IsFds :
    (h : Heap) (fds : FdScheduler)
    → HasRoom fds
    → IsFds h (set_callbacks (fds_init fds)) no_messages
      × (get_elem? (set_callbacks (fds_init fds)).sched.callbacks msg_sleep
          ≡ some (record { prio = 1; f = 3 }))
      × (get_elem? (set_callbacks (fds_init fds)).sched.callbacks msg_exit
          ≡ some (record { prio = 2; f = 4 }))
      × (get_elem? (set_callbacks (fds_init fds)).sched.callbacks msg_bar
          ≡ some (record { prio = 10; f = 2 }))
      × (get_elem? (set_callbacks (fds_init fds)).sched.callbacks msg_foo
          ≡ some (record { prio = 27; f = 1 }))
      × (get_elem? (set_callbacks (fds_init fds)).sched.callbacks msg_garbage
          ≡ some (record { prio = 100; f = 5 }))
unfolding set_callbacks
set_callbacks-IsFds h fds room =
    let s0 = fds_init fds in
    let s1 = fds_set_callback s0 msg_foo 1 27 in
    let s2 = fds_set_callback s1 msg_bar 2 10 in
    let s3 = fds_set_callback s2 msg_sleep 3 1 in
    let s4 = fds_set_callback s3 msg_exit 4 2 in
    let (i0, _) = fds_init-IsFds h fds room in
    let (i1, a1, k1) =
      fds_set_callback-IsFds h s0 no_messages msg_foo 1 27 i0 (omega arith) (omega arith) in
    let (i2, a2, k2) =
      fds_set_callback-IsFds h s1 no_messages msg_bar 2 10 i1 (omega arith) (omega arith) in
    let (i3, a3, k3) =
      fds_set_callback-IsFds h s2 no_messages msg_sleep 3 1 i2 (omega arith) (omega arith) in
    let (i4, a4, k4) =
      fds_set_callback-IsFds h s3 no_messages msg_exit 4 2 i3 (omega arith) (omega arith) in
    let (i5, a5, k5) =
      fds_set_callback-IsFds h s4 no_messages msg_garbage 5 100 i4 (omega arith) (omega arith) in
    (
      i5,
      k5 2 (omega arith) ∙ (k4 2 (omega arith) ∙ a3),
      k5 3 (omega arith) ∙ a4,
      k5 1 (omega arith) ∙ (k4 1 (omega arith) ∙ (k3 1 (omega arith) ∙ a2)),
      k5 0 (omega arith) ∙ (k4 0 (omega arith) ∙ (k3 0 (omega arith) ∙ (k2 0 (omega arith) ∙ a1))),
      a5,
    )
