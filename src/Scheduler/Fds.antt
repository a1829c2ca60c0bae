-- ===== src/Scheduler/Fds.antt =====
-- The scheduler on file descriptors: examples/scheduler/src/fdsched.c. The operating system, the
-- allocator and the user's functions are parameters. The messages' heap, the scheduler, the state of the
-- system and `errno` are passed on explicitly.
pub mod Init
pub mod Arrivals
pub mod Receive
pub mod Channels
use refined_c.Base.{
  ℕ, zero, suc, ◌+◌, Bool, true, false, Option, none, some, List, [], ◌∷◌, ◌==◌, if◌then◌else◌, not,
  ltb, ◌||◌, length, get_elem?, set,
}
use refined_c.Base.Run.{Run, ok, fault, hang, out_of_fuel, ◌>>=◌, ◌>>◌, need, check}
use refined_c.Base.Int.{ℤ, pos, negsuc, is_negative, is_zero}
use refined_c.Scheduler.Priority.{PrioBitmap, prio_level_init}
use refined_c.Scheduler.Queue.{
  Ptr, null, Message, Node, node, Heap, write, first_slot, MessageQueue,
}
use refined_c.Scheduler.Npfp.{Callback, NpfpScheduler, npfp_enqueue, npfp_dequeue, npfp_dispatch}

pub record FdScheduler : Type 0 where
  pub input_channels : List ℤ
  pub num_channels : ℕ
  pub sched : NpfpScheduler

-- The index of `nop_callback`.
abbrev pub nop_callback : ℕ
nop_callback = 0

-- The two loops of `fds_init`.
pub fill {ℓ} : {A : Type ℓ} → (rounds i : ℕ) → A → List A → List A
fill zero i x xs = xs
fill (suc rounds) i x xs = fill rounds (i + 1) x (set xs i x)

unfoldable pub fds_init : FdScheduler → FdScheduler
unfolding fill
fds_init fds = record fds {
  num_channels = 0;
  sched = record {
    callbacks = fill 256 0 (record { prio = 0; f = nop_callback }) fds.sched.callbacks;
    pending = fill 256 0 (record { first = null; last = first_slot }) fds.sched.pending;
    prio_levels = prio_level_init fds.sched.prio_levels;
  };
}

-- What `read` gives: bytes, or -1 and an error number.
pub data ReadResult : Type 0 where
  received : List ℕ → ReadResult
  failed : ℕ → ReadResult

-- `read`, `fcntl` and the allocator. `W` is the state of the system.
pub record System (W : Type 0) : Type 0 where
  pub read : W → ℤ → ReadResult × W
  pub fcntl : W → ℤ → ℤ × W
  pub xmalloc : W → Ptr × W
  pub would_block : ℕ
  pub again : ℕ

pub record State (W : Type 0) : Type 0 where
  pub heap : Heap
  pub fds : FdScheduler
  pub world : W
  pub errno : ℕ

abbrev pub free : Heap → Ptr → Heap
free h p a = if a == p then none else h a

-- The result, with what `fcntl` left.
unfoldable pub fds_add_channel :
    {W : Type 0} → System W → W → FdScheduler → ℤ → Run (ℤ × FdScheduler × W)
fds_add_channel sys w fds fd =
    let err = sys.fcntl w fd in
    check (ltb fds.num_channels 16)
    >> (if is_zero err.0
        then ok (
          pos 0,
          record fds {
            input_channels = set fds.input_channels fds.num_channels fd;
            num_channels = fds.num_channels + 1;
          },
          err.1,
        )
        else ok (err.0, fds, err.1))

unfoldable pub fds_set_callback : FdScheduler → ℕ → ℕ → ℕ → FdScheduler
fds_set_callback fds type f prio = record fds {
  sched = record (fds.sched) {
    callbacks = set fds.sched.callbacks type (record { prio = prio; f = f });
  };
}

-- The message that holds the data; its type and its link are not yet set.
abbrev pub incoming : List ℕ → Message
incoming payload = record { type = 0; len = length payload; bytes = payload }

module _ {W : Type 0} (sys : System W) (identify : Message → ℕ) where
  -- The branches of `receive_one_message` after `read`.
  unfoldable pub after_read : State W → Ptr → ReadResult × W → Run (ℤ × State W)
  after_read st msg (failed e, w) =
      ok (negsuc 0, record st { heap = free st.heap msg; world = w; errno = e })
  after_read st msg (received payload, w) = do
    r ← npfp_enqueue identify (write st.heap msg (node (incoming payload) null)) st.fds.sched msg
    ok (pos 0, record st { heap = r.0; fds = record (st.fds) { sched = r.1 }; world = w })

  unfoldable pub receive_one_message : State W → ℤ → Run (ℤ × State W)
  unfolding after_read
  receive_one_message st fd =
      let new = sys.xmalloc st.world in
      check (not (new.0 == null)) >> after_read st new.0 (sys.read new.1 fd)

  -- The loop of `receive_messages`, with `err` and `non_empty` at its end.
  unfoldable pub receive_loop :
      (fuel : ℕ) → State W → (non_empty : Bool) → ℤ → Run (ℤ × Bool × State W)
  unfolding receive_one_message
  receive_loop zero st non_empty fd = out_of_fuel
  receive_loop (suc fuel) st non_empty fd = do
    r ← receive_one_message st fd
    let rest = receive_loop fuel r.1 true fd
    if is_zero r.0 then rest else ok (r.0, non_empty, r.1)

  unfoldable pub receive_messages : (fuel : ℕ) → State W → ℤ → Run (ℤ × State W)
  unfolding receive_loop
  receive_messages fuel st fd = do
    (err, non_empty, st') ← receive_loop fuel st false fd
    if st'.errno == sys.would_block || st'.errno == sys.again
        then ok (if non_empty then pos 1 else pos 0, st')
        else ok (err, st')

  -- The loop of `check_channels`.
  unfoldable pub check_loop : (fuel rounds ch : ℕ) → (flag : ℤ) → State W → Run (ℤ × State W)
  unfolding receive_messages
  check_loop fuel zero ch flag st = ok (flag, st)
  check_loop fuel (suc rounds) ch flag st = do
    fd ← need (get_elem? st.fds.input_channels ch)
    r ← receive_messages fuel st fd
    let flag' = if is_zero r.0 then flag else pos 1
    let rest = check_loop fuel rounds (ch + 1) flag' r.1
    if is_negative r.0 then ok r else rest

  unfoldable pub check_channels : (fuel : ℕ) → State W → Run (ℤ × State W)
  unfolding check_loop
  check_channels fuel st = check_loop fuel st.fds.num_channels 0 (pos 0) st

  unfoldable pub check_channels_until_empty : (fuel rounds : ℕ) → State W → Run (ℤ × State W)
  unfolding check_channels
  check_channels_until_empty fuel zero st = out_of_fuel
  check_channels_until_empty fuel (suc rounds) st = do
    r ← check_channels fuel st
    let rest = check_channels_until_empty fuel rounds r.1
    if is_negative r.0 then ok r else if is_zero r.0 then ok r else rest

  -- The rest of an iteration of `fds_run`, with the dequeued message; `none` means to go on.
  unfoldable pub handle :
      (call : ℕ → Message → ℤ) → State W → Option Ptr × NpfpScheduler → Run (Option ℤ × State W)
  handle call st (none, sched) = ok (none, record st { fds = record (st.fds) { sched = sched } })
  handle call st (some msg, sched) = do
    err ← npfp_dispatch call st.heap sched msg
    let st' = record st { heap = free st.heap msg; fds = record (st.fds) { sched = sched } }
    if is_zero err then ok (none, st') else ok (some err, st')

  -- One iteration; the result of `check_channels_until_empty` is overwritten or unused.
  unfoldable pub run_once :
      (call : ℕ → Message → ℤ) → (fuel rounds : ℕ) → State W → Run (Option ℤ × State W)
  unfolding check_channels_until_empty handle
  run_once call fuel rounds st = do
    r ← check_channels_until_empty fuel rounds st
    d ← npfp_dequeue r.1.heap r.1.fds.sched
    handle call r.1 d

  unfoldable pub run_loop :
      (call : ℕ → Message → ℤ) → (fuel rounds iterations : ℕ) → State W → Run (ℤ × State W)
  unfolding run_once
  run_loop call fuel rounds zero st = out_of_fuel
  run_loop call fuel rounds (suc iterations) st = do
    r ← run_once call fuel rounds st
    let rest = run_loop call fuel rounds iterations r.1
    elim r.0 [ none ↦ rest | some err ↦ ok (err, r.1) ]

  unfoldable pub fds_run :
      (call : ℕ → Message → ℤ) → (fuel rounds iterations : ℕ) → State W → Run (ℤ × State W)
  unfolding run_loop
  fds_run call fuel rounds iterations st =
      check (ltb 0 st.fds.num_channels) >> run_loop call fuel rounds iterations st
