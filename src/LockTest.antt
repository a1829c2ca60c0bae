-- ===== src/LockTest.antt =====
-- The spin lock of examples/spinlock.c and the counters under it of examples/lock.c, under any number of
-- threads. Each step is one access to memory, so `a += 1` is two, and the accesses take place in one order.
pub mod Sequential
pub mod Runs
mod Examples
use refined_c.Base.{
  ℕ, zero, suc, ◌+◌, ◌-◌, ◌%◌, ◌^◌, Bool, true, false, List, [], ◌∷◌, ltb, ◌==◌, if◌then◌else◌,
}

-- What the lock of a `struct lock_test` protects.
pub record Locked : Type 0 where
  pub locked_int : ℕ
  pub a : ℕ
  pub b : ℕ

pub record LockTest : Type 0 where
  pub outside : ℕ
  pub lock : Bool
  pub locked : Locked

-- Before other threads have the address.
abbrev pub init : LockTest
init = record { outside = 0; lock = false; locked = record { locked_int = 0; a = 0; b = 10 } }

-- `outside` is for the owner of the whole struct only.
unfoldable pub write_outside : LockTest → ℕ → LockTest
write_outside t n = record t { outside = n }

unfoldable pub read_outside : LockTest → ℕ
read_outside t = t.outside

-- The calls that take the lock
pub data Call : Type 0 where
  write_locked : (n : ℕ) → Call
  read_locked : Call
  increment : Call

-- Where a thread is: outside of a call, at the compare-and-exchange of `sl_lock`, at an access under the
-- lock, or at the store of `sl_unlock`, with the value that it will return.
pub data Pc : Type 0 where
  idle : Pc
  acquire : Call → Pc
  write_int : (n : ℕ) → Pc
  read_int : Pc
  test_b : Pc
  load_a : Pc
  store_a : (loaded : ℕ) → Pc
  load_b : Pc
  store_b : (loaded : ℕ) → Pc
  read_a : Pc
  release : Call → (ret : ℕ) → Pc

-- The first access under the lock
abbrev pub first_access : Call → Pc
first_access (write_locked n) = write_int n
first_access read_locked = read_int
first_access increment = test_b

-- One round of the loop of `sl_lock`
unfoldable pub sl_lock : LockTest → Call → LockTest × Pc
sl_lock t call = if t.lock then (t, acquire call) else (record t { lock = true }, first_access call)

unfoldable pub sl_unlock : LockTest → LockTest
sl_unlock t = record t { lock = false }

abbrev pub size_mod : ℕ
size_mod = 2 ^ 64

-- The stores of `a += 1` and `b -= 1`, of what has been computed from the loaded value.
unfoldable pub count_up : (loaded : ℕ) → Locked → Locked
count_up loaded d = record d { a = (loaded + 1) % size_mod }

unfoldable pub count_down : (loaded : ℕ) → Locked → Locked
count_down loaded d = record d { b = (loaded + size_mod - 1) % size_mod }

-- One step of a thread; one that is outside begins the call.
unfoldable pub step : LockTest → Pc → Call → LockTest × Pc
unfolding sl_lock sl_unlock count_up count_down
step t idle call = (t, acquire call)
step t (acquire c) call = sl_lock t c
step t (write_int n) call =
    (record t { locked = record t.locked { locked_int = n } }, release (write_locked n) 0)
step t read_int call = (t, release read_locked t.locked.locked_int)
step t test_b call = (t, if ltb 0 t.locked.b then load_a else read_a)
step t load_a call = (t, store_a t.locked.a)
step t (store_a loaded) call = (record t { locked = count_up loaded t.locked }, load_b)
step t load_b call = (t, store_b t.locked.b)
step t (store_b loaded) call = (record t { locked = count_down loaded t.locked }, read_a)
step t read_a call = (t, release increment t.locked.a)
step t (release c ret) call = (sl_unlock t, idle)

-- The calls that have returned, with what they returned, the last first.
abbrev pub Log : Type 0
Log = List (Call × ℕ)

abbrev pub logged : Pc → Log → Log
logged (release c ret) log = (c, ret) ∷ log
logged _ log = log

pub record System : Type 0 where
  pub memory : LockTest
  pub pcs : ℕ → Pc
  pub log : Log

-- Thread `i` makes a step.
unfoldable pub turn : System → ℕ → Call → System
turn s i call =
    let (t, p) = step s.memory (s.pcs i) call in
    record { memory = t; pcs = λ j. if i == j then p else s.pcs j; log = logged (s.pcs i) s.log }

unfoldable pub run : System → List (ℕ × Call) → System
unfolding turn step
run s [] = s
run s ((i, call) ∷ schedule) = run (turn s i call) schedule

abbrev pub start : System
start = record { memory = init; pcs = λ i. idle; log = [] }
