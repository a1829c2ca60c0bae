-- ===== src/TicketLock.antt =====
-- The ticket lock of linux/pkvm/spinlock.c, whose tickets run out and are reset, under any number of
-- threads. Each step is one access to the lock; the accesses are atomic and in one order.
pub mod Invariant
pub mod Steps
pub mod Safety
mod Examples
use refined_c.Base.{
  ℕ, zero, suc, ◌+◌, ◌%◌, ◌^◌, Bool, true, false, List, [], ◌∷◌, ◌==◌, if◌then◌else◌,
}

-- `hyp_spinlock_t`
pub record HypSpinlock : Type 0 where
  pub owner : ℕ
  pub next : ℕ

-- `USHRT_MAX` and the last ticket that is given out
abbrev pub no_ticket : ℕ
no_ticket = 65535

abbrev pub last_ticket : ℕ
last_ticket = 65534

abbrev pub hyp_spin_lock_init : HypSpinlock
hyp_spin_lock_init = record { owner = 0; next = 0 }

-- Where a thread is: outside, in `hyp_spin_lock` at the load of `next`, at the compare-and-exchange or
-- at the load of `owner`, between the two calls, or in `hyp_spin_unlock` at the load of `owner` or at a
-- store.
pub data Pc : Type 0 where
  idle : Pc
  load_next : Pc
  claim : (ticket : ℕ) → Pc
  wait : (ticket : ℕ) → Pc
  critical : Pc
  load_owner : Pc
  reset_owner : Pc
  reset_next : Pc
  pass : (ticket : ℕ) → Pc

-- The accesses of `hyp_spin_lock`
abbrev pub hyp_spin_lock_load : HypSpinlock → Pc
hyp_spin_lock_load lock = if lock.next == no_ticket then load_next else claim lock.next

abbrev pub hyp_spin_lock_claim : HypSpinlock → ℕ → HypSpinlock × Pc
hyp_spin_lock_claim lock ticket =
    if lock.next == ticket
    then (record lock { next = (ticket + 1) % 2 ^ 16 }, wait ticket)
    else (lock, load_next)

abbrev pub hyp_spin_lock_wait : HypSpinlock → ℕ → Pc
hyp_spin_lock_wait lock ticket = if lock.owner == ticket then critical else wait ticket

-- The load of `hyp_spin_unlock`
abbrev pub hyp_spin_unlock_load : HypSpinlock → Pc
hyp_spin_unlock_load lock = if lock.owner == last_ticket then reset_owner else pass lock.owner

-- One step of a thread.
unfoldable pub step : HypSpinlock → Pc → HypSpinlock × Pc
step lock idle = (lock, load_next)
step lock load_next = (lock, hyp_spin_lock_load lock)
step lock (claim ticket) = hyp_spin_lock_claim lock ticket
step lock (wait ticket) = (lock, hyp_spin_lock_wait lock ticket)
step lock critical = (lock, load_owner)
step lock load_owner = (lock, hyp_spin_unlock_load lock)
step lock reset_owner = (record lock { owner = 0 }, reset_next)
step lock reset_next = (record lock { next = 0 }, idle)
step lock (pass ticket) = (record lock { owner = (ticket + 1) % 2 ^ 16 }, idle)

pub record System : Type 0 where
  pub lock : HypSpinlock
  pub pcs : ℕ → Pc

abbrev pub update : (ℕ → Pc) → ℕ → Pc → ℕ → Pc
update pcs i p j = if i == j then p else pcs j

-- Thread `i` makes a step.
unfoldable pub turn : System → ℕ → System
unfolding step
turn s i = let (lock, p) = step s.lock (s.pcs i) in record { lock = lock; pcs = update s.pcs i p }

-- The threads make steps in the order of the list.
unfoldable pub run : System → List ℕ → System
unfolding turn
run s [] = s
run s (i ∷ schedule) = run (turn s i) schedule

-- All threads are outside.
abbrev pub start : System
start = record { lock = hyp_spin_lock_init; pcs = λ i. idle }
