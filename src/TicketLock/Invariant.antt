-- ===== src/TicketLock/Invariant.antt =====
-- What holds of the lock and its threads between two steps.
use refined_c.Base.{ℕ, ◌<◌, ◌≤◌, ◌≡◌, ◌≢◌, Bool, true, false}
use refined_c.TicketLock.{
  HypSpinlock, no_ticket, last_ticket, Pc, idle, load_next, claim, wait, critical, load_owner,
  reset_owner, reset_next, pass, System,
}

-- The thread has the lock.
abbrev pub inside : Pc → Bool
inside critical = true
inside load_owner = true
inside reset_owner = true
inside reset_next = true
inside (pass t) = true
inside _ = false

abbrev pub IsLock : HypSpinlock → Type 0
IsLock lock = (lock.owner ≤ lock.next) × (lock.owner < no_ticket) × (lock.next ≤ no_ticket)

-- A thread and the lock
abbrev pub One : HypSpinlock → Pc → Type 0
One lock idle = Unit {0}
One lock load_next = Unit {0}
One lock (claim t) = t < no_ticket
One lock (wait t) = (lock.owner ≤ t) × (t < lock.next)
One lock critical = lock.owner < lock.next
One lock load_owner = lock.owner < lock.next
One lock reset_owner = (lock.owner ≡ last_ticket) × (lock.owner < lock.next)
One lock reset_next = (lock.owner ≡ 0) × (lock.next ≡ no_ticket)
One lock (pass t) = (t ≡ lock.owner) × (t < last_ticket) × (lock.owner < lock.next)

-- A thread that has the lock, and another thread
abbrev pub Beside : (owner : ℕ) (resets : Bool) → Pc → Type 0
Beside owner true (wait t) = ⊥
Beside owner false (wait t) = t ≢ owner
Beside owner resets critical = ⊥
Beside owner resets load_owner = ⊥
Beside owner resets reset_owner = ⊥
Beside owner resets reset_next = ⊥
Beside owner resets (pass t) = ⊥
Beside owner resets _ = Unit {0}

-- Two threads: no ticket is given twice, one thread at most has the lock, and no other waits for its
-- ticket.
abbrev pub Two : (owner : ℕ) → Pc → Pc → Type 0
Two owner (wait t) (wait u) = t ≢ u
Two owner (wait t) critical = t ≢ owner
Two owner (wait t) load_owner = t ≢ owner
Two owner (wait t) reset_owner = t ≢ owner
Two owner (wait t) reset_next = ⊥
Two owner (wait t) (pass u) = t ≢ owner
Two owner critical q = Beside owner false q
Two owner load_owner q = Beside owner false q
Two owner reset_owner q = Beside owner false q
Two owner reset_next q = Beside owner true q
Two owner (pass t) q = Beside owner false q
Two owner _ _ = Unit {0}

-- The thread has the ticket; in a reset the others are out of use.
abbrev pub Holds : (owner : ℕ) → Pc → ℕ → Type 0
Holds owner (wait t) d = t ≡ d
Holds owner critical d = owner ≡ d
Holds owner load_owner d = owner ≡ d
Holds owner reset_owner d = owner ≡ d
Holds owner reset_next d = Unit {0}
Holds owner (pass t) d = owner ≡ d
Holds owner _ d = ⊥

pub record Invariant (s : System) : Type 0 where
  pub lock : IsLock s.lock
  pub one : (i : ℕ) → One s.lock (s.pcs i)
  pub two : (i j : ℕ) → i ≢ j → Two s.lock.owner (s.pcs i) (s.pcs j)
  pub covered :
      (d : ℕ) → s.lock.owner ≤ d → d < s.lock.next → (i : ℕ) × Holds s.lock.owner (s.pcs i) d
