-- ===== src/TicketLock/Safety.antt =====
-- What the ticket lock promises after any schedule.
use mathlib.Core.Path.{subst}
use refined_c.Base.{
  ℕ, ◌<◌, ◌≤◌, ◌≡◌, ◌≢◌, ◌⊎◌, refl, true, List, [], ◌∷◌, ◌==◌, arith, Bool-cases, inl, inr,
}
use refined_c.TicketLock.{
  HypSpinlock, no_ticket, Pc, idle, load_next, claim, wait, critical, load_owner, reset_owner,
  reset_next, pass, System, start, turn, run, step,
}
use refined_c.TicketLock.Invariant.{inside, IsLock, One, Two, Holds, Invariant}
use refined_c.TicketLock.Steps.{turn-Invariant}

start-Invariant : Invariant start
start-Invariant = record {
  lock = (omega arith, omega arith, omega arith);
  one = λ i. tt;
  two = λ i j ne. tt;
  covered = λ d low high. absurd (omega arith);
}

run-Invariant : (s : System) (schedule : List ℕ) → Invariant s → Invariant (run s schedule)
unfolding run
run-Invariant s [] inv = inv
run-Invariant s (i ∷ schedule) inv = run-Invariant (turn s i) schedule (turn-Invariant s i inv)

reached : (schedule : List ℕ) → Invariant (run start schedule)
reached schedule = run-Invariant start schedule start-Invariant

not_both : (owner : ℕ) (p q : Pc) → inside p ≡ true → inside q ≡ true → Two owner p q → ⊥
not_both owner critical idle a b two = cc
not_both owner critical q a b two = ground arith
not_both owner load_owner idle a b two = cc
not_both owner load_owner q a b two = ground arith
not_both owner reset_owner idle a b two = cc
not_both owner reset_owner q a b two = ground arith
not_both owner reset_next idle a b two = cc
not_both owner reset_next q a b two = ground arith
not_both owner (pass t) idle a b two = cc
not_both owner (pass t) q a b two = ground arith
not_both owner idle q a b two = cc
not_both owner load_next q a b two = cc
not_both owner (claim t) q a b two = cc
not_both owner (wait t) q a b two = cc

-- Whatever steps any number of threads made, in any order, one thread at most is between the end of
-- hyp_spin_lock and the end of hyp_spin_unlock.
pub run-mutual_exclusion :
    (schedule : List ℕ) (i j : ℕ)
    → inside ((run start schedule).pcs i) ≡ true
    → inside ((run start schedule).pcs j) ≡ true
    → i ≡ j
run-mutual_exclusion schedule i j a b = elim (Bool-cases (i == j)) [
  | inl same ↦ ground arith
  | inr off ↦
      let s = run start schedule in
      let ne : i ≢ j = λ e. ground arith in
      absurd (not_both s.lock.owner (s.pcs i) (s.pcs j) a b ((reached schedule).two i j ne))
]

-- Whatever steps were made: `owner` and `next` stay within an unsigned short, `owner` at most `next`, so
-- that neither addition wraps around; and a thread waits with a ticket that was given out, from `owner`
-- on and before `next`, and that no other thread waits with.
pub run-tickets :
    (schedule : List ℕ)
    → IsLock (run start schedule).lock
      × ((i t : ℕ)
          → (run start schedule).pcs i ≡ wait t
          → ((run start schedule).lock.owner ≤ t)
            × (t < (run start schedule).lock.next)
            × ((j : ℕ) → (run start schedule).pcs j ≡ wait t → i ≡ j))
run-tickets schedule =
    let s = run start schedule in
    let inv = reached schedule in
    (
      inv.lock,
      λ i t e.
          let (low, high) = subst (One s.lock) e (inv.one i) in
          (
            low,
            high,
            λ j f. elim (Bool-cases (i == j)) [
              | inl same ↦ ground arith
              | inr off ↦
                  let ne : i ≢ j = λ k. ground arith in
                  let apart = subst (λ p. Two s.lock.owner p (s.pcs j)) e (inv.two i j ne) in
                  let apart' : t ≢ t = subst (λ q. Two s.lock.owner (wait t) q) f apart in
                  absurd (apart' refl)
            ],
          ),
    )

-- The thread that holds the ticket `owner`
holder :
    (lock : HypSpinlock) (p : Pc)
    → Holds lock.owner p lock.owner
    → (inside p ≡ true) ⊎ ((step lock p).1 ≡ critical)
unfolding step
holder lock (wait t) h = let mine : (lock.owner == t) ≡ true = ground arith in inr (rw mine refl)
holder lock critical h = inl refl
holder lock load_owner h = inl refl
holder lock reset_owner h = inl refl
holder lock reset_next h = inl refl
holder lock (pass t) h = inl refl
holder lock idle h = elim h [ ]
holder lock load_next h = elim h [ ]
holder lock (claim t) h = elim h [ ]

-- No deadlock: whatever steps were made, if a thread waits, or the tickets have run out, then some thread
-- has the lock or waits with the ticket that is `owner`, and takes the lock by its next step.
pub run-served :
    (schedule : List ℕ)
    → ((i : ℕ) × (t : ℕ) × ((run start schedule).pcs i ≡ wait t))
      ⊎ ((run start schedule).lock.next ≡ no_ticket)
    → (j : ℕ) × ((inside ((run start schedule).pcs j) ≡ true)
        ⊎ ((step (run start schedule).lock ((run start schedule).pcs j)).1 ≡ critical))
run-served schedule h =
    let s = run start schedule in
    let inv = reached schedule in
    let given_out : s.lock.owner < s.lock.next = elim h [
      | inl (i, t, e) ↦ let w = subst (One s.lock) e (inv.one i) in omega (arith, w)
      | inr full ↦ omega (arith, full, inv.lock)
    ] in
    let (j, held) = inv.covered s.lock.owner (omega arith) given_out in
    (j, holder s.lock (s.pcs j) held)
