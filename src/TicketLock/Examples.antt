-- ===== src/TicketLock/Examples.antt =====
-- Schedules of the ticket lock, and the theorems at them.
use refined_c.Base.{ℕ, ◌<◌, ◌≤◌, ◌≡◌, ◌⊎◌, refl, true, inl, List, [], ◌∷◌}
use refined_c.TicketLock.{wait, critical, start, run, step}
use refined_c.TicketLock.Invariant.{inside, IsLock}
use refined_c.TicketLock.Safety.{run-mutual_exclusion, run-tickets, run-served}

-- Both threads read ticket 0, and thread 1 gets it.
abbrev contended : List ℕ
contended = 0 ∷ 1 ∷ 0 ∷ 1 ∷ 1 ∷ 0 ∷ 0 ∷ 0 ∷ 1 ∷ 0 ∷ []

enters : (run start contended).pcs 1 ≡ critical
unfolding run
enters = refl

waits : (run start contended).pcs 0 ≡ wait 1
unfolding run
waits = refl

-- Thread 1 gives the lock up, and thread 0 enters.
abbrev handed_over : List ℕ
handed_over = 0 ∷ 1 ∷ 0 ∷ 1 ∷ 1 ∷ 0 ∷ 0 ∷ 0 ∷ 1 ∷ 0 ∷ 1 ∷ 1 ∷ 1 ∷ 0 ∷ []

enters_next : (run start handed_over).pcs 0 ≡ critical
unfolding run
enters_next = refl

enters_inside : inside ((run start handed_over).pcs 0) ≡ true
unfolding run
enters_inside = refl

run-mutual_exclusion_example : ◌≡◌ {A = ℕ} 0 0
run-mutual_exclusion_example = run-mutual_exclusion handed_over 0 0 enters_inside enters_inside

run-tickets_example :
    IsLock (run start contended).lock
    × ((i t : ℕ)
        → (run start contended).pcs i ≡ wait t
        → ((run start contended).lock.owner ≤ t)
          × (t < (run start contended).lock.next)
          × ((j : ℕ) → (run start contended).pcs j ≡ wait t → i ≡ j))
run-tickets_example = run-tickets contended

run-served_example :
    (j : ℕ) × ((inside ((run start contended).pcs j) ≡ true)
      ⊎ ((step (run start contended).lock ((run start contended).pcs j)).1 ≡ critical))
run-served_example = run-served contended (inl (0, 1, waits))
