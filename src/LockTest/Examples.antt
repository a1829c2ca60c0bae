-- ===== src/LockTest/Examples.antt =====
-- A schedule of two threads that count, and the theorems at it.
use refined_c.Base.{ℕ, ◌≤◌, ◌+◌, ◌≡◌, refl, false, List, [], ◌∷◌, In}
use refined_c.LockTest.{Call, increment, run, start, write_outside, read_outside, LockTest}
use refined_c.LockTest.Sequential.{IsSequential}
use refined_c.LockTest.Runs.{run-IsSequential, run-total}

-- Thread 1 tries to take the lock while thread 0 counts.
abbrev counting : List (ℕ × Call)
counting =
    (0, increment)
    ∷ (1, increment)
    ∷ (0, increment)
    ∷ (1, increment)
    ∷ (0, increment)
    ∷ (0, increment)
    ∷ (0, increment)
    ∷ (0, increment)
    ∷ (1, increment)
    ∷ (0, increment)
    ∷ (0, increment)
    ∷ (0, increment)
    ∷ (1, increment)
    ∷ (1, increment)
    ∷ (1, increment)
    ∷ (1, increment)
    ∷ (1, increment)
    ∷ (1, increment)
    ∷ (1, increment)
    ∷ (1, increment)
    ∷ (1, increment)
    ∷ []

counted : (run start counting).log ≡ (increment, 2) ∷ (increment, 1) ∷ []
unfolding run
counted = refl

free_again : (run start counting).memory.lock ≡ false
unfolding run
free_again = refl

reads_outside : (t : LockTest) (n : ℕ) → read_outside (write_outside t n) ≡ n
unfolding read_outside write_outside
reads_outside t n = refl

run-IsSequential_example : IsSequential (run start counting).log (run start counting).memory.locked
run-IsSequential_example = run-IsSequential counting free_again

run-total_example :
    ((ret : ℕ) → In (increment, ret) (run start counting).log → ret ≤ 10)
    × ((run start counting).memory.lock ≡ false
        → (run start counting).memory.locked.a + (run start counting).memory.locked.b ≡ 10)
run-total_example = run-total counting
