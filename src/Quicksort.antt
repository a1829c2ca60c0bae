-- ===== src/Quicksort.antt =====
-- The quicksort on linked lists of tutorial/quicksort_solution.c. Each list is owned by one pointer, so
-- `list_t` is the sequence of its values, and a call with a `list_t *` gives the list after the call.
pub mod Split
mod Examples
use refined_c.Base.{zero, suc, ◌≡◌, ℕ, Bool, true, false, List, [], ◌∷◌, if◌then◌else◌}
use refined_c.Base.Int.{ℤ, leb_ℤ}
use refined_c.Base.Run.{Run, ok, out_of_fuel, ◌>>=◌}

unfoldable pub append : (l k : List ℤ) → List ℤ
append [] k = k
append (x ∷ l) k = x ∷ append l k

-- The list after the call, and the list that is returned.
unfoldable pub partition : (l : List ℤ) (pivot : ℤ) → List ℤ × List ℤ
partition [] pivot = ([], [])
partition (val ∷ next) pivot =
    let (kept, rest) = partition next pivot in
    if leb_ℤ pivot val then (kept, val ∷ rest) else (val ∷ kept, rest)

unfoldable pub quicksort : (fuel : ℕ) → List ℤ → Run (List ℤ)
quicksort zero l = out_of_fuel
quicksort (suc fuel) [] = ok []
quicksort (suc fuel) (pivot ∷ next) =
    let (lower, higher) = partition (pivot ∷ next) pivot in
    quicksort fuel higher >>= λ h. quicksort fuel lower >>= λ l. ok (append l h)
