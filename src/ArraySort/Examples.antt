-- ===== src/ArraySort/Examples.antt =====
-- An array, and the theorems at it.
use refined_c.Base.{ℕ, ◌≡◌, refl, List, [], ◌∷◌, arith}
use refined_c.Base.Run.{ok, Returns}
use refined_c.ArraySort.{partition, qsort}
use refined_c.ArraySort.Sort.{SortedRange, qsort-SortedRange}

abbrev sample : List ℕ
sample = 5 ∷ 2 ∷ 9 ∷ 2 ∷ 0 ∷ 7 ∷ []

-- The pivot 5 goes to place 3.
splits : partition sample 0 5 ≡ ok (0 ∷ 2 ∷ 2 ∷ 5 ∷ 9 ∷ 7 ∷ [], 3)
unfolding partition
splits = refl

-- The range of the elements 1 to 4 is sorted.
sorts : qsort 5 sample 1 5 ≡ ok (5 ∷ 0 ∷ 2 ∷ 2 ∷ 9 ∷ 7 ∷ [])
unfolding qsort
sorts = refl

qsort-SortedRange_example : Returns (qsort 5 sample 1 5) (SortedRange sample 1 5)
qsort-SortedRange_example = qsort-SortedRange 5 sample 1 5 (omega arith) (omega arith)
