-- ===== src/Quicksort/Examples.antt =====
-- Small lists.
use refined_c.Base.{◌≡◌, List, [], ◌∷◌, refl}
use refined_c.Base.Int.{ℤ, pos, negsuc}
use refined_c.Base.Run.{ok, out_of_fuel}
use refined_c.Quicksort.{partition, quicksort}
use refined_c.Quicksort.Split.{quicksort-out_of_fuel}

abbrev three : List ℤ
three = pos 4 ∷ negsuc 1 ∷ pos 7 ∷ []

split_three : partition three (pos 4) ≡ (negsuc 1 ∷ [], pos 4 ∷ pos 7 ∷ [])
unfolding partition
split_three = refl

quicksort-out_of_fuel_example : quicksort 1000000 (pos 4 ∷ []) ≡ out_of_fuel
quicksort-out_of_fuel_example = quicksort-out_of_fuel 1000000 (pos 4) []

empty_sorted : quicksort 1 [] ≡ ok []
unfolding quicksort
empty_sorted = refl
