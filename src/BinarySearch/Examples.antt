-- ===== src/BinarySearch/Examples.antt =====
-- The array of the test in examples/binary_search.c.
use refined_c.Base.{ℕ, zero, suc, ◌≡◌, refl, some, List, [], ◌∷◌, arith, get_elem?}
use refined_c.Base.Run.{ok, Returns}
use refined_c.BinarySearch.{binary_search, compare_int}
use refined_c.BinarySearch.Bound.{Sorted, Transitive, Splits, binary_search-Splits}

abbrev values : List ℕ
values = 0 ∷ 1 ∷ 2 ∷ 3 ∷ 4 ∷ []

finds_three : binary_search compare_int values 2 5 ≡ ok 3
unfolding binary_search
finds_three = refl

-- Each value is its index.
value_is_index : (i y : ℕ) → get_elem? values i ≡ some y → y ≡ i
value_is_index zero y e = cc
value_is_index (suc zero) y e = cc
value_is_index (suc (suc zero)) y e = cc
value_is_index (suc (suc (suc zero))) y e = cc
value_is_index (suc (suc (suc (suc zero)))) y e = cc
value_is_index (suc (suc (suc (suc (suc i))))) y e = cc

values-Sorted : Sorted compare_int values 2
values-Sorted i j y z lt p q = ground (arith, value_is_index i y p, value_is_index j z q)

compare_int-Transitive : Transitive compare_int values 2
compare_int-Transitive a b c p q = ground arith

binary_search-Splits_example :
    Returns (binary_search compare_int values 2 5) (Splits compare_int values 2)
binary_search-Splits_example =
    binary_search-Splits compare_int values 2 values-Sorted compare_int-Transitive
