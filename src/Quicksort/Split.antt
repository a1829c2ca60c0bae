-- ===== src/Quicksort/Split.antt =====
-- What partition of tutorial/quicksort_solution.c does, and that quicksort there does not end.
use refined_c.Base.{
  zero, suc, ◌+◌, ◌≡◌, ℕ, Bool, true, false, List, [], ◌∷◌, if◌then◌else◌, refl, Bool-cases, inl,
  inr, arith, In, ◌∙◌, ap,
}
use refined_c.Base.Int.{ℤ, leb_ℤ, leb_ℤ_refl}
use refined_c.Base.Run.{out_of_fuel}
use refined_c.Quicksort.{partition, quicksort}

-- How many values pass a test
abbrev pub count_if : (ℤ → Bool) → List ℤ → ℕ
count_if test [] = 0
count_if test (x ∷ xs) = (if test x then 1 else 0) + count_if test xs

-- partition leaves the values below the pivot in the list, returns the others, and loses none.
pub partition-count_if :
    (l : List ℤ) (pivot : ℤ)
    → ((x : ℤ) → In x (partition l pivot).0 → leb_ℤ pivot x ≡ false)
      × ((x : ℤ) → In x (partition l pivot).1 → leb_ℤ pivot x ≡ true)
      × ((test : ℤ → Bool)
          → count_if test (partition l pivot).0 + count_if test (partition l pivot).1
            ≡ count_if test l)
unfolding partition
partition-count_if [] pivot = ((λ x i. elim i [ ]), (λ x i. elim i [ ]), λ test. omega arith)
partition-count_if (val ∷ next) pivot =
    let (low, high, sum) = partition-count_if next pivot in
    elim (Bool-cases (leb_ℤ pivot val)) [
      | inl above ↦ rw above (
        low,
        (λ x i. elim i [ inl e ↦ ap (leb_ℤ pivot) e ∙ above | inr j ↦ high x j ]),
        λ test. omega (arith, sum test),
      )
      | inr below ↦ rw below (
        (λ x i. elim i [ inl e ↦ ap (leb_ℤ pivot) e ∙ below | inr j ↦ low x j ]),
        high,
        λ test. omega (arith, sum test),
      )
    ]

-- The pivot, which is the first value, begins the list that is returned.
partition_head : (x : ℤ) (xs : List ℤ) → (partition (x ∷ xs) x).1 ≡ x ∷ (partition xs x).1
unfolding partition
partition_head x xs = rw (leb_ℤ_refl x) refl

-- quicksort of a list that is not empty never ends: the list of the values from the pivot on, which
-- it sorts first, begins with the pivot again and is not empty either.
pub quicksort-out_of_fuel : (fuel : ℕ) (x : ℤ) (xs : List ℤ) → quicksort fuel (x ∷ xs) ≡ out_of_fuel
unfolding quicksort
quicksort-out_of_fuel zero x xs = refl
quicksort-out_of_fuel (suc fuel) x xs =
    let again =
      ap (quicksort fuel) (partition_head x xs)
      ∙ quicksort-out_of_fuel fuel x ((partition xs x).1) in
    rw (quicksort, again) refl
