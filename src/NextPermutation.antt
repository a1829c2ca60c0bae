-- ===== src/NextPermutation.antt =====
-- `next` of examples/VerifyThis2021/challenge1.c, which makes an array the next permutation of its
-- elements. An array is the list of its elements; an `int` element is the number 2 ^ 31 above it.
pub mod Scan
pub mod Reverse
pub mod Lexicographic
pub mod Result
mod Examples
use refined_c.Base.{
  ℕ, zero, suc, ◌+◌, ◌-◌, Bool, true, false, List, get_elem?, ltb, leb, ◌==◌, if◌then◌else◌,
}
use refined_c.Base.Run.{Run, ok, fault, out_of_fuel, need, ◌>>=◌}
use refined_c.ArraySort.{store}

-- `while(i > 0 && A[i - 1] >= A[i]) i = i - 1;`
unfoldable pub descent_loop : (arr : List ℕ) (i : ℕ) → Run ℕ
descent_loop arr zero = ok 0
descent_loop arr (suc i) =
    let rest = descent_loop arr i in
    need (get_elem? arr i) >>= λ x.
    need (get_elem? arr (suc i)) >>= λ y. if leb y x then rest else ok (suc i)

-- `while(A[j] <= A[i - 1]) j = j - 1;`; below index 0 the access is outside.
unfoldable pub greater_loop : (arr : List ℕ) (pivot j : ℕ) → Run ℕ
greater_loop arr pivot zero = need (get_elem? arr 0) >>= λ x.
    need (get_elem? arr pivot) >>= λ y. if leb x y then fault else ok 0
greater_loop arr pivot (suc j) =
    let rest = greater_loop arr pivot j in
    need (get_elem? arr (suc j)) >>= λ x.
    need (get_elem? arr pivot) >>= λ y. if leb x y then rest else ok (suc j)

-- `temp = A[i]; A[i] = A[j]; A[j] = temp;`
unfoldable pub swap : (arr : List ℕ) (i j : ℕ) → Run (List ℕ)
swap arr i j = need (get_elem? arr i) >>= λ temp.
    need (get_elem? arr j) >>= λ x. store arr i x >>= λ arr'. store arr' j temp

-- `while(i < j)`
unfoldable pub reverse_loop : (fuel : ℕ) (arr : List ℕ) (i j : ℕ) → Run (List ℕ)
unfolding swap
reverse_loop zero arr i j = out_of_fuel
reverse_loop (suc fuel) arr i j =
    let round = swap arr i j >>= λ arr'. reverse_loop fuel arr' (i + 1) (j - 1) in
    if ltb i j then round else ok arr

-- For an empty array `i` begins with -1, which ends as 0 does.
unfoldable pub next : (arr : List ℕ) (size : ℕ) → Run (List ℕ × Bool)
unfolding descent_loop greater_loop swap reverse_loop
next arr size = descent_loop arr (size - 1) >>= λ i.
    let permute = greater_loop arr (i - 1) (size - 1) >>= λ j. swap arr (i - 1) j >>= λ swapped.
    reverse_loop (size + 1) swapped i (size - 1) >>= λ reversed. ok (reversed, true) in
    if i == 0 then ok (arr, false) else permute
