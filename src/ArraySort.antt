-- ===== src/ArraySort.antt =====
-- The quicksort on arrays of examples/quick_sort.c. An array is the list of its elements; an access
-- outside is a fault. An `int` element is the number 2 ^ 31 above it, which keeps the order. The
-- bounds of a range are numbers; the upper bound of `qsort`, which can be -1, is given as `hi + 1`.
pub mod Arrays
pub mod Scan
pub mod Partition
pub mod Sort
mod Examples
use refined_c.Base.{
  ℕ, zero, suc, ◌+◌, ◌-◌, Bool, true, false, List, [], ◌∷◌, get_elem?, set, length, ltb, leb,
  if◌then◌else◌,
}
use refined_c.Base.Run.{Run, ok, fault, out_of_fuel, need, ◌>>=◌}

-- `a[i] = v`
abbrev pub store : List ℕ → ℕ → ℕ → Run (List ℕ)
store a i v = if ltb i (length a) then ok (set a i v) else fault

-- `while (i < j && arr[j] >= key) --j;`, with `rounds` for `j - i`. The result is `j`.
unfoldable pub down_loop : (arr : List ℕ) (i key : ℕ) (rounds : ℕ) → Run ℕ
down_loop arr i key zero = ok i
down_loop arr i key (suc rounds) =
    let next = down_loop arr i key rounds in
    need (get_elem? arr (i + suc rounds)) >>= λ x. if leb key x then next else ok (i + suc rounds)

-- `while (i < j && arr[i] <= key) ++i;`, with `rounds` for `j - i`. The result is `i`.
unfoldable pub up_loop : (arr : List ℕ) (i key : ℕ) (rounds : ℕ) → Run ℕ
up_loop arr i key zero = ok i
up_loop arr i key (suc rounds) =
    let next = up_loop arr (suc i) key rounds in
    need (get_elem? arr i) >>= λ x. if leb x key then next else ok i

-- The outer loop; the result is the array and `i`.
unfoldable pub partition_loop : (fuel : ℕ) (arr : List ℕ) (i j key : ℕ) → Run (List ℕ × ℕ)
unfolding down_loop up_loop
partition_loop zero arr i j key = out_of_fuel
partition_loop (suc fuel) arr i j key =
    let round = down_loop arr i key (j - i) >>= λ j'. need (get_elem? arr j') >>= λ x.
    store arr i x >>= λ arr'. up_loop arr' i key (j' - i) >>= λ i'.
    need (get_elem? arr' i') >>= λ y.
    store arr' j' y >>= λ arr''. partition_loop fuel arr'' i' j' key in
    if ltb i j then round else ok (arr, i)

unfoldable pub partition : (arr : List ℕ) (lo hi : ℕ) → Run (List ℕ × ℕ)
unfolding partition_loop
partition arr lo hi = need (get_elem? arr lo) >>= λ key.
    partition_loop (hi - lo + 1) arr lo hi key >>= λ (arr', i).
    store arr' i key >>= λ arr''. ok (arr'', i)

-- `stop` is `hi + 1`.
unfoldable pub qsort : (fuel : ℕ) (arr : List ℕ) (lo stop : ℕ) → Run (List ℕ)
unfolding partition
qsort zero arr lo stop = out_of_fuel
qsort (suc fuel) arr lo stop =
    let halves = partition arr lo (stop - 1) >>= λ (arr', k).
    qsort fuel arr' lo k >>= λ arr''. qsort fuel arr'' (k + 1) stop in
    if ltb (lo + 1) stop then halves else ok arr
