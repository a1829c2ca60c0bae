-- ===== src/BinarySearch.antt =====
-- The binary search of examples/binary_search.c, over values of an abstract type with the caller's
-- comparison function.
pub mod Bound
mod Examples
use refined_c.Base.{
  ℕ, zero, suc, ◌+◌, ◌-◌, ◌/◌, Bool, true, false, List, ltb, leb, if◌then◌else◌, get_elem?,
}
use refined_c.Base.Run.{Run, ok, out_of_fuel, ◌>>=◌, need}

module _ {ℓ} {A : Type ℓ} (comp : A → A → Bool) (xs : List A) (x : A) where
  -- The loop with its bounds.
  halving_loop : (fuel l r : ℕ) → Run ℕ
  halving_loop zero l r = out_of_fuel
  halving_loop (suc fuel) l r =
      let k = l + (r - l) / 2 in
      let round = need (get_elem? xs k) >>= λ y.
      let above = halving_loop fuel (k + 1) r in
      let below = halving_loop fuel l k in if comp y x then above else below in
      if ltb l r then round else ok l

  -- Each round makes the range shorter, so `n` rounds and the last test are enough.
  unfoldable pub binary_search : (n : ℕ) → Run ℕ
  unfolding halving_loop
  binary_search n = halving_loop (n + 1) 0 n

abbrev pub compare_int : ℕ → ℕ → Bool
compare_int x y = leb x y
