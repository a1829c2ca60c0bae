-- ===== src/Scheduler/Priority.antt =====
-- The bitmap of non-empty priority levels: examples/scheduler/include/fdsched/priority.h.
pub mod Levels
pub mod Search
use Prim.Native.Nat.{bit_and, bit_or}
use refined_c.Base.{
  ℕ, zero, suc, ◌+◌, ◌-◌, ◌*◌, ◌/◌, ◌%◌, ◌^◌, Bool, true, false, List, [], ◌∷◌, ◌==◌, if◌then◌else◌,
  set, replicate, get_or,
}
use refined_c.Base.Ffs.{ffs}
use refined_c.Base.Bits.{bit_not}
use refined_c.Base.Int.{ℤ, pos, negsuc, ◌+ℤ◌, is_negative}

-- `uint64_t bits[4]`
pub record PrioBitmap : Type 0 where
  pub bits : List ℕ

-- The loop over the four words.
init_loop : (rounds lvl : ℕ) → List ℕ → List ℕ
init_loop zero lvl bits = bits
init_loop (suc rounds) lvl bits = init_loop rounds (lvl + 1) (set bits lvl 0)

unfoldable pub prio_level_init : PrioBitmap → PrioBitmap
unfolding init_loop
prio_level_init bm = record { bits = init_loop 4 0 bm.bits }

-- The loop of `highest_pending_priority`.
unfoldable pub search_loop : (rounds i : ℕ) → ℤ → PrioBitmap → ℤ
search_loop zero i offset bm = negsuc 0
search_loop (suc rounds) i offset bm =
    let first_bit = ffs 64 (get_or bm.bits i 0) in
    let rest = search_loop rounds (i + 1) (offset +ℤ pos 64) bm in
    if first_bit == 0 then rest else pos first_bit +ℤ offset

unfoldable pub highest_pending_priority : PrioBitmap → ℤ
unfolding search_loop
highest_pending_priority bm = search_loop 4 0 (negsuc 0) bm

abbrev pub priority_search_none_found : ℤ → Bool
priority_search_none_found result = is_negative result

-- `prio` is a `uint8_t`, so the word is one of the four.
unfoldable pub priority_level_set : PrioBitmap → ℕ → PrioBitmap
priority_level_set bm prio = record {
  bits = set bm.bits (prio / 64) (bit_or (get_or bm.bits (prio / 64) 0) (2 ^ (prio % 64)));
}

unfoldable pub priority_level_clear : PrioBitmap → ℕ → PrioBitmap
priority_level_clear bm prio = record {
  bits =
      set bm.bits (prio / 64)
        (bit_and (get_or bm.bits (prio / 64) 0) (bit_not 64 (2 ^ (prio % 64))));
}
