-- ===== src/Scheduler/Priority/Search.antt =====
-- `highest_pending_priority` finds the lowest marked level.
use refined_c.Base.{
  ℕ, zero, suc, ◌+◌, ◌*◌, ◌/◌, ◌%◌, ◌<◌, ◌≡◌, refl, ap, ◌∙◌, true, false, ◌==◌, if◌then◌else◌,
  get_or, arith, Bool-cases, ltb, inl, inr,
}
use refined_c.Base.Ffs.{ffs, FirstDigit, ffs-FirstDigit}
use refined_c.Base.Int.{ℤ, pos, negsuc, ◌+ℤ◌, sub_ℕ}
use refined_c.Scheduler.Priority.{PrioBitmap, search_loop, highest_pending_priority}
use refined_c.Scheduler.Priority.Levels.{level}

-- The level that the search returned is the lowest marked one, or no level is marked.
abbrev pub Highest : PrioBitmap → ℤ → Type 0
Highest bm (pos p) = (p < 256) × (level bm p ≡ true) × ((q : ℕ) → q < p → level bm q ≡ false)
Highest bm (negsuc n) = (n ≡ 0) × ((q : ℕ) → q < 256 → level bm q ≡ false)

found-Highest :
    (bm : PrioBitmap) (i j : ℕ) (offset : ℤ)
    → i < 4
    → offset ≡ sub_ℕ (i * 64) 1
    → ((q : ℕ) → q < i * 64 → level bm q ≡ false)
    → FirstDigit 64 (get_or bm.bits i 0) (suc j)
    → Highest bm (pos (suc j) +ℤ offset)
unfolding ◌+ℤ◌
found-Highest bm i j offset lt o below first =
    let value : pos (suc j) +ℤ offset ≡ pos (i * 64 + j) = ground arith in
    let word : (i * 64 + j) / 64 ≡ i = omega (arith, first.0) in
    let digit : (i * 64 + j) % 64 ≡ j = omega (arith, first.0) in
    rw value (
      omega (arith, first.0),
      rw (word, digit) first.1,
      λ q lq. elim (Bool-cases (ltb q (i * 64))) [
        | inl before ↦ below q (ground arith)
        | inr here ↦
            let same : q / 64 ≡ i = ground arith in rw same (first.2 (q % 64) (ground arith))
      ],
    )

below_next :
    (bm : PrioBitmap) (i : ℕ)
    → ((q : ℕ) → q < i * 64 → level bm q ≡ false)
    → FirstDigit 64 (get_or bm.bits i 0) 0
    → (q : ℕ) → q < (i + 1) * 64
    → level bm q ≡ false
below_next bm i below none_here q lq = elim (Bool-cases (ltb q (i * 64))) [
  | inl before ↦ below q (ground arith)
  | inr here ↦ let same : q / 64 ≡ i = ground arith in rw same (none_here (q % 64) (omega arith))
]

-- One word of the search.
word-Highest :
    (bm : PrioBitmap) (i r : ℕ) (offset rest : ℤ)
    → i < 4
    → offset ≡ sub_ℕ (i * 64) 1
    → ((q : ℕ) → q < i * 64 → level bm q ≡ false)
    → FirstDigit 64 (get_or bm.bits i 0) r
    → (((q : ℕ) → q < (i + 1) * 64 → level bm q ≡ false) → Highest bm rest)
    → Highest bm (if r == 0 then rest else pos r +ℤ offset)
word-Highest bm i zero offset rest lt o below first next = next (below_next bm i below first)
word-Highest bm i (suc j) offset rest lt o below first next =
    let e : (suc j == 0) ≡ false = ground arith in
    rw e (found-Highest bm i j offset lt o below first)

next_offset : (i : ℕ) → sub_ℕ (i * 64) 1 +ℤ pos 64 ≡ sub_ℕ ((i + 1) * 64) 1
unfolding ◌+ℤ◌
next_offset i = ground arith

search_loop-Highest :
    (bm : PrioBitmap) (rounds i : ℕ) (offset : ℤ)
    → rounds + i ≡ 4
    → offset ≡ sub_ℕ (i * 64) 1
    → ((q : ℕ) → q < i * 64 → level bm q ≡ false)
    → Highest bm (search_loop rounds i offset bm)
unfolding search_loop
search_loop-Highest bm zero i offset e o below = (refl, λ q lt. below q (omega arith))
search_loop-Highest bm (suc rounds) i offset e o below =
    word-Highest bm i (ffs 64 (get_or bm.bits i 0)) offset
      (search_loop rounds (i + 1) (offset +ℤ pos 64) bm) (omega arith) o below
      (ffs-FirstDigit 64 (get_or bm.bits i 0))
      (search_loop-Highest bm rounds (i + 1) (offset +ℤ pos 64) (omega arith)
        (ap (λ z. z +ℤ pos 64) o ∙ next_offset i))

-- `highest_pending_priority` returns the lowest marked level, that is the highest pending priority,
-- and -1 exactly if none of the 256 levels is marked.
pub highest_pending_priority-Highest : (bm : PrioBitmap) → Highest bm (highest_pending_priority bm)
unfolding highest_pending_priority
highest_pending_priority-Highest bm =
    search_loop-Highest bm 4 0 (negsuc 0) (omega arith) refl (λ q lt. absurd (omega arith))
