-- ===== src/ArraySort/Scan.antt =====
-- The two inner loops of partition.
use refined_c.Base.{
  ℕ, zero, suc, ◌+◌, ◌<◌, ◌≤◌, ◌≡◌, refl, ◌⊎◌, inl, inr, true, List, length, leb, ◌==◌, arith,
  Bool-cases,
}
use refined_c.Base.Run.{Returns}
use refined_c.ArraySort.{down_loop, up_loop}
use refined_c.ArraySort.Arrays.{elem, get-elem}

module _ (arr : List ℕ) (key : ℕ) where
  pass_down :
      (i rounds j : ℕ)
      → leb key (elem arr (i + suc rounds)) ≡ true
      → ((q : ℕ) → j < q → q ≤ i + rounds → key ≤ elem arr q)
      → (p : ℕ) → j < p
      → p ≤ i + suc rounds
      → key ≤ elem arr p
  pass_down i rounds j above passed p lt le = elim (Bool-cases (p == i + suc rounds)) [
    | inl last ↦ let eq : p ≡ i + suc rounds = ground arith in rw eq (ground arith)
    | inr other ↦ let less : p ≤ i + rounds = ground arith in passed p lt less
  ]

  pass_up :
      (i i' : ℕ)
      → leb (elem arr i) key ≡ true
      → ((q : ℕ) → suc i ≤ q → q < i' → elem arr q ≤ key)
      → (p : ℕ) → i ≤ p
      → p < i'
      → elem arr p ≤ key
  pass_up i i' below passed p le lt = elim (Bool-cases (p == i)) [
    | inl here ↦ let eq : p ≡ i = ground arith in rw eq (ground arith)
    | inr other ↦ let more : suc i ≤ p = ground arith in passed p more lt
  ]

  -- The elements that the loop passes are at least the key; it stops at one that is less, or at `i`.
  abbrev pub Down : (i rounds j : ℕ) → Type 0
  Down i rounds j =
      (i ≤ j)
      × (j ≤ i + rounds)
      × ((p : ℕ) → j < p → p ≤ i + rounds → key ≤ elem arr p)
      × ((j ≡ i) ⊎ (elem arr j < key))

  pub down_loop-Down :
      (i rounds : ℕ)
      → i + rounds < length arr
      → Returns (down_loop arr i key rounds) (Down i rounds)
  unfolding down_loop
  down_loop-Down i zero h =
      (i, refl, (omega arith, omega arith, (λ p lt le. absurd (omega arith)), inl refl))
  down_loop-Down i (suc rounds) h =
      let j = i + suc rounds in
      let get = get-elem arr j h in
      elim (Bool-cases (leb key (elem arr j))) [
        | inl above ↦
            let (j', run, (from, to, passed, stop)) = down_loop-Down i rounds (omega arith) in
            (
              j',
              rw get (rw above run),
              (from, omega (arith, to), pass_down i rounds j' above passed, stop),
            )
        | inr below ↦ (
          j,
          rw get (rw below refl),
          (omega arith, omega arith, (λ p lt le. absurd (omega arith)), inr (ground arith)),
        )
      ]

  -- The elements that the loop passes are at most the key; if the first is, it passes it.
  abbrev pub Up : (i rounds i' : ℕ) → Type 0
  Up i rounds i' =
      (i ≤ i')
      × (i' ≤ i + rounds)
      × ((p : ℕ) → i ≤ p → p < i' → elem arr p ≤ key)
      × (0 < rounds → elem arr i ≤ key → i < i')

  pub up_loop-Up :
      (i rounds : ℕ) → i + rounds < length arr → Returns (up_loop arr i key rounds) (Up i rounds)
  unfolding up_loop
  up_loop-Up i zero h = (
    i,
    refl,
    (omega arith, omega arith, (λ p le lt. absurd (omega arith)), λ pos. absurd (omega arith)),
  )
  up_loop-Up i (suc rounds) h =
      let get = get-elem arr i (omega arith) in
      elim (Bool-cases (leb (elem arr i) key)) [
        | inl below ↦
            let (i', run, (from, to, passed, more)) = up_loop-Up (suc i) rounds (omega arith) in
            (
              i',
              rw get (rw below run),
              (
                omega (arith, from),
                omega (arith, to),
                pass_up i i' below passed,
                (λ pos le. omega (arith, from)),
              ),
            )
        | inr above ↦ (
          i,
          rw get (rw above refl),
          (
            omega arith,
            omega arith,
            (λ p le lt. absurd (omega arith)),
            (λ pos le. absurd (ground arith)),
          ),
        )
      ]
