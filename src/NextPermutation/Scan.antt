-- ===== src/NextPermutation/Scan.antt =====
-- The two loops of `next` that look for the elements to swap.
use refined_c.Base.{
  ℕ, zero, suc, ◌-◌, ◌<◌, ◌≤◌, ◌≡◌, refl, ◌⊎◌, inl, inr, false, List, length, leb, ◌==◌, arith,
  Bool-cases,
}
use refined_c.Base.Run.{Returns}
use refined_c.ArraySort.Arrays.{elem, get-elem}
use refined_c.NextPermutation.{descent_loop, greater_loop}

module _ (arr : List ℕ) where
  -- From `i` to `last` the elements do not grow.
  abbrev pub IsDescending : (i last : ℕ) → Type 0
  IsDescending i last = (p q : ℕ) → i ≤ p → p ≤ q → q ≤ last → elem arr q ≤ elem arr p

  longer :
      (i last : ℕ) → elem arr (suc i) ≤ elem arr i → IsDescending (suc i) last → IsDescending i last
  longer i last h d p q l m u = elim (Bool-cases (p == i)) [
    | inl first ↦
        let eq : p ≡ i = ground arith in
        elim (Bool-cases (q == i)) [
          | inl same ↦ let eq' : q ≡ p = ground arith in rw eq' (omega arith)
          | inr other ↦
              let le : suc i ≤ q = ground arith in
              let tail = d (suc i) q (omega arith) le u in rw eq (omega (arith, tail, h))
        ]
    | inr other ↦ d p q (ground arith) m u
  ]

  -- The descent that ends at `last` begins at `i`.
  abbrev pub Descent : (last i : ℕ) → Type 0
  Descent last i = (i ≤ last) × IsDescending i last × ((i ≡ 0) ⊎ (elem arr (i - 1) < elem arr i))

  scan_from :
      (last i : ℕ)
      → last < length arr
      → i ≤ last
      → IsDescending i last
      → Returns (descent_loop arr i) (Descent last)
  unfolding descent_loop
  scan_from last zero inside le d = (0, refl, (omega arith, d, inl refl))
  scan_from last (suc i) inside le d =
      let get = get-elem arr i (omega arith) in
      let get' = get-elem arr (suc i) (omega arith) in
      elim (Bool-cases (leb (elem arr (suc i)) (elem arr i))) [
        | inl falls ↦
            let (i', run, end) =
              scan_from last i inside (omega arith) (longer i last (ground arith) d) in
            (i', rw get (rw get' (rw falls run)), end)
        | inr rises ↦
            let up : elem arr i < elem arr (suc i) = ground arith in
            let same : suc i - 1 ≡ i = omega arith in
            (suc i, rw get (rw get' (rw rises refl)), (le, d, inr (rw same up)))
      ]

  pub descent_loop-Descent :
      (last : ℕ) → last < length arr → Returns (descent_loop arr last) (Descent last)
  descent_loop-Descent last inside =
      scan_from last last inside (omega arith)
        (λ p q l m u. let same : q ≡ p = omega arith in rw same (omega arith))

  -- The last element that is greater than the one at `pivot`
  abbrev pub LastGreater : (pivot last j : ℕ) → Type 0
  LastGreater pivot last j =
      (j ≤ last)
      × (elem arr pivot < elem arr j)
      × ((p : ℕ) → j < p → p ≤ last → elem arr p ≤ elem arr pivot)

  not_here :
      (pivot first j : ℕ)
      → elem arr (suc j) ≤ elem arr pivot
      → elem arr pivot < elem arr first
      → first ≤ suc j
      → first ≤ j
  not_here pivot first j low up le = elim (Bool-cases (first == suc j)) [
    | inl same ↦
        let eq : first ≡ suc j = ground arith in
        let up' : elem arr pivot < elem arr (suc j) = rw eq at up in
        absurd (omega (arith, up', low))
    | inr other ↦ ground arith
  ]

  one_more :
      (pivot last j : ℕ)
      → elem arr (suc j) ≤ elem arr pivot
      → ((p : ℕ) → suc j < p → p ≤ last → elem arr p ≤ elem arr pivot)
      → (p : ℕ) → j < p
      → p ≤ last
      → elem arr p ≤ elem arr pivot
  one_more pivot last j low above p l u = elim (Bool-cases (p == suc j)) [
    | inl here ↦ let eq : p ≡ suc j = ground arith in rw eq low
    | inr there ↦ above p (ground arith) u
  ]

  greater_from :
      (pivot last first j : ℕ)
      → last < length arr
      → pivot < length arr
      → j ≤ last
      → first ≤ j
      → elem arr pivot < elem arr first
      → ((p : ℕ) → j < p → p ≤ last → elem arr p ≤ elem arr pivot)
      → Returns (greater_loop arr pivot j) (LastGreater pivot last)
  unfolding greater_loop
  greater_from pivot last first zero inside in_p le fle up above =
      let get = get-elem arr 0 (omega arith) in
      let get' = get-elem arr pivot in_p in
      let eq : first ≡ 0 = omega arith in
      let up' : elem arr pivot < elem arr 0 = rw eq at up in
      let stop : leb (elem arr 0) (elem arr pivot) ≡ false = ground arith in
      (0, rw get (rw get' (rw stop refl)), (le, up', above))
  greater_from pivot last first (suc j) inside in_p le fle up above =
      let get = get-elem arr (suc j) (omega arith) in
      let get' = get-elem arr pivot in_p in
      elim (Bool-cases (leb (elem arr (suc j)) (elem arr pivot))) [
        | inl low ↦
            let here : elem arr (suc j) ≤ elem arr pivot = ground arith in
            let before = not_here pivot first j here up fle in
            let (j', run, end) =
              greater_from pivot last first j inside in_p (omega arith) before up
                (one_more pivot last j here above) in
            (j', rw get (rw get' (rw low run)), end)
        | inr high ↦ (suc j, rw get (rw get' (rw high refl)), (le, ground arith, above))
      ]

  pub greater_loop-LastGreater :
      (pivot last first : ℕ)
      → last < length arr
      → pivot < length arr
      → first ≤ last
      → elem arr pivot < elem arr first
      → Returns (greater_loop arr pivot last) (LastGreater pivot last)
  greater_loop-LastGreater pivot last first inside in_p le up =
      greater_from pivot last first last inside in_p (omega arith) le up
        (λ p l u. absurd (omega arith))
