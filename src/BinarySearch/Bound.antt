-- ===== src/BinarySearch/Bound.antt =====
-- The index that `binary_search` returns splits a sorted array.
use refined_c.Base.{
  ℕ, zero, suc, ◌+◌, ◌-◌, ◌/◌, ◌<◌, ◌≤◌, ◌≡◌, sym, ◌∙◌, Bool, true, false, some, List, ltb, arith,
  Bool-cases, inl, inr, length, get_elem?, get_elem?-lt_length, lt_length_of_get_elem?,
}
use refined_c.Base.Run.{Returns}
use refined_c.BinarySearch.{halving_loop, binary_search}

module _ {ℓ} {A : Type ℓ} (comp : A → A → Bool) (xs : List A) (x : A) where
  -- A value comes before every later one.
  abbrev pub Sorted : Type ℓ
  Sorted =
      (i j : ℕ) (y z : A)
      → i < j
      → get_elem? xs i ≡ some y
      → get_elem? xs j ≡ some z
      → comp y z ≡ true

  abbrev pub Transitive : Type ℓ
  Transitive = (a b c : A) → comp a b ≡ true → comp b c ≡ true → comp a c ≡ true

  abbrev pub AllBelow : ℕ → Type ℓ
  AllBelow n = (i : ℕ) (y : A) → i < n → get_elem? xs i ≡ some y → comp y x ≡ true

  abbrev pub NoneFrom : ℕ → Type ℓ
  NoneFrom n = (i : ℕ) (y : A) → n ≤ i → get_elem? xs i ≡ some y → comp y x ≡ false

  -- What holds up to one value that comes before `x`, or from one that does not.
  module _ (sorted : Sorted) (trans : Transitive) (k : ℕ) (y : A)
      (at : get_elem? xs k ≡ some y) where
    below_too : comp y x ≡ true → AllBelow (k + 1)
    below_too e i z lt at' = elim (Bool-cases (ltb i k)) [
      | inl before ↦ trans z y x (sorted i k z y (ground arith) at' at) e
      | inr here ↦
          let same : i ≡ k = ground arith in
          let eq : some y ≡ some z = sym at ∙ (rw (← same) at') in
          let yz : y ≡ z = cc in rw (← yz) e
    ]

    above_too : comp y x ≡ false → NoneFrom k
    above_too e i z le at' = elim (Bool-cases (comp z x)) [
      | inr no_more ↦ no_more
      | inl before ↦ elim (Bool-cases (ltb k i)) [
        | inl later ↦
            let yx = trans y z x (sorted k i y z (ground arith) at at') before in
            absurd (true_false (sym yx ∙ e))
        | inr here ↦
            let same : k ≡ i = ground arith in
            let eq : some y ≡ some z = sym at ∙ (rw same at') in let yz : y ≡ z = cc in rw (← yz) e
      ]
    ]
      where
        true_false : true ≡ false → ⊥
        true_false c = cc

  abbrev pub Splits : ℕ → Type ℓ
  Splits n = (n ≤ length xs) × AllBelow n × NoneFrom n

  halving_loop-Splits :
      Sorted
      → Transitive
      → (fuel l r : ℕ) → l ≤ r
      → r ≤ length xs
      → r - l < fuel
      → AllBelow l
      → NoneFrom r
      → Returns (halving_loop comp xs x fuel l r) Splits
  unfolding halving_loop
  halving_loop-Splits sorted trans zero l r lr fits few low high = absurd (omega arith)
  halving_loop-Splits sorted trans (suc fuel) l r lr fits few low high =
      elim (Bool-cases (ltb l r)) [
        | inr done ↦
            let same : l ≡ r = ground arith in (l, rw done, (omega arith, low, rw same high))
        | inl more ↦
            let lt : l < r = ground arith in
            let k = l + (r - l) / 2 in
            let (y, at) = get_elem?-lt_length xs k (omega arith) in
            elim (Bool-cases (comp y x)) [
              | inl before ↦
                  rw (more, at, before)
                    (halving_loop-Splits sorted trans fuel (k + 1) r (omega arith) fits
                      (omega arith) (below_too sorted trans k y at before) high)
              | inr behind ↦
                  rw (more, at, behind)
                    (halving_loop-Splits sorted trans fuel l k (omega arith) (omega arith)
                      (omega arith) low (above_too sorted trans k y at behind))
            ]
      ]

  -- `binary_search` on the whole of an array that is sorted by a transitive comparison ends. The
  -- comparison holds for the values in front of the returned index, and for none from there on.
  pub binary_search-Splits :
      Sorted → Transitive → Returns (binary_search comp xs x (length xs)) Splits
  unfolding binary_search
  binary_search-Splits sorted trans =
      halving_loop-Splits sorted trans (length xs + 1) 0 (length xs) (omega arith) (omega arith)
        (omega arith) (λ i y lt at. absurd (omega arith)) (λ i y le at. absurd (out i y le at))
    where
      out : (i : ℕ) (y : A) → length xs ≤ i → get_elem? xs i ≡ some y → ⊥
      out i y le at = omega (arith, lt_length_of_get_elem? xs i at)
