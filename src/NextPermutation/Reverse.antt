-- ===== src/NextPermutation/Reverse.antt =====
-- The swap, and the loop that reverses the end of the array.
use refined_c.Base.{
  ℕ, zero, suc, ◌+◌, ◌-◌, ◌<◌, ◌≤◌, ◌≡◌, ◌≢◌, refl, sym, ap, ◌∙◌, ◌⊎◌, inl, inr, List, length,
  length-set, set, ltb, ◌==◌, arith, Bool-cases,
}
use refined_c.Base.Run.{ok, Returns}
use refined_c.ArraySort.Arrays.{
  elem, count, get-elem, store-set, elem-set_ne, elem-set_self, count-set,
}
use refined_c.NextPermutation.{swap, reverse_loop}

module _ (a : List ℕ) (i j : ℕ) (in_i : i < length a) (in_j : j < length a) where
  -- The array with two elements swapped
  abbrev pub swapped : List ℕ
  swapped = set (set a i (elem a j)) j (elem a i)

  in_j' : j < length (set a i (elem a j))
  in_j' = rw (length-set a i (elem a j)) in_j

  pub swap-swapped : swap a i j ≡ ok swapped
  unfolding swap
  swap-swapped = rw (get-elem a i in_i) (
      rw (get-elem a j in_j)
        (rw (store-set a i (elem a j) in_i) (store-set (set a i (elem a j)) j (elem a i) in_j')))

  pub length-swapped : length swapped ≡ length a
  length-swapped = length-set (set a i (elem a j)) j (elem a i) ∙ length-set a i (elem a j)

  pub swapped_second : elem swapped j ≡ elem a i
  swapped_second = elem-set_self (set a i (elem a j)) j (elem a i) in_j'

  pub swapped_first : elem swapped i ≡ elem a j
  swapped_first = elim (Bool-cases (j == i)) [
    | inl same ↦
        let eq : j ≡ i = ground arith in
        ap (elem swapped) (sym eq) ∙ (swapped_second ∙ ap (elem a) (sym eq))
    | inr other ↦
        elem-set_ne (set a i (elem a j)) j i (elem a i) (λ e. ground arith)
        ∙ elem-set_self a i (elem a j) in_i
  ]

  pub swapped_ne : (p : ℕ) → i ≢ p → j ≢ p → elem swapped p ≡ elem a p
  swapped_ne p ni nj =
      elem-set_ne (set a i (elem a j)) j p (elem a i) nj ∙ elem-set_ne a i p (elem a j) ni

  pub count-swapped : (x : ℕ) → count x swapped ≡ count x a
  count-swapped x =
      let first = count-set x a i (elem a j) in_i in
      let second = count-set x (set a i (elem a j)) j (elem a i) in_j' in
      let value : elem (set a i (elem a j)) j ≡ elem a j = elim (Bool-cases (i == j)) [
        | inl same ↦
            let eq : i ≡ j = ground arith in
            ap (elem (set a i (elem a j))) (sym eq) ∙ elem-set_self a i (elem a j) in_i
        | inr other ↦ elem-set_ne a i j (elem a j) (λ e. ground arith)
      ] in
      omega (arith, first, rw value at second)

-- The loop at `i` and `j` of the range from `first` to `last` of `es`
record Invariant (es : List ℕ) (first last i j : ℕ) (a : List ℕ) : Type 0 where
  from : first ≤ i
  mirror : i + j ≡ first + last
  near : i ≤ j + 1
  same_length : length a ≡ length es
  counts : (x : ℕ) → count x a ≡ count x es
  done : (p : ℕ) → first ≤ p → p ≤ last → (p < i) ⊎ (j < p) → elem a p ≡ elem es (first + last - p)
  todo : (p : ℕ) → i ≤ p → p ≤ j → elem a p ≡ elem es p
  outside : (p : ℕ) → (p < first) ⊎ (last < p) → elem a p ≡ elem es p

-- The range from `first` to `last` in reverse order
pub record Reversed (es : List ℕ) (first last : ℕ) (a : List ℕ) : Type 0 where
  pub same_length : length a ≡ length es
  pub counts : (x : ℕ) → count x a ≡ count x es
  pub mirror : (p : ℕ) → first ≤ p → p ≤ last → elem a p ≡ elem es (first + last - p)
  pub outside : (p : ℕ) → (p < first) ⊎ (last < p) → elem a p ≡ elem es p

module _ (es : List ℕ) (first last : ℕ) (inside : last < length es) where
  mirrored :
      (i j : ℕ) (a : List ℕ)
      → (inv : Invariant es first last i j a) → i < j
      → (in_i : i < length a) (in_j : j < length a) → (p : ℕ) → first ≤ p
      → p ≤ last
      → (p < i + 1) ⊎ (j - 1 < p)
      → elem (swapped a i j in_i in_j) p ≡ elem es (first + last - p)
  mirrored i j a inv lt in_i in_j p l u o = elim (Bool-cases (p == i)) [
    | inl at_i ↦
        let eq : p ≡ i = ground arith in
        let other : first + last - p ≡ j = omega (arith, inv.mirror, eq) in
        ap (elem (swapped a i j in_i in_j)) eq
        ∙ (swapped_first a i j in_i in_j
            ∙ (inv.todo j (omega arith) (omega arith) ∙ ap (elem es) (sym other)))
    | inr off_i ↦ elim (Bool-cases (p == j)) [
      | inl at_j ↦
          let eq : p ≡ j = ground arith in
          let other : first + last - p ≡ i = omega (arith, inv.mirror, eq) in
          ap (elem (swapped a i j in_i in_j)) eq
          ∙ (swapped_second a i j in_i in_j
              ∙ (inv.todo i (omega arith) (omega arith) ∙ ap (elem es) (sym other)))
      | inr off_j ↦
          let ne_i : i ≢ p = λ e. ground arith in
          let ne_j : j ≢ p = λ e. ground arith in
          swapped_ne a i j in_i in_j p ne_i ne_j
          ∙ inv.done p l u (elim o [ inl b ↦ inl (ground arith) | inr b ↦ inr (ground arith) ])
    ]
  ]

  round :
      (i j : ℕ) (a : List ℕ)
      → (inv : Invariant es first last i j a) → i < j
      → (in_i : i < length a) (in_j : j < length a)
      → Invariant es first last (i + 1) (j - 1) (swapped a i j in_i in_j)
  round i j a inv lt in_i in_j = record {
    from = omega (arith, inv.from);
    mirror = omega (arith, inv.mirror);
    near = omega arith;
    same_length = length-swapped a i j in_i in_j ∙ inv.same_length;
    counts = λ x. count-swapped a i j in_i in_j x ∙ inv.counts x;
    done = mirrored i j a inv lt in_i in_j;
    todo = λ p l u.
        swapped_ne a i j in_i in_j p (λ e. omega (arith, e)) (λ e. omega (arith, e))
        ∙ inv.todo p (omega arith) (omega arith);
    outside = λ p o.
        swapped_ne a i j in_i in_j p
          (λ e. elim o [
            | inl b ↦ omega (arith, e, inv.from)
            | inr b ↦ omega (arith, e, inv.from, inv.mirror)
          ])
          (λ e. elim o [
            | inl b ↦ omega (arith, e, inv.from)
            | inr b ↦ omega (arith, e, inv.from, inv.mirror)
          ])
        ∙ inv.outside p o;
  }

  met : (i j : ℕ) (a : List ℕ) → Invariant es first last i j a → j ≤ i → Reversed es first last a
  met i j a inv le = record {
    same_length = inv.same_length;
    counts = inv.counts;
    outside = inv.outside;
    mirror = λ p l u. elim (Bool-cases (ltb p i)) [
      | inl low ↦ inv.done p l u (inl (ground arith))
      | inr high ↦ elim (Bool-cases (ltb j p)) [
        | inl above ↦ inv.done p l u (inr (ground arith))
        | inr mid ↦
            let at_i : p ≡ i = ground arith in
            let at_j : p ≤ j = ground arith in
            let same : first + last - p ≡ p = omega (arith, inv.mirror, at_i, at_j) in
            inv.todo p (omega (arith, at_i)) at_j ∙ ap (elem es) (sym same)
      ]
    ];
  }

  reverse_from :
      (fuel i j : ℕ) (a : List ℕ)
      → j - i < fuel
      → Invariant es first last i j a
      → Returns (reverse_loop fuel a i j) (Reversed es first last)
  unfolding reverse_loop
  reverse_from zero i j a h inv = elim h [ ]
  reverse_from (suc fuel) i j a h inv = elim (Bool-cases (ltb i j)) [
    | inl apart ↦
        let lt : i < j = ground arith in
        let in_j : j < length a = omega (arith, inv.mirror, inv.from, inv.same_length) in
        let in_i : i < length a = omega (arith, lt, in_j) in
        let (r, run, rev) =
          reverse_from fuel (i + 1) (j - 1) (swapped a i j in_i in_j) (omega arith)
            (round i j a inv lt in_i in_j) in
        (r, rw apart (rw (swap-swapped a i j in_i in_j) run), rev)
    | inr meet ↦ (a, rw meet refl, met i j a inv (ground arith))
  ]

  pub reverse_loop-Reversed :
      (fuel : ℕ)
      → last - first < fuel
      → first ≤ last + 1
      → Returns (reverse_loop fuel es first last) (Reversed es first last)
  reverse_loop-Reversed fuel h le = reverse_from fuel first last es h record {
    from = omega arith;
    mirror = refl;
    near = le;
    same_length = refl;
    counts = λ x. refl;
    done = λ p l u o. absurd (elim o [ inl b ↦ omega arith | inr b ↦ omega arith ]);
    todo = λ p l u. refl;
    outside = λ p o. refl;
  }
