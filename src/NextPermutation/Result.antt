-- ===== src/NextPermutation/Result.antt =====
-- `next` gives the next permutation, or tells that the array is the last one.
use refined_c.Base.{
  ℕ, zero, suc, ◌+◌, ◌-◌, ◌<◌, ◌≤◌, ◌≡◌, ◌≢◌, refl, sym, ap, ◌∙◌, inl, inr, Bool, true, false, List,
  length, ltb, ◌==◌, arith, Bool-cases,
}
use refined_c.Base.Run.{ok, Returns}
use refined_c.ArraySort.Arrays.{elem}
use refined_c.NextPermutation.{next, descent_loop, greater_loop, swap, reverse_loop}
use refined_c.NextPermutation.Scan.{
  IsDescending, LastGreater, descent_loop-Descent, greater_loop-LastGreater,
}
use refined_c.NextPermutation.Reverse.{
  swapped, swap-swapped, length-swapped, swapped_first, swapped_second, swapped_ne, count-swapped,
  Reversed, reverse_loop-Reversed,
}
use refined_c.NextPermutation.Lexicographic.{
  Lex, SameElements, Falls-Lex, IsNextAt, IsNextAt-Lex, IsNextAt-between,
}

-- The array after the call, and what the call returned
abbrev pub Nexts : (xs : List ℕ) → List ℕ × Bool → Type 0
Nexts xs (zs, true) =
    SameElements xs zs
    × Lex xs zs
    × ((ys : List ℕ) → SameElements xs ys → Lex xs ys → Lex ys zs → ⊥)
Nexts xs (zs, false) = (zs ≡ xs) × ((ys : List ℕ) → SameElements xs ys → Lex xs ys → ⊥)

-- Between the two loops: the element before the descent at `i` goes to `j`.
module _ (xs : List ℕ) (last i j : ℕ) (whole : length xs ≡ suc last) (pos : 0 < i)
    (in_range : i ≤ last) (falls : IsDescending xs i last) (great : LastGreater xs (i - 1) last j)
    (back : i ≤ j) (in_p : i - 1 < length xs) (in_j : j < length xs) where
  abbrev mid : List ℕ
  mid = swapped xs (i - 1) j in_p in_j

  mid_at : (p : ℕ) → i ≤ p → j ≢ p → elem mid p ≡ elem xs p
  mid_at p l ne = swapped_ne xs (i - 1) j in_p in_j p (λ e. omega (arith, e)) ne

  mid_j : elem mid j ≡ elem xs (i - 1)
  mid_j = swapped_second xs (i - 1) j in_p in_j

  -- The end still falls after the swap.
  mid-falls : (p q : ℕ) → i ≤ p → p ≤ q → q ≤ last → elem mid q ≤ elem mid p
  mid-falls p q l m u = elim (Bool-cases (j == q)) [
    | inl q_is_j ↦
        let eq : j ≡ q = ground arith in
        let at_q = ap (elem mid) (sym eq) ∙ mid_j in
        elim (Bool-cases (j == p)) [
          | inl p_is_j ↦ let eq' : q ≡ p = ground arith in rw eq' (omega arith)
          | inr p_off ↦
              let at_p = mid_at p l (λ e. ground arith) in
              let high = falls p j l (omega (arith, eq)) (omega (arith, eq)) in
              omega (arith, at_q, at_p, high, great.1)
        ]
    | inr q_off ↦
        let at_q = mid_at q (omega arith) (λ e. ground arith) in
        elim (Bool-cases (j == p)) [
          | inl p_is_j ↦
              let eq : j ≡ p = ground arith in
              let at_p = ap (elem mid) (sym eq) ∙ mid_j in
              let ne : j ≢ q = λ e. ground arith in
              let behind : j < q = ground arith in omega (arith, at_q, at_p, great.2 q behind u)
          | inr p_off ↦
              let at_p = mid_at p l (λ e. ground arith) in
              omega (arith, at_q, at_p, falls p q l m u)
        ]
  ]

  least_greater : (p : ℕ) → i ≤ p → p ≤ last → elem xs (i - 1) < elem xs p → elem xs j ≤ elem xs p
  least_greater p l u h = elim (Bool-cases (ltb j p)) [
    | inl behind ↦ let lt : j < p = ground arith in absurd (omega (arith, h, great.2 p lt u))
    | inr before ↦ let le : p ≤ j = ground arith in falls p j l le (great.0)
  ]

  result : (zs : List ℕ) → Reversed mid i last zs → IsNextAt (i - 1) xs zs
  result zs rev =
      let at_p : elem zs (i - 1) ≡ elem xs j =
        rev.outside (i - 1) (inl (omega arith)) ∙ swapped_first xs (i - 1) j in_p in_j in
      let len = rev.same_length ∙ length-swapped xs (i - 1) j in_p in_j in
      record {
        inside = in_p;
        same_length = len;
        same = λ p l.
            rev.outside p (inl (omega arith))
            ∙ swapped_ne xs (i - 1) j in_p in_j p (λ e. omega (arith, e)) (λ e. omega (arith, e));
        greater = omega (arith, at_p, great.1);
        falls = λ p q l m u. falls p q (omega arith) m (omega (arith, whole));
        rises = λ p q l m u. omega (
          arith,
          rev.mirror p (omega arith) (omega (arith, len, whole)),
          rev.mirror q (omega arith) (omega (arith, len, whole)),
          mid-falls (i + last - q) (i + last - p) (omega (arith, len, whole)) (omega arith)
              (omega arith),
        );
        least =
            λ p l u h. omega (arith, at_p, least_greater p (omega arith) (omega (arith, whole)) h);
      }

  same_elements : (zs : List ℕ) → Reversed mid i last zs → SameElements xs zs
  same_elements zs rev v = sym (rev.counts v ∙ count-swapped xs (i - 1) j in_p in_j v)

not_before :
    (xs : List ℕ) (last i j : ℕ)
    → i ≤ last
    → elem xs (i - 1) < elem xs i
    → LastGreater xs (i - 1) last j
    → i ≤ j
not_before xs last i j le up great = elim (Bool-cases (ltb j i)) [
  | inl before ↦ let lt : j < i = ground arith in absurd (omega (arith, up, great.2 i lt le))
  | inr behind ↦ ground arith
]

-- The runs, from those of the loops
pred-suc : (last : ℕ) → suc last - 1 ≡ last
pred-suc last = omega arith

next_none :
    (xs : List ℕ) (last i : ℕ)
    → descent_loop xs last ≡ ok i
    → (i == 0) ≡ true
    → next xs (suc last) ≡ ok (xs, false)
unfolding next
next_none xs last i run first = rw (pred-suc last) (rw run (rw first refl))

next_found :
    (xs : List ℕ) (last i j : ℕ) (mid zs : List ℕ)
    → descent_loop xs last ≡ ok i
    → (i == 0) ≡ false
    → greater_loop xs (i - 1) last ≡ ok j
    → swap xs (i - 1) j ≡ ok mid
    → reverse_loop (suc last + 1) mid i last ≡ ok zs
    → next xs (suc last) ≡ ok (zs, true)
unfolding next
next_found xs last i j mid zs run later run' swap_run run'' =
    rw (pred-suc last) (rw run (rw later (rw run' (rw swap_run (rw run'' refl)))))

-- `next` of an array and its size ends. If it returns true, the array has become one of the same elements
-- that is greater in the lexicographic order, with none of the same elements in between; if it returns
-- false, the array is unchanged and no array of the same elements is greater.
pub next-Nexts : (xs : List ℕ) (size : ℕ) → size ≡ length xs → Returns (next xs size) (Nexts xs)
unfolding next
next-Nexts xs zero e =
    ((xs, false), refl, (refl, λ ys. Falls-Lex xs ys (λ p q l u. absurd (omega (arith, e)))))
next-Nexts xs (suc last) e =
    let inside : last < length xs = omega (arith, e) in
    let (i, run, (le, falls, start)) = descent_loop-Descent xs last inside in
    elim (Bool-cases (i == 0)) [
      | inl first ↦
          let eq : i ≡ 0 = ground arith in
          (
            (xs, false),
            next_none xs last i run first,
            (
              refl,
              λ ys. Falls-Lex xs ys (λ p q l u. falls p q (omega (arith, eq)) l (omega (arith, e))),
            ),
          )
      | inr later ↦
          let pos : 0 < i = ground arith in
          let up : elem xs (i - 1) < elem xs i = elim start [
            | inl zero_i ↦ absurd (omega (arith, zero_i))
            | inr rises ↦ rises
          ] in
          let in_p : i - 1 < length xs = omega (arith, le, inside) in
          let (j, run', great) = greater_loop-LastGreater xs (i - 1) last i inside in_p le up in
          let in_j : j < length xs = omega (arith, great.0, inside) in
          let back : i ≤ j = not_before xs last i j le up great in
          let mid = swapped xs (i - 1) j in_p in_j in
          let in_mid : last < length mid =
            omega (arith, inside, length-swapped xs (i - 1) j in_p in_j) in
          let (zs, run'', rev) =
            reverse_loop-Reversed mid i last in_mid (suc last + 1) (omega arith)
              (omega (arith, le)) in
          let known = result xs last i j (sym e) pos le falls great back in_p in_j zs rev in
          let same = same_elements xs last i j (sym e) pos le falls great back in_p in_j zs rev in
          (
            (zs, true),
            next_found xs last i j mid zs run later run' (swap-swapped xs (i - 1) j in_p in_j)
                run'',
            (
              same,
              IsNextAt-Lex (i - 1) xs zs known,
              λ ys. IsNextAt-between (i - 1) xs zs ys known same,
            ),
          )
    ]
