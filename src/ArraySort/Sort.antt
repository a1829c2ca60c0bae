-- ===== src/ArraySort/Sort.antt =====
-- qsort sorts the range, permutes its elements and leaves the others alone.
use refined_c.Base.{
  ℕ, zero, suc, ◌+◌, ◌-◌, ◌<◌, ◌≤◌, ◌≡◌, refl, ◌∙◌, ◌⊎◌, inl, inr, Bool, true, List, length, ltb,
  leb, ◌==◌, leb→le, arith, Bool-cases,
}
use refined_c.Base.Run.{Returns}
use refined_c.ArraySort.{qsort}
use refined_c.ArraySort.Arrays.{elem, count}
use refined_c.ArraySort.Partition.{Partitioned, partition-Partitioned}

-- Every element from `lo` on and before `stop` passes a test.
abbrev pub AllBefore : (test : ℕ → Bool) (a : List ℕ) (lo stop : ℕ) → Type 0
AllBefore test a lo stop = (p : ℕ) → lo ≤ p → p < stop → test (elem a p) ≡ true

le→leb : (a b : ℕ) → a ≤ b → leb a b ≡ true
le→leb a b h = ground arith

-- The array `es` with the elements from `lo` on and before `stop` in order: no element is lost, those of
-- the range stay in it, and the others stay in their places.
pub record SortedRange (es : List ℕ) (lo stop : ℕ) (xs : List ℕ) : Type 0 where
  pub same_length : length xs ≡ length es
  pub sorted : (p q : ℕ) → lo ≤ p → p ≤ q → q < stop → elem xs p ≤ elem xs q
  pub outside : (p : ℕ) → (p < lo) ⊎ (stop ≤ p) → elem xs p ≡ elem es p
  pub counts : (x : ℕ) → count x xs ≡ count x es
  pub keeps : (test : ℕ → Bool) → AllBefore test es lo stop → AllBefore test xs lo stop

short-SortedRange : (es : List ℕ) (lo stop : ℕ) → stop ≤ lo + 1 → SortedRange es lo stop es
short-SortedRange es lo stop h = record {
  same_length = refl;
  sorted = λ p q l m u. let same : q ≡ p = omega arith in rw same (omega arith);
  outside = λ p o. refl;
  counts = λ x. refl;
  keeps = λ test all. all;
}

-- The two halves around the pivot
module _ (es : List ℕ) (lo stop k : ℕ) (ys mid xs : List ℕ)
    (part : Partitioned es lo (stop - 1) ys k) (left : SortedRange ys lo k mid)
    (right : SortedRange mid (k + 1) stop xs) (wide : lo + 1 < stop) where
  -- The elements up to the pivot after both calls
  low_part : (p : ℕ) → p < k + 1 → elem xs p ≡ elem mid p
  low_part p h = right.outside p (inl h)

  pivot_kept : elem xs k ≡ elem ys k
  pivot_kept = low_part k (omega arith) ∙ left.outside k (inr (omega arith))

  below_pivot : (p : ℕ) → lo ≤ p → p ≤ k → elem xs p ≤ elem xs k
  below_pivot p l h = elim (Bool-cases (p == k)) [
    | inl here ↦ let eq : p ≡ k = ground arith in rw eq (omega arith)
    | inr there ↦
        let less : p < k = ground arith in
        let kept =
          left.keeps (λ x. leb x (elem ys k))
            (λ q l' h'. le→leb (elem ys q) (elem ys k) (part.small q l' (omega arith))) p l less in
        let bound = leb→le (elem mid p) (elem ys k) kept in
        omega (arith, bound, low_part p (omega arith), pivot_kept)
  ]

  above_pivot : (q : ℕ) → k < q → q < stop → elem xs k ≤ elem xs q
  above_pivot q l h =
      let kept =
        right.keeps (λ x. leb (elem ys k) x)
          (λ p l' h'.
            rw (left.outside p (inr (omega arith)))
              (le→leb (elem ys k) (elem ys p) (part.large p (omega arith) (omega arith))))
          q (omega arith) h in
      let bound = leb→le (elem ys k) (elem xs q) kept in omega (arith, bound, pivot_kept)

  sorted_around : (p q : ℕ) → lo ≤ p → p ≤ q → q < stop → elem xs p ≤ elem xs q
  sorted_around p q l m u = elim (Bool-cases (ltb q k)) [
    | inl low ↦
        let less : q < k = ground arith in
        omega (arith, left.sorted p q l m less, low_part p (omega arith), low_part q (omega arith))
    | inr high ↦
        let more : k ≤ q = ground arith in
        elim (Bool-cases (ltb k p)) [
          | inl beyond ↦ let lt : k < p = ground arith in right.sorted p q (omega arith) m u
          | inr across ↦
              let le : p ≤ k = ground arith in
              let first = below_pivot p l le in
              elim (Bool-cases (q == k)) [
                | inl at ↦ let eq : q ≡ k = ground arith in rw eq first
                | inr off ↦
                    let lt : k < q = ground arith in omega (arith, first, above_pivot q lt u)
              ]
        ]
  ]

  keeps_around : (test : ℕ → Bool) → AllBefore test es lo stop → AllBefore test xs lo stop
  keeps_around test all p l u =
      let in_ys = part.keeps test (λ q l' h'. all q l' (omega arith)) in
      let in_mid : AllBefore test mid lo stop = λ q l' h'. elim (Bool-cases (ltb q k)) [
        | inl low ↦
            left.keeps test (λ r a b. in_ys r a (omega (arith, part.to))) q l' (ground arith)
        | inr high ↦ rw (left.outside q (inr (ground arith))) (in_ys q l' (omega arith))
      ] in
      elim (Bool-cases (ltb k p)) [
        | inl beyond ↦
            right.keeps test (λ r a b. in_mid r (omega (arith, part.from)) b) p (ground arith) u
        | inr across ↦ rw (low_part p (ground arith)) (in_mid p l u)
      ]

  around-SortedRange : SortedRange es lo stop xs
  around-SortedRange = record {
    same_length = right.same_length ∙ (left.same_length ∙ part.same_length);
    sorted = sorted_around;
    outside = λ p o. elim o [
      | inl below ↦
          right.outside p (inl (omega (arith, part.from)))
          ∙ (left.outside p (inl below) ∙ part.outside p (inl below))
      | inr above ↦
          right.outside p (inr above)
          ∙ (left.outside p (inr (omega (arith, part.to))) ∙ part.outside p (inr (omega arith)))
    ];
    counts = λ x. right.counts x ∙ (left.counts x ∙ part.counts x);
    keeps = keeps_around;
  }

-- With more rounds than the range has elements, `qsort` of a range inside the array ends, and sorts the
-- range.
pub qsort-SortedRange :
    (fuel : ℕ) (es : List ℕ) (lo stop : ℕ)
    → stop - lo < fuel
    → stop ≤ length es
    → Returns (qsort fuel es lo stop) (SortedRange es lo stop)
unfolding qsort
qsort-SortedRange zero es lo stop h b = elim h [ ]
qsort-SortedRange (suc fuel) es lo stop h b = elim (Bool-cases (ltb (lo + 1) stop)) [
  | inl wide ↦
      let lt : lo + 1 < stop = ground arith in
      let ((ys, k), run, part) =
        partition-Partitioned es lo (stop - 1) (omega arith) (omega arith) in
      let (mid, run', left) =
        qsort-SortedRange fuel ys lo k (omega (arith, part.to))
          (omega (arith, part.to, part.same_length)) in
      let (xs, run'', right) =
        qsort-SortedRange fuel mid (k + 1) stop (omega (arith, part.from))
          (omega (arith, left.same_length, part.same_length)) in
      (
        xs,
        rw wide (rw run (rw run' run'')),
        around-SortedRange es lo stop k ys mid xs part left right lt,
      )
  | inr short ↦ (es, rw short refl, short-SortedRange es lo stop (ground arith))
]
