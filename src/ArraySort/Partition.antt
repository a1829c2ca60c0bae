-- ===== src/ArraySort/Partition.antt =====
-- partition: the pivot is taken out of the array, which leaves a hole that the loop moves.
use refined_c.Base.{
  ℕ, zero, suc, ◌+◌, ◌-◌, ◌<◌, ◌≤◌, ◌≡◌, ◌≢◌, refl, sym, ◌∙◌, ◌⊎◌, inl, inr, Bool, true, List,
  length, length-set, set, ltb, ◌==◌, arith, Bool-cases,
}
use refined_c.Base.Run.{Returns}
use refined_c.ArraySort.{partition_loop, partition}
use refined_c.ArraySort.Arrays.{
  elem, count, get-elem, store-set, elem-set, elem-set_ne, elem-set_self, count-set, count-move,
}
use refined_c.ArraySort.Scan.{Down, Up, down_loop-Down, up_loop-Up}

-- Every element from `lo` to `hi` passes a test.
abbrev pub AllIn : (test : ℕ → Bool) (a : List ℕ) (lo hi : ℕ) → Type 0
AllIn test a lo hi = (p : ℕ) → lo ≤ p → p ≤ hi → test (elem a p) ≡ true

-- The loop at `i` and `j`: with the key in the hole, the array is `es` in another order from `lo` to `hi`.
record Invariant (es : List ℕ) (lo hi key i j hole : ℕ) (ys : List ℕ) : Type 0 where
  from : lo ≤ i
  mid : i ≤ j
  to : j ≤ hi
  inside : hi < length ys
  same_length : length ys ≡ length es
  small : (p : ℕ) → lo ≤ p → p < i → elem ys p ≤ key
  large : (p : ℕ) → j < p → p ≤ hi → key ≤ elem ys p
  outside : (p : ℕ) → (p < lo) ⊎ (hi < p) → elem ys p ≡ elem es p
  counts : (x : ℕ) → count x (set ys hole key) ≡ count x es
  keeps :
      (test : ℕ → Bool)
      → AllIn test es lo hi
      → (p : ℕ) → lo ≤ p
      → p ≤ hi
      → p ≢ hole
      → test (elem ys p) ≡ true

module _ (es : List ℕ) (lo hi key : ℕ) where
  -- An element out of the hole's way
  keeps_moved :
      (ys : List ℕ) (from to : ℕ) (test : ℕ → Bool)
      → from < length ys
      → lo ≤ to
      → to ≤ hi
      → ((p : ℕ) → lo ≤ p → p ≤ hi → p ≢ from → test (elem ys p) ≡ true)
      → (p : ℕ) → lo ≤ p
      → p ≤ hi
      → p ≢ to
      → test (elem (set ys from (elem ys to)) p) ≡ true
  keeps_moved ys from to test inside low high old p l h ne = elim (Bool-cases (from == p)) [
    | inl here ↦
        let eq : from ≡ p = ground arith in
        let value : elem (set ys from (elem ys to)) p ≡ elem ys to =
          ground (arith, elem-set ys from p (elem ys to) inside) in
        rw value (old to low high (λ e. ne (sym (e ∙ eq))))
    | inr there ↦
        let off : from ≢ p = λ e. ground arith in
        rw (elem-set_ne ys from p (elem ys to) off) (old p l h (λ e. off (sym e)))
  ]

  module _ (i j : ℕ) (ys : List ℕ) where
    later :
        (inv : Invariant es lo hi key i j i ys) (j' : ℕ)
        → ((p : ℕ) → j' < p → p ≤ i + (j - i) → key ≤ elem ys p)
        → (p : ℕ) → j' < p
        → p ≤ hi
        → key ≤ elem ys p
    later inv j' passed p l h = elim (Bool-cases (ltb j p)) [
      | inl far ↦ inv.large p (ground arith) h
      | inr near ↦ let close : p ≤ j = ground arith in passed p l (omega (arith, inv.mid))
    ]

    copy_from_right :
        (inv : Invariant es lo hi key i j i ys) (j' : ℕ)
        → Down ys key i (j - i) j'
        → Invariant es lo hi key i j' j' (set ys i (elem ys j'))
    copy_from_right inv j' (low, high, passed, stop) =
        let bound : i < length ys = omega (arith, inv.mid, inv.to, inv.inside) in
        let bound' : j' < length ys = omega (arith, inv.mid, inv.to, inv.inside) in
        let v = elem ys j' in
        record {
          from = inv.from;
          mid = low;
          to = omega (arith, inv.mid, inv.to);
          inside = rw (length-set ys i v) inv.inside;
          same_length = length-set ys i v ∙ inv.same_length;
          small = λ p l h. rw (elem-set_ne ys i p v (λ e. omega (arith, e))) (inv.small p l h);
          large = λ p l h.
              rw (elem-set_ne ys i p v (λ e. omega (arith, e))) (later inv j' passed p l h);
          outside = λ p o.
              elem-set_ne ys i p v (λ e. elim o [
                | inl below ↦ omega (arith, inv.from, e)
                | inr above ↦ omega (arith, inv.mid, inv.to, e)
              ])
              ∙ inv.outside p o;
          counts = λ x. count-move x ys i j' key bound bound' ∙ inv.counts x;
          keeps = λ test all.
              keeps_moved ys i j' test bound (omega (arith, inv.from))
                (omega (arith, inv.mid, inv.to)) (inv.keeps test all);
        }

    earlier :
        (inv : Invariant es lo hi key i j j ys) (i' : ℕ)
        → ((p : ℕ) → i ≤ p → p < i' → elem ys p ≤ key)
        → (p : ℕ) → lo ≤ p
        → p < i'
        → elem ys p ≤ key
    earlier inv i' passed p l h = elim (Bool-cases (ltb p i)) [
      | inl far ↦ inv.small p l (ground arith)
      | inr near ↦ passed p (ground arith) h
    ]

    copy_from_left :
        (inv : Invariant es lo hi key i j j ys) (i' : ℕ)
        → Up ys key i (j - i) i'
        → Invariant es lo hi key i' j i' (set ys j (elem ys i'))
    copy_from_left inv i' (low, high, passed, more) =
        let bound : j < length ys = omega (arith, inv.to, inv.inside) in
        let bound' : i' < length ys = omega (arith, inv.mid, inv.to, inv.inside) in
        let v = elem ys i' in
        record {
          from = omega (arith, inv.from);
          mid = omega (arith, inv.mid);
          to = inv.to;
          inside = rw (length-set ys j v) inv.inside;
          same_length = length-set ys j v ∙ inv.same_length;
          small = λ p l h.
              rw (elem-set_ne ys j p v (λ e. omega (arith, inv.mid, e)))
                (earlier inv i' passed p l h);
          large = λ p l h. rw (elem-set_ne ys j p v (λ e. omega (arith, e))) (inv.large p l h);
          outside = λ p o.
              elem-set_ne ys j p v (λ e. elim o [
                | inl below ↦ omega (arith, inv.from, inv.mid, e)
                | inr above ↦ omega (arith, inv.to, e)
              ])
              ∙ inv.outside p o;
          counts = λ x. count-move x ys j i' key bound bound' ∙ inv.counts x;
          keeps = λ test all.
              keeps_moved ys j i' test bound (omega (arith, inv.from))
                (omega (arith, inv.mid, inv.to)) (inv.keeps test all);
        }

  -- A round brings `i` and `j` closer.
  closer :
      (i j i' j' : ℕ) (ys : List ℕ)
      → i < j
      → i < length ys
      → Down ys key i (j - i) j'
      → Up (set ys i (elem ys j')) key i (j' - i) i'
      → j' - i' < j - i
  closer i j i' j' ys lt inside (low, high, passed, stop) (low', high', passed', more) = elim stop [
    | inl here ↦ omega (arith, here)
    | inr less ↦ elim (Bool-cases (ltb i j')) [
      | inl apart ↦
          let copied = elem-set_self ys i (elem ys j') inside in
          let moved = more (ground arith) (rw copied (omega (arith, less))) in
          omega (arith, moved, high)
      | inr meet ↦ let same : j' ≤ i = ground arith in omega arith
    ]
  ]

  partition_loop-Invariant :
      (fuel : ℕ) (ys : List ℕ) (i j : ℕ)
      → j - i < fuel
      → Invariant es lo hi key i j i ys
      → Returns (partition_loop fuel ys i j key) (λ r. Invariant es lo hi key r.1 r.1 r.1 r.0)
  unfolding partition_loop
  partition_loop-Invariant zero ys i j h inv = elim h [ ]
  partition_loop-Invariant (suc fuel) ys i j h inv = elim (Bool-cases (ltb i j)) [
    | inl apart ↦
        let lt : i < j = ground arith in
        let bound : i < length ys = omega (arith, inv.to, inv.inside) in
        let (j', run, down) = down_loop-Down ys key i (j - i) (omega (arith, inv.to, inv.inside)) in
        let inv' = copy_from_right i j ys inv j' down in
        let ys' = set ys i (elem ys j') in
        let (i', run', up) =
          up_loop-Up ys' key i (j' - i) (omega (arith, inv'.mid, inv'.to, inv'.inside)) in
        let inv'' = copy_from_left i j' ys' inv' i' up in
        let ys'' = set ys' j' (elem ys' i') in
        let (r, run'', end) =
          partition_loop-Invariant fuel ys'' i' j'
            (omega (arith, closer i j i' j' ys lt bound down up)) inv'' in
        let get = get-elem ys j' (omega (arith, inv'.to, inv.inside)) in
        let put = store-set ys i (elem ys j') bound in
        let get' = get-elem ys' i' (omega (arith, inv''.mid, inv''.to, inv'.inside)) in
        let put' = store-set ys' j' (elem ys' i') (omega (arith, inv'.to, inv'.inside)) in
        (r, rw apart (rw run (rw get (rw put (rw run' (rw get' (rw put' run'')))))), end)
    | inr met ↦
        let same : j ≡ i = let le : j ≤ i = ground arith in omega (arith, inv.mid) in
        ((ys, i), rw met refl, rw same at inv)
  ]

-- The array after `partition`, with the pivot at `k`.
pub record Partitioned (es : List ℕ) (lo hi : ℕ) (xs : List ℕ) (k : ℕ) : Type 0 where
  pub from : lo ≤ k
  pub to : k ≤ hi
  pub same_length : length xs ≡ length es
  pub small : (p : ℕ) → lo ≤ p → p ≤ k → elem xs p ≤ elem xs k
  pub large : (p : ℕ) → k ≤ p → p ≤ hi → elem xs k ≤ elem xs p
  pub outside : (p : ℕ) → (p < lo) ⊎ (hi < p) → elem xs p ≡ elem es p
  pub counts : (x : ℕ) → count x xs ≡ count x es
  pub keeps : (test : ℕ → Bool) → AllIn test es lo hi → AllIn test xs lo hi

-- The key goes into the hole.
filled :
    (es : List ℕ) (lo hi key k : ℕ) (ys : List ℕ)
    → Invariant es lo hi key k k k ys
    → ((test : ℕ → Bool) → AllIn test es lo hi → test key ≡ true)
    → Partitioned es lo hi (set ys k key) k
filled es lo hi key k ys inv pass =
    let bound : k < length ys = omega (arith, inv.to, inv.inside) in
    let at_k = elem-set_self ys k key bound in
    let value = λ (p : ℕ). elem-set ys k p key bound in
    record {
      from = inv.from;
      to = inv.to;
      same_length = length-set ys k key ∙ inv.same_length;
      small = λ p l h. rw at_k (elim (Bool-cases (k == p)) [
        | inl here ↦ rw (value p) (rw here (omega arith))
        | inr there ↦ rw (value p) (rw there (inv.small p l (ground arith)))
      ]);
      large = λ p l h. rw at_k (elim (Bool-cases (k == p)) [
        | inl here ↦ rw (value p) (rw here (omega arith))
        | inr there ↦ rw (value p) (rw there (inv.large p (ground arith) h))
      ]);
      outside = λ p o.
          elem-set_ne ys k p key (λ e. elim o [
            | inl below ↦ omega (arith, inv.from, e)
            | inr above ↦ omega (arith, inv.to, e)
          ])
          ∙ inv.outside p o;
      counts = inv.counts;
      keeps = λ test all p l h. elim (Bool-cases (k == p)) [
        | inl here ↦ rw (value p) (rw here (pass test all))
        | inr there ↦ rw (value p) (rw there (inv.keeps test all p l h (λ e. ground (arith, e))))
      ];
    }

pub partition-Partitioned :
    (es : List ℕ) (lo hi : ℕ)
    → lo ≤ hi
    → hi < length es
    → Returns (partition es lo hi) (λ r. Partitioned es lo hi r.0 r.1)
unfolding partition
partition-Partitioned es lo hi le inside =
    let key = elem es lo in
    let bound : lo < length es = omega arith in
    let start : Invariant es lo hi key lo hi lo es = record {
      from = omega arith;
      mid = le;
      to = omega arith;
      inside = inside;
      same_length = refl;
      small = λ p l h. absurd (omega arith);
      large = λ p l h. absurd (omega arith);
      outside = λ p o. refl;
      counts = λ x. let c = count-set x es lo key bound in omega (arith, c);
      keeps = λ test all p l h ne. all p l h;
    } in
    let ((ys, k), run, inv) =
      partition_loop-Invariant es lo hi key (hi - lo + 1) es lo hi (omega arith) start in
    let in_ys : k < length ys = omega (arith, inv.to, inv.inside) in
    (
      (set ys k key, k),
      rw (get-elem es lo bound) (rw run (rw (store-set ys k key in_ys) refl)),
      filled es lo hi key k ys inv (λ test all. all lo (omega arith) le),
    )
