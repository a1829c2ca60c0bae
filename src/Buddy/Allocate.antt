-- ===== src/Buddy/Allocate.antt =====
-- hyp_alloc_pages of linux/casestudies/page_alloc.c: the search for a list, and the extraction.
use mathlib.Core.Path.{subst}
use refined_c.Base.{
  ℕ, zero, suc, ◌+◌, ◌≤◌, ◌≡◌, ◌≢◌, refl, true, false, ◌==◌, leb, ltb, leb→le, leb→gt, arith, sym,
  ◌∙◌, List, [], ◌∷◌, map, In, ◌⊎◌, inl, inr, Bool-cases, ==_refl, some, none,
}
use refined_c.Base.Run.{ok}
use refined_c.ListHead.{head, page, list_empty, list_first_entry, list_del_init}
use refined_c.ListHead.Ring.{Chain}
use refined_c.Buddy.{HypPool, no_order, set_links, set_refcount}
use refined_c.Buddy.Alloc.{hyp_extract_page, split_loop, first_order}
use refined_c.Buddy.Cover.{inside, inside-first, put}
use refined_c.Buddy.Invariant.{IsBlock, free, IsPool}
use refined_c.Buddy.Steps.{free-leave}
use refined_c.Buddy.Leave.{leave-IsPool}
use refined_c.Buddy.Same.{IsPending, IsApart-IsUnlisted}
use refined_c.Buddy.Release.{
  set_refcount-IsPool, set_refcount_self, set_refcount-other, set_refcount-order,
  set_refcount-memory, set_refcount-lock, set_refcount-in_pool,
}
use refined_c.Buddy.Split.{split_loop-IsPending}

-- A list is empty or has a first element.
list_cases : (ps : List ℕ) → (ps ≡ []) ⊎ ((p : ℕ) × (qs : List ℕ) × (ps ≡ p ∷ qs))
list_cases [] = inl refl
list_cases (p ∷ qs) = inr (p, qs, refl)

all_empty :
    (lists : ℕ → List ℕ) (i : ℕ)
    → lists i ≡ []
    → ((j : ℕ) → i + 1 ≤ j → j ≤ 11 → lists j ≡ [])
    → (j : ℕ) → i ≤ j
    → j ≤ 11
    → lists j ≡ []
all_empty lists i e rest j low high = elim (Bool-cases (i == j)) [
  | inl f ↦ let same : i ≡ j = ground arith in subst (λ t. lists t ≡ []) same e
  | inr other ↦ rest j (ground arith) high
]

module _ {M : Type 0} where
  -- The list heads of a pool as its lists
  empty_list :
      (s : HypPool M) (first last : ℕ) (lists : ℕ → List ℕ) (i : ℕ)
      → IsPool s first last lists
      → i ≤ 11
      → lists i ≡ []
      → list_empty (head i) s.links ≡ true
  unfolding list_empty
  empty_list s first last lists i pool le e =
      let edge : Chain s.links (head i) [] (head i) =
        subst (λ t. Chain s.links (head i) (map page t) (head i)) e (pool.ring i le) in
      rw edge.to (==_refl i)

  pub filled_list :
      (s : HypPool M) (first last : ℕ) (lists : ℕ → List ℕ) (i p : ℕ) (qs : List ℕ)
      → IsPool s first last lists
      → i ≤ 11
      → lists i ≡ p ∷ qs
      → (list_empty (head i) s.links ≡ false) × (list_first_entry (head i) s.links ≡ ok p)
  unfolding list_empty list_first_entry
  filled_list s first last lists i p qs pool le e =
      let ring : Chain s.links (head i) (page p ∷ map page qs) (head i) =
        subst (λ t. Chain s.links (head i) (map page t) (head i)) e (pool.ring i le) in
      (rw (list_empty, ring.0.to) refl, rw (list_first_entry, ring.0.to) refl)

  -- The search ends at the first list that is not empty.
  pub first_order-First :
      (fuel i : ℕ) (s : HypPool M) (first last : ℕ) (lists : ℕ → List ℕ)
      → IsPool s first last lists
      → 13 ≤ fuel + i
      → ((first_order fuel i s.links ≡ none) × ((j : ℕ) → i ≤ j → j ≤ 11 → lists j ≡ []))
        ⊎ ((j p : ℕ) × (qs : List ℕ) × (first_order fuel i s.links ≡ some j)
            × (i ≤ j)
            × (j ≤ 11)
            × (lists j ≡ p ∷ qs))
  unfolding first_order
  first_order-First zero i s first last lists pool enough =
      inl (refl, λ j low high. absurd (omega arith))
  first_order-First (suc fuel) i s first last lists pool enough = elim (Bool-cases (leb i 11)) [
    | inr above ↦ inl (
      rw (first_order, above) (ground arith),
      λ j low high. absurd (omega (arith, leb→gt i 11 above)),
    )
    | inl below ↦ elim (list_cases (lists i)) [
      | inl e ↦
          let empty = empty_list s first last lists i pool (leb→le i 11 below) e in
          elim (first_order-First fuel (i + 1) s first last lists pool (omega arith)) [
            | inl (run, all) ↦ inl (rw (first_order, below, empty) run, all_empty lists i e all)
            | inr (j, p, qs, run, low, high, f) ↦
                inr (j, p, qs, rw (first_order, below, empty) run, omega arith, high, f)
          ]
      | inr (p, qs, e) ↦
          let filled = (filled_list s first last lists i p qs pool (leb→le i 11 below) e).0 in
          inr (
            i,
            p,
            qs,
            rw (first_order, below, filled) (ground (arith, leb→le i 11 below)),
            omega arith,
            leb→le i 11 below,
            e,
          )
    ]
  ]

  -- What an allocation of the block at `p` does
  pub record IsTaken (s t : HypPool M) (first last : ℕ) (lists lists' : ℕ → List ℕ) (p order : ℕ)
      : Type 0 where
    pub pool : IsPool t first last lists'
    pub block : IsBlock first last p order
    pub level : (t.pages p).order ≡ order
    pub one : (t.pages p).refcount ≡ 1
    pub others : (q : ℕ) → q ≢ p → (t.pages q).refcount ≡ (s.pages q).refcount
    pub members : (q : ℕ) → (t.pages q).in_pool ≡ (s.pages q).in_pool
    pub settled : (q : ℕ) → free lists q ≡ 0 → (t.pages q).order ≡ (s.pages q).order
    pub sum : (x : ℕ) → free lists x ≡ free lists' x + inside p order x

  -- A block that leaves its list is pending.
  first-IsPending :
      (s : HypPool M) (first last : ℕ) (lists : ℕ → List ℕ) (i p : ℕ) (qs : List ℕ)
      → IsPool s first last lists
      → i ≤ 11
      → lists i ≡ p ∷ qs
      → IsPending (set_links (list_del_init (page p)) s) first last (put i qs lists) p i
  first-IsPending s first last lists i p qs pool le e =
      let here : In p (lists i) = subst (In p) (sym e) (inl refl) in
      let sum = λ (x : ℕ). free-leave s first last lists pool i p [] qs x le e in
      record {
        pool = leave-IsPool s first last lists pool i p [] qs le e;
        small = le;
        block = pool.block i p le here;
        apart = λ x. omega (arith, sum x, pool.once x);
        count = λ x c. pool.idle x (omega (arith, sum x, c));
      }

  extract_run :
      (s t : HypPool M) (p i order : ℕ)
      → (s.pages p).order ≡ i
      → i ≤ 11
      → order ≤ i
      → split_loop (i + 1) p order (set_links (list_del_init (page p)) s) ≡ ok t
      → hyp_extract_page p order s ≡ ok (some p, set_refcount p 1 t)
  unfolding hyp_extract_page
  extract_run s t p i order level le low run =
      let a : (i == no_order) ≡ false = ground arith in
      let b : ltb i order ≡ false = ground arith in rw (level, a, b, run) refl

  -- __hyp_extract_page takes the block of the order from the front of the first list of a higher one.
  pub hyp_extract_page-IsTaken :
      (s : HypPool M) (first last : ℕ) (lists : ℕ → List ℕ) (i p : ℕ) (qs : List ℕ) (order : ℕ)
      → IsPool s first last lists
      → i ≤ 11
      → order ≤ i
      → lists i ≡ p ∷ qs
      → (t : HypPool M) × (lists' : ℕ → List ℕ) × (hyp_extract_page p order s ≡ ok (some p, t))
        × IsTaken s t first last lists lists' p order
        × (t.lock ≡ s.lock)
        × (t.memory ≡ s.memory)
  hyp_extract_page-IsTaken s first last lists i p qs order pool le low e =
      let start = set_links (list_del_init (page p)) s in
      let here : In p (lists i) = subst (In p) (sym e) (inl refl) in
      let level = pool.order i p le here in
      let pending = first-IsPending s first last lists i p qs pool le e in
      let (t, run, (lists', end, done, same, sum, settled)) =
        split_loop-IsPending (i + 1) start first last (put i qs lists) p i order pending level low
          (omega arith) in
      let none_of = IsApart-IsUnlisted lists' p order end.apart in
      (
        set_refcount p 1 t,
        lists',
        extract_run s t p i order level le low run,
        record {
          pool =
              set_refcount-IsPool t first last lists' p 1 end.pool none_of
                (omega (arith, end.apart p, inside-first p order));
          block = end.block;
          level = set_refcount-order t p 1 p ∙ done;
          one = set_refcount_self t p 1;
          others = λ q ne. set_refcount-other t p 1 q ne ∙ same.refcount q;
          members = λ q. set_refcount-in_pool t p 1 q ∙ same.in_pool q;
          settled = λ q out.
              set_refcount-order t p 1 q
              ∙ settled q (free-leave s first last lists pool i p [] qs q le e ∙ out);
          sum = λ x. omega (arith, sum x, free-leave s first last lists pool i p [] qs x le e);
        },
        set_refcount-lock t p 1 ∙ same.lock,
        set_refcount-memory t p 1 ∙ same.memory,
      )
