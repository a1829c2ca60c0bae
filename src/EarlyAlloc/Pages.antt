-- ===== src/EarlyAlloc/Pages.antt =====
-- Which pages the allocators of a fresh region hand out.
use refined_c.Base.{
  ℕ, zero, suc, ◌+◌, ◌-◌, ◌*◌, ◌%◌, ◌<◌, ◌≤◌, ◌≡◌, ap, ◌∙◌, true, false, Option, none, some, List,
  [], ◌∷◌, ltb, leb, arith,
}
use refined_c.EarlyAlloc.{
  word, page_size, Region, hyp_early_alloc_init, hyp_early_alloc_nr_pages, hyp_early_alloc_page,
  SizedRegion, hyp_early_alloc_init1, hyp_early_alloc_page1,
}

-- So many calls of an allocator, with their results.
abbrev pub calls : {S M : Type 0} → (S → M → Option ℕ × S × M) → ℕ → S → M → List (Option ℕ) × S × M
calls alloc zero s m = ([], s, m)
calls alloc (suc n) s m =
    let r = alloc s m in let rest = calls alloc n r.1 r.2 in (r.0 ∷ rest.0, rest.1, rest.2)

calls_step :
    {S M : Type 0} (alloc : S → M → Option ℕ × S × M) (n : ℕ) (s : S) (m : M) (o : Option ℕ)
    (s' : S) (m' : M) {os : List (Option ℕ)} {s2 : S} {m2 : M}
    → alloc s m ≡ (o, s', m')
    → calls alloc n s' m' ≡ (os, s2, m2)
    → calls alloc (suc n) s m ≡ (o ∷ os, s2, m2)
calls_step alloc n s m o s' m' e rest =
    ap
      (λ r. (r.0 ∷ (calls alloc n r.1 r.2).0, (calls alloc n r.1 r.2).1, (calls alloc n r.1 r.2).2))
      e
    ∙ ap (λ t. (o ∷ t.0, t.1, t.2)) rest

-- The pages from an address on, and then the NULL of one call more.
abbrev pub pages_and_null : (n p : ℕ) → List (Option ℕ)
pages_and_null zero p = none ∷ []
pages_and_null (suc n) p = some p ∷ pages_and_null n (p + page_size)

-- The memory in which these pages were cleared, in their order.
abbrev pub cleared : {M : Type 0} → (clear_page : ℕ → M → M) → (n p : ℕ) → M → M
cleared clear_page zero p m = m
cleared clear_page (suc n) p m = cleared clear_page n (p + page_size) (clear_page p m)

module _ {M : Type 0} (clear_page : ℕ → M → M) where
  abbrev region : (base end cur : ℕ) → Region
  region base end cur = record { base = base; end = end; cur = cur }

  calls-page :
      (n base end cur : ℕ) (m : M)
      → cur + n * page_size ≤ end
      → end < cur + n * page_size + page_size
      → end + page_size < word
      → calls (hyp_early_alloc_page clear_page) (suc n) (region base end cur) m
        ≡ (pages_and_null n cur, region base end (cur + n * page_size), cleared clear_page n cur m)
  unfolding hyp_early_alloc_page
  calls-page zero base end cur m room last fits =
      let next : (cur + page_size) % word ≡ cur + page_size = omega arith in
      let full : ltb end (cur + page_size) ≡ true = ground arith in
      let same : cur + 0 * page_size ≡ cur = omega arith in rw (next, full, same)
  calls-page (suc n) base end cur m room last fits =
      let next : (cur + page_size) % word ≡ cur + page_size = omega arith in
      let some_left : ltb end (cur + page_size) ≡ false = ground arith in
      let rest =
        calls-page n base end (cur + page_size) (clear_page cur m) (omega arith) (omega arith)
          fits in
      let sum : cur + page_size + n * page_size ≡ cur + suc n * page_size = omega arith in
      calls_step (hyp_early_alloc_page clear_page) (suc n) (region base end cur) m (some cur)
        (region base end (cur + page_size)) (clear_page cur m) (rw (next, some_left))
        (rest ∙ rw sum)

  -- A region of `n` whole pages hands out these pages in their order, each cleared, and then NULL, and
  -- counts them, if neither its end nor the address of the page behind it overflows.
  pub hyp_early_alloc_page-pages :
      (n virt : ℕ) (m : M)
      → virt + n * page_size + page_size < word
      → (calls
            (hyp_early_alloc_page clear_page)
            (suc n)
            (hyp_early_alloc_init virt (n * page_size))
            m
          ≡ (
            pages_and_null n virt,
            region virt (virt + n * page_size) (virt + n * page_size),
            cleared clear_page n virt m,
          ))
        × (hyp_early_alloc_nr_pages (region virt (virt + n * page_size) (virt + n * page_size)) ≡ n)
  unfolding hyp_early_alloc_init hyp_early_alloc_nr_pages
  hyp_early_alloc_page-pages n virt m fits =
      let end_fits : (virt + n * page_size) % word ≡ virt + n * page_size = omega arith in
      (
        rw end_fits
            (calls-page n virt (virt + n * page_size) virt m (omega arith) (omega arith) fits),
        omega arith,
      )

  abbrev sized : (base1 size1 cur1 : ℕ) → SizedRegion
  sized base1 size1 cur1 = record { base1 = base1; size1 = size1; cur1 = cur1 }

  calls-page1 :
      (n base1 cur1 : ℕ) (m : M)
      → cur1 + suc n * page_size < word
      → calls (hyp_early_alloc_page1 clear_page) (suc n) (sized base1 (suc n * page_size) cur1) m
        ≡ (
          pages_and_null n cur1,
          sized base1 page_size (cur1 + n * page_size),
          cleared clear_page n cur1 m,
        )
  unfolding hyp_early_alloc_page1
  calls-page1 zero base1 cur1 m fits =
      let same : cur1 + 0 * page_size ≡ cur1 = omega arith in rw same
  calls-page1 (suc n) base1 cur1 m fits =
      let next : (cur1 + page_size) % word ≡ cur1 + page_size = omega arith in
      let some_left : leb (suc (suc n) * page_size) page_size ≡ false = ground arith in
      let left : suc (suc n) * page_size - page_size ≡ suc n * page_size = omega arith in
      let rest = calls-page1 n base1 (cur1 + page_size) (clear_page cur1 m) (omega arith) in
      let sum : cur1 + page_size + n * page_size ≡ cur1 + suc n * page_size = omega arith in
      calls_step (hyp_early_alloc_page1 clear_page) (suc n)
        (sized base1 (suc (suc n) * page_size) cur1) m (some cur1)
        (sized base1 (suc n * page_size) (cur1 + page_size)) (clear_page cur1 m)
        (rw (next, some_left, left)) (rest ∙ rw sum)

  -- The version with a size hands out all pages of a region of `n + 1` whole pages but the last: it
  -- returns NULL when one whole page is left.
  pub hyp_early_alloc_page1-last_page :
      (n virt : ℕ) (m : M)
      → virt + suc n * page_size < word
      → calls
          (hyp_early_alloc_page1 clear_page)
          (suc n)
          (hyp_early_alloc_init1 virt (suc n * page_size))
          m
        ≡ (
          pages_and_null n virt,
          sized virt page_size (virt + n * page_size),
          cleared clear_page n virt m,
        )
  unfolding hyp_early_alloc_init1
  hyp_early_alloc_page1-last_page n virt m fits = calls-page1 n virt virt m fits
