-- ===== src/Buddy/Examples.antt =====
-- Pools of one and of four pages. The memory is a byte for each address.
use refined_c.Base.{
  ◌<◌, ◌&&◌, leb, ltb, if◌then◌else◌, ℕ, ◌+◌, ◌≤◌, ◌≡◌, ◌≢◌, refl, false, true, arith, ◌∙◌, List,
  [], ◌∷◌, ◌⊎◌,
}
use refined_c.Base.Run.{ok, Returns}
use refined_c.Base.Int.{pos}
use refined_c.ListHead.{head, page, list_add}
use refined_c.Buddy.{HypPool, hyp_phys_to_page, hyp_virt_to_page, set_links}
use refined_c.Buddy.Free.{hyp_put_page}
use refined_c.Buddy.Alloc.{null, hyp_alloc_pages, hyp_page_to_virt}
use refined_c.Buddy.Setup.{hyp_pool_init, init_pages, zero_pages}
use refined_c.Buddy.Cover.{inside, put}
use refined_c.Buddy.Invariant.{free, IsPool}
use refined_c.Buddy.Steps.{enter-IsPool}
use refined_c.Buddy.Same.{IsSettled}
use refined_c.Buddy.Release.{hyp_put_page-freed}
use refined_c.Buddy.Allocate.{IsTaken, hyp_extract_page-IsTaken}
use refined_c.Buddy.Clear.{address, Off}
use refined_c.Buddy.Hand.{IsCleared, hyp_alloc_pages-IsTaken}
use refined_c.Buddy.Ready.{init_pages-IsPool, init_areas-Edge}
use refined_c.Buddy.Start.{
  between, fresh, fresh-HasRange, fresh-IsWaiting, page-IsPending, hyp_pool_init-IsPool,
}
use refined_c.Buddy.Cycle.{hyp_put_page-IsTaken}

abbrev Bytes : Type 0
Bytes = ℕ → ℕ

abbrev byte : ℕ → Bytes → ℕ
byte b m = m b

abbrev clear : ℕ → Bytes → Bytes
clear a m b = if leb a b && ltb b (a + 4096) then 0 else m b

clear-zeroed : (a b : ℕ) (m : Bytes) → a ≤ b → b < a + 4096 → byte b (clear a m) ≡ 0
clear-zeroed a b m low high = ground arith

clear-kept : (a b : ℕ) (m : Bytes) → Off a b → byte b (clear a m) ≡ byte b m
clear-kept a b m off = ground arith

not_null : (q : ℕ) → 16 ≤ q → q < 20 → address 0 q ≢ null
not_null q low high e = absurd (omega (arith, e))

-- Memory that nothing has been written to
abbrev raw : HypPool Bytes
raw = record {
  lock = false;
  links = record { next = λ n. n; prev = λ n. n };
  range_start = 65536;
  range_end = 81920;
  pages = λ p. record { refcount = 7; order = 7; in_pool = false };
  memory = λ b. 7;
}

hyp_pool_init-IsPool_example : Returns (hyp_pool_init 65536 4 1 raw) (λ r.
    (lists : ℕ → List ℕ) × (r.0 ≡ pos 0)
    × IsPool r.1 16 20 lists
    × ((r.1).lock ≡ false)
    × ((q : ℕ) → free lists q ≡ between 17 20 q)
    × ((q : ℕ)
        → 16 ≤ q
        → q < 20
        → (((r.1).pages q).in_pool ≡ true) × (((r.1).pages q).refcount ≡ 0)))
hyp_pool_init-IsPool_example =
    hyp_pool_init-IsPool 16 4 1 raw (omega arith) (omega arith) (omega arith)

-- The pool that the initialisation leaves
abbrev four_pages : HypPool Bytes
four_pages = (hyp_pool_init-IsPool 16 4 1 raw (omega arith) (omega arith) (omega arith)).0.1

abbrev four_lists : ℕ → List ℕ
four_lists = (hyp_pool_init-IsPool 16 4 1 raw (omega arith) (omega arith) (omega arith)).2.0

hyp_alloc_pages-IsTaken_example :
    ((hyp_alloc_pages clear 0 1 1 four_pages ≡ ok (null, record four_pages { lock = false }))
      × ((j : ℕ) → 1 ≤ j → j ≤ 11 → four_lists j ≡ []))
    ⊎ ((p : ℕ) × (t : HypPool Bytes) × (lists' : ℕ → List ℕ) × (hyp_alloc_pages clear 0 1 1
            four_pages
          ≡ ok (address 0 p, t))
        × (address 0 p ≢ null)
        × IsTaken four_pages t 16 20 four_lists lists' p 1
        × (t.lock ≡ false)
        × IsCleared byte 0 1 p 1 four_pages.memory t.memory)
hyp_alloc_pages-IsTaken_example =
    let (r, run, (lists, e, pool, lock, pages, members)) =
      hyp_pool_init-IsPool 16 4 1 raw (omega arith) (omega arith) (omega arith) in
    hyp_alloc_pages-IsTaken clear 0 byte clear-zeroed clear-kept 1 1 four_pages 16 20 four_lists
      pool lock not_null

-- A pool of page 16 alone, before and after the page is attached
abbrev one_page : HypPool Bytes
one_page = init_pages 1 16 (zero_pages 16 1 (fresh 16 1 raw))

abbrev one_free : HypPool Bytes
one_free = set_links (list_add (page 16) (head 0)) one_page

abbrev one_list : ℕ → List ℕ
one_list = put 0 (16 ∷ []) (λ o. [])

one_page-IsPool : IsPool one_page 16 17 (λ o. [])
one_page-IsPool =
    init_pages-IsPool 16 1 (fresh 16 1 raw) (fresh-HasRange 16 1 raw (omega arith) (omega arith))
      (λ o high. init_areas-Edge 12 0 o (raw.links) (omega arith) (omega arith))

one_free-IsPool : IsPool one_free 16 17 one_list
unfolding init_pages zero_pages
one_free-IsPool =
    let pending =
      page-IsPending one_page 16 17 (λ o. []) 16 one_page-IsPool (omega arith) (omega arith)
        (fresh-IsWaiting 16 1 0 (fresh 16 1 raw)) in
    enter-IsPool one_page 16 17 (λ o. []) one_page-IsPool 0 16 (omega arith) (λ o le i. i) refl
      pending.count pending.block pending.apart

-- The page taken out of this pool
abbrev without_page : HypPool Bytes
without_page =
    (hyp_extract_page-IsTaken one_free 16 17 one_list 0 16 [] 0 one_free-IsPool (omega arith)
      (omega arith) refl).0

abbrev without_page_lists : ℕ → List ℕ
without_page_lists =
    (hyp_extract_page-IsTaken one_free 16 17 one_list 0 16 [] 0 one_free-IsPool (omega arith)
      (omega arith) refl).1

taken : IsTaken one_free without_page 16 17 one_list without_page_lists 16 0
taken =
    (hyp_extract_page-IsTaken one_free 16 17 one_list 0 16 [] 0 one_free-IsPool (omega arith)
      (omega arith) refl).3

without_page_lock : without_page.lock ≡ false
unfolding init_pages zero_pages
without_page_lock =
    (hyp_extract_page-IsTaken one_free 16 17 one_list 0 16 [] 0 one_free-IsPool (omega arith)
      (omega arith) refl).4

one_member : (one_free.pages 16).in_pool ≡ true
unfolding init_pages zero_pages
one_member = refl

hyp_put_page-IsTaken_example : Returns (hyp_put_page 0 (hyp_page_to_virt 0 16) without_page) (λ u.
    (lists'' : ℕ → List ℕ) × IsPool u 16 17 lists''
    × (u.lock ≡ false)
    × (u.memory ≡ without_page.memory)
    × ((x : ℕ) → free lists'' x ≡ free one_list x)
    × ((q : ℕ) → (u.pages q).refcount ≡ (one_free.pages q).refcount))
hyp_put_page-IsTaken_example =
    hyp_put_page-IsTaken 0 16 0 one_free without_page 16 17 one_list without_page_lists
      one_free-IsPool taken without_page_lock (omega arith) one_member

hyp_put_page-freed_example : Returns (hyp_put_page 0 65536 without_page) (λ t.
    (lists' : ℕ → List ℕ) × IsPool t 16 17 lists'
    × (t.lock ≡ false)
    × (t.memory ≡ without_page.memory)
    × ((t.pages 16).refcount ≡ 0)
    × ((q : ℕ) → q ≢ 16 → (t.pages q).refcount ≡ (without_page.pages q).refcount)
    × ((x : ℕ) → free lists' x ≡ free without_page_lists x + inside 16 0 x)
    × IsSettled without_page t without_page_lists 16 0)
unfolding hyp_virt_to_page hyp_phys_to_page
hyp_put_page-freed_example =
    let after = taken in
    let pool = one_free-IsPool in
    hyp_put_page-freed 0 65536 without_page 16 17 without_page_lists 16 0 refl without_page_lock
      (after.members 16 ∙ one_member) (after.one) (after.level) (omega arith) (after.pool)
      (after.block) (λ x. omega (arith, after.sum x, pool.once x))
      (λ x c ne. after.others x ne ∙ pool.idle x (omega (arith, after.sum x, c)))
