-- ===== src/EarlyAlloc/Examples.antt =====
-- A region of two pages; the memory is the list of the pages that were cleared.
use refined_c.Base.{ℕ, ◌≡◌, none, some, List, [], ◌∷◌, arith}
use refined_c.EarlyAlloc.{
  hyp_early_alloc_init, hyp_early_alloc_nr_pages, hyp_early_alloc_page, hyp_early_alloc_init1,
  hyp_early_alloc_page1,
}
use refined_c.EarlyAlloc.Pages.{calls, hyp_early_alloc_page-pages, hyp_early_alloc_page1-last_page}

abbrev clear : ℕ → List ℕ → List ℕ
clear p m = p ∷ m

hyp_early_alloc_page-pages_example :
    (calls (hyp_early_alloc_page clear) 3 (hyp_early_alloc_init 4096 8192) [] ≡ (
      some 4096 ∷ some 8192 ∷ none ∷ [],
      record { base = 4096; end = 12288; cur = 12288 },
      8192 ∷ 4096 ∷ [],
    ))
    × (hyp_early_alloc_nr_pages (record { base = 4096; end = 12288; cur = 12288 }) ≡ 2)
hyp_early_alloc_page-pages_example = hyp_early_alloc_page-pages clear 2 4096 [] (omega arith)

hyp_early_alloc_page1-last_page_example :
    calls (hyp_early_alloc_page1 clear) 2 (hyp_early_alloc_init1 4096 8192) []
    ≡ (some 4096 ∷ none ∷ [], record { base1 = 4096; size1 = 4096; cur1 = 8192 }, 4096 ∷ [])
hyp_early_alloc_page1-last_page_example =
    hyp_early_alloc_page1-last_page clear 1 4096 [] (omega arith)
