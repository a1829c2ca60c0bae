-- ===== src/EarlyAlloc.antt =====
-- The page allocators of linux/casestudies/early_alloc.c. Their globals are passed on as records.
-- `clear_page` is declared and not defined there; `M` is the state of the memory that it works on.
pub mod Pages
mod Examples
use refined_c.Base.{
  ℕ, zero, suc, ◌+◌, ◌-◌, ◌/◌, ◌%◌, ◌^◌, Option, none, some, ltb, leb, if◌then◌else◌,
}

abbrev pub word : ℕ
word = 2 ^ 64

abbrev pub page_size : ℕ
page_size = 4096

-- `base`, `end` and `cur`
pub record Region : Type 0 where
  pub base : ℕ
  pub end : ℕ
  pub cur : ℕ

-- `(cur - base) >> PAGE_SHIFT`
unfoldable pub hyp_early_alloc_nr_pages : Region → ℕ
hyp_early_alloc_nr_pages g = (g.cur + word - g.base) % word / 2 ^ 12

unfoldable pub hyp_early_alloc_init : (virt size : ℕ) → Region
hyp_early_alloc_init virt size = record { base = virt; end = (virt + size) % word; cur = virt }

-- `base1`, `size1` and `cur1`
pub record SizedRegion : Type 0 where
  pub base1 : ℕ
  pub size1 : ℕ
  pub cur1 : ℕ

unfoldable pub hyp_early_alloc_init1 : (virt size : ℕ) → SizedRegion
hyp_early_alloc_init1 virt size = record { base1 = virt; size1 = size; cur1 = virt }

-- A NULL that an allocator returns is `none`.
module _ {M : Type 0} (clear_page : ℕ → M → M) where
  unfoldable pub hyp_early_alloc_page : Region → M → Option ℕ × Region × M
  hyp_early_alloc_page g m =
      let ret = g.cur in
      let next = (g.cur + page_size) % word in
      if ltb g.end next then (none, g, m) else (some ret, record g { cur = next }, clear_page ret m)

  unfoldable pub hyp_early_alloc_page1 : SizedRegion → M → Option ℕ × SizedRegion × M
  hyp_early_alloc_page1 g m = if leb g.size1 page_size then (none, g, m) else (
    some g.cur1,
    record g { cur1 = (g.cur1 + page_size) % word; size1 = g.size1 - page_size },
    clear_page g.cur1 m,
  )
