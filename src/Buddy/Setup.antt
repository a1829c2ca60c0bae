-- ===== src/Buddy/Setup.antt =====
-- hyp_pool_init of linux/casestudies/page_alloc.c.
use refined_c.Base.{
  ℕ, zero, suc, ◌+◌, ◌-◌, ◌*◌, ◌%◌, ◌^◌, true, false, not, ◌==◌, ◌&&◌, leb, ltb, if◌then◌else◌,
}
use refined_c.Base.Int.{ℤ, pos, negsuc}
use refined_c.Base.Run.{Run, ok, ◌>>=◌}
use refined_c.ListHead.{head, page, Links, init_list_head}
use refined_c.Buddy.{
  word, page_size, page_shift, max_order, einval, HypPool, hyp_phys_to_page, set_links, set_page,
}
use refined_c.Buddy.Free.{hyp_attach_page}

-- `for (i = 0; i <= HYP_MAX_ORDER; i++) INIT_LIST_HEAD(&pool->free_area[i])`
unfoldable pub init_areas : (count i : ℕ) → Links → Links
init_areas zero i g = g
init_areas (suc count) i g = init_areas count (i + 1) (init_list_head (head i) g)

-- `n << PAGE_SHIFT` on unsigned int
abbrev pub pages_size : (n : ℕ) → ℕ
pages_size n = n * 2 ^ page_shift % 2 ^ 32

-- The error, or 0 with the pool.
module _ {M : Type 0} where
  -- `p->pool = pool; INIT_LIST_HEAD(&p->node)` for so many pages from `p` on
  unfoldable pub init_pages : (count p : ℕ) → HypPool M → HypPool M
  init_pages zero p s = s
  init_pages (suc count) p s =
      init_pages count (p + 1)
        (set_links (init_list_head (page p)) (set_page p (record (s.pages p) { in_pool = true }) s))

  -- `memset(p, 0, sizeof(*p) * nr_pages)`, but for the nodes, which `init_pages` sets
  unfoldable pub zero_pages : (p nr_pages : ℕ) → HypPool M → HypPool M
  zero_pages p nr_pages s = record s {
    pages = λ q.
        if leb p q && ltb q (p + nr_pages)
        then record { refcount = 0; order = 0; in_pool = false }
        else s.pages q;
  }

  unfoldable pub attach_pages : (count p : ℕ) → HypPool M → Run (HypPool M)
  attach_pages zero p s = ok s
  attach_pages (suc count) p s = hyp_attach_page p s >>= attach_pages count (p + 1)

  unfoldable pub hyp_pool_init : (phys nr_pages used_pages : ℕ) → HypPool M → Run (ℤ × HypPool M)
  hyp_pool_init phys nr_pages used_pages s =
      if not (phys % page_size == 0)
      then ok (negsuc (einval - 1), s)
      else (let fresh : HypPool M = record s {
        lock = false;
        links = init_areas (max_order + 1) 0 s.links;
        range_start = phys;
        range_end = (phys + pages_size nr_pages) % word;
      } in
          let first = hyp_phys_to_page phys in
          let ready = init_pages nr_pages first (zero_pages first nr_pages fresh) in
          attach_pages (nr_pages - used_pages)
            (hyp_phys_to_page ((phys + pages_size used_pages) % word)) ready
          >>= λ t. ok (pos 0, t))
