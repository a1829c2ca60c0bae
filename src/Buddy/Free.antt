-- ===== src/Buddy/Free.antt =====
-- Freeing in linux/casestudies/page_alloc.c: __hyp_attach_page, hyp_put_page and hyp_get_page.
use refined_c.Base.{
  ℕ, zero, suc, ◌+◌, ◌-◌, ◌%◌, ◌^◌, true, false, not, ◌==◌, ◌||◌, ltb, Option, none, some,
  if◌then◌else◌,
}
use refined_c.Base.Int.{ℤ, pos, negsuc}
use refined_c.Base.Run.{Run, ok, out_of_fuel, check, ◌>>=◌, ◌>>◌}
use refined_c.ListHead.{page, list_add, list_del_init, list_empty}
use refined_c.Buddy.{
  max_order, no_order, HypPool, set_links, set_order, set_refcount, hyp_spin_lock, hyp_spin_unlock,
  find_buddy, free_area, hyp_virt_to_page,
}

module _ {M : Type 0} where
  -- `buddy == NULL || list_empty(&buddy->node) || buddy->order != order`, or else the buddy
  unfoldable pub free_buddy : HypPool M → (p order : ℕ) → Option ℕ
  free_buddy s p order = elim (find_buddy s p order) [
    | none ↦ none
    | some buddy ↦
        if list_empty (page buddy) s.links || not ((s.pages buddy).order == order)
        then none
        else some buddy
  ]

  -- What the loop of `__hyp_attach_page` does to the buddy.
  unfoldable pub detach : (buddy : ℕ) → HypPool M → HypPool M
  detach buddy s = set_order buddy no_order (set_links (list_del_init (page buddy)) s)

  -- The loop, with the page and the order where it ends.
  unfoldable pub coalesce : (fuel : ℕ) → HypPool M → (p order : ℕ) → Run (HypPool M × ℕ × ℕ)
  coalesce zero s p order = out_of_fuel
  coalesce (suc fuel) s p order = elim (ltb order max_order) [
    | false ↦ ok (s, p, order)
    | true ↦ elim (free_buddy s p order) [
      | none ↦ ok (s, p, order)
      | some buddy ↦ coalesce fuel (detach buddy s) (if ltb p buddy then p else buddy) (order + 1)
    ]
  ]

  unfoldable pub hyp_attach_page : (p : ℕ) → HypPool M → Run (HypPool M)
  hyp_attach_page p s =
      coalesce (max_order + 1) (set_order p no_order s) p ((s.pages p).order) >>= λ r.
      free_area r.2 >>= λ list. ok (set_links (list_add (page r.1) list) (set_order r.1 r.2 r.0))

  -- The result is an `int`.
  unfoldable pub hyp_page_count : (offset addr : ℕ) → HypPool M → ℤ
  hyp_page_count offset addr s =
      let count = (s.pages (hyp_virt_to_page offset addr)).refcount in
      if ltb count (2 ^ 31) then pos count else negsuc (2 ^ 32 - count - 1)

  -- The body of `hyp_put_page` under the lock
  unfoldable pub put_locked : (p : ℕ) → HypPool M → Run (HypPool M)
  put_locked p s =
      let count = (s.pages p).refcount in
      let lowered = set_refcount p (count - 1) s in
      check (not (count == 0)) >> (if count - 1 == 0 then hyp_attach_page p lowered else ok lowered)

  unfoldable pub hyp_put_page : (offset addr : ℕ) → HypPool M → Run (HypPool M)
  hyp_put_page offset addr s =
      let p = hyp_virt_to_page offset addr in
      check (s.pages p).in_pool
      >> (hyp_spin_lock s >>= λ t. put_locked p t >>= λ u. ok (hyp_spin_unlock u))

  unfoldable pub hyp_get_page : (offset addr : ℕ) → HypPool M → Run (HypPool M)
  hyp_get_page offset addr s =
      let p = hyp_virt_to_page offset addr in
      check (s.pages p).in_pool
      >> (hyp_spin_lock s >>= λ t.
          ok (hyp_spin_unlock (set_refcount p (((t.pages p).refcount + 1) % 2 ^ 32) t)))
