-- ===== src/Buddy/Alloc.antt =====
-- Allocation in linux/casestudies/page_alloc.c: __hyp_extract_page, clear_hyp_page and
-- hyp_alloc_pages.
use Prim.Native.Nat.{bit_and}
use refined_c.Base.{
  ℕ, zero, suc, ◌+◌, ◌-◌, ◌*◌, ◌%◌, ◌^◌, true, false, ◌==◌, ◌&&◌, ◌||◌, leb, ltb, Option, none,
  some, if◌then◌else◌,
}
use refined_c.Base.Run.{Run, ok, out_of_fuel, need, ◌>>=◌}
use refined_c.ListHead.{
  head, page, Links, list_add_tail, list_del_init, list_empty, list_first_entry,
}
use refined_c.Buddy.{
  word, page_shift, max_order, no_order, HypPool, hyp_page_to_phys, set_links, set_order,
  set_refcount, hyp_spin_lock, hyp_spin_unlock, find_buddy, free_area,
}

-- The first list from `i` on that is not empty.
unfoldable pub first_order : (fuel i : ℕ) → Links → Option ℕ
first_order zero i g = none
first_order (suc fuel) i g = elim (leb i max_order && list_empty (head i) g) [
  | true ↦ first_order fuel (i + 1) g
  | false ↦ if ltb max_order i then none else some i
]

-- The address that is NULL
abbrev pub null : ℕ
null = 0

unfoldable pub hyp_page_to_virt : (offset p : ℕ) → ℕ
hyp_page_to_virt offset p = (hyp_page_to_phys p + word - offset % word) % word

module _ {M : Type 0} where
  -- A split: `p->order--`, and the buddy goes to its list.
  unfoldable pub split_page : (p : ℕ) → HypPool M → Run (HypPool M)
  split_page p s =
      let lower = (s.pages p).order - 1 in
      need (find_buddy (set_order p lower s) p lower) >>= λ buddy. free_area lower >>= λ list.
      ok (set_links (list_add_tail (page buddy) list) (set_order buddy lower (set_order p lower s)))

  unfoldable pub split_loop : (fuel p order : ℕ) → HypPool M → Run (HypPool M)
  split_loop zero p order s = out_of_fuel
  split_loop (suc fuel) p order s = elim (ltb order (s.pages p).order) [
    | true ↦ split_page p s >>= split_loop fuel p order
    | false ↦ ok s
  ]

  unfoldable pub hyp_extract_page : (p order : ℕ) → HypPool M → Run (Option ℕ × HypPool M)
  hyp_extract_page p order s =
      if (s.pages p).order == no_order || ltb (s.pages p).order order
      then ok (none, s)
      else (split_loop ((s.pages p).order + 1) p order (set_links (list_del_init (page p)) s)
          >>= λ t. ok (some p, set_refcount p 1 t))

  module _ (clear_page : ℕ → M → M) (offset : ℕ) where
    unfoldable pub clear_loop : (count i virt : ℕ) → M → M
    clear_loop zero i virt m = m
    clear_loop (suc count) i virt m =
        clear_loop count (i + 1) virt (clear_page ((virt + i * 2 ^ page_shift) % word) m)

    unfoldable pub clear_hyp_page : (p : ℕ) → HypPool M → HypPool M
    clear_hyp_page p s = record s {
      memory = clear_loop (2 ^ (s.pages p).order) 0 (hyp_page_to_virt offset p) s.memory;
    }

    -- `mask & HYP_GFP_ZERO`
    unfoldable pub clear_if : (mask : ℕ) → Option ℕ × HypPool M → Run (Option ℕ × HypPool M)
    clear_if mask (p, s) =
        if bit_and mask 1 == 0 then ok (p, s) else need p >>= λ q. ok (p, clear_hyp_page q s)

    unfoldable pub alloc_locked : (mask order : ℕ) → HypPool M → Run (Option ℕ × HypPool M)
    alloc_locked mask order s = elim (first_order (max_order + 2) order s.links) [
      | none ↦ ok (none, s)
      | some i ↦
          list_first_entry (head i) s.links >>= λ p. hyp_extract_page p order s >>= clear_if mask
    ]

    unfoldable pub hyp_alloc_pages : (mask order : ℕ) → HypPool M → Run (ℕ × HypPool M)
    hyp_alloc_pages mask order s = hyp_spin_lock s >>= λ t. alloc_locked mask order t >>= λ r.
        ok (elim r.0 [ none ↦ null | some p ↦ hyp_page_to_virt offset p ], hyp_spin_unlock r.1)
