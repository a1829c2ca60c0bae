-- ===== src/Buddy.antt =====
-- The buddy allocator of linux/casestudies/page_alloc.c for one pool. A pointer into `hyp_vmemmap`
-- is the index of its page, the page frame number. `M` is the memory that `clear_page`, which is
-- declared and not defined there, works on; `offset` is `hyp_physvirt_offset`.
pub mod Free
pub mod Alloc
pub mod Setup
pub mod Find
pub mod Cover
pub mod Invariant
pub mod Relink
pub mod Steps
pub mod Leave
pub mod Edit
pub mod Merge
pub mod Same
pub mod Halves
pub mod Attach
pub mod Release
pub mod Split
pub mod Allocate
pub mod Clear
pub mod Hand
pub mod Ready
pub mod Start
pub mod Cycle
pub mod Coalesce
mod Examples
use Prim.Native.Nat.{bit_and, bit_xor}
use refined_c.Base.{
  ℕ, zero, suc, ◌+◌, ◌-◌, ◌*◌, ◌/◌, ◌%◌, ◌^◌, Bool, true, false, not, ◌==◌, ◌&&◌, ◌||◌, leb, ltb,
  Option, none, some, if◌then◌else◌,
}
use refined_c.Base.Int.{ℤ, pos, negsuc}
use refined_c.Base.Run.{Run, ok, fault, hang, out_of_fuel, check, need, ◌>>=◌, ◌>>◌}
use refined_c.ListHead.{
  Node, head, page, Links, init_list_head, list_add, list_add_tail, list_del_init, list_empty,
  list_first_entry,
}

abbrev pub word : ℕ
word = 2 ^ 64

abbrev pub page_size : ℕ
page_size = 4096

abbrev pub page_shift : ℕ
page_shift = 12

abbrev pub max_order : ℕ
max_order = 11

-- `UINT_MAX`
abbrev pub no_order : ℕ
no_order = 2 ^ 32 - 1

abbrev pub einval : ℕ
einval = 22

-- `struct hyp_page`; `in_pool` is whether its `pool` points to the pool, and not to NULL, and its
-- `node` is in the links.
pub record HypPage : Type 0 where
  pub refcount : ℕ
  pub order : ℕ
  pub in_pool : Bool

-- `struct hyp_pool`, with the pages, the links of all nodes, and the memory
pub record HypPool (M : Type 0) : Type 0 where
  pub lock : Bool
  pub links : Links
  pub range_start : ℕ
  pub range_end : ℕ
  pub pages : ℕ → HypPage
  pub memory : M

unfoldable pub hyp_phys_to_page : (phys : ℕ) → ℕ
hyp_phys_to_page phys = phys / 2 ^ page_shift

unfoldable pub hyp_page_to_phys : (p : ℕ) → ℕ
hyp_page_to_phys p = p * 2 ^ page_shift % word

-- A write to `free_area[order]`
unfoldable pub free_area : (order : ℕ) → Run Node
free_area order = if leb order max_order then ok (head order) else fault

-- `hyp_virt_to_page(addr)`
unfoldable pub hyp_virt_to_page : (offset addr : ℕ) → ℕ
hyp_virt_to_page offset addr = hyp_phys_to_page ((addr + offset) % word)

module _ {M : Type 0} where
  abbrev pub set_links : (Links → Links) → HypPool M → HypPool M
  set_links f s = record s { links = f s.links }

  abbrev pub set_page : ℕ → HypPage → HypPool M → HypPool M
  set_page p v s = record s { pages = λ q. if q == p then v else s.pages q }

  -- `p->order = order`
  unfoldable pub set_order : (p order : ℕ) → HypPool M → HypPool M
  set_order p order s = set_page p (record (s.pages p) { order = order }) s

  -- `p->refcount = refcount`
  unfoldable pub set_refcount : (p refcount : ℕ) → HypPool M → HypPool M
  set_refcount p refcount s = set_page p (record (s.pages p) { refcount = refcount }) s

  unfoldable pub hyp_spin_lock : HypPool M → Run (HypPool M)
  hyp_spin_lock s = if s.lock then hang else ok (record s { lock = true })

  unfoldable pub hyp_spin_unlock : HypPool M → HypPool M
  hyp_spin_unlock s = record s { lock = false }

  unfoldable pub find_buddy : HypPool M → (p order : ℕ) → Option ℕ
  find_buddy s p order =
      let addr = bit_xor (hyp_page_to_phys p) (page_size * 2 ^ order) in
      if ltb addr s.range_start || leb s.range_end addr then none else some (hyp_phys_to_page addr)
