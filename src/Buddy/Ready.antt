-- ===== src/Buddy/Ready.antt =====
-- hyp_pool_init of linux/casestudies/page_alloc.c: the pool before its pages are attached.
use mathlib.Core.Path.{subst}
use refined_c.Base.{
  ℕ, zero, suc, ◌+◌, ◌≤◌, ◌<◌, ◌≡◌, ◌≢◌, refl, true, false, ◌==◌, leb, ltb, arith, sym, ◌∙◌, [],
  inl, inr, Bool-cases, ==_refl,
}
use refined_c.ListHead.{Node, head, page, Links, init_list_head, set_next, set_prev}
use refined_c.ListHead.Ring.{Edge, same_refl}
use refined_c.ListHead.Unlink.{init_list_head-next, init_list_head-prev, init_list_head_self}
use refined_c.Buddy.{HypPool, HypPage, set_links, set_page}
use refined_c.Buddy.Setup.{init_areas, init_pages, zero_pages}
use refined_c.Buddy.Find.{HasRange}
use refined_c.Buddy.Invariant.{IsPool, page_injective, page_ne}
use refined_c.Buddy.Same.{edit_same}
use refined_c.Buddy.Relink.{head_injective}

init_list_head-Edge : (g : Links) (n : Node) → Edge (init_list_head n g) n n
unfolding init_list_head set_next set_prev
init_list_head-Edge g n = record { to = rw (same_refl n) refl; from = rw (same_refl n) refl }

keep_Edge : (g : Links) (n m : Node) → m ≢ n → Edge g m m → Edge (init_list_head n g) m m
keep_Edge g n m ne edge = record {
  to = init_list_head-next g n m ne ∙ edge.to;
  from = init_list_head-prev g n m ne ∙ edge.from;
}

-- The heads that the loop over `free_area` has passed begin empty lists.
init_areas-kept :
    (count i o : ℕ) (g : Links)
    → o < i
    → Edge g (head o) (head o)
    → Edge (init_areas count i g) (head o) (head o)
unfolding init_areas
init_areas-kept zero i o g lt edge = edge
init_areas-kept (suc count) i o g lt edge =
    init_areas-kept count (i + 1) o (init_list_head (head i) g) (omega arith)
      (keep_Edge g (head i) (head o) (λ e. absurd (omega (arith, head_injective o i e))) edge)

pub init_areas-Edge :
    (count i o : ℕ) (g : Links)
    → i ≤ o
    → o < i + count
    → Edge (init_areas count i g) (head o) (head o)
unfolding init_areas
init_areas-Edge zero i o g low high = absurd (omega arith)
init_areas-Edge (suc count) i o g low high = elim (Bool-cases (i == o)) [
  | inl e ↦
      let same : i ≡ o = ground arith in
      init_areas-kept count (i + 1) o (init_list_head (head i) g) (omega arith) (
        subst (λ t. Edge (init_list_head (head i) g) (head t) (head t)) same
          (init_list_head-Edge g (head i)))
  | inr other ↦
      init_areas-Edge count (i + 1) o (init_list_head (head i) g) (ground arith) (omega arith)
]

module _ {M : Type 0} where
  -- What the loop over the pages does
  pub record IsInit (s t : HypPool M) (p count : ℕ) : Type 0 where
    pub heads : (o : ℕ) → Edge s.links (head o) (head o) → Edge t.links (head o) (head o)
    pub pages :
        (q : ℕ)
        → p ≤ q
        → q < p + count
        → (t.links.next (page q) ≡ page q) × ((t.pages q).in_pool ≡ true)
    pub others :
        (q : ℕ)
        → q < p
        → (t.links.next (page q) ≡ s.links.next (page q))
          × ((t.pages q).in_pool ≡ (s.pages q).in_pool)
    pub order : (q : ℕ) → (t.pages q).order ≡ (s.pages q).order
    pub refcount : (q : ℕ) → (t.pages q).refcount ≡ (s.pages q).refcount
    pub lock : t.lock ≡ s.lock
    pub memory : t.memory ≡ s.memory
    pub starts : t.range_start ≡ s.range_start
    pub ends : t.range_end ≡ s.range_end

  -- One turn of it
  abbrev init_page : (p : ℕ) → HypPool M → HypPool M
  init_page p s =
      set_links (init_list_head (page p)) (set_page p (record (s.pages p) { in_pool = true }) s)

  turn_head :
      (p : ℕ) (s : HypPool M) (o : ℕ)
      → Edge s.links (head o) (head o)
      → Edge (init_page p s).links (head o) (head o)
  turn_head p s o edge = keep_Edge s.links (page p) (head o) (λ e. page_ne p o (sym e)) edge

  turn_self :
      (p : ℕ) (s : HypPool M)
      → ((init_page p s).links.next (page p) ≡ page p) × (((init_page p s).pages p).in_pool ≡ true)
  turn_self p s = (init_list_head_self s.links (page p), rw (==_refl p) refl)

  turn_other :
      (p : ℕ) (s : HypPool M) (q : ℕ)
      → q ≢ p
      → ((init_page p s).links.next (page q) ≡ s.links.next (page q))
        × (((init_page p s).pages q).in_pool ≡ (s.pages q).in_pool)
  turn_other p s q ne =
      let e : (q == p) ≡ false = ground arith in
      (init_list_head-next s.links (page p) (page q) (λ f. ne (page_injective q p f)), rw e refl)

  turn_pages :
      (count p : ℕ) (s u : HypPool M)
      → IsInit (init_page p s) u (p + 1) count
      → (q : ℕ) → p ≤ q
      → q < p + suc count
      → (u.links.next (page q) ≡ page q) × ((u.pages q).in_pool ≡ true)
  turn_pages count p s u rest q low high = elim (Bool-cases (p == q)) [
    | inl e ↦
        let same : p ≡ q = ground arith in
        let (a, b) = rest.others p (omega arith) in
        let (c, d) = turn_self p s in
        subst (λ t. (u.links.next (page t) ≡ page t) × ((u.pages t).in_pool ≡ true)) same
          (a ∙ c, b ∙ d)
    | inr other ↦ rest.pages q (ground arith) (omega arith)
  ]

  pub init_pages-IsInit : (count p : ℕ) (s : HypPool M) → IsInit s (init_pages count p s) p count
  unfolding init_pages
  init_pages-IsInit zero p s = record {
    heads = λ o edge. edge;
    pages = λ q low high. absurd (omega arith);
    others = λ q lt. (refl, refl);
    order = λ q. refl;
    refcount = λ q. refl;
    lock = refl;
    memory = refl;
    starts = refl;
    ends = refl;
  }
  init_pages-IsInit (suc count) p s =
      let t = init_page p s in
      let value : HypPage = record (s.pages p) { in_pool = true } in
      let rest = init_pages-IsInit count (p + 1) t in
      record {
        heads = λ o edge. rest.heads o (turn_head p s o edge);
        pages = λ q low high. turn_pages count p s (init_pages count (p + 1) t) rest q low high;
        others = λ q lt.
            let (a, b) = rest.others q (omega arith) in
            let (c, d) = turn_other p s q (λ e. absurd (omega arith)) in (a ∙ c, b ∙ d);
        order = λ q. rest.order q ∙ edit_same s p q (λ v. v.order) value refl;
        refcount = λ q. rest.refcount q ∙ edit_same s p q (λ v. v.refcount) value refl;
        lock = rest.lock;
        memory = rest.memory;
        starts = rest.starts;
        ends = rest.ends;
      }

  pub zero_page :
      (first nr q : ℕ) (s : HypPool M)
      → first ≤ q
      → q < first + nr
      → (((zero_pages first nr s).pages q).order ≡ 0)
        × (((zero_pages first nr s).pages q).refcount ≡ 0)
  unfolding zero_pages
  zero_page first nr q s low high =
      let a : leb first q ≡ true = ground arith in
      let b : ltb q (first + nr) ≡ true = ground arith in (rw (a, b) refl, rw (a, b) refl)

  -- The pool that hyp_pool_init has set up before it attaches pages has no free pages.
  pub init_pages-IsPool :
      (first nr : ℕ) (s : HypPool M)
      → HasRange s first (first + nr)
      → ((o : ℕ) → o ≤ 11 → Edge s.links (head o) (head o))
      → IsPool (init_pages nr first (zero_pages first nr s)) first (first + nr) (λ o. [])
  unfolding zero_pages
  init_pages-IsPool first nr s range heads =
      let init = init_pages-IsInit nr first (zero_pages first nr s) in
      record {
        range = record {
          starts = init.starts ∙ range.starts;
          ends = init.ends ∙ range.ends;
          fits = range.fits;
        };
        ring = λ o le. init.heads o (heads o le);
        order = λ o p le i. elim i [ ];
        idle = λ x c. absurd (omega arith);
        block = λ o p le i. elim i [ ];
        filed = λ p low high. inr ((init.pages p low high).0, λ o le i. i);
        once = λ x. omega arith;
      }
