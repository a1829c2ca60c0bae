-- ===== src/Buddy/Start.antt =====
-- hyp_pool_init of linux/casestudies/page_alloc.c as a whole: the unused pages become free.
use mathlib.Core.Path.{subst}
use refined_c.Base.{
  ℕ, zero, suc, ◌+◌, ◌-◌, ◌*◌, ◌/◌, ◌%◌, ◌^◌, ◌≤◌, ◌<◌, ◌≡◌, refl, true, false, ◌==◌, ◌&&◌, leb,
  ltb, if◌then◌else◌, arith, ap, sym, ◌∙◌, List, [], inl, inr, Bool-cases,
}
use refined_c.Base.Int.{pos}
use refined_c.Base.Run.{ok, Returns}
use refined_c.Buddy.{HypPool, hyp_phys_to_page, word}
use refined_c.Buddy.Setup.{
  init_areas, init_pages, zero_pages, attach_pages, pages_size, hyp_pool_init,
}
use refined_c.Buddy.Find.{HasRange}
use refined_c.Buddy.Cover.{inside}
use refined_c.Buddy.Invariant.{free, IsPool}
use refined_c.Buddy.Same.{IsSame, IsSame-refl, IsSame-trans, IsPending}
use refined_c.Buddy.Attach.{hyp_attach_page-IsPool}
use refined_c.Buddy.Ready.{init_areas-Edge, zero_page, init_pages-IsInit, init_pages-IsPool}

-- 1 for the pages from `p` to before `last`
abbrev pub between : (p last x : ℕ) → ℕ
between p last x = if leb p x && ltb x last then 1 else 0

inside_one : (p x : ℕ) → inside p 0 x ≡ (if p == x then 1 else 0)
inside_one p x = ground arith

between-step : (p last x : ℕ) → p < last → between p last x ≡ inside p 0 x + between (p + 1) last x
between-step p last x lt = ground arith

none_free : (q n : ℕ) → free (λ o. []) q + n ≡ n
none_free q n = omega arith

module _ {M : Type 0} where
  -- Pages that wait to be attached
  pub record IsWaiting (s : HypPool M) (lists : ℕ → List ℕ) (p last : ℕ) : Type 0 where
    pub order : (q : ℕ) → p ≤ q → q < last → (s.pages q).order ≡ 0
    pub refcount : (q : ℕ) → p ≤ q → q < last → (s.pages q).refcount ≡ 0
    pub apart : (q : ℕ) → p ≤ q → q < last → free lists q ≡ 0

  pub page-IsPending :
      (s : HypPool M) (first last : ℕ) (lists : ℕ → List ℕ) (p : ℕ)
      → IsPool s first last lists
      → first ≤ p
      → p < last
      → IsWaiting s lists p last
      → IsPending s first last lists p 0
  page-IsPending s first last lists p pool low high waiting = record {
    pool = pool;
    small = omega arith;
    block = record { index = p; aligned = omega arith; starts = low; ends = omega arith };
    apart = λ x. elim (Bool-cases (p == x)) [
      | inl e ↦
          let same : p ≡ x = ground arith in
          let out = waiting.apart p (omega arith) high in
          let out' = ap (free lists) (sym same) ∙ out in rw (inside_one p x, e, out') (omega arith)
      | inr other ↦ rw (inside_one p x, other) (omega (arith, pool.once x))
    ];
    count = λ x c.
        let same : p ≡ x = ground (arith, c) in
        subst (λ t. (s.pages t).refcount ≡ 0) same (waiting.refcount p (omega arith) high);
  }

  attach_pages-IsPool :
      (count p : ℕ) (s : HypPool M) (first last : ℕ) (lists : ℕ → List ℕ)
      → IsPool s first last lists
      → first ≤ p
      → p + count ≡ last
      → IsWaiting s lists p last
      → Returns (attach_pages count p s) (λ t.
        (lists' : ℕ → List ℕ) × IsPool t first last lists'
        × IsSame s t
        × ((x : ℕ) → free lists' x ≡ free lists x + between p last x))
  unfolding attach_pages
  attach_pages-IsPool zero p s first last lists pool low end waiting =
      (s, refl, (lists, pool, IsSame-refl s, λ x. ground (arith, end)))
  attach_pages-IsPool (suc count) p s first last lists pool low end waiting =
      let pending = page-IsPending s first last lists p pool low (omega arith) waiting in
      let (t, run, (lists', pool', same, sum, settled)) =
        hyp_attach_page-IsPool s first last lists p 0 pending
          (waiting.order p (omega arith) (omega arith)) in
      let later : (q : ℕ) → p + 1 ≤ q → q < last → free lists q + inside p 0 q ≡ 0 =
        λ q above below. ground (arith, waiting.apart q (omega arith) below) in
      let next : IsWaiting t lists' (p + 1) last = record {
        order =
            λ q above below. settled q (later q above below) ∙ waiting.order q (omega arith) below;
        refcount = λ q above below. same.refcount q ∙ waiting.refcount q (omega arith) below;
        apart = λ q above below. sum q ∙ later q above below;
      } in
      let (u, rest, (lists'', pool'', same', sum')) =
        attach_pages-IsPool count (p + 1) t first last lists' pool' (omega arith) (omega arith)
          next in
      rw run (
        u,
        rest,
        (
          lists'',
          pool'',
          IsSame-trans s t u same same',
          λ x. omega (arith, sum' x, sum x, between-step p last x (omega arith)),
        ),
      )

  -- The pool before its pages are attached
  abbrev pub fresh : (first nr : ℕ) → HypPool M → HypPool M
  fresh first nr s = record s {
    lock = false;
    links = init_areas 12 0 s.links;
    range_start = first * 4096;
    range_end = (first * 4096 + pages_size nr) % word;
  }

  pub fresh-HasRange :
      (first nr : ℕ) (s : HypPool M)
      → nr < 2 ^ 20
      → (first + nr) * 4096 < word
      → HasRange (fresh first nr s) first (first + nr)
  fresh-HasRange first nr s small fits = record {
    starts = refl;
    ends = omega (arith, small, fits);
    fits = fits;
  }

  pub fresh-IsWaiting :
      (first nr used : ℕ) (s : HypPool M)
      → IsWaiting
          (init_pages nr first (zero_pages first nr s))
          (λ o. [])
          (first + used)
          (first + nr)
  fresh-IsWaiting first nr used s =
      let init = init_pages-IsInit nr first (zero_pages first nr s) in
      record {
        order = λ q low high. init.order q ∙ (zero_page first nr q s (omega arith) high).0;
        refcount = λ q low high. init.refcount q ∙ (zero_page first nr q s (omega arith) high).1;
        apart = λ q low high. omega arith;
      }

  zero_lock : (first nr : ℕ) (s : HypPool M) → (zero_pages first nr s).lock ≡ s.lock
  unfolding zero_pages
  zero_lock first nr s = refl

  init_run :
      (first nr used : ℕ) (s t : HypPool M)
      → nr < 2 ^ 20
      → used ≤ nr
      → (first + nr) * 4096 < word
      → attach_pages
          (nr - used)
          (first + used)
          (init_pages nr first (zero_pages first nr (fresh first nr s)))
        ≡ ok t
      → hyp_pool_init (first * 4096) nr used s ≡ ok (pos 0, t)
  unfolding hyp_pool_init hyp_phys_to_page
  init_run first nr used s t small le fits run =
      let a : (first * 4096 % 4096 == 0) ≡ true = ground arith in
      let b : first * 4096 / 4096 ≡ first = omega arith in
      let c : (first * 4096 + pages_size used) % word / 4096 ≡ first + used =
        omega (arith, small, le, fits) in
      rw (a, b, c, run) refl

  -- hyp_pool_init on a page-aligned range of less than 2 ^ 20 pages ends with 0 and a well-formed,
  -- unlocked pool in which exactly the unused pages are free. Every page of the range, used or not,
  -- belongs to the pool then and has no reference.
  pub hyp_pool_init-IsPool :
      (first nr used : ℕ) (s : HypPool M)
      → nr < 2 ^ 20
      → used ≤ nr
      → (first + nr) * 4096 < word
      → Returns (hyp_pool_init (first * 4096) nr used s) (λ r.
        (lists : ℕ → List ℕ) × (r.0 ≡ pos 0)
        × IsPool r.1 first (first + nr) lists
        × ((r.1).lock ≡ false)
        × ((q : ℕ) → free lists q ≡ between (first + used) (first + nr) q)
        × ((q : ℕ)
            → first ≤ q
            → q < first + nr
            → (((r.1).pages q).in_pool ≡ true) × (((r.1).pages q).refcount ≡ 0)))
  hyp_pool_init-IsPool first nr used s small le fits =
      let range = fresh-HasRange first nr s small fits in
      let pool =
        init_pages-IsPool first nr (fresh first nr s) range
          (λ o high. init_areas-Edge 12 0 o s.links (omega arith) (omega arith)) in
      let ready = init_pages nr first (zero_pages first nr (fresh first nr s)) in
      let waiting = fresh-IsWaiting first nr used (fresh first nr s) in
      let (t, run, (lists, end, same, sum)) =
        attach_pages-IsPool (nr - used) (first + used) ready first (first + nr) (λ o. []) pool
          (omega arith) (omega arith) waiting in
      let init = init_pages-IsInit nr first (zero_pages first nr (fresh first nr s)) in
      (
        (pos 0, t),
        init_run first nr used s t small le fits run,
        (
          lists,
          refl,
          end,
          same.lock ∙ init.lock ∙ zero_lock first nr (fresh first nr s),
          (λ q. sum q ∙ none_free q (between (first + used) (first + nr) q)),
          λ q low high. (
            same.in_pool q ∙ (init.pages q low high).1,
            same.refcount q
                ∙ (init.refcount q ∙ (zero_page first nr q (fresh first nr s) low high).1),
          ),
        ),
      )
