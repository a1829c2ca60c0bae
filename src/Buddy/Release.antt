-- ===== src/Buddy/Release.antt =====
-- hyp_put_page and hyp_get_page of linux/casestudies/page_alloc.c.
use mathlib.Core.Path.{subst}
use refined_c.Base.{
  ℕ, ◌+◌, ◌≤◌, ◌≡◌, ◌≢◌, refl, Bool, true, false, ◌==◌, arith, ◌∙◌, List, inl, inr, Bool-cases,
  ==_refl,
}
use refined_c.Base.Run.{Returns}
use refined_c.Buddy.{HypPool, set_refcount, hyp_virt_to_page, hyp_spin_lock, hyp_spin_unlock}
use refined_c.Buddy.Free.{put_locked, hyp_put_page}
use refined_c.Buddy.Cover.{inside, inside-first}
use refined_c.Buddy.Invariant.{IsBlock, free, IsUnlisted, IsApart, IsPool}
use refined_c.Buddy.Edit.{set_page-IsPool}
use refined_c.Buddy.Same.{IsPending, IsApart-IsUnlisted, edit_same, IsSettled}
use refined_c.Buddy.Attach.{hyp_attach_page-IsPool}

module _ {M : Type 0} where
  -- The lock is no part of the invariant.
  pub lock-IsPool :
      (s : HypPool M) (first last : ℕ) (lists : ℕ → List ℕ) (b : Bool)
      → IsPool s first last lists
      → IsPool (record s { lock = b }) first last lists
  lock-IsPool s first last lists b pool = record {
    range = record { starts = pool.range.starts; ends = pool.range.ends; fits = pool.range.fits };
    ring = pool.ring;
    order = pool.order;
    idle = pool.idle;
    block = pool.block;
    filed = pool.filed;
    once = pool.once;
  }

  pub set_refcount-IsPool :
      (s : HypPool M) (first last : ℕ) (lists : ℕ → List ℕ) (p n : ℕ)
      → IsPool s first last lists
      → IsUnlisted lists p
      → free lists p ≡ 0
      → IsPool (set_refcount p n s) first last lists
  unfolding set_refcount
  set_refcount-IsPool s first last lists p n pool none_of apart =
      set_page-IsPool s first last lists pool p none_of (record (s.pages p) { refcount = n })
        (λ c. absurd (omega (arith, c, apart)))

  pub set_refcount_self : (s : HypPool M) (p n : ℕ) → ((set_refcount p n s).pages p).refcount ≡ n
  unfolding set_refcount
  set_refcount_self s p n = rw (==_refl p) refl

  pub set_refcount-other :
      (s : HypPool M) (p n q : ℕ)
      → q ≢ p
      → ((set_refcount p n s).pages q).refcount ≡ (s.pages q).refcount
  unfolding set_refcount
  set_refcount-other s p n q ne = let e : (q == p) ≡ false = ground arith in rw e refl

  pub set_refcount-order :
      (s : HypPool M) (p n q : ℕ) → ((set_refcount p n s).pages q).order ≡ (s.pages q).order
  unfolding set_refcount
  set_refcount-order s p n q =
      edit_same s p q (λ t. t.order) (record (s.pages p) { refcount = n }) refl

  pub set_refcount-memory : (s : HypPool M) (p n : ℕ) → (set_refcount p n s).memory ≡ s.memory
  unfolding set_refcount
  set_refcount-memory s p n = refl

  pub set_refcount-in_pool :
      (s : HypPool M) (p n q : ℕ) → ((set_refcount p n s).pages q).in_pool ≡ (s.pages q).in_pool
  unfolding set_refcount
  set_refcount-in_pool s p n q =
      edit_same s p q (λ t. t.in_pool) (record (s.pages p) { refcount = n }) refl

  pub set_refcount-lock : (s : HypPool M) (p n : ℕ) → (set_refcount p n s).lock ≡ s.lock
  unfolding set_refcount
  set_refcount-lock s p n = refl

  zero_count :
      (s : HypPool M) (p order x : ℕ)
      → inside p order x ≡ 1
      → (x ≢ p → (s.pages x).refcount ≡ 0)
      → ((set_refcount p 0 s).pages x).refcount ≡ 0
  zero_count s p order x c idle = elim (Bool-cases (x == p)) [
    | inl e ↦
        let same : p ≡ x = ground arith in
        subst (λ t. ((set_refcount p 0 s).pages t).refcount ≡ 0) same (set_refcount_self s p 0)
    | inr other ↦ let ne : x ≢ p = ground arith in set_refcount-other s p 0 x ne ∙ idle ne
  ]

  -- On an unlocked, well-formed pool, hyp_put_page of the last reference to an aligned block of
  -- the pool, which no free block overlaps and whose other pages have no references, ends with a
  -- well-formed, unlocked pool. Exactly the pages of the block are free besides the former ones;
  -- the memory, the counts of the other pages, and the orders of the pages that are neither free
  -- nor in the block are as before.
  pub hyp_put_page-freed :
      (offset addr : ℕ) (s : HypPool M) (first last : ℕ) (lists : ℕ → List ℕ) (p order : ℕ)
      → hyp_virt_to_page offset addr ≡ p
      → s.lock ≡ false
      → (s.pages p).in_pool ≡ true
      → (s.pages p).refcount ≡ 1
      → (s.pages p).order ≡ order
      → order ≤ 11
      → IsPool s first last lists
      → IsBlock first last p order
      → IsApart lists p order
      → ((x : ℕ) → inside p order x ≡ 1 → x ≢ p → (s.pages x).refcount ≡ 0)
      → Returns (hyp_put_page offset addr s) (λ t.
        (lists' : ℕ → List ℕ) × IsPool t first last lists'
        × (t.lock ≡ false)
        × (t.memory ≡ s.memory)
        × ((t.pages p).refcount ≡ 0)
        × ((q : ℕ) → q ≢ p → (t.pages q).refcount ≡ (s.pages q).refcount)
        × ((x : ℕ) → free lists' x ≡ free lists x + inside p order x)
        × IsSettled s t lists p order)
  unfolding hyp_put_page put_locked hyp_spin_lock hyp_spin_unlock
  hyp_put_page-freed offset addr s first last lists p order here unlocked member one e small pool
        block apart idle =
      let locked : HypPool M = record s { lock = true } in
      let dropped = set_refcount p 0 locked in
      let none_of = IsApart-IsUnlisted lists p order apart in
      let pending : IsPending dropped first last lists p order = record {
        pool =
            set_refcount-IsPool locked first last lists p 0
              (lock-IsPool s first last lists true pool) none_of
              (omega (arith, apart p, inside-first p order));
        small = small;
        block = block;
        apart = apart;
        count = λ x c. zero_count locked p order x c (idle x c);
      } in
      let (t, run, (lists', pool', same, sum, settled)) =
        hyp_attach_page-IsPool dropped first last lists p order pending
          (set_refcount-order locked p 0 p ∙ e) in
      rw (here, member, unlocked, one, run)
        (
          record t { lock = false },
          refl,
          (
            lists',
            lock-IsPool t first last lists' false pool',
            refl,
            same.memory ∙ set_refcount-memory locked p 0,
            same.refcount p ∙ set_refcount_self locked p 0,
            λ q ne. same.refcount q ∙ set_refcount-other locked p 0 q ne,
            sum,
            λ q out. settled q out ∙ set_refcount-order locked p 0 q,
          ),
        )
