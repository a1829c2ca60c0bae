-- ===== src/Buddy/Cycle.antt =====
-- hyp_alloc_pages and then hyp_put_page of linux/casestudies/page_alloc.c.
use mathlib.Core.Path.{subst}
use refined_c.Base.{
  ℕ, ◌*◌, ◌≤◌, ◌<◌, ◌≡◌, ◌≢◌, true, false, ◌==◌, arith, sym, ◌∙◌, List, inl, inr, Bool-cases,
}
use refined_c.Base.Run.{Returns}
use refined_c.Base.Words.{suc-ones}
use refined_c.Buddy.{HypPool, word, hyp_phys_to_page, hyp_page_to_phys, hyp_virt_to_page}
use refined_c.Buddy.Free.{hyp_put_page}
use refined_c.Buddy.Alloc.{hyp_page_to_virt}
use refined_c.Buddy.Cover.{inside, inside-first}
use refined_c.Buddy.Invariant.{free, IsPool}
use refined_c.Buddy.Release.{hyp_put_page-freed}
use refined_c.Buddy.Allocate.{IsTaken}

-- The page of a page's address is the page itself.
pub hyp_virt_to_page-hyp_page_to_virt :
    (offset p : ℕ) → p * 4096 < word → hyp_virt_to_page offset (hyp_page_to_virt offset p) ≡ p
unfolding hyp_virt_to_page hyp_page_to_virt hyp_phys_to_page hyp_page_to_phys
hyp_virt_to_page-hyp_page_to_virt offset p fits = omega arith

module _ {M : Type 0} where
  -- If a block of order at most 11 was taken from a well-formed pool to which its first page
  -- belongs, then hyp_put_page of its address ends with a well-formed, unlocked pool in which the
  -- same pages are free as before it was taken, and every page has the count that it had then.
  pub hyp_put_page-IsTaken :
      (offset p order : ℕ) (s t : HypPool M) (first last : ℕ) (lists lists' : ℕ → List ℕ)
      → IsPool s first last lists
      → IsTaken s t first last lists lists' p order
      → t.lock ≡ false
      → order ≤ 11
      → (s.pages p).in_pool ≡ true
      → Returns (hyp_put_page offset (hyp_page_to_virt offset p) t) (λ u.
        (lists'' : ℕ → List ℕ) × IsPool u first last lists''
        × (u.lock ≡ false)
        × (u.memory ≡ t.memory)
        × ((x : ℕ) → free lists'' x ≡ free lists x)
        × ((q : ℕ) → (u.pages q).refcount ≡ (s.pages q).refcount))
  hyp_put_page-IsTaken offset p order s t first last lists lists' pool taken unlocked small member =
      let fits : p * 4096 < word =
        omega (arith, taken.block.ends, suc-ones order, pool.range.fits) in
      let idle : (x : ℕ) → inside p order x ≡ 1 → (s.pages x).refcount ≡ 0 =
        λ x c. pool.idle x (omega (arith, taken.sum x, c)) in
      let (u, run, (lists'', end, lock, memory, zero_count, others, sum, settled)) =
        hyp_put_page-freed offset (hyp_page_to_virt offset p) t first last lists' p order
          (hyp_virt_to_page-hyp_page_to_virt offset p fits) unlocked (taken.members p ∙ member)
          taken.one taken.level small taken.pool taken.block
          (λ x. omega (arith, taken.sum x, pool.once x)) (λ x c ne. taken.others x ne ∙ idle x c) in
      let counts : (q : ℕ) → (u.pages q).refcount ≡ (s.pages q).refcount = λ q.
        elim (Bool-cases (q == p)) [
          | inl e ↦
              let same : p ≡ q = ground arith in
              subst (λ k. (u.pages k).refcount ≡ (s.pages k).refcount) same
                (zero_count ∙ sym (idle p (inside-first p order)))
          | inr other ↦ let ne : q ≢ p = ground arith in others q ne ∙ taken.others q ne
        ] in
      (u, run, (lists'', end, lock, memory, (λ x. sum x ∙ sym (taken.sum x)), counts))
