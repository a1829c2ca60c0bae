-- ===== src/Buddy/Edit.antt =====
-- A page that is in no list of the buddy allocator changes.
use mathlib.Core.Path.{subst}
use refined_c.Base.{
  ℕ, ◌≤◌, ◌≡◌, ◌≢◌, refl, false, ◌==◌, arith, ap, sym, ◌∙◌, List, In, inl, inr, Bool-cases,
}
use refined_c.Buddy.{HypPool, HypPage, set_page}
use refined_c.Buddy.Invariant.{free, IsUnlisted, IsFiled, IsPool}

module _ {M : Type 0} (s : HypPool M) (first last : ℕ) (lists : ℕ → List ℕ)
    (pool : IsPool s first last lists) (p : ℕ) (none_of : IsUnlisted lists p) (v : HypPage)
    (idle : 1 ≤ free lists p → v.refcount ≡ 0) where
  other_page : (q : ℕ) → q ≢ p → (set_page p v s).pages q ≡ s.pages q
  other_page q ne = let e : (q == p) ≡ false = ground arith in rw e refl

  listed_page : (o q : ℕ) → o ≤ 11 → In q (lists o) → (set_page p v s).pages q ≡ s.pages q
  listed_page o q le i = other_page q (λ e. none_of o le (subst (λ t. In t (lists o)) e i))

  IsFiled-page :
      (q : ℕ) → IsFiled s.links s.pages lists q → IsFiled s.links (set_page p v s).pages lists q
  IsFiled-page q (inl (small, i)) =
      let e = ap (λ t. t.order) (listed_page ((s.pages q).order) q small i) in
      inl (omega (arith, e, small), subst (λ t. In q (lists t)) (sym e) i)
  IsFiled-page q (inr self) = inr self

  idle_page : (x : ℕ) → 1 ≤ free lists x → ((set_page p v s).pages x).refcount ≡ 0
  idle_page x covered = elim (Bool-cases (x == p)) [
    | inl e ↦
        let same : x ≡ p = ground arith in rw e (idle (subst (λ t. 1 ≤ free lists t) same covered))
    | inr other ↦ rw other (pool.idle x covered)
  ]

  pub set_page-IsPool : IsPool (set_page p v s) first last lists
  set_page-IsPool = record {
    range = record { starts = pool.range.starts; ends = pool.range.ends; fits = pool.range.fits };
    ring = pool.ring;
    order = λ o q le i. ap (λ t. t.order) (listed_page o q le i) ∙ pool.order o q le i;
    idle = idle_page;
    block = pool.block;
    filed = λ q start end. IsFiled-page q (pool.filed q start end);
    once = pool.once;
  }
