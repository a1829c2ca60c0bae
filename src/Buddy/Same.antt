-- ===== src/Buddy/Same.antt =====
-- What a step of the buddy allocator of linux/casestudies/page_alloc.c leaves alone, and blocks on
-- their way into the pool.
use mathlib.Core.Path.{subst}
use refined_c.Base.{
  ℕ, ◌+◌, ◌≤◌, ◌≡◌, ◌≢◌, refl, false, ◌==◌, arith, ◌∙◌, List, inl, inr, Bool-cases,
}
use refined_c.Buddy.{HypPool, HypPage, set_page, set_order}
use refined_c.Buddy.Cover.{inside, inside-first}
use refined_c.Buddy.Invariant.{IsBlock, free, IsUnlisted, IsApart, IsPool, apart-In}

pub IsApart-IsUnlisted :
    (lists : ℕ → List ℕ) (p order : ℕ) → IsApart lists p order → IsUnlisted lists p
IsApart-IsUnlisted lists p order apart o le i =
    apart-In lists p order o p apart (inside-first p order) le i

module _ {M : Type 0} where
  -- What a call leaves alone: the lock, the memory, and the counts of references.
  pub record IsSame (s t : HypPool M) : Type 0 where
    pub lock : t.lock ≡ s.lock
    pub memory : t.memory ≡ s.memory
    pub refcount : (q : ℕ) → (t.pages q).refcount ≡ (s.pages q).refcount
    pub in_pool : (q : ℕ) → (t.pages q).in_pool ≡ (s.pages q).in_pool

  -- A block on its way into the pool
  pub record IsPending (s : HypPool M) (first last : ℕ) (lists : ℕ → List ℕ) (p order : ℕ)
      : Type 0 where
    pub pool : IsPool s first last lists
    pub small : order ≤ 11
    pub block : IsBlock first last p order
    pub apart : IsApart lists p order
    pub count : (x : ℕ) → inside p order x ≡ 1 → (s.pages x).refcount ≡ 0

  -- Pages that are neither free nor in the block keep their order.
  abbrev pub IsSettled : (s t : HypPool M) (lists : ℕ → List ℕ) (p order : ℕ) → Type 0
  IsSettled s t lists p order =
      (q : ℕ) → free lists q + inside p order q ≡ 0 → (t.pages q).order ≡ (s.pages q).order

  -- A field that a new value leaves alone
  pub edit_same :
      {A : Type 0} (s : HypPool M) (p q : ℕ) (field : HypPage → A) (v : HypPage)
      → field v ≡ field (s.pages p)
      → field ((set_page p v s).pages q) ≡ field (s.pages q)
  edit_same s p q field v e = elim (Bool-cases (q == p)) [
    | inl f ↦
        let same : p ≡ q = ground arith in rw f (subst (λ t. field v ≡ field (s.pages t)) same e)
    | inr other ↦ rw other refl
  ]

  pub set_order-IsSame : (s : HypPool M) (p order : ℕ) → IsSame s (set_order p order s)
  unfolding set_order
  set_order-IsSame s p order = record {
    lock = refl;
    memory = refl;
    refcount = λ q. edit_same s p q (λ t. t.refcount) (record (s.pages p) { order = order }) refl;
    in_pool = λ q. edit_same s p q (λ t. t.in_pool) (record (s.pages p) { order = order }) refl;
  }

  pub set_order-other :
      (s : HypPool M) (p order q : ℕ)
      → q ≢ p
      → ((set_order p order s).pages q).order ≡ (s.pages q).order
  unfolding set_order
  set_order-other s p order q ne = let e : (q == p) ≡ false = ground arith in rw e refl

  pub IsSame-refl : (s : HypPool M) → IsSame s s
  IsSame-refl s = record { lock = refl; memory = refl; refcount = λ q. refl; in_pool = λ q. refl }

  pub IsSame-trans : (s t u : HypPool M) → IsSame s t → IsSame t u → IsSame s u
  IsSame-trans s t u a b = record {
    lock = b.lock ∙ a.lock;
    memory = b.memory ∙ a.memory;
    refcount = λ q. b.refcount q ∙ a.refcount q;
    in_pool = λ q. b.in_pool q ∙ a.in_pool q;
  }
