-- ===== src/Buddy/Invariant.antt =====
-- The invariant of a pool: the ring of each order holds the blocks of that order, which lie in the
-- pool and do not overlap.
use mathlib.Core.Path.{subst}
use refined_c.Base.{
  ℕ, ◌+◌, ◌*◌, ◌^◌, ◌≤◌, ◌<◌, ◌≡◌, ◌≢◌, arith, sym, ◌∙◌, List, [], ◌∷◌, map, In, map-In, ◌⊎◌, inl,
  inr,
}
use refined_c.ListHead.{Node, head, page, Links}
use refined_c.ListHead.Ring.{Chain, Distinct}
use refined_c.Buddy.{HypPool, HypPage}
use refined_c.Buddy.Find.{HasRange}
use refined_c.Buddy.Cover.{inside, count, cover, count-In, cover-In, inside-first, count_le}

-- A block of the pages from `first` to before `last`, aligned to its size
pub record IsBlock (first last p order : ℕ) : Type 0 where
  pub index : ℕ
  pub aligned : p ≡ index * 2 ^ order
  pub starts : first ≤ p
  pub ends : p + 2 ^ order ≤ last

-- The free blocks of all orders
abbrev pub free : (lists : ℕ → List ℕ) (x : ℕ) → ℕ
free lists x = cover 12 lists x

-- In no list
abbrev pub IsUnlisted : (lists : ℕ → List ℕ) (p : ℕ) → Type 0
IsUnlisted lists p = (o : ℕ) → o ≤ 11 → In p (lists o) → ⊥

-- The page is in the list of its order, or in none, and its node then points to itself.
abbrev pub IsFiled : (g : Links) (pages : ℕ → HypPage) (lists : ℕ → List ℕ) (p : ℕ) → Type 0
IsFiled g pages lists p =
    (((pages p).order ≤ 11) × In p (lists ((pages p).order)))
    ⊎ ((g.next (page p) ≡ page p) × IsUnlisted lists p)

-- A block beside the free ones
abbrev pub IsApart : (lists : ℕ → List ℕ) (p order : ℕ) → Type 0
IsApart lists p order = (x : ℕ) → free lists x + inside p order x ≤ 1

-- The first page of a block that is apart is in no list.
pub apart-In :
    (lists : ℕ → List ℕ) (p order o q : ℕ)
    → IsApart lists p order
    → inside p order q ≡ 1
    → o ≤ 11
    → In q (lists o)
    → ⊥
apart-In lists p order o q apart covered le i =
    let once = apart q in
    let seen = cover-In 12 o q lists q (omega arith) i in
    let one = inside-first q o in absurd (omega arith)

pub page_injective : (a b : ℕ) → page a ≡ page b → a ≡ b
page_injective a b e = cc

pub page_ne : (a b : ℕ) → page a ≢ head b
page_ne a b e = absurd cc

repeated :
    (o p : ℕ) (ps : List ℕ) → ((x : ℕ) → count o (p ∷ ps) x ≤ 1) → In (page p) (map page ps) → ⊥
repeated o p ps once i =
    let (q, e, j) = map-In page (page p) ps i in
    let twice = count-In o p ps p (subst (λ t. In t ps) (sym (page_injective p q e)) j) in
    let one = inside-first p o in let bound = once p in absurd (omega arith)

lists-Distinct : (o : ℕ) (ps : List ℕ) → ((x : ℕ) → count o ps x ≤ 1) → Distinct (map page ps)
lists-Distinct o [] once = tt
lists-Distinct o (p ∷ ps) once = (
  λ n i e. repeated o p ps once (subst (λ t. In t (map page ps)) e i),
  lists-Distinct o ps (λ x. omega (arith, once x)),
)

head_page : (o : ℕ) (ps : List ℕ) (n : Node) → In n (map page ps) → n ≢ head o
head_page o [] n i = elim i [ ]
head_page o (p ∷ ps) n (inl e) = λ f. absurd (page_ne p o (sym e ∙ f))
head_page o (p ∷ ps) n (inr i) = head_page o ps n i

module _ {M : Type 0} where
  pub record IsPool (s : HypPool M) (first last : ℕ) (lists : ℕ → List ℕ) : Type 0 where
    pub range : HasRange s first last
    pub ring : (o : ℕ) → o ≤ 11 → Chain s.links (head o) (map page (lists o)) (head o)
    pub order : (o p : ℕ) → o ≤ 11 → In p (lists o) → (s.pages p).order ≡ o
    pub idle : (x : ℕ) → 1 ≤ free lists x → (s.pages x).refcount ≡ 0
    pub block : (o p : ℕ) → o ≤ 11 → In p (lists o) → IsBlock first last p o
    pub filed : (p : ℕ) → first ≤ p → p < last → IsFiled s.links s.pages lists p
    pub once : (x : ℕ) → free lists x ≤ 1

  -- The nodes of a ring are different.
  pub IsPool-Distinct :
      (s : HypPool M) (first last : ℕ) (lists : ℕ → List ℕ)
      → IsPool s first last lists
      → (o : ℕ) → o ≤ 11
      → Distinct (head o ∷ map page (lists o))
  IsPool-Distinct s first last lists pool o le = (
    head_page o (lists o),
    lists-Distinct o (lists o)
        (λ x. omega (arith, pool.once x, count_le 12 o lists x (omega arith))),
  )
