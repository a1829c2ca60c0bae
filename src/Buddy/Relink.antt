-- ===== src/Buddy/Relink.antt =====
-- What keeps a pool's invariant: new links for one ring, and a new value for a page in no list.
use mathlib.Core.Path.{subst}
use refined_c.Base.{
  ℕ, ◌≤◌, ◌<◌, ◌≡◌, ◌≢◌, refl, false, ◌==◌, if◌then◌else◌, arith, sym, ◌∙◌, List, ◌∷◌, map, In,
  map-In, ◌⊎◌, inl, inr, Bool-cases, ==_refl,
}
use refined_c.ListHead.{Node, head, page, Links}
use refined_c.ListHead.Ring.{Chain, keep-Chain}
use refined_c.Buddy.{HypPool}
use refined_c.Buddy.Cover.{put}
use refined_c.Buddy.Invariant.{IsBlock, free, IsUnlisted, IsFiled, IsPool, page_injective, page_ne}

-- New links `g` and a new list `ps` for order `o`, in which at most `p` is new or gone.
pub head_injective : (a b : ℕ) → head a ≡ head b → a ≡ b
head_injective a b e = cc

put_self : (o : ℕ) (ps : List ℕ) (lists : ℕ → List ℕ) → put o ps lists o ≡ ps
put_self o ps lists = rw (==_refl o) refl

put_other : (o j : ℕ) (ps : List ℕ) (lists : ℕ → List ℕ) → j ≢ o → put o ps lists j ≡ lists j
put_other o j ps lists h = let e : (j == o) ≡ false = ground arith in rw e refl

module _ {M : Type 0} (s : HypPool M) (first last : ℕ) (lists : ℕ → List ℕ)
    (pool : IsPool s first last lists) where
  -- Relinking the ring of order `o`, where at most `p` is new or gone.
  pub record IsRelinked (o p : ℕ) (ps : List ℕ) (g : Links) : Type 0 where
    pub ring : Chain g (head o) (map page ps) (head o)
    pub other :
        (n : Node)
        → ((k : Node) → In k (head o ∷ map page (lists o)) → k ≢ n)
        → n ≢ page p
        → (g.next n ≡ s.links.next n) × (g.prev n ≡ s.links.prev n)
    pub away : (j : ℕ) → j ≤ 11 → j ≢ o → In p (lists j) → ⊥
    pub old : (q : ℕ) → In q ps → In q (lists o) ⊎ (q ≡ p)
    pub kept : (q : ℕ) → In q (lists o) → q ≢ p → In q ps
    pub order : In p ps → (s.pages p).order ≡ o
    pub idle : (x : ℕ) → 1 ≤ free (put o ps lists) x → (s.pages x).refcount ≡ 0
    pub block : In p ps → IsBlock first last p o
    pub gone : In p ps ⊎ ((g.next (page p) ≡ page p) × (In p ps → ⊥))
    pub once : (x : ℕ) → free (put o ps lists) x ≤ 1

  module _ (o p : ℕ) (ps : List ℕ) (g : Links) (le : o ≤ 11) (new : IsRelinked o p ps g) where
    -- A property of the blocks in the old lists and of `p` holds of the new lists.
    all_lists :
        (Good : ℕ → ℕ → Type 0)
        → ((j q : ℕ) → j ≤ 11 → In q (lists j) → Good j q)
        → (In p ps → Good o p)
        → (j q : ℕ) → j ≤ 11
        → In q (put o ps lists j)
        → Good j q
    all_lists Good before mine j q small i = elim (Bool-cases (j == o)) [
      | inl e ↦
          let same : o ≡ j = ground arith in
          let here : In q ps = subst (λ t. In q (if t then ps else lists j)) e i in
          elim (new.old q here) [
            | inl was ↦ before j q small (subst (λ t. In q (lists t)) same was)
            | inr f ↦
                subst (λ t. Good t q) same
                  (subst (Good o) (sym f) (mine (subst (λ t. In t ps) f here)))
          ]
      | inr other ↦ before j q small (subst (λ t. In q (if t then ps else lists j)) other i)
    ]

    page_apart :
        (j q : ℕ)
        → j ≤ 11
        → j ≢ o
        → In q (lists j)
        → (k : Node) → In k (head o ∷ map page (lists o))
        → k ≢ page q
    page_apart j q small differ i k (inl f) = λ e. page_ne q o (sym e ∙ f)
    page_apart j q small differ i k (inr m) = λ e.
        let (r, f, here) = map-In page k (lists o) m in
        let same : q ≡ r = page_injective q r (sym e ∙ f) in
        differ (
          sym (pool.order j q small i)
          ∙ pool.order o q le (subst (λ t. In t (lists o)) (sym same) here))

    head_apart : (j : ℕ) → j ≢ o → (k : Node) → In k (head o ∷ map page (lists o)) → k ≢ head j
    head_apart j differ k (inl f) = λ e. differ (head_injective j o (sym e ∙ f))
    head_apart j differ k (inr m) =
        λ e. let (r, f, here) = map-In page k (lists o) m in page_ne r j (sym f ∙ e)

    node_apart :
        (j : ℕ)
        → j ≤ 11
        → j ≢ o
        → (n : Node) → In n (head j ∷ map page (lists j))
        → ((k : Node) → In k (head o ∷ map page (lists o)) → k ≢ n) × (n ≢ page p)
    node_apart j small differ n (inl f) =
        (λ k i e. head_apart j differ k i (e ∙ f), λ e. page_ne p j (sym e ∙ f))
    node_apart j small differ n (inr m) =
        let (r, f, here) = map-In page n (lists j) m in
        (
          λ k i e. page_apart j r small differ here k i (e ∙ f),
          λ e.
              new.away j small differ
                (subst (λ t. In t (lists j)) (page_injective r p (sym f ∙ e)) here),
        )

    other_node :
        (j : ℕ)
        → j ≤ 11
        → j ≢ o
        → (n : Node) → In n (head j ∷ map page (lists j))
        → (g.next n ≡ s.links.next n) × (g.prev n ≡ s.links.prev n)
    other_node j small differ n i =
        let (apart, ne) = node_apart j small differ n i in new.other n apart ne

    ring_put : (j : ℕ) → j ≤ 11 → Chain g (head j) (map page (put o ps lists j)) (head j)
    ring_put j small = elim (Bool-cases (j == o)) [
      | inl e ↦
          let same : j ≡ o = ground arith in
          subst (λ t. Chain g (head j) (map page (if t then ps else lists j)) (head j)) (sym e)
            (subst (λ t. Chain g (head t) (map page ps) (head t)) (sym same) new.ring)
      | inr other ↦
          let differ : j ≢ o = ground arith in
          subst (λ t. Chain g (head j) (map page (if t then ps else lists j)) (head j)) (sym other)
            (keep-Chain s.links g (head j) (map page (lists j)) (head j)
              (λ n i. (other_node j small differ n i).0) (λ n i. (other_node j small differ n i).1)
              (pool.ring j small))
    ]

    -- Membership in the new lists
    In-put_self : (q j : ℕ) → j ≡ o → In q ps → In q (put o ps lists j)
    In-put_self q j e i =
        subst (λ t. In q (put o ps lists t)) (sym e) (subst (In q) (sym (put_self o ps lists)) i)

    In-put_other : (q j : ℕ) → j ≢ o → In q (lists j) → In q (put o ps lists j)
    In-put_other q j h i = subst (In q) (sym (put_other o j ps lists h)) i

    pub unlisted :
        (q : ℕ)
        → (In q ps → ⊥)
        → ((j : ℕ) → j ≤ 11 → j ≢ o → In q (lists j) → ⊥)
        → IsUnlisted (put o ps lists) q
    unlisted q here away j small i = elim (Bool-cases (j == o)) [
      | inl e ↦ here (subst (λ t. In q (if t then ps else lists j)) e i)
      | inr other ↦
          away j small (ground arith) (subst (λ t. In q (if t then ps else lists j)) other i)
    ]

    IsFiled-self : IsFiled g s.pages (put o ps lists) p
    IsFiled-self = elim new.gone [
      | inl here ↦
          let e = new.order here in
          inl (omega (arith, e, le), In-put_self p ((s.pages p).order) e here)
      | inr (self, out) ↦ inr (self, unlisted p out new.away)
    ]

    IsFiled-other :
        (q : ℕ) → q ≢ p → IsFiled s.links s.pages lists q → IsFiled g s.pages (put o ps lists) q
    IsFiled-other q differ (inl (small, i)) = elim (Bool-cases ((s.pages q).order == o)) [
      | inl e ↦
          let same : (s.pages q).order ≡ o = ground arith in
          inl (
            small,
            In-put_self q ((s.pages q).order) same
                (new.kept q (subst (λ t. In q (lists t)) same i) differ),
          )
      | inr other ↦ inl (small, In-put_other q ((s.pages q).order) (ground arith) i)
    ]
    IsFiled-other q differ (inr (self, none_of)) =
        let apart : (k : Node) → In k (head o ∷ map page (lists o)) → k ≢ page q = λ k i e. elim i [
          | inl f ↦ page_ne q o (sym e ∙ f)
          | inr m ↦
              let (r, f, here) = map-In page k (lists o) m in
              none_of o le (subst (λ t. In t (lists o)) (page_injective r q (sym f ∙ e)) here)
        ] in
        inr (
          (new.other (page q) apart (λ e. differ (page_injective q p e))).0 ∙ self,
          unlisted q (λ i. elim (new.old q i) [ inl was ↦ none_of o le was | inr f ↦ differ f ])
              (λ j small h i. none_of j small i),
        )

    IsFiled-put : (q : ℕ) → first ≤ q → q < last → IsFiled g s.pages (put o ps lists) q
    IsFiled-put q start end = elim (Bool-cases (q == p)) [
      | inl e ↦
          let same : p ≡ q = ground arith in
          subst (IsFiled g s.pages (put o ps lists)) same IsFiled-self
      | inr other ↦ IsFiled-other q (ground arith) (pool.filed q start end)
    ]

    pub relink-IsPool : IsPool (record s { links = g }) first last (put o ps lists)
    relink-IsPool = record {
      range = record { starts = pool.range.starts; ends = pool.range.ends; fits = pool.range.fits };
      ring = ring_put;
      order = all_lists (λ j q. (s.pages q).order ≡ j) pool.order new.order;
      idle = new.idle;
      block = all_lists (λ j q. IsBlock first last q j) pool.block new.block;
      filed = IsFiled-put;
      once = new.once;
    }
