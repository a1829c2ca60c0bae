-- ===== src/Buddy/Steps.antt =====
-- The steps of the buddy allocator: a block leaves its list, a block enters a list, and a page that
-- is in no list changes.
use mathlib.Core.Path.{subst}
use refined_c.Base.{
  ℕ, ◌+◌, ◌≤◌, ◌≡◌, ◌≢◌, refl, ◌==◌, arith, ap, sym, ◌∙◌, List, [], ◌∷◌, ◌++◌, map, In, map-In,
  map-append, In-append, In-append_left, In-append_right, inl, inr, Bool-cases,
}
use refined_c.ListHead.{Node, head, page, list_add, list_add_tail}
use refined_c.ListHead.Ring.{
  Chain, list_add-Chain, list_add_tail-Chain, list_add-other, list_add_tail-other,
}
use refined_c.Buddy.{HypPool, set_links}
use refined_c.Buddy.Cover.{inside, count, put, count-append, cover-put}
use refined_c.Buddy.Invariant.{
  IsBlock, free, IsUnlisted, IsApart, IsPool, IsPool-Distinct, page_injective, page_ne,
}
use refined_c.Buddy.Relink.{IsRelinked, relink-IsPool}

module _ {M : Type 0} (s : HypPool M) (first last : ℕ) (lists : ℕ → List ℕ)
    (pool : IsPool s first last lists) where
  -- A page in no list is no node of a ring.
  fresh_node :
      (o p : ℕ)
      → o ≤ 11
      → IsUnlisted lists p
      → (n : Node) → In n (head o ∷ map page (lists o))
      → n ≢ page p
  fresh_node o p le none_of n (inl f) = λ e. page_ne p o (sym e ∙ f)
  fresh_node o p le none_of n (inr m) = λ e.
      let (r, f, here) = map-In page n (lists o) m in
      none_of o le (subst (λ t. In t (lists o)) (page_injective r p (sym f ∙ e)) here)

  pub free-enter :
      (o p : ℕ) (ps : List ℕ) (x : ℕ)
      → o ≤ 11
      → count o ps x ≡ count o (lists o) x + inside p o x
      → free (put o ps lists) x ≡ free lists x + inside p o x
  free-enter o p ps x le e = omega (arith, cover-put 12 o ps lists x (omega arith), e)

  enter_idle :
      (o p : ℕ) (ps : List ℕ) (x : ℕ)
      → o ≤ 11
      → ((x : ℕ) → inside p o x ≡ 1 → (s.pages x).refcount ≡ 0)
      → count o ps x ≡ count o (lists o) x + inside p o x
      → 1 ≤ free (put o ps lists) x
      → (s.pages x).refcount ≡ 0
  enter_idle o p ps x le mine e covered =
      let sum = free-enter o p ps x le e in
      elim (Bool-cases (inside p o x == 1)) [
        | inl one ↦ mine x (ground arith)
        | inr out ↦ pool.idle x (ground (arith, sum, covered, out))
      ]

  -- A page's block enters the list of its order, at the front.
  pub enter-IsPool :
      (o p : ℕ)
      → o ≤ 11
      → IsUnlisted lists p
      → (s.pages p).order ≡ o
      → ((x : ℕ) → inside p o x ≡ 1 → (s.pages x).refcount ≡ 0)
      → IsBlock first last p o
      → IsApart lists p o
      → IsPool (set_links (list_add (page p) (head o)) s) first last (put o (p ∷ lists o) lists)
  enter-IsPool o p le none_of same zero_count block apart =
      let ring = pool.ring o le in
      let fresh = fresh_node o p le none_of in
      let new : IsRelinked s first last lists pool o p (p ∷ lists o)
          (list_add (page p) (head o) s.links) =
        record {
          ring =
              list_add-Chain s.links (head o) (map page (lists o)) (page p)
                (IsPool-Distinct s first last lists pool o le) fresh ring;
          other = λ n out ne.
              list_add-other s.links (head o) (map page (lists o)) (page p) n ring out ne;
          away = λ j small differ. none_of j small;
          old = λ q i. elim i [ inl e ↦ inr e | inr j ↦ inl j ];
          kept = λ q i ne. inr i;
          order = λ i. same;
          idle = λ x c. enter_idle o p (p ∷ lists o) x le zero_count (omega arith) c;
          block = λ i. block;
          gone = inl (inl refl);
          once = λ x. omega (arith, apart x, free-enter o p (p ∷ lists o) x le (omega arith));
        } in
      relink-IsPool s first last lists pool o p (p ∷ lists o) (list_add (page p) (head o) s.links)
        le new

  -- The same at the end of the list.
  pub enter_tail-IsPool :
      (o p : ℕ)
      → o ≤ 11
      → IsUnlisted lists p
      → (s.pages p).order ≡ o
      → ((x : ℕ) → inside p o x ≡ 1 → (s.pages x).refcount ≡ 0)
      → IsBlock first last p o
      → IsApart lists p o
      → IsPool
          (set_links (list_add_tail (page p) (head o)) s)
          first
          last
          (put o (lists o ++ p ∷ []) lists)
  enter_tail-IsPool o p le none_of same zero_count block apart =
      let ring = pool.ring o le in
      let fresh = fresh_node o p le none_of in
      let names = map-append page (lists o) (p ∷ []) in
      let sum : (x : ℕ) → count o (lists o ++ p ∷ []) x ≡ count o (lists o) x + inside p o x =
        λ x. omega (arith, count-append o (lists o) (p ∷ []) x) in
      let new : IsRelinked s first last lists pool o p (lists o ++ p ∷ [])
          (list_add_tail (page p) (head o) s.links) =
        record {
          ring =
              subst (λ t. Chain (list_add_tail (page p) (head o) s.links) (head o) t (head o))
                (sym names)
                (list_add_tail-Chain s.links (head o) (map page (lists o)) (page p)
                  (IsPool-Distinct s first last lists pool o le) fresh ring);
          other = λ n out ne.
              list_add_tail-other s.links (head o) (map page (lists o)) (page p) n ring out ne;
          away = λ j small differ. none_of j small;
          old = λ q i. elim (In-append q (lists o) (p ∷ []) i) [
            | inl j ↦ inl j
            | inr (inl e) ↦ inr e
            | inr (inr j) ↦ elim j [ ]
          ];
          kept = λ q i ne. In-append_left q (lists o) (p ∷ []) i;
          order = λ i. same;
          idle = λ x c. enter_idle o p (lists o ++ p ∷ []) x le zero_count (sum x) c;
          block = λ i. block;
          gone = inl (In-append_right p (lists o) (p ∷ []) (inl refl));
          once = λ x. omega (arith, apart x, free-enter o p (lists o ++ p ∷ []) x le (sum x));
        } in
      relink-IsPool s first last lists pool o p (lists o ++ p ∷ [])
        (list_add_tail (page p) (head o) s.links) le new

  -- A block leaves its list.
  pub free-leave :
      (o p : ℕ) (xs ys : List ℕ) (x : ℕ)
      → o ≤ 11
      → lists o ≡ xs ++ p ∷ ys
      → free (put o (xs ++ ys) lists) x + inside p o x ≡ free lists x
  free-leave o p xs ys x le e =
      let all = ap (λ t. count o t x) e ∙ count-append o xs (p ∷ ys) x in
      omega (arith, cover-put 12 o (xs ++ ys) lists x (omega arith), count-append o xs ys x, all)
