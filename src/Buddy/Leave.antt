-- ===== src/Buddy/Leave.antt =====
-- A block leaves the list of its order in the buddy allocator.
use mathlib.Core.Path.{subst}
use refined_c.Base.{
  ℕ, ◌≤◌, ◌≡◌, ◌≢◌, refl, false, arith, ap, sym, ◌∙◌, List, ◌∷◌, ◌++◌, map, In, In-map, map-append,
  In-append, In-append_left, In-append_right, inl, inr,
}
use refined_c.ListHead.{Node, head, page, list_del_init, list_empty}
use refined_c.ListHead.Ring.{Chain, Distinct}
use refined_c.ListHead.Unlink.{list_del_init-Chain, list_del_init-other, apart_from, list_empty-In}
use refined_c.Buddy.{HypPool, set_links}
use refined_c.Buddy.Cover.{put}
use refined_c.Buddy.Invariant.{IsUnlisted, IsPool, IsPool-Distinct}
use refined_c.Buddy.Relink.{IsRelinked, relink-IsPool, unlisted}
use refined_c.Buddy.Steps.{free-leave}

module _ {M : Type 0} (s : HypPool M) (first last : ℕ) (lists : ℕ → List ℕ)
    (pool : IsPool s first last lists) (o p : ℕ) (xs ys : List ℕ) (le : o ≤ 11)
    (split : lists o ≡ xs ++ p ∷ ys) where
  names : map page (lists o) ≡ map page xs ++ page p ∷ map page ys
  names = ap (map page) split ∙ map-append page xs (p ∷ ys)

  ring_split : Chain s.links (head o) (map page xs ++ page p ∷ map page ys) (head o)
  ring_split = subst (λ t. Chain s.links (head o) t (head o)) names (pool.ring o le)

  Distinct-split : Distinct (head o ∷ map page xs ++ page p ∷ map page ys)
  Distinct-split =
      subst (λ t. Distinct (head o ∷ t)) names (IsPool-Distinct s first last lists pool o le)

  listed : In p (lists o)
  listed = subst (In p) (sym split) (In-append_right p xs (p ∷ ys) (inl refl))

  others : (q : ℕ) → In q (xs ++ ys) → q ≢ p
  others q i e =
      let here : In (page q) (map page xs ++ map page ys) =
        subst (In (page q)) (map-append page xs ys) (In-map page q (xs ++ ys) i) in
      apart_from (map page xs) (page p) (map page ys) Distinct-split.1 (page q) here (ap page e)

  old_member : (q : ℕ) → In q (xs ++ ys) → In q (lists o)
  old_member q i = subst (In q) (sym split) (elim (In-append q xs ys i) [
    | inl j ↦ In-append_left q xs (p ∷ ys) j
    | inr j ↦ In-append_right q xs (p ∷ ys) (inr j)
  ])

  kept_member : (q : ℕ) → In q (lists o) → q ≢ p → In q (xs ++ ys)
  kept_member q i ne = elim (In-append q xs (p ∷ ys) (subst (In q) split i)) [
    | inl j ↦ In-append_left q xs ys j
    | inr (inl e) ↦ absurd (ne e)
    | inr (inr j) ↦ In-append_right q xs ys j
  ]

  elsewhere : (j : ℕ) → j ≤ 11 → j ≢ o → In p (lists j) → ⊥
  elsewhere j small differ i = differ (sym (pool.order j p small i) ∙ pool.order o p le listed)

  leave-IsRelinked :
      IsRelinked s first last lists pool o p (xs ++ ys) (list_del_init (page p) s.links)
  leave-IsRelinked =
      let (ring, self) =
        list_del_init-Chain s.links (head o) (map page xs) (page p) (map page ys) Distinct-split
          ring_split in
      record {
        ring =
            subst (λ t. Chain (list_del_init (page p) s.links) (head o) t (head o))
              (sym (map-append page xs ys)) ring;
        other = λ n out ne.
            list_del_init-other s.links (head o) (map page xs) (page p) (map page ys) n ring_split
              (subst (λ t. (k : Node) → In k (head o ∷ t) → k ≢ n) names out);
        away = elsewhere;
        old = λ q i. inl (old_member q i);
        kept = kept_member;
        order = λ i. absurd (others p i refl);
        idle = λ x c.
            pool.idle x (omega (arith, c, free-leave s first last lists pool o p xs ys x le split));
        block = λ i. absurd (others p i refl);
        gone = inr (self, λ i. others p i refl);
        once = λ x.
            omega (arith, pool.once x, free-leave s first last lists pool o p xs ys x le split);
      }

  pub leave-IsPool :
      IsPool (set_links (list_del_init (page p)) s) first last (put o (xs ++ ys) lists)
  leave-IsPool =
      relink-IsPool s first last lists pool o p (xs ++ ys) (list_del_init (page p) s.links) le
        leave-IsRelinked

  pub leave-IsUnlisted : IsUnlisted (put o (xs ++ ys) lists) p
  leave-IsUnlisted =
      unlisted s first last lists pool o p (xs ++ ys) (list_del_init (page p) s.links) le
        leave-IsRelinked p (λ i. others p i refl) elsewhere

  -- The node of a page in a list is not empty.
  pub list_empty-listed : list_empty (page p) s.links ≡ false
  list_empty-listed =
      list_empty-In s.links (head o) (map page xs) (page p) (map page ys) Distinct-split ring_split
