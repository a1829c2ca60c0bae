-- ===== src/ListHead/Unlink.antt =====
-- Unlinking a node from a ring of list_head links.
use mathlib.Core.Path.{subst}
use refined_c.Base.{
  In, In-append_left, In-append_right, ◌≡◌, ◌≢◌, refl, false, List, [], ◌∷◌, ◌++◌, inl, inr, ap,
  sym, ◌∙◌,
}
use refined_c.ListHead.{
  Node, Links, set_next, set_prev, init_list_head, list_del, list_del_entry, list_del_init,
  list_empty,
}
use refined_c.ListHead.Ring.{Edge, Chain, Distinct, same_refl, same_ne, keep-Chain}

-- The node behind one of a chain is one of the chain's.
next-In :
    (g : Links) (a : Node) (xs : List Node) (e : Node) (ys : List Node) (b n : Node)
    → Chain g a (xs ++ e ∷ ys) b
    → ((k : Node) → In k (b ∷ ys) → k ≢ n)
    → g.next e ≢ n
next-In g a [] e [] b n (edge, last) apart = λ q. apart b (inl refl) (sym last.to ∙ q)
next-In g a [] e (y ∷ ys) b n (edge, (second, rest)) apart =
    λ q. apart y (inr (inl refl)) (sym second.to ∙ q)
next-In g a (x ∷ xs) e ys b n (edge, rest) apart = next-In g x xs e ys b n rest apart

-- The node before one of a chain is one of the chain's.
before-In :
    (g : Links) (a : Node) (xs : List Node) (e : Node) (ys : List Node) (b n : Node)
    → Chain g a (xs ++ e ∷ ys) b
    → ((k : Node) → In k (a ∷ xs) → k ≢ n)
    → g.prev e ≢ n
before-In g a [] e ys b n (edge, rest) apart = λ q. apart a (inl refl) (sym edge.from ∙ q)
before-In g a (x ∷ xs) e ys b n (edge, rest) apart =
    before-In g x xs e ys b n rest (λ k i. apart k (inr i))

list_del-next :
    (g : Links) (before after n : Node) → n ≢ before → (list_del before after g).next n ≡ g.next n
unfolding list_del set_next set_prev
list_del-next g before after n h = rw (same_ne n before h) refl

list_del-prev :
    (g : Links) (before after n : Node) → n ≢ after → (list_del before after g).prev n ≡ g.prev n
unfolding list_del set_next set_prev
list_del-prev g before after n h = rw (same_ne n after h) refl

list_del-Edge : (g : Links) (before after : Node) → Edge (list_del before after g) before after
unfolding list_del set_next set_prev
list_del-Edge g before after = record {
  to = rw (same_refl before) refl;
  from = rw (same_refl after) refl;
}

between :
    (g : Links) (e a b : Node)
    → g.prev e ≡ a
    → g.next e ≡ b
    → list_del a b g ≡ list_del (g.prev e) (g.next e) g
between g e a b before after =
    ap (λ k. list_del k b g) (sym before) ∙ ap (λ k. list_del (g.prev e) k g) (sym after)

-- Unlinking a node of a chain takes it out.
del-Chain :
    (g : Links) (a : Node) (xs : List Node) (e : Node) (ys : List Node) (b : Node)
    → Distinct (a ∷ xs ++ e ∷ ys)
    → ((n : Node) → In n (xs ++ e ∷ ys) → n ≢ b)
    → Chain g a (xs ++ e ∷ ys) b
    → Chain (list_del (g.prev e) (g.next e) g) a (xs ++ ys) b
del-Chain g a [] e [] b distinct away (edge, last) =
    let q : list_del a b g ≡ list_del (g.prev e) (g.next e) g = between g e a b edge.from last.to in
    subst (λ t. Edge t a b) q (list_del-Edge g a b)
del-Chain g a [] e (y ∷ ys) b distinct away (edge, (second, rest)) =
    let q : list_del a y g ≡ list_del (g.prev e) (g.next e) g =
      between g e a y edge.from second.to in
    let kept : Chain (list_del a y g) y ys b =
      keep-Chain g (list_del a y g) y ys b (λ n i. list_del-next g a y n (distinct.0 n (inr i)))
        (λ n i. list_del-prev g a y n (elim i [
          | inl f ↦ λ p. away y (inr (inl refl)) (sym p ∙ f)
          | inr j ↦ distinct.1.1.0 n j
        ]))
        rest in
    subst (λ t. Chain t a (y ∷ ys) b) q (list_del-Edge g a y, kept)
del-Chain g a (x ∷ xs) e ys b (apart, distinct) away (edge, rest) =
    let before =
      before-In g x xs e ys b a rest (λ k i.
        apart k (elim i [ inl f ↦ inl f | inr j ↦ inr (In-append_left k xs (e ∷ ys) j) ])) in
    let after = next-In g x xs e ys b x rest (λ k i. elim i [
      | inl f ↦ λ p. away x (inl refl) (sym p ∙ f)
      | inr j ↦ distinct.0 k (In-append_right k xs (e ∷ ys) (inr j))
    ]) in
    (
      record {
        to = list_del-next g (g.prev e) (g.next e) a (λ q. before (sym q)) ∙ edge.to;
        from = list_del-prev g (g.prev e) (g.next e) x (λ q. after (sym q)) ∙ edge.from;
      },
      del-Chain g x xs e ys b distinct (λ n i. away n (inr i)) rest,
    )

-- The node that is taken out is none of the others.
pub apart_from :
    (xs : List Node) (e : Node) (ys : List Node)
    → Distinct (xs ++ e ∷ ys)
    → (n : Node) → In n (xs ++ ys)
    → n ≢ e
apart_from [] e ys (apart, distinct) n i = apart n i
apart_from (x ∷ xs) e ys (apart, distinct) n (inl f) =
    λ p. apart e (In-append_right e xs (e ∷ ys) (inl refl)) (sym p ∙ f)
apart_from (x ∷ xs) e ys (apart, distinct) n (inr i) = apart_from xs e ys distinct n i

pub init_list_head-next : (g : Links) (e n : Node) → n ≢ e → (init_list_head e g).next n ≡ g.next n
unfolding init_list_head set_next set_prev
init_list_head-next g e n h = rw (same_ne n e h) refl

pub init_list_head-prev : (g : Links) (e n : Node) → n ≢ e → (init_list_head e g).prev n ≡ g.prev n
unfolding init_list_head set_next set_prev
init_list_head-prev g e n h = rw (same_ne n e h) refl

pub init_list_head_self : (g : Links) (e : Node) → (init_list_head e g).next e ≡ e
unfolding init_list_head set_next set_prev
init_list_head_self g e = rw (same_refl e) refl

-- In a ring of different nodes, `list_del_init` takes a node other than the head out of the
-- sequence, wherever it stands, and lets its `next` point to itself.
pub list_del_init-Chain :
    (g : Links) (h : Node) (xs : List Node) (e : Node) (ys : List Node)
    → Distinct (h ∷ xs ++ e ∷ ys)
    → Chain g h (xs ++ e ∷ ys) h
    → Chain (list_del_init e g) h (xs ++ ys) h × ((list_del_init e g).next e ≡ e)
unfolding list_del_init list_del_entry
list_del_init-Chain g h xs e ys distinct ring =
    let cut = list_del (g.prev e) (g.next e) g in
    let apart = apart_from xs e ys distinct.1 in
    let first : h ≢ e = λ p. distinct.0 e (In-append_right e xs (e ∷ ys) (inl refl)) (sym p) in
    let others : (n : Node) → In n (h ∷ xs ++ ys) → n ≢ e =
      λ n i. elim i [ inl f ↦ λ p. first (sym f ∙ p) | inr j ↦ apart n j ] in
    (
      keep-Chain cut (init_list_head e cut) h (xs ++ ys) h
          (λ n i. init_list_head-next cut e n (others n i))
          (λ n i. init_list_head-prev cut e n (others n i))
          (del-Chain g h xs e ys h distinct distinct.0 ring),
      init_list_head_self cut e,
    )

-- Other nodes keep their links.
pub list_del_init-other :
    (g : Links) (h : Node) (xs : List Node) (e : Node) (ys : List Node) (n : Node)
    → Chain g h (xs ++ e ∷ ys) h
    → ((k : Node) → In k (h ∷ xs ++ e ∷ ys) → k ≢ n)
    → ((list_del_init e g).next n ≡ g.next n) × ((list_del_init e g).prev n ≡ g.prev n)
unfolding list_del_init list_del_entry
list_del_init-other g h xs e ys n ring apart =
    let before =
      before-In g h xs e ys h n ring (λ k i.
        apart k (elim i [ inl f ↦ inl f | inr j ↦ inr (In-append_left k xs (e ∷ ys) j) ])) in
    let after = next-In g h xs e ys h n ring (λ k i.
      apart k (elim i [ inl f ↦ inl f | inr j ↦ inr (In-append_right k xs (e ∷ ys) (inr j)) ])) in
    let self : n ≢ e = λ p. apart e (inr (In-append_right e xs (e ∷ ys) (inl refl))) (sym p) in
    let cut = list_del (g.prev e) (g.next e) g in
    (
      init_list_head-next cut e n self
          ∙ list_del-next g (g.prev e) (g.next e) n (λ p. before (sym p)),
      init_list_head-prev cut e n self
          ∙ list_del-prev g (g.prev e) (g.next e) n (λ p. after (sym p)),
    )

-- A node of a ring is not empty, as a list.
pub list_empty-In :
    (g : Links) (h : Node) (xs : List Node) (e : Node) (ys : List Node)
    → Distinct (h ∷ xs ++ e ∷ ys)
    → Chain g h (xs ++ e ∷ ys) h
    → list_empty e g ≡ false
unfolding list_empty
list_empty-In g h xs e ys distinct ring = same_ne (g.next e) e (
    next-In g h xs e ys h e ring (λ k i. elim i [
      | inl f ↦ λ p. distinct.0 e (In-append_right e xs (e ∷ ys) (inl refl)) (sym p ∙ f)
      | inr j ↦ apart_from xs e ys distinct.1 k (In-append_right k xs ys j)
    ]))
