-- ===== src/ListHead/Ring.antt =====
-- The operations on list_head links as operations on the sequence of a list's nodes.
use mathlib.Core.Path.{subst}
use mathlib.Core.Bool.{true≢false}
use refined_c.Base.{
  In, ◌≡◌, ◌↔◌, ◌≢◌, refl, true, false, ◌==◌, arith, List, [], ◌∷◌, ◌++◌, inl, inr, ap, sym, ◌∙◌,
  Bool-cases,
}
use refined_c.ListHead.{
  Node, head, page, Links, same, set_next, set_prev, list_insert, list_add, list_add_tail,
  list_empty,
}

pub same_refl : (a : Node) → same a a ≡ true
same_refl (head a) = ground arith
same_refl (page a) = ground arith

pub same_ne : (a b : Node) → a ≢ b → same a b ≡ false
same_ne (head a) (head b) h = elim (Bool-cases (a == b)) [
  | inl e ↦ let eq : a ≡ b = ground arith in absurd (h (ap head eq))
  | inr e ↦ e
]
same_ne (page a) (page b) h = elim (Bool-cases (a == b)) [
  | inl e ↦ let eq : a ≡ b = ground arith in absurd (h (ap page eq))
  | inr e ↦ e
]
same_ne (head a) (page b) h = refl
same_ne (page a) (head b) h = refl

-- `b` follows `a`.
pub record Edge (g : Links) (a b : Node) : Type 0 where
  pub to : g.next a ≡ b
  pub from : g.prev b ≡ a

abbrev pub Chain : (g : Links) (a : Node) (xs : List Node) (b : Node) → Type 0
Chain g a [] b = Edge g a b
Chain g a (x ∷ xs) b = Edge g a x × Chain g x xs b

abbrev pub Distinct : List Node → Type 0
Distinct [] = Unit {0}
Distinct (x ∷ xs) = ((n : Node) → In n xs → n ≢ x) × Distinct xs

-- Links that agree on a chain's nodes have the chain.
pub keep-Chain :
    (g g' : Links) (a : Node) (xs : List Node) (b : Node)
    → ((n : Node) → In n (a ∷ xs) → g'.next n ≡ g.next n)
    → ((n : Node) → In n (b ∷ xs) → g'.prev n ≡ g.prev n)
    → Chain g a xs b
    → Chain g' a xs b
keep-Chain g g' a [] b next prev edge = record {
  to = next a (inl refl) ∙ edge.to;
  from = prev b (inl refl) ∙ edge.from;
}
keep-Chain g g' a (x ∷ xs) b next prev (edge, rest) = (
  record { to = next a (inl refl) ∙ edge.to; from = prev x (inr (inl refl)) ∙ edge.from },
  keep-Chain g g' x xs b (λ n i. next n (inr i))
      (λ n i. prev n (elim i [ inl e ↦ inl e | inr j ↦ inr (inr j) ])) rest,
)

-- The links after an insertion
pub list_insert-next :
    (g : Links) (new before after n : Node)
    → n ≢ new
    → n ≢ before
    → (list_insert new before after g).next n ≡ g.next n
unfolding list_insert set_next set_prev
list_insert-next g new before after n h k = rw (same_ne n before k, same_ne n new h) refl

pub list_insert-prev :
    (g : Links) (new before after n : Node)
    → n ≢ new
    → n ≢ after
    → (list_insert new before after g).prev n ≡ g.prev n
unfolding list_insert set_next set_prev
list_insert-prev g new before after n h k = rw (same_ne n new h, same_ne n after k) refl

list_insert-Edge :
    (g : Links) (new before after : Node)
    → new ≢ before
    → after ≢ new
    → Edge (list_insert new before after g) before new
      × Edge (list_insert new before after g) new after
unfolding list_insert set_next set_prev
list_insert-Edge g new before after h k = (
  record { to = rw (same_refl before) refl; from = rw (same_refl new) refl },
  record {
    to = rw (same_ne new before h, same_refl new) refl;
    from = rw (same_ne after new k, same_refl after) refl;
  },
)

-- `list_add` puts the node before the others.
pub list_add-Chain :
    (g : Links) (h : Node) (xs : List Node) (new : Node)
    → Distinct (h ∷ xs)
    → ((n : Node) → In n (h ∷ xs) → n ≢ new)
    → Chain g h xs h
    → Chain (list_add new h g) h (new ∷ xs) h
unfolding list_add
list_add-Chain g h [] new distinct fresh edge =
    rw edge.to (list_insert-Edge g new h h (λ e. fresh h (inl refl) (sym e)) (fresh h (inl refl)))
list_add-Chain g h (x ∷ xs) new (apart, distinct) fresh (edge, rest) =
    let older : (n : Node) → In n (h ∷ xs) → n ≢ new =
      λ n i. fresh n (elim i [ inl e ↦ inl e | inr j ↦ inr (inr j) ]) in
    let later : (n : Node) → In n (h ∷ xs) → n ≢ x =
      λ n i e. elim i [ inl f ↦ apart x (inl refl) (sym e ∙ f) | inr j ↦ distinct.0 n j e ] in
    let edges =
      list_insert-Edge g new h x (λ e. fresh h (inl refl) (sym e)) (fresh x (inr (inl refl))) in
    let e : list_insert new h x g ≡ list_insert new h (g.next h) g =
      ap (λ k. list_insert new h k g) (sym edge.to) in
    let kept : Chain (list_insert new h x g) x xs h =
      keep-Chain g (list_insert new h x g) x xs h
        (λ n i. list_insert-next g new h x n (fresh n (inr i)) (λ e. apart n i e))
        (λ n i. list_insert-prev g new h x n (older n i) (later n i)) rest in
    subst (λ t. Chain t h (new ∷ x ∷ xs) h) e (edges.0, (edges.1, kept))

-- The node before the end of a chain is one of the chain's.
pub prev-In :
    (g : Links) (a : Node) (xs : List Node) (b n : Node)
    → Chain g a xs b
    → ((k : Node) → In k (a ∷ xs) → k ≢ n)
    → g.prev b ≢ n
prev-In g a [] b n edge apart = λ e. apart a (inl refl) (sym edge.from ∙ e)
prev-In g a (x ∷ xs) b n (edge, rest) apart = prev-In g x xs b n rest (λ k i. apart k (inr i))

-- `list_add_tail` puts the node behind the others.
tail-Chain :
    (g : Links) (a : Node) (xs : List Node) (b new : Node)
    → Distinct (a ∷ xs)
    → ((n : Node) → In n xs → n ≢ b)
    → ((n : Node) → In n (a ∷ xs) → n ≢ new)
    → b ≢ new
    → Chain g a xs b
    → Chain (list_insert new (g.prev b) b g) a (xs ++ new ∷ []) b
tail-Chain g a [] b new distinct away fresh last edge =
    rw edge.from (list_insert-Edge g new a b (λ e. fresh a (inl refl) (sym e)) last)
tail-Chain g a (x ∷ xs) b new (apart, distinct) away fresh last (edge, rest) =
    let before = prev-In g x xs b a rest apart in
    (
      record {
        to =
            list_insert-next g new (g.prev b) b a (fresh a (inl refl)) (λ e. before (sym e))
            ∙ edge.to;
        from =
            list_insert-prev g new (g.prev b) b x (fresh x (inr (inl refl))) (away x (inl refl))
            ∙ edge.from;
      },
      tail-Chain g x xs b new distinct (λ n i. away n (inr i)) (λ n i. fresh n (inr i)) last rest,
    )

pub list_add_tail-Chain :
    (g : Links) (h : Node) (xs : List Node) (new : Node)
    → Distinct (h ∷ xs)
    → ((n : Node) → In n (h ∷ xs) → n ≢ new)
    → Chain g h xs h
    → Chain (list_add_tail new h g) h (xs ++ new ∷ []) h
unfolding list_add_tail
list_add_tail-Chain g h xs new distinct fresh ring =
    tail-Chain g h xs h new distinct distinct.0 fresh (fresh h (inl refl)) ring

-- The first node of a list is one of its nodes, or the head.
pub first-In :
    (g : Links) (a : Node) (xs : List Node) (b n : Node)
    → Chain g a xs b
    → ((k : Node) → In k (b ∷ xs) → k ≢ n)
    → g.next a ≢ n
first-In g a [] b n edge apart = λ q. apart b (inl refl) (sym edge.to ∙ q)
first-In g a (x ∷ xs) b n (edge, rest) apart = λ q. apart x (inr (inl refl)) (sym edge.to ∙ q)

-- Nodes outside of the ring keep their links.
pub list_add-other :
    (g : Links) (h : Node) (xs : List Node) (new n : Node)
    → Chain g h xs h
    → ((k : Node) → In k (h ∷ xs) → k ≢ n)
    → n ≢ new
    → ((list_add new h g).next n ≡ g.next n) × ((list_add new h g).prev n ≡ g.prev n)
unfolding list_add
list_add-other g h xs new n ring apart fresh =
    let after = first-In g h xs h n ring apart in
    (
      list_insert-next g new h (g.next h) n fresh (λ p. apart h (inl refl) (sym p)),
      list_insert-prev g new h (g.next h) n fresh (λ p. after (sym p)),
    )

pub list_add_tail-other :
    (g : Links) (h : Node) (xs : List Node) (new n : Node)
    → Chain g h xs h
    → ((k : Node) → In k (h ∷ xs) → k ≢ n)
    → n ≢ new
    → ((list_add_tail new h g).next n ≡ g.next n) × ((list_add_tail new h g).prev n ≡ g.prev n)
unfolding list_add_tail
list_add_tail-other g h xs new n ring apart fresh =
    let before = prev-In g h xs h n ring apart in
    (
      list_insert-next g new (g.prev h) h n fresh (λ p. before (sym p)),
      list_insert-prev g new (g.prev h) h n fresh (λ p. apart h (inl refl) (sym p)),
    )

-- `list_empty` tells whether a ring has no node besides the head.
pub list_empty-Chain :
    (g : Links) (h : Node) (xs : List Node)
    → Distinct (h ∷ xs)
    → Chain g h xs h
    → (list_empty h g ≡ true) ↔ (xs ≡ [])
unfolding list_empty
list_empty-Chain g h [] distinct edge = (λ e. refl, λ e. rw (edge.to, same_refl h) refl)
list_empty-Chain g h (x ∷ xs) (apart, distinct) (edge, rest) =
    let e : same (g.next h) h ≡ false = rw edge.to (same_ne x h (apart x (inl refl))) in
    (λ q. absurd (true≢false (sym q ∙ e)), λ q. absurd cc)
