-- ===== src/BTree/Branch.antt =====
-- insert_br: the node before and after, by the number of its entries and the place of the new one.
use mathlib.Core.Path.{subst}
use refined_c.Base.{
  ℕ, zero, suc, ◌-◌, ◌<◌, ◌≤◌, ◌≡◌, refl, sym, ap, ◌∙◌, Bool, true, false, if◌then◌else◌, ltb,
  Option, List, [], ◌∷◌, length, arith,
}
use refined_c.Base.Run.{ok, fault}
use refined_c.BTree.{Btree, Forest, nil, cons, Node, as_tree, order}
use refined_c.BTree.Splitting.{insert_at_slot, Split, med}
use refined_c.BTree.Shape.{size, IsBalanced}
use refined_c.BTree.Cases.{
  node_of, Widened, free_one, free_two, free_three, full_two, full_three, full_four, overrun,
}

four : (xs : List ℕ) → length xs ≡ 4 → (a b c d : ℕ) × (xs ≡ a ∷ b ∷ c ∷ d ∷ [])
four (a ∷ b ∷ c ∷ d ∷ []) h = (a, b, c, d, refl)
four [] h = absurd (omega arith)
four (a ∷ []) h = absurd (omega arith)
four (a ∷ b ∷ []) h = absurd (omega arith)
four (a ∷ b ∷ c ∷ []) h = absurd (omega arith)
four (a ∷ b ∷ c ∷ d ∷ e ∷ xs) h = absurd (omega arith)

five :
    (cs : Forest)
    → size cs ≡ 5
    → (a b c d e : Btree) × (cs ≡ cons a (cons b (cons c (cons d (cons e nil)))))
five (cons a (cons b (cons c (cons d (cons e nil))))) h = (a, b, c, d, e, refl)
five nil h = absurd (omega arith)
five (cons a nil) h = absurd (omega arith)
five (cons a (cons b nil)) h = absurd (omega arith)
five (cons a (cons b (cons c nil))) h = absurd (omega arith)
five (cons a (cons b (cons c (cons d nil)))) h = absurd (omega arith)
five (cons a (cons b (cons c (cons d (cons e (cons f cs)))))) h = absurd (omega arith)

-- A struct of which nothing is known but the lengths of its arrays.
abbrev pub IsStruct : Node → Type 0
IsStruct raw = (length raw.keys ≡ 4) × (length raw.vals ≡ 4) × (size raw.children ≡ 5)

-- A full node with the new key left of its median
abbrev pub overruns_at : (nb_keys slot : ℕ) → Bool
overruns_at nb_keys slot = if ltb nb_keys (order - 1) then false else ltb slot med

-- The cases
module _ (k0 k1 k2 k3 v0 v1 v2 v3 : ℕ) (c0 c1 c2 c3 c4 : Btree) (j0 j1 j2 j3 w0 w1 w2 w3 : ℕ)
    (d0 d1 d2 d3 d4 : Btree) (m g k v e : ℕ) (b : Btree) where
  widens :
      (n s : ℕ)
      → s ≤ n
      → overruns_at n s ≡ false
      → (let node = node_of k0 k1 k2 k3 v0 v1 v2 v3 c0 c1 c2 c3 c4 n (suc e) in
          let raw = node_of j0 j1 j2 j3 w0 w1 w2 w3 d0 d1 d2 d3 d4 m g in
          IsBalanced (as_tree node) 1 (suc e)
          → IsBalanced b 2 e
          → (out : Node × Option Split) × (insert_at_slot raw node s k v b ≡ ok out)
            × Widened node s k v b e out)
  unfolding IsBalanced
  widens zero s h o bal bb = absurd (omega (arith, bal.1))
  widens (suc zero) s h o bal bb =
      free_one k0 k1 k2 k3 v0 v1 v2 v3 c0 c1 c2 c3 c4 _ k v e b s h bal bb
  widens (suc (suc zero)) s h o bal bb =
      free_two k0 k1 k2 k3 v0 v1 v2 v3 c0 c1 c2 c3 c4 _ k v e b s h bal bb
  widens (suc (suc (suc zero))) s h o bal bb =
      free_three k0 k1 k2 k3 v0 v1 v2 v3 c0 c1 c2 c3 c4 _ k v e b s h bal bb
  widens (suc (suc (suc (suc zero)))) zero h o bal bb = cc
  widens (suc (suc (suc (suc zero)))) (suc zero) h o bal bb = cc
  widens (suc (suc (suc (suc zero)))) (suc (suc zero)) h o bal bb =
      full_two k0 k1 k2 k3 v0 v1 v2 v3 c0 c1 c2 c3 c4 j0 j1 j2 j3 w0 w1 w2 w3 d0 d1 d2 d3 d4 m g k v
        e b bal bb
  widens (suc (suc (suc (suc zero)))) (suc (suc (suc zero))) h o bal bb =
      full_three k0 k1 k2 k3 v0 v1 v2 v3 c0 c1 c2 c3 c4 j0 j1 j2 j3 w0 w1 w2 w3 d0 d1 d2 d3 d4 m g k
        v e b bal bb
  widens (suc (suc (suc (suc zero)))) (suc (suc (suc (suc zero)))) h o bal bb =
      full_four k0 k1 k2 k3 v0 v1 v2 v3 c0 c1 c2 c3 c4 j0 j1 j2 j3 w0 w1 w2 w3 d0 d1 d2 d3 d4 m g k
        v e b bal bb
  widens (suc (suc (suc (suc zero)))) (suc (suc (suc (suc (suc s))))) h o bal bb =
      absurd (omega arith)
  widens (suc (suc (suc (suc (suc n))))) s h o bal bb = absurd (omega (arith, bal.2))

-- A struct is one with its arrays written out.
pub written_out :
    (node : Node)
    → IsStruct node
    → (k0 k1 k2 k3 v0 v1 v2 v3 : ℕ) × (c0 c1 c2 c3 c4 : Btree) × (node
        ≡ node_of k0 k1 k2 k3 v0 v1 v2 v3 c0 c1 c2 c3 c4 node.nb_keys node.height)
written_out node r =
    let (k0, k1, k2, k3, ek) = four node.keys r.0 in
    let (v0, v1, v2, v3, ev) = four node.vals r.1 in
    let (c0, c1, c2, c3, c4, ec) = five node.children r.2 in
    (k0, k1, k2, k3, v0, v1, v2, v3, c0, c1, c2, c3, c4, ground (arith, ek, ev, ec))

abbrev AddsIf : (raw node : Node) (s k v e : ℕ) (b : Btree) → Type 0
AddsIf raw node s k v e b =
    s ≤ node.nb_keys
    → overruns_at node.nb_keys s ≡ false
    → IsBalanced (as_tree node) 1 (suc e)
    → IsBalanced b 2 e
    → (out : Node × Option Split) × (insert_at_slot raw node s k v b ≡ ok out)
      × Widened node s k v b e out

-- `insert_br` of a node with a free place, or where the new key is not left of the median, adds the
-- key and the branch right of it.
pub insert_at_slot-Widened :
    (raw node : Node) (s k v e : ℕ) (b : Btree)
    → IsStruct raw
    → s ≤ node.nb_keys
    → overruns_at node.nb_keys s ≡ false
    → IsBalanced (as_tree node) 1 (suc e)
    → IsBalanced b 2 e
    → (out : Node × Option Split) × (insert_at_slot raw node s k v b ≡ ok out)
      × Widened node s k v b e out
unfolding IsBalanced
insert_at_slot-Widened raw node s k v e b r h o bal =
    let (k0, k1, k2, k3, v0, v1, v2, v3, c0, c1, c2, c3, c4, en) =
      written_out node (bal.3, bal.4, bal.5) in
    let (j0, j1, j2, j3, w0, w1, w2, w3, d0, d1, d2, d3, d4, er) = written_out raw r in
    let full = en ∙ ap (node_of k0 k1 k2 k3 v0 v1 v2 v3 c0 c1 c2 c3 c4 node.nb_keys) bal.0 in
    subst (λ x. AddsIf x node s k v e b) (sym er)
      (subst
        (λ x.
          AddsIf (node_of j0 j1 j2 j3 w0 w1 w2 w3 d0 d1 d2 d3 d4 raw.nb_keys raw.height) x s k v e
            b)
        (sym full)
        (widens k0 k1 k2 k3 v0 v1 v2 v3 c0 c1 c2 c3 c4 j0 j1 j2 j3 w0 w1 w2 w3 d0 d1 d2 d3 d4
          raw.nb_keys raw.height k v e b node.nb_keys s))
      h o bal

pub insert_at_slot-fault :
    (raw node : Node) (s k v e : ℕ) (b : Btree)
    → IsStruct raw
    → overruns_at node.nb_keys s ≡ true
    → IsBalanced (as_tree node) 1 (suc e)
    → insert_at_slot raw node s k v b ≡ fault
unfolding IsBalanced
insert_at_slot-fault raw node s k v e b r o bal =
    let (k0, k1, k2, k3, v0, v1, v2, v3, c0, c1, c2, c3, c4, en) =
      written_out node (bal.3, bal.4, bal.5) in
    let (j0, j1, j2, j3, w0, w1, w2, w3, d0, d1, d2, d3, d4, er) = written_out raw r in
    let four_keys : node.nb_keys ≡ 4 = ground arith in
    let left : s < 2 = ground arith in
    let full =
      en
      ∙ (ap (node_of k0 k1 k2 k3 v0 v1 v2 v3 c0 c1 c2 c3 c4 node.nb_keys) bal.0
          ∙ ap (λ n. node_of k0 k1 k2 k3 v0 v1 v2 v3 c0 c1 c2 c3 c4 n (suc e)) four_keys) in
    ap (λ x. insert_at_slot x node s k v b) er
    ∙ (ap
          (λ x.
            insert_at_slot (node_of j0 j1 j2 j3 w0 w1 w2 w3 d0 d1 d2 d3 d4 raw.nb_keys raw.height) x
              s k v b)
          full
        ∙ overrun k0 k1 k2 k3 v0 v1 v2 v3 c0 c1 c2 c3 c4 j0 j1 j2 j3 w0 w1 w2 w3 d0 d1 d2 d3 d4
            raw.nb_keys raw.height k v e b s left)
