-- ===== src/ListHead/Examples.antt =====
-- A list with two pages.
use refined_c.Base.{ℕ, ◌≢◌, refl, sym, ◌∙◌, [], ◌∷◌, In, inl, inr}
use refined_c.ListHead.{Node, head, page, Links, set_next, set_prev, list_insert, list_add}
use refined_c.ListHead.Ring.{Chain, Distinct}

abbrev links : Links
links = record { next = λ n. n; prev = λ n. n }

-- The list that holds page 5 and then page 3
abbrev two_pages : Links
two_pages = list_add (page 5) (head 0) (list_add (page 3) (head 0) links)

page_ne_head : (a b : ℕ) → page a ≢ head b
page_ne_head a b e = absurd cc

three_ne_five : page 3 ≢ page 5
three_ne_five e = absurd cc

first : (n : Node) → In n (page 5 ∷ page 3 ∷ []) → n ≢ head 0
first n i = elim i [
  | inl e ↦ λ f. page_ne_head 5 0 (sym e ∙ f)
  | inr (inl e) ↦ λ f. page_ne_head 3 0 (sym e ∙ f)
  | inr (inr j) ↦ elim j [ ]
]

second : (n : Node) → In n (page 3 ∷ []) → n ≢ page 5
second n i = elim i [ inl e ↦ λ f. three_ne_five (sym e ∙ f) | inr j ↦ elim j [ ] ]

third : (n : Node) → In n [] → n ≢ page 3
third n i = elim i [ ]

distinct : Distinct (head 0 ∷ page 5 ∷ page 3 ∷ [])
distinct = (first, (second, (third, tt)))

ring : Chain two_pages (head 0) (page 5 ∷ page 3 ∷ []) (head 0)
unfolding list_add list_insert set_next set_prev
ring = (
  record { to = refl; from = refl },
  (record { to = refl; from = refl }, record { to = refl; from = refl }),
)
