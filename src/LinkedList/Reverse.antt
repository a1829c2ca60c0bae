-- ===== src/LinkedList/Reverse.antt =====
-- `reverse` and `rev_append` turn a list around in place.
use mathlib.Core.Path.{subst, ap, fun_ext}
use mathlib.Core.List.{append_assoc, append-nil}
use refined_c.Base.{
  ℕ, zero, suc, ◌<◌, ◌≡◌, refl, ◌∙◌, if◌then◌else◌, true, false, [], ◌∷◌, ◌++◌, ◌==◌, arith, length,
}
use refined_c.Base.Run.{ok, ◌>>=◌, Returns}
use refined_c.LinkedList.{
  load, set_tail, Ptr, null, node, Heap, write, reverse_loop, reverse, rev_append_loop, rev_append,
}
use refined_c.LinkedList.Chain.{Cells, holds, Chain, Apart, Chain-write, load-ok, set_tail-ok}

-- `xs` backwards, in front of `ys`.
abbrev pub backwards_onto : Cells → Cells → Cells
backwards_onto [] ys = ys
backwards_onto (x ∷ xs) ys = backwards_onto xs (x ∷ ys)

-- A list of the cells `zs`, made from the nodes `xs` with no other node changed.
pub record Relinked (h : Heap) (xs zs : Cells) (r : Heap × Ptr) : Type 0 where
  pub chain : Chain r.0 r.1 zs
  pub frame : (a : Ptr) → holds xs a ≡ false → r.0 a ≡ h a

reverse_loop-Relinked :
    (h : Heap) (p w : Ptr) (xs ys : Cells)
    → Chain h p xs
    → Chain h w ys
    → Apart xs ys
    → (fuel : ℕ) → length xs < fuel
    → Returns (reverse_loop fuel h p w) (Relinked h xs (backwards_onto xs ys))
unfolding reverse_loop
reverse_loop-Relinked h p w [] ys c d apart zero more = elim more [ ]
reverse_loop-Relinked h p w ((a, x) ∷ xs) ys c d apart zero more = elim more [ ]
reverse_loop-Relinked h p w [] ys c d apart (suc fuel) more =
    let done : (p == null) ≡ true = ground arith in
    ((h, w), rw done, record { chain = d; frame = λ a out. refl })
reverse_loop-Relinked h p w ((a, x) ∷ xs) ys (at, ne, out, (n, e, rest)) d apart (suc fuel) more =
    let live : (a == null) ≡ false = ground arith in
    let new : holds ys a ≡ false = apart a (ground arith) in
    let g = write h a (node x w) in
    let (r, run, relinked) =
      reverse_loop-Relinked g n a xs ((a, x) ∷ ys) (Chain-write h n a (node x w) xs out rest)
        (refl, ne, new, (w, ground arith, Chain-write h w a (node x w) ys new d))
        (λ b i. ground (arith, out, i, apart b)) fuel (omega arith) in
    (
      r,
      rw (at, live, load-ok h a (node x n) ne e, set_tail-ok h a w (node x n) ne e, run),
      record { chain = relinked.chain; frame = λ b away. ground (arith, away, relinked.frame b) },
    )

abbrev pub backwards : Cells → Cells
backwards [] = []
backwards (x ∷ xs) = backwards xs ++ x ∷ []

backwards_onto-append : (xs ys : Cells) → backwards_onto xs ys ≡ backwards xs ++ ys
backwards_onto-append [] ys = refl
backwards_onto-append (x ∷ xs) ys = rw (backwards_onto-append xs (x ∷ ys)) (simp append_assoc)

-- With more rounds than the list has nodes `reverse` ends. The pointer that it returns leads through
-- the same nodes, each with the element it had, in the opposite order, and no other node has
-- changed.
pub reverse-Relinked :
    (h : Heap) (p : Ptr) (xs : Cells)
    → Chain h p xs
    → (fuel : ℕ) → length xs < fuel
    → Returns (reverse fuel h p) (Relinked h xs (backwards xs))
unfolding reverse
reverse-Relinked h p xs c fuel more =
    subst (λ zs. Returns (reverse_loop fuel h p null) (Relinked h xs zs))
      (backwards_onto-append xs [] ∙ append-nil (backwards xs))
      (reverse_loop-Relinked h p null xs [] c refl (λ a i. refl) fuel more)

-- The loop of `rev_append` does what the loop of `reverse` does.
rev_append_loop-reverse_loop :
    (fuel : ℕ) (h : Heap) (p w : Ptr) → rev_append_loop fuel h p w ≡ reverse_loop fuel h p w
unfolding rev_append_loop reverse_loop
rev_append_loop-reverse_loop zero h p w = refl
rev_append_loop-reverse_loop (suc fuel) h p w =
    ap (λ next. if p == null then ok (h, w) else (load h p >>= λ n. set_tail h p w >>= next n))
      (fun_ext λ n. fun_ext λ g. rev_append_loop-reverse_loop fuel g n.tail p)

-- With more rounds than the first list has nodes, and no node in both lists, `rev_append` ends. The
-- caller's variable then leads through the nodes of the first list in the opposite order and then
-- through those of the second, and only nodes of the first list have changed.
pub rev_append-Relinked :
    (h : Heap) (p q : Ptr) (xs ys : Cells)
    → Chain h p xs
    → Chain h q ys
    → Apart xs ys
    → (fuel : ℕ) → length xs < fuel
    → Returns (rev_append fuel h p q) (Relinked h xs (backwards xs ++ ys))
unfolding rev_append
rev_append-Relinked h p q xs ys c d apart fuel more =
    let (r, run, linked) = reverse_loop-Relinked h p q xs ys c d apart fuel more in
    (
      r,
      rev_append_loop-reverse_loop fuel h p q ∙ run,
      subst (λ zs. Relinked h xs zs r) (backwards_onto-append xs ys) linked,
    )
