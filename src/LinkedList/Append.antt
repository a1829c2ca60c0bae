-- ===== src/LinkedList/Append.antt =====
-- `append` links the second list behind the first.
use mathlib.Core.Path.{ap}
use refined_c.Base.{
  ℕ, zero, suc, ◌<◌, ◌≡◌, refl, ◌∙◌, true, false, [], ◌∷◌, ◌++◌, ◌==◌, arith, length,
}
use refined_c.Base.Run.{ok, Returns}
use refined_c.LinkedList.{
  Ptr, null, node, Heap, write, Slot, variable, tail_slot, read_slot, write_slot, append_loop,
  append,
}
use refined_c.LinkedList.Chain.{
  Cells, holds, Chain, Apart, holds-append, Chain-write, read_slot-ok, set_tail-ok,
}
use refined_c.LinkedList.Reverse.{Relinked}

-- The slot that ends the list which begins at the slot `s`.
abbrev pub end_slot : Slot → Cells → Slot
end_slot s [] = s
end_slot s ((a, x) ∷ xs) = end_slot (tail_slot a) xs

append_loop-end_slot :
    (h : Heap) (l p : Ptr) (s : Slot) (xs : Cells)
    → read_slot h l s ≡ ok p
    → Chain h p xs
    → (fuel : ℕ) → length xs < fuel
    → append_loop fuel h l s ≡ ok (end_slot s xs)
unfolding append_loop
append_loop-end_slot h l p s [] at c zero more = elim more [ ]
append_loop-end_slot h l p s (x ∷ xs) at c zero more = elim more [ ]
append_loop-end_slot h l p s [] at c (suc fuel) more =
    let done : (p == null) ≡ true = ground arith in rw (at, done)
append_loop-end_slot h l p s ((a, x) ∷ xs) at (is, ne, out, (n, e, rest)) (suc fuel) more =
    let live : (a == null) ≡ false = ground arith in
    rw (
      at,
      is,
      live,
      append_loop-end_slot h l n (tail_slot a) xs (read_slot-ok h l a (node x n) ne e) rest fuel
          (omega arith),
    )

-- The write behind the last node of a list that has one.
write_slot-Relinked :
    (h : Heap) (l p q a x : Ptr) (xs ys : Cells)
    → Chain h p ((a, x) ∷ xs)
    → Chain h q ys
    → Apart ((a, x) ∷ xs) ys
    → Returns
        (write_slot h l (end_slot (tail_slot a) xs) q)
        (λ r. (r.1 ≡ l) × Relinked h ((a, x) ∷ xs) ((a, x) ∷ xs ++ ys) (r.0, p))
unfolding write_slot
write_slot-Relinked h l p q a x [] ys (is, ne, out, (n, e, rest)) d apart =
    let new : holds ys a ≡ false = apart a (ground arith) in
    (
      (write h a (node x q), l),
      rw (set_tail-ok h a q (node x n) ne e),
      (
        refl,
        record {
          chain = (is, ne, new, (q, ground arith, Chain-write h q a (node x q) ys new d));
          frame = λ b away. ground (arith, away);
        },
      ),
    )
write_slot-Relinked h l p q a x ((b, y) ∷ xs) ys (is, ne, out, (n, e, rest)) d apart =
    let (r, run, (same, linked)) =
      write_slot-Relinked h l n q b y xs ys rest d (λ c i. apart c (ground (arith, i))) in
    (
      r,
      run,
      (
        same,
        record {
          chain = (
            is,
            ne,
            ground (arith, holds-append ((b, y) ∷ xs) ys a, out, apart a),
            (n, linked.frame a out ∙ e, linked.chain),
          );
          frame = λ c away. linked.frame c (ground (arith, away));
        },
      ),
    )

-- With more rounds than the first list has nodes, and no node in both lists, `append` ends. The
-- caller's variable then leads through the nodes of the first list and then through those of the
-- second, and only nodes of the first list have changed.
pub append-Relinked :
    (h : Heap) (p q : Ptr) (xs ys : Cells)
    → Chain h p xs
    → Chain h q ys
    → Apart xs ys
    → (fuel : ℕ) → length xs < fuel
    → Returns (append fuel h p q) (Relinked h xs (xs ++ ys))
unfolding append write_slot read_slot
append-Relinked h p q [] ys c d apart fuel more = (
  (h, q),
  rw (append_loop-end_slot h p p variable [] refl c fuel more),
  record { chain = d; frame = λ a out. refl },
)
append-Relinked h p q ((a, x) ∷ xs) ys c d apart fuel more =
    let (r, run, (same, linked)) = write_slot-Relinked h p p q a x xs ys c d apart in
    (
      (r.0, p),
      rw (append_loop-end_slot h p p variable ((a, x) ∷ xs) refl c fuel more)
          (run ∙ ap (λ l. ok (r.0, l)) same),
      linked,
    )
