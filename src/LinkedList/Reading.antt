-- ===== src/LinkedList/Reading.antt =====
-- The operations that only read a list.
use refined_c.Base.{
  ℕ, zero, suc, ◌+◌, ◌^◌, ◌%◌, ◌<◌, ◌≡◌, refl, Bool, true, false, none, some, [], ◌∷◌, ◌==◌, arith,
  length, ◌||◌, if◌then◌else◌,
}
use refined_c.Base.Run.{ok}
use refined_c.LinkedList
use refined_c.LinkedList.{
  length_val_rec, length_loop, Ptr, null, node, Heap, Slot, variable, tail_slot, read_slot,
  length_val_loop, length_val, member_loop, member, Numbers,
}
use refined_c.LinkedList.Chain.{Cells, Chain, load-ok, read_slot-ok}

length_val_loop-length :
    (h : Heap) (p len : ℕ) (xs : Cells)
    → Chain h p xs
    → len + length xs < 2 ^ 64
    → (fuel : ℕ) → length xs < fuel
    → length_val_loop fuel h p len ≡ ok (len + length xs)
unfolding length_val_loop
length_val_loop-length h p len [] c small zero more = elim more [ ]
length_val_loop-length h p len (x ∷ xs) c small zero more = elim more [ ]
length_val_loop-length h p len [] c small (suc fuel) more =
    let done : (p == null) ≡ true = ground arith in
    let none_left : len + 0 ≡ len = omega arith in rw (done, none_left)
length_val_loop-length h p len ((a, x) ∷ xs) (at, ne, out, (n, e, rest)) small (suc fuel) more =
    let live : (a == null) ≡ false = ground arith in
    let fits : (len + 1) % 2 ^ 64 ≡ len + 1 = omega arith in
    let later : len + suc (length xs) ≡ len + 1 + length xs = omega arith in
    rw (
      at,
      live,
      load-ok h a (node x n) ne e,
      fits,
      later,
      length_val_loop-length h n (len + 1) xs rest (omega arith) fuel (omega arith),
    )

-- `length_val` of a list of less than 2^64 nodes, with more rounds than nodes, ends with the number
-- of nodes.
pub length_val-length :
    (h : Heap) (p : Ptr) (xs : Cells)
    → Chain h p xs
    → length xs < 2 ^ 64
    → (fuel : ℕ) → length xs < fuel
    → length_val fuel h p ≡ ok (length xs)
unfolding length_val
length_val-length h p xs c small fuel more =
    let all : 0 + length xs ≡ length xs = omega arith in
    rw (length_val_loop-length h p 0 xs c (omega arith) fuel more, all)

length_loop-length_val_loop :
    (h : Heap) (l p : Ptr) (s : Slot) (len : ℕ) (xs : Cells)
    → read_slot h l s ≡ ok p
    → Chain h p xs
    → (fuel : ℕ) → length_loop fuel h l s len ≡ length_val_loop fuel h p len
unfolding length_loop length_val_loop
length_loop-length_val_loop h l p s len [] at c zero = refl
length_loop-length_val_loop h l p s len (x ∷ xs) at c zero = refl
length_loop-length_val_loop h l p s len [] at c (suc fuel) =
    let done : (p == null) ≡ true = ground arith in rw (at, done)
length_loop-length_val_loop h l p s len ((a, x) ∷ xs) at (is, ne, out, (n, e, rest)) (suc fuel) =
    let live : (a == null) ≡ false = ground arith in
    let read = read_slot-ok h l a (node x n) ne e in
    let later =
      length_loop-length_val_loop h l n (tail_slot a) ((len + 1) % 2 ^ 64) xs read rest fuel in
    rw (at, is, live, load-ok h a (node x n) ne e, later)

-- `length`, which goes from pointer to pointer, ends with the result of `length_val`.
pub length-length_val :
    (h : Heap) (p : Ptr) (xs : Cells)
    → Chain h p xs
    → (fuel : ℕ) → LinkedList.length fuel h p ≡ length_val fuel h p
unfolding LinkedList.length length_val read_slot
length-length_val h p xs c fuel = length_loop-length_val_loop h p p variable 0 xs refl c fuel

-- `length_val_rec` of a list of less than 2^64 nodes, with more calls than nodes, ends with the
-- number of nodes.
pub length_val_rec-length :
    (h : Heap) (p : Ptr) (xs : Cells)
    → Chain h p xs
    → length xs < 2 ^ 64
    → (fuel : ℕ) → length xs < fuel
    → length_val_rec fuel h p ≡ ok (length xs)
unfolding length_val_rec
length_val_rec-length h p [] c small zero more = elim more [ ]
length_val_rec-length h p (x ∷ xs) c small zero more = elim more [ ]
length_val_rec-length h p [] c small (suc fuel) more =
    let done : (p == null) ≡ true = ground arith in rw done
length_val_rec-length h p ((a, x) ∷ xs) (at, ne, out, (n, e, rest)) small (suc fuel) more =
    let live : (a == null) ≡ false = ground arith in
    let later = length_val_rec-length h n xs rest (omega arith) fuel (omega arith) in
    let fits : (length xs + 1) % 2 ^ 64 ≡ suc (length xs) = omega arith in
    rw (at, live, load-ok h a (node x n) ne e, later, fits)

-- Each node's `head` points to a number.
abbrev pub Numbered : Numbers → Cells → Type 0
Numbered d [] = Unit {0}
Numbered d ((a, x) ∷ xs) = ((v : ℕ) × (d x ≡ some v)) × Numbered d xs

abbrev pub has : Numbers → Cells → ℕ → Bool
has d [] k = false
has d ((a, x) ∷ xs) k = elim (d x) [ none ↦ false | some v ↦ v == k ] || has d xs k

member_loop-has :
    (h : Heap) (d : Numbers) (l p : Ptr) (prev : Slot) (xs : Cells) (k : ℕ)
    → read_slot h l prev ≡ ok p
    → Chain h p xs
    → Numbered d xs
    → (fuel : ℕ) → length xs < fuel
    → member_loop fuel h d l prev k ≡ ok (has d xs k)
unfolding member_loop
member_loop-has h d l p prev [] k at c num zero more = elim more [ ]
member_loop-has h d l p prev (x ∷ xs) k at c num zero more = elim more [ ]
member_loop-has h d l p prev [] k at c num (suc fuel) more =
    let done : (p == null) ≡ true = ground arith in rw (at, done)
member_loop-has h d l p prev ((a, x) ∷ xs) k at (is, ne, out, (n, e, rest)) ((v, at_x), num)
      (suc fuel) more =
    let live : (a == null) ≡ false = ground arith in
    let later =
      member_loop-has h d l n (tail_slot a) xs k (read_slot-ok h l a (node x n) ne e) rest num fuel
        (omega arith) in
    rw (at, is, live, load-ok h a (node x n) ne e, at_x, later) (found (v == k) (has d xs k))
  where
    found : (b c : Bool) → (if b then ok true else ok c) ≡ ok (b || c)
    found true c = refl
    found false c = refl

-- With more rounds than the list has nodes, and a number behind each node's `head`, `member` ends
-- and tells whether one of them is `k`.
pub member-has :
    (h : Heap) (d : Numbers) (p : Ptr) (xs : Cells) (k : ℕ)
    → Chain h p xs
    → Numbered d xs
    → (fuel : ℕ) → length xs < fuel
    → member fuel h d p k ≡ ok (has d xs k)
unfolding member read_slot
member-has h d p xs k c num fuel more = member_loop-has h d p p variable xs k refl c num fuel more
