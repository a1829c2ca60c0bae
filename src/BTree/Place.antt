-- ===== src/BTree/Place.antt =====
-- Where key_index leads: what stands on the left of the child that it finds is below the key.
use mathlib.Core.List.{append_assoc, append-nil}
use refined_c.Base.{
  ℕ, zero, suc, ◌+◌, ◌<◌, ◌≤◌, ◌≡◌, refl, sym, ap, ◌∙◌, ◌⊎◌, inl, inr, Bool, true, false, some,
  List, [], ◌∷◌, ◌++◌, length, get_elem?, set, ltb, ◌==◌, arith, Bool-cases,
}
use refined_c.Base.Run.{ok}
use refined_c.BTree.{Btree, Forest, nil, cons, key_loop, key_index, is_at}
use refined_c.BTree.Entries.{Entry, entries, flatten, AllBelow, AllAbove, IsAscending}
use refined_c.BTree.Order.{
  AllBelow-append, AllBelow-lt, AllAbove-lt, IsAscending-right, IsAscending-AllBelow,
}
use refined_c.BTree.Shape.{size, child_at, set_child, before, after}

-- The arrays hold `n` entries and the children around them.
abbrev pub Holds : (n : ℕ) (keys vals : List ℕ) → Forest → Type 0
Holds n keys vals cs = (n ≤ length keys) × (n ≤ length vals) × (n < size cs)

-- The entries of a node with another child in place `i`.
pub flatten-set_child :
    (n : ℕ) (keys vals : List ℕ) (cs : Forest) (i : ℕ) (t : Btree)
    → Holds n keys vals cs
    → i ≤ n
    → flatten n keys vals (set_child cs i t)
      ≡ before i keys vals cs ++ (entries t ++ after i n keys vals cs)
unfolding entries
flatten-set_child n keys vals nil i t h b = absurd (omega (arith, h.2))
flatten-set_child zero keys vals (cons c cs) zero t h b = sym (append-nil (entries t))
flatten-set_child zero keys vals (cons c cs) (suc i) t h b = absurd (omega arith)
flatten-set_child (suc n) [] vals (cons c cs) i t h b = absurd (omega (arith, h.0))
flatten-set_child (suc n) (k ∷ keys) [] (cons c cs) i t h b = absurd (omega (arith, h.1))
flatten-set_child (suc n) (k ∷ keys) (v ∷ vals) (cons c cs) zero t h b = refl
flatten-set_child (suc n) (k ∷ keys) (v ∷ vals) (cons c cs) (suc i) t h b =
    ap (λ m. entries c ++ (k, v) ∷ m)
      (flatten-set_child n keys vals cs i t
        (omega (arith, h.0), omega (arith, h.1), omega (arith, h.2)) (omega arith))
    ∙ sym (
        append_assoc (entries c) ((k, v) ∷ before i keys vals cs)
          (entries t ++ after i n keys vals cs))

pub set_child_self : (cs : Forest) (i : ℕ) → set_child cs i (child_at cs i) ≡ cs
set_child_self nil i = refl
set_child_self (cons c cs) zero = refl
set_child_self (cons c cs) (suc i) = ap (cons c) (set_child_self cs i)

pub flatten_around :
    (n : ℕ) (keys vals : List ℕ) (cs : Forest) (i : ℕ)
    → Holds n keys vals cs
    → i ≤ n
    → flatten n keys vals cs
      ≡ before i keys vals cs ++ (entries (child_at cs i) ++ after i n keys vals cs)
flatten_around n keys vals cs i h b =
    ap (flatten n keys vals) (sym (set_child_self cs i))
    ∙ flatten-set_child n keys vals cs i (child_at cs i) h b

-- Another value in place `i`
pub flatten-set :
    (n : ℕ) (keys vals : List ℕ) (cs : Forest) (i k old v : ℕ) (more : List Entry)
    → Holds n keys vals cs
    → after i n keys vals cs ≡ (k, old) ∷ more
    → flatten n keys (set vals i v) cs
      ≡ before i keys vals cs ++ (entries (child_at cs i) ++ (k, v) ∷ more)
unfolding entries
flatten-set n keys vals nil i k old v more h e = absurd (omega (arith, h.2))
flatten-set zero keys vals (cons c cs) zero k old v more h e = cc
flatten-set zero keys vals (cons c cs) (suc i) k old v more h e = cc
flatten-set (suc n) [] vals (cons c cs) i k old v more h e = absurd (omega (arith, h.0))
flatten-set (suc n) (x ∷ keys) [] (cons c cs) i k old v more h e = absurd (omega (arith, h.1))
flatten-set (suc n) (x ∷ keys) (w ∷ vals) (cons c cs) zero k old v more h e =
    let same : x ≡ k = cc in
    let behind : flatten n keys vals cs ≡ more = cc in rw (same, behind) refl
flatten-set (suc n) (x ∷ keys) (w ∷ vals) (cons c cs) (suc i) k old v more h e =
    ap (λ m. entries c ++ (x, w) ∷ m)
      (flatten-set n keys vals cs i k old v more
        (omega (arith, h.0), omega (arith, h.1), omega (arith, h.2)) e)
    ∙ sym (
        append_assoc (entries c) ((x, w) ∷ before i keys vals cs)
          (entries (child_at cs i) ++ (k, v) ∷ more))

-- The key stands right of the child, or all of the node there is above it.
abbrev pub Hit : (i n : ℕ) (keys vals : List ℕ) → Forest → ℕ → Type 0
Hit i n keys vals cs k =
    (is_at i n keys k ≡ ok true)
    × (v : ℕ) × (more : List Entry) × (get_elem? vals i ≡ some v)
    × (after i n keys vals cs ≡ (k, v) ∷ more)

abbrev pub Miss : (i n : ℕ) (keys vals : List ℕ) → Forest → ℕ → Type 0
Miss i n keys vals cs k = (is_at i n keys k ≡ ok false) × AllAbove k (after i n keys vals cs)

pub record Place (n : ℕ) (keys vals : List ℕ) (cs : Forest) (k : ℕ) : Type 0 where
  pub i : ℕ
  pub bound : i ≤ n
  pub index : (slot : ℕ) → key_loop n keys slot k ≡ ok (slot + i)
  pub low : AllBelow k (before i keys vals cs)
  pub verdict : Hit i n keys vals cs k ⊎ Miss i n keys vals cs k

first : (n : ℕ) → ltb 0 (suc n) ≡ true
first n = ground arith

is_at-suc :
    (i n x : ℕ) (keys : List ℕ) (k : ℕ) (b : Bool)
    → is_at i n keys k ≡ ok b
    → is_at (suc i) (suc n) (x ∷ keys) k ≡ ok b
is_at-suc i n x keys k b e = let same : ltb (suc i) (suc n) ≡ ltb i n = ground arith in rw same e

pub place :
    (n : ℕ) (keys vals : List ℕ) (cs : Forest) (k : ℕ)
    → Holds n keys vals cs
    → IsAscending (flatten n keys vals cs)
    → Place n keys vals cs k
unfolding entries key_loop
place n keys vals nil k h a = absurd (omega (arith, h.2))
place zero keys vals (cons c cs) k h a = record {
  i = 0;
  bound = omega arith;
  index = λ slot. ap ok (omega arith);
  low = tt;
  verdict = inr (refl, tt);
}
place (suc n) [] vals (cons c cs) k h a = absurd (omega (arith, h.0))
place (suc n) (x ∷ keys) [] (cons c cs) k h a = absurd (omega (arith, h.1))
place (suc n) (x ∷ keys) (v ∷ vals) (cons c cs) k h a = elim (Bool-cases (ltb x k)) [
  | inl less ↦
      let tail = IsAscending-right (entries c) ((x, v) ∷ flatten n keys vals cs) a in
      let p =
        place n keys vals cs k (omega (arith, h.0), omega (arith, h.1), omega (arith, h.2))
          tail.1 in
      let lt : x < k = ground arith in
      record {
        i = suc p.i;
        bound = omega (arith, p.bound);
        index = λ slot. rw less (p.index (suc slot) ∙ ap ok (omega arith));
        low =
            AllBelow-append k (entries c) ((x, v) ∷ before p.i keys vals cs)
              (AllBelow-lt x k (entries c) lt
                (IsAscending-AllBelow x v (entries c) (flatten n keys vals cs) a))
              (lt, p.low);
        verdict = elim p.verdict [
          | inl (at, w, more, e, f) ↦ inl (is_at-suc p.i n x keys k true at, w, more, e, f)
          | inr (off, above) ↦ inr (is_at-suc p.i n x keys k false off, above)
        ];
      }
  | inr ge ↦
      let tail = IsAscending-right (entries c) ((x, v) ∷ flatten n keys vals cs) a in
      record {
        i = 0;
        bound = omega arith;
        index = λ slot. rw ge (ap ok (omega arith));
        low = tt;
        verdict = elim (Bool-cases (x == k)) [
          | inl same ↦
              let eq : x ≡ k = ground arith in
              inl (
                rw (first n) (ap ok same),
                v,
                flatten n keys vals cs,
                refl,
                ap (λ y. (y, v) ∷ flatten n keys vals cs) eq,
              )
          | inr other ↦
              let lt : k < x = ground arith in
              inr (
                rw (first n) (ap ok other),
                (lt, AllAbove-lt k x (flatten n keys vals cs) lt tail.0),
              )
        ];
      }
]

pub key_index-place :
    (n : ℕ) (keys vals : List ℕ) (cs : Forest) (k : ℕ) (p : Place n keys vals cs k)
    → key_index keys n k ≡ ok p.i
unfolding key_index
key_index-place n keys vals cs k p = p.index 0 ∙ ap ok (omega arith)
