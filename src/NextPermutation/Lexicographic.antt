-- ===== src/NextPermutation/Lexicographic.antt =====
-- The lexicographic order, and which array is next in it among those with the same elements.
use refined_c.Base.{
  ℕ, zero, suc, ◌+◌, ◌<◌, ◌≤◌, ◌≡◌, refl, sym, ap, ◌∙◌, ◌⊎◌, inl, inr, true, List, [], ◌∷◌, length,
  ◌==◌, if◌then◌else◌, arith, Bool-cases,
}
use refined_c.ArraySort.Arrays.{elem, count}

abbrev pub Lex : List ℕ → List ℕ → Type 0
Lex [] bs = ⊥
Lex (a ∷ as') [] = ⊥
Lex (a ∷ as') (b ∷ bs) = (a < b) ⊎ ((a ≡ b) × Lex as' bs)

-- The same elements, each as often
abbrev pub SameElements : List ℕ → List ℕ → Type 0
SameElements xs ys = (v : ℕ) → count v xs ≡ count v ys

count-elem : (v : ℕ) (xs : List ℕ) → 0 < count v xs → (p : ℕ) × (p < length xs) × (elem xs p ≡ v)
count-elem v [] h = elim h [ ]
count-elem v (x ∷ xs) h = elim (Bool-cases (x == v)) [
  | inl here ↦ (0, omega arith, ground arith)
  | inr there ↦
      let rest : count v (x ∷ xs) ≡ 0 + count v xs = rw there refl in
      let more : 0 < count v xs = omega (arith, rest, h) in
      let (p, lt, e) = count-elem v xs more in (suc p, omega (arith, lt), e)
]

-- The head of one list is an element of the other.
head_found :
    (b : ℕ) (xs bs : List ℕ)
    → SameElements xs (b ∷ bs)
    → (p : ℕ) × (p < length xs) × (elem xs p ≡ b)
head_found b xs bs same =
    let own : (b == b) ≡ true = ground arith in
    let c : count b (b ∷ bs) ≡ 1 + count b bs = rw own refl in
    count-elem b xs (omega (arith, same b, c))

tail-SameElements :
    (a b : ℕ) (xs ys : List ℕ) → a ≡ b → SameElements (a ∷ xs) (b ∷ ys) → SameElements xs ys
tail-SameElements a b xs ys e same v =
    omega (arith, same v, ap {B = ℕ} (λ x. if x == v then 1 else 0) e)

abbrev pub Falls : List ℕ → Type 0
Falls xs = (p q : ℕ) → p ≤ q → q < length xs → elem xs q ≤ elem xs p

abbrev pub Rises : List ℕ → Type 0
Rises xs = (p q : ℕ) → p ≤ q → q < length xs → elem xs p ≤ elem xs q

-- A falling list is the last of its permutations, and a rising one the first.
pub Falls-Lex : (xs ys : List ℕ) → Falls xs → SameElements xs ys → Lex xs ys → ⊥
Falls-Lex [] ys falls same lex = lex
Falls-Lex (a ∷ xs) [] falls same lex = lex
Falls-Lex (a ∷ xs) (b ∷ ys) falls same (inl lt) =
    let (p, inside, e) = head_found b (a ∷ xs) ys same in
    omega (arith, lt, e, falls 0 p (omega arith) inside)
Falls-Lex (a ∷ xs) (b ∷ ys) falls same (inr (e, lex)) =
    Falls-Lex xs ys (λ p q l u. falls (suc p) (suc q) (omega arith) (omega arith))
      (tail-SameElements a b xs ys e same) lex

pub Rises-Lex : (xs ys : List ℕ) → Rises xs → SameElements xs ys → Lex ys xs → ⊥
Rises-Lex [] [] rises same lex = lex
Rises-Lex [] (b ∷ ys) rises same lex = lex
Rises-Lex (a ∷ xs) [] rises same lex = lex
Rises-Lex (a ∷ xs) (b ∷ ys) rises same (inl lt) =
    let (p, inside, e) = head_found b (a ∷ xs) ys same in
    omega (arith, lt, e, rises 0 p (omega arith) inside)
Rises-Lex (a ∷ xs) (b ∷ ys) rises same (inr (e, lex)) =
    Rises-Lex xs ys (λ p q l u. rises (suc p) (suc q) (omega arith) (omega arith))
      (tail-SameElements a b xs ys (sym e) same) lex

-- An array and another one that first differs from it at `m`, as a next permutation does: behind `m`
-- the old one falls and the new one rises, and the element at `m` becomes the least greater one from
-- behind.
pub record IsNextAt (m : ℕ) (xs zs : List ℕ) : Type 0 where
  pub inside : m < length xs
  pub same_length : length zs ≡ length xs
  pub same : (p : ℕ) → p < m → elem zs p ≡ elem xs p
  pub greater : elem xs m < elem zs m
  pub falls : (p q : ℕ) → m < p → p ≤ q → q < length xs → elem xs q ≤ elem xs p
  pub rises : (p q : ℕ) → m < p → p ≤ q → q < length zs → elem zs p ≤ elem zs q
  pub least : (p : ℕ) → m < p → p < length xs → elem xs m < elem xs p → elem zs m ≤ elem xs p

tail-IsNextAt : (m x z : ℕ) (xs zs : List ℕ) → IsNextAt (suc m) (x ∷ xs) (z ∷ zs) → IsNextAt m xs zs
tail-IsNextAt m x z xs zs n = record {
  inside = omega (arith, n.inside);
  same_length = omega (arith, n.same_length);
  same = λ p l. n.same (suc p) (omega arith);
  greater = n.greater;
  falls = λ p q l u w. n.falls (suc p) (suc q) (omega arith) (omega arith) (omega arith);
  rises = λ p q l u w. n.rises (suc p) (suc q) (omega arith) (omega arith) (omega arith);
  least = λ p l u h. n.least (suc p) (omega arith) (omega arith) h;
}

pub IsNextAt-Lex : (m : ℕ) (xs zs : List ℕ) → IsNextAt m xs zs → Lex xs zs
IsNextAt-Lex m [] zs n = absurd (omega (arith, n.inside))
IsNextAt-Lex m (x ∷ xs) [] n = absurd (omega (arith, n.same_length))
IsNextAt-Lex zero (x ∷ xs) (z ∷ zs) n = inl n.greater
IsNextAt-Lex (suc m) (x ∷ xs) (z ∷ zs) n =
    inr (sym (n.same 0 (omega arith)), IsNextAt-Lex m xs zs (tail-IsNextAt m x z xs zs n))

-- Nothing with the same elements stands between the two.
pub IsNextAt-between :
    (m : ℕ) (xs zs ys : List ℕ)
    → IsNextAt m xs zs
    → SameElements xs zs
    → SameElements xs ys
    → Lex xs ys
    → Lex ys zs
    → ⊥
IsNextAt-between m [] zs ys n sz sy low high = low
IsNextAt-between m (x ∷ xs) zs [] n sz sy low high = low
IsNextAt-between m (x ∷ xs) [] (y ∷ ys) n sz sy low high = high
IsNextAt-between zero (x ∷ xs) (z ∷ zs) (y ∷ ys) n sz sy (inr (e, low)) high =
    Falls-Lex xs ys (λ p q l u. n.falls (suc p) (suc q) (omega arith) (omega arith) (omega arith))
      (tail-SameElements x y xs ys e sy) low
IsNextAt-between zero (x ∷ xs) (z ∷ zs) (y ∷ ys) n sz sy (inl lt) (inr (e, high)) =
    Rises-Lex zs ys (λ p q l u. n.rises (suc p) (suc q) (omega arith) (omega arith) (omega arith))
      (tail-SameElements z y zs ys (sym e) (λ v. sym (sz v) ∙ sy v)) high
IsNextAt-between zero (x ∷ xs) (z ∷ zs) (y ∷ ys) n sz sy (inl lt) (inl lt') =
    let (p, inside, e) = head_found y (x ∷ xs) ys sy in
    elim (Bool-cases (p == 0)) [
      | inl first ↦
          let eq : p ≡ 0 = ground arith in
          let same : x ≡ y = sym (ap (elem (x ∷ xs)) eq) ∙ e in omega (arith, same)
      | inr later ↦
          let pos : 0 < p = ground arith in
          omega (arith, n.least p pos inside (omega (arith, e)), e)
    ]
IsNextAt-between (suc m) (x ∷ xs) (z ∷ zs) (y ∷ ys) n sz sy (inl lt) (inl lt') =
    omega (arith, n.same 0 (omega arith))
IsNextAt-between (suc m) (x ∷ xs) (z ∷ zs) (y ∷ ys) n sz sy (inl lt) (inr (e, high)) =
    omega (arith, n.same 0 (omega arith), e)
IsNextAt-between (suc m) (x ∷ xs) (z ∷ zs) (y ∷ ys) n sz sy (inr (e, low)) (inl lt) =
    omega (arith, n.same 0 (omega arith), e)
IsNextAt-between (suc m) (x ∷ xs) (z ∷ zs) (y ∷ ys) n sz sy (inr (e, low)) (inr (f, high)) =
    IsNextAt-between m xs zs ys (tail-IsNextAt m x z xs zs n)
      (tail-SameElements x z xs zs (e ∙ f) sz) (tail-SameElements x y xs ys e sy) low high
