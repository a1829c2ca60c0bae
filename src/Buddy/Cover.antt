-- ===== src/Buddy/Cover.antt =====
-- How often the free blocks of a pool cover a page. A block is its first page and its order.
use mathlib.Core.Path.{subst}
use refined_c.Base.{
  ℕ, zero, suc, ◌+◌, ◌*◌, ◌/◌, ◌%◌, ◌^◌, ◌≤◌, ◌<◌, ◌≡◌, refl, false, ◌==◌, ◌&&◌, leb, ltb,
  if◌then◌else◌, arith, ap, ◌∙◌, List, [], ◌∷◌, ◌++◌, In, ◌⊎◌, inl, inr, Bool-cases, ==_refl,
}
use native.Mathlib.Nat.{pow-suc, mul_assoc, mul-add, add-mul}
use refined_c.Base.Words.{suc-ones}
use refined_c.Buddy.Find.{sibling}

-- 1 if the page is in the block, 0 otherwise
abbrev pub inside : (p order x : ℕ) → ℕ
inside p order x = if leb p x && ltb x (p + 2 ^ order) then 1 else 0

abbrev pub count : (order : ℕ) (ps : List ℕ) (x : ℕ) → ℕ
count order [] x = 0
count order (p ∷ ps) x = inside p order x + count order ps x

-- The blocks of the orders below `n`
abbrev pub cover : (n : ℕ) (lists : ℕ → List ℕ) (x : ℕ) → ℕ
cover zero lists x = 0
cover (suc n) lists x = count n (lists n) x + cover n lists x

-- One list replaced
abbrev pub put : (order : ℕ) (ps : List ℕ) (lists : ℕ → List ℕ) → ℕ → List ℕ
put order ps lists o = if o == order then ps else lists o

pub count-append :
    (order : ℕ) (ps qs : List ℕ) (x : ℕ)
    → count order (ps ++ qs) x ≡ count order ps x + count order qs x
count-append order [] qs x = omega arith
count-append order (p ∷ ps) qs x = omega (arith, count-append order ps qs x)

cover-put_above :
    (n order : ℕ) (ps : List ℕ) (lists : ℕ → List ℕ) (x : ℕ)
    → n ≤ order
    → cover n (put order ps lists) x ≡ cover n lists x
cover-put_above zero order ps lists x le = refl
cover-put_above (suc n) order ps lists x le =
    let other : (n == order) ≡ false = ground arith in
    rw (other, cover-put_above n order ps lists x (omega arith)) refl

pub cover-put :
    (n order : ℕ) (ps : List ℕ) (lists : ℕ → List ℕ) (x : ℕ)
    → order < n
    → cover n (put order ps lists) x + count order (lists order) x
      ≡ cover n lists x + count order ps x
cover-put zero order ps lists x lt = absurd (omega arith)
cover-put (suc n) order ps lists x lt = elim (Bool-cases (n == order)) [
  | inl e ↦
      let same : n ≡ order = ground arith in
      rw (same, ==_refl order, cover-put_above order order ps lists x (omega arith)) (omega arith)
  | inr other ↦ rw other (omega (arith, cover-put n order ps lists x (ground arith)))
]

pub inside-first : (p order : ℕ) → inside p order p ≡ 1
inside-first p order = ground (arith, suc-ones order)

pub count-In : (order p : ℕ) (ps : List ℕ) (x : ℕ) → In p ps → inside p order x ≤ count order ps x
count-In order p [] x i = elim i [ ]
count-In order p (q ∷ ps) x (inl e) = rw e (omega arith)
count-In order p (q ∷ ps) x (inr i) = omega (arith, count-In order p ps x i)

pub cover-In :
    (n order p : ℕ) (lists : ℕ → List ℕ) (x : ℕ)
    → order < n
    → In p (lists order)
    → inside p order x ≤ cover n lists x
cover-In zero order p lists x lt i = absurd (omega arith)
cover-In (suc n) order p lists x lt i = elim (Bool-cases (n == order)) [
  | inl e ↦
      let same : order ≡ n = ground arith in
      omega (
        arith,
        count-In n p (lists n) x (subst (λ t. In p (lists t)) same i),
        ap (λ t. inside p t x) same,
      )
  | inr other ↦ omega (arith, cover-In n order p lists x (ground arith) i)
]

pub pow_double : (order : ℕ) → 2 ^ (order + 1) ≡ 2 ^ order + 2 ^ order
pow_double order =
    let e : order + 1 ≡ suc order = omega arith in
    ap (λ t. 2 ^ t) e ∙ omega (arith, pow-suc 2 order)

pub half_block : (k order : ℕ) → k / 2 * 2 ^ (order + 1) ≡ 2 * (k / 2 * 2 ^ order)
half_block k order =
    ap (λ t. k / 2 * t) (pow_double order) ∙ omega (arith, mul-add (k / 2) (2 ^ order) (2 ^ order))

even_half : (k q : ℕ) → 2 * (k / 2) * q ≡ 2 * (k / 2 * q)
even_half k q = mul_assoc 2 (k / 2) q

odd_half : (k q : ℕ) → (2 * (k / 2) + 1) * q ≡ 2 * (k / 2 * q) + q
odd_half k q = omega (arith, add-mul (2 * (k / 2)) 1 q, mul_assoc 2 (k / 2) q)

-- Of two siblings, one is the lower half of their block, and the other the upper half.
pub sibling-halves :
    (k q : ℕ)
    → ((k * q ≡ 2 * (k / 2 * q) + q) × (sibling k * q ≡ 2 * (k / 2 * q)))
      ⊎ ((k * q ≡ 2 * (k / 2 * q)) × (sibling k * q ≡ 2 * (k / 2 * q) + q))
sibling-halves k q = elim (Bool-cases (k % 2 == 1)) [
  | inl odd ↦
      let mine : k ≡ 2 * (k / 2) + 1 = ground arith in
      let other : sibling k ≡ 2 * (k / 2) = ground arith in
      inl (ap (λ t. t * q) mine ∙ odd_half k q, ap (λ t. t * q) other ∙ even_half k q)
  | inr even ↦
      let mine : k ≡ 2 * (k / 2) = ground arith in
      let other : sibling k ≡ 2 * (k / 2) + 1 = ground arith in
      inr (ap (λ t. t * q) mine ∙ even_half k q, ap (λ t. t * q) other ∙ odd_half k q)
]

-- Two siblings make the block of twice their size.
pub inside-sibling :
    (k order x : ℕ)
    → inside (k * 2 ^ order) order x + inside (sibling k * 2 ^ order) order x
      ≡ inside (k / 2 * 2 ^ (order + 1)) (order + 1) x
inside-sibling k order x = elim (sibling-halves k (2 ^ order)) [
  | inl (mine, other) ↦ rw (mine, other, half_block k order, pow_double order) (ground arith)
  | inr (mine, other) ↦ rw (mine, other, half_block k order, pow_double order) (ground arith)
]

pub count_le :
    (n order : ℕ) (lists : ℕ → List ℕ) (x : ℕ)
    → order < n
    → count order (lists order) x ≤ cover n lists x
count_le zero order lists x lt = absurd (omega arith)
count_le (suc n) order lists x lt = elim (Bool-cases (n == order)) [
  | inl e ↦ let same : order ≡ n = ground arith in rw same (omega arith)
  | inr other ↦ omega (arith, count_le n order lists x (ground arith))
]
