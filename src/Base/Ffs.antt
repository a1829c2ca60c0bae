-- ===== src/Base/Ffs.antt =====
-- The index of the lowest digit of a word that is one.
use refined_c.Base.{
  ℕ, zero, suc, ◌+◌, ◌/◌, ◌%◌, ◌<◌, ◌≡◌, ◌∙◌, true, false, ◌==◌, if◌then◌else◌, arith, Bool-cases,
  inl, inr, sym, ltb, ltb→lt, ltb→ge,
}
use mathlib.Core.Bool.{true≢false}
use refined_c.Base.Bits.{testbit}

-- `__builtin_ffsll` on words of so many digits: one plus the index of the lowest one, or 0.
unfoldable pub ffs : ℕ → ℕ → ℕ
ffs zero x = 0
ffs (suc w) x = let r = ffs w (x / 2) in if x % 2 == 1 then 1 else if r == 0 then 0 else r + 1

-- What `ffs w x` tells of the digits of `x` below `w`.
abbrev pub FirstDigit : (w x r : ℕ) → Type 0
FirstDigit w x zero = (j : ℕ) → j < w → testbit x j ≡ false
FirstDigit w x (suc i) = (i < w) × (testbit x i ≡ true) × ((j : ℕ) → j < i → testbit x j ≡ false)

-- A digit more at the low end.
even_below :
    (n x : ℕ)
    → (x % 2 == 1) ≡ false
    → ((j : ℕ) → j < n → testbit (x / 2) j ≡ false)
    → (j : ℕ) → j < suc n
    → testbit x j ≡ false
unfolding testbit
even_below n x even below zero lt = even
even_below n x even below (suc j) lt = below j (omega arith)

shift_digit :
    (w x r : ℕ)
    → (x % 2 == 1) ≡ false
    → FirstDigit w (x / 2) r
    → FirstDigit (suc w) x (if r == 0 then 0 else r + 1)
unfolding testbit
shift_digit w x zero even first = even_below w x even first
shift_digit w x (suc i) even first =
    let e : (if suc i == 0 then 0 else suc i + 1) ≡ suc (suc i) = ground arith in
    rw e (omega (arith, first.0), first.1, even_below i x even first.2)

pub ffs-FirstDigit : (w x : ℕ) → FirstDigit w x (ffs w x)
unfolding ffs testbit
ffs-FirstDigit zero x = λ j lt. absurd (omega arith)
ffs-FirstDigit (suc w) x = elim (Bool-cases (x % 2 == 1)) [
  | inl odd ↦ rw odd (omega arith, odd, λ j lt. absurd (omega arith))
  | inr even ↦ rw even (shift_digit w x (ffs w (x / 2)) even (ffs-FirstDigit w (x / 2)))
]

-- No other index is the lowest.
pub FirstDigit-unique :
    (w x r i : ℕ)
    → FirstDigit w x r
    → i < w
    → testbit x i ≡ true
    → ((j : ℕ) → j < i → testbit x j ≡ false)
    → r ≡ suc i
FirstDigit-unique w x zero i first lt one below = absurd (true≢false (sym one ∙ first i lt))
FirstDigit-unique w x (suc r) i first lt one below = elim (Bool-cases (ltb r i)) [
  | inl less ↦ absurd (true≢false (sym first.1 ∙ below r (ltb→lt r i less)))
  | inr no_less ↦ elim (Bool-cases (ltb i r)) [
    | inl more ↦ absurd (true≢false (sym one ∙ first.2 i (ltb→lt i r more)))
    | inr no_more ↦ omega (arith, ltb→ge r i no_less, ltb→ge i r no_more)
  ]
]
