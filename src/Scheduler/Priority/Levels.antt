-- ===== src/Scheduler/Priority/Levels.antt =====
-- The bitmap as a set of priorities: setting and clearing a level.
use refined_c.Base.{
  ℕ, ◌/◌, ◌%◌, ◌^◌, ◌<◌, ◌≤◌, ◌≡◌, refl, ap, ◌∙◌, Bool, true, false, List, [], ◌∷◌, ◌==◌,
  if◌then◌else◌, set, get_or, arith, length, length-set, get_or-set_self, get_or-set_ne, Bool-cases,
  inl, inr,
}
use refined_c.Base.Bits.{
  bit_not, ones, testbit, testbit-bit_or, testbit-bit_and, testbit-bit_not, testbit-pow, bit_or-le,
  bit_and-le, pow-le-ones, testbit-zero,
}
use refined_c.Scheduler.Priority.{
  PrioBitmap, prio_level_init, init_loop, priority_level_set, priority_level_clear,
}

-- Is the level of this priority marked as non-empty?
abbrev pub level : PrioBitmap → ℕ → Bool
level bm prio = testbit (get_or bm.bits (prio / 64) 0) (prio % 64)

-- Four words of 64 digits.
pub record IsBitmap (bm : PrioBitmap) : Type 0 where
  pub four : length bm.bits ≡ 4
  pub words : (i : ℕ) → i < 4 → get_or bm.bits i 0 ≤ ones 64

module _ (bm : PrioBitmap) (prio : ℕ) (is : IsBitmap bm) (small : prio < 256) where
  word-lt : prio / 64 < length bm.bits
  word-lt = omega (arith, is.four)

  -- A write of the word of `prio`, seen from any level.
  level-write :
      (x q : ℕ)
      → level (record { bits = set bm.bits (prio / 64) x }) q
        ≡ (if prio / 64 == q / 64 then testbit x (q % 64) else level bm q)
  level-write x q = elim (Bool-cases (prio / 64 == q / 64)) [
    | inl same ↦
        let e : prio / 64 ≡ q / 64 = ground arith in
        rw (same, ← e)
          (ap (λ t. testbit t (q % 64)) (get_or-set_self bm.bits (prio / 64) x 0 word-lt))
    | inr other ↦ rw other (
        ap (λ t. testbit t (q % 64))
          (get_or-set_ne bm.bits (prio / 64) (q / 64) x 0 (ground arith)))
  ]

  write-IsBitmap : (x : ℕ) → x ≤ ones 64 → IsBitmap (record { bits = set bm.bits (prio / 64) x })
  write-IsBitmap x fits = record {
    four = length-set bm.bits (prio / 64) x ∙ is.four;
    words = λ i lt. elim (Bool-cases (prio / 64 == i)) [
      | inl same ↦
          let e : prio / 64 ≡ i = ground arith in
          rw (← e, get_or-set_self bm.bits (prio / 64) x 0 word-lt) fits
      | inr other ↦ rw (get_or-set_ne bm.bits (prio / 64) i x 0 (ground arith)) (is.words i lt)
    ];
  }

  -- A write that gives one digit anew changes one level.
  level-digit :
      (x : ℕ) (b : Bool)
      → ((i : ℕ)
          → i < 64
          → testbit x i ≡ (if prio % 64 == i then b else testbit (get_or bm.bits (prio / 64) 0) i))
      → (q : ℕ)
      → level (record { bits = set bm.bits (prio / 64) x }) q
        ≡ (if prio == q then b else level bm q)
  level-digit x b digit q = level-write x q ∙ elim (Bool-cases (prio / 64 == q / 64)) [
    | inl same ↦
        let e : prio / 64 ≡ q / 64 = ground arith in
        let t : (prio % 64 == q % 64) ≡ (prio == q) = ground arith in
        rw (same, digit (q % 64) (omega arith), t, e)
    | inr other ↦ let t : (prio == q) ≡ false = ground arith in rw (other, t)
  ]

  mask-le : 2 ^ (prio % 64) ≤ ones 64
  mask-le = pow-le-ones 64 (prio % 64) (omega arith)

  -- `priority_level_set` on four words marks this level, one of 256, and changes no other.
  pub level-priority_level_set :
      (q : ℕ) → level (priority_level_set bm prio) q ≡ (if prio == q then true else level bm q)
  unfolding priority_level_set
  level-priority_level_set = level-digit _ true λ i lt. ground (
    arith,
    testbit-bit_or i (get_or bm.bits (prio / 64) 0) (2 ^ (prio % 64)),
    testbit-pow (prio % 64) i,
  )

  -- `priority_level_clear` on four words unmarks this level, one of 256, and changes no other.
  pub level-priority_level_clear :
      (q : ℕ) → level (priority_level_clear bm prio) q ≡ (if prio == q then false else level bm q)
  unfolding priority_level_clear
  level-priority_level_clear = level-digit _ false λ i lt. ground (
    arith,
    testbit-bit_and i (get_or bm.bits (prio / 64) 0) (bit_not 64 (2 ^ (prio % 64))),
    testbit-bit_not 64 i (2 ^ (prio % 64)) mask-le lt,
    testbit-pow (prio % 64) i,
  )

  pub priority_level_set-IsBitmap : IsBitmap (priority_level_set bm prio)
  unfolding priority_level_set
  priority_level_set-IsBitmap =
      write-IsBitmap _ (bit_or-le 64 _ _ (is.words (prio / 64) (omega arith)) mask-le)

  pub priority_level_clear-IsBitmap : IsBitmap (priority_level_clear bm prio)
  unfolding priority_level_clear
  priority_level_clear-IsBitmap =
      write-IsBitmap _ (bit_and-le 64 _ _ (is.words (prio / 64) (omega arith)))

abbrev zero_bits : List ℕ
zero_bits = 0 ∷ 0 ∷ 0 ∷ 0 ∷ []

init_words : (bits : List ℕ) → length bits ≡ 4 → init_loop 4 0 bits ≡ zero_bits
unfolding init_loop
init_words [] four = absurd (omega arith)
init_words (a ∷ []) four = absurd (omega arith)
init_words (a ∷ b ∷ []) four = absurd (omega arith)
init_words (a ∷ b ∷ c ∷ []) four = absurd (omega arith)
init_words (a ∷ b ∷ c ∷ d ∷ []) four = refl
init_words (a ∷ b ∷ c ∷ d ∷ e ∷ bits) four = absurd (omega arith)

zero_words : (i : ℕ) → get_or zero_bits i 0 ≡ 0
zero_words i = ground arith

-- `prio_level_init` leaves every level unmarked, whatever the array held.
pub prio_level_init-level :
    (bm : PrioBitmap)
    → length bm.bits ≡ 4
    → IsBitmap (prio_level_init bm) × ((q : ℕ) → level (prio_level_init bm) q ≡ false)
unfolding prio_level_init
prio_level_init-level bm four = rw (init_words bm.bits four) (
  record { four = refl; words = λ i lt. rw (zero_words i) (omega arith) },
  λ q. rw (zero_words (q / 64)) (testbit-zero (q % 64)),
)
