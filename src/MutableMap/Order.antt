-- ===== src/MutableMap/Order.antt =====
-- The order in which `fsm_probe` visits the slots, over a function that gives the key of a slot
-- (`none` for an empty slot).
use mathlib.Core.Path.{subst₂}
use native.Mathlib.Nat.{mod-lt, mod-eq_of_lt, mod-add-mod, mod-eq-sub-mod}
use refined_c.Base.{
  ℕ, ◌+◌, ◌-◌, ◌%◌, ◌<◌, ◌≤◌, ◌≡◌, sym, ap, ◌∙◌, Bool, true, false, Option, none, some, arith, ◌==◌,
  if◌then◌else◌, leb, inl, inr, Bool-cases,
}

-- The slot of the `j`-th probe for `key` in a table of `n` slots.
abbrev pub slot : (n key j : ℕ) → ℕ
slot n key j = (key % n + j) % n

-- The probe for `key` stops at a slot that is empty or holds the same key.
abbrev pub stops : Option ℕ → ℕ → Bool
stops none key = true
stops (some k) key = k == key

-- `p` is the first slot in probing order at which the probe for `key` stops.
pub record First (keys : ℕ → Option ℕ) (n key p : ℕ) : Type 0 where
  pub steps : ℕ
  pub near : steps < n
  pub at : p ≡ slot n key steps
  pub here : stops (keys p) key ≡ true
  pub before : (j : ℕ) → j < steps → stops (keys (slot n key j)) key ≡ false

-- Each key that the table holds is found by its probe.
abbrev pub Located : (ℕ → Option ℕ) → ℕ → Type 0
Located keys n = (i k : ℕ) → keys i ≡ some k → First keys n k i

abbrev pub update : (ℕ → Option ℕ) → ℕ → Option ℕ → ℕ → Option ℕ
update keys p o i = if i == p then o else keys i

pub slot-lt : (n key j : ℕ) → 0 < n → slot n key j < n
slot-lt n key j h = mod-lt _ h

-- The code's step from one slot to the next.
pub slot-suc : (n key j : ℕ) → (slot n key j + 1) % n ≡ slot n key (j + 1)
slot-suc n key j = mod-add-mod (key % n + j) n 1 ∙ ap (λ (t : ℕ). t % n) (omega arith)

pub slot-zero : (n key : ℕ) → 0 < n → slot n key 0 ≡ key % n
slot-zero n key h = ap (λ (t : ℕ). t % n) (omega arith) ∙ mod-eq_of_lt (mod-lt key h)

-- Probing reaches each slot within one round.
pub slot-surjective : (n key e : ℕ) → e < n → (j : ℕ) × (j < n) × (slot n key j ≡ e)
slot-surjective n key e h = elim (Bool-cases (leb (key % n) e)) [
  | inl q ↦
      let le : key % n ≤ e = ground arith in
      (e - key % n, omega arith, ap (λ (t : ℕ). t % n) (omega arith) ∙ mod-eq_of_lt h)
  | inr q ↦
      let gt : e < key % n = ground arith in
      let small : key % n < n = mod-lt key (omega arith) in
      (
        e + n - key % n,
        omega arith,
        ap (λ (t : ℕ). t % n) (omega arith)
            ∙ (mod-eq-sub-mod {n = e + n} {m = n} (omega arith)
                ∙ (ap (λ (t : ℕ). t % n) (omega arith) ∙ mod-eq_of_lt h)),
      )
]

First-update_other :
    {keys : ℕ → Option ℕ} {n i k : ℕ} (p key : ℕ)
    → First keys n k i
    → stops (keys p) key ≡ true
    → (i == p) ≡ false
    → First (update keys p (some key)) n k i
First-update_other {keys} {n} {i} {k} p key first free other = record {
  steps = first.steps;
  near = first.near;
  at = first.at;
  here = rw other first.here;
  before = λ j lt. ground (arith, first.before j lt, free);
}

module _ {keys : ℕ → Option ℕ} {n key : ℕ} where
  -- A probe does not go past a slot at which it stops.
  First-le : {p q : ℕ} (a : First keys n key p) (b : First keys n key q) → b.steps ≤ a.steps
  First-le a b = ground (arith, b.before a.steps, clash)
    where
      clash : stops (keys (slot n key a.steps)) key ≡ true
      clash = rw a.at at a.here

  pub First-unique : {p q : ℕ} → First keys n key p → First keys n key q → p ≡ q
  First-unique a b =
      let same : a.steps ≡ b.steps = omega (arith, First-le a b, First-le b a) in
      a.at ∙ (ap (slot n key) same ∙ sym b.at)

  First-update_self : {p : ℕ} → First keys n key p → First (update keys p (some key)) n key p
  First-update_self {p} first = record {
    steps = first.steps;
    near = first.near;
    at = first.at;
    here = ground arith;
    before = λ j lt. ground (arith, first.before j lt, first.here);
  }

  -- Writing the key into the slot where its probe ends keeps each key located.
  pub Located-update :
      (p : ℕ) → Located keys n → First keys n key p → Located (update keys p (some key)) n
  Located-update p located first i k e = elim (Bool-cases (i == p)) [
    | inl hit ↦
        let same : p ≡ i = ground arith in
        let key_eq : key ≡ k = ground (arith, e, hit) in
        subst₂ (First (update keys p (some key)) n) key_eq same (First-update_self first)
    | inr miss ↦ First-update_other p key (located i k (ground (arith, e, miss))) first.here miss
  ]
