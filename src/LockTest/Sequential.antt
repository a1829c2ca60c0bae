-- ===== src/LockTest/Sequential.antt =====
-- The calls one after the other, and how far a call under the lock has come.
use mathlib.Core.Path.{ap₂}
use refined_c.Base.{
  ℕ, ◌+◌, ◌-◌, ◌<◌, ◌≤◌, ◌≡◌, refl, sym, ap, ◌∙◌, Bool, true, false, [], ◌∷◌, ltb, if◌then◌else◌,
  arith, Bool-cases, inl, inr,
}
use refined_c.LockTest.{
  Locked, LockTest, init, Call, write_locked, read_locked, increment, Pc, idle, acquire, write_int,
  read_int, test_b, load_a, store_a, load_b, store_b, read_a, release, first_access, count_up,
  count_down, step, Log,
}

-- What a call does alone, and what it returns. The counters are plain numbers.
abbrev pub exec : Call → Locked → Locked × ℕ
exec (write_locked n) d = (record d { locked_int = n }, 0)
exec read_locked d = (d, d.locked_int)
exec increment d = if ltb 0 d.b then (record d { a = d.a + 1; b = d.b - 1 }, d.a + 1) else (d, d.a)

-- The calls of the log, in its order, lead from the initial state to `d` and return what the log says.
abbrev pub IsSequential : Log → Locked → Type 0
IsSequential [] d = d ≡ init.locked
IsSequential ((call, ret) ∷ log) d = (d0 : Locked) × IsSequential log d0 × (exec call d0 ≡ (d, ret))

exec-total : (call : Call) (d : Locked) → (exec call d).0.a + (exec call d).0.b ≡ d.a + d.b
exec-total (write_locked n) d = refl
exec-total read_locked d = refl
exec-total increment d = ground arith

pub IsSequential-total : (log : Log) (d : Locked) → IsSequential log d → d.a + d.b ≡ 10
IsSequential-total [] d e = omega (arith, ap (λ x. x.a + x.b) e)
IsSequential-total ((call, ret) ∷ log) d (d0, seq, e) =
    let before = IsSequential-total log d0 seq in
    omega (arith, before, exec-total call d0, ap (λ x. x.0.a + x.0.b) e)

-- How far the thread has come that has the lock since `d0`.
abbrev pub Progress : Pc → (d0 d : Locked) → Type 0
Progress (write_int n) d0 d = d ≡ d0
Progress read_int d0 d = d ≡ d0
Progress test_b d0 d = d ≡ d0
Progress load_a d0 d = (d ≡ d0) × (0 < d0.b)
Progress (store_a loaded) d0 d = (d ≡ d0) × (0 < d0.b) × (loaded ≡ d0.a)
Progress load_b d0 d = (d ≡ record d0 { a = d0.a + 1 }) × (0 < d0.b)
Progress (store_b loaded) d0 d = (d ≡ record d0 { a = d0.a + 1 }) × (0 < d0.b) × (loaded ≡ d0.b)
Progress read_a d0 d = exec increment d0 ≡ (d, d.a)
Progress (release call ret) d0 d = exec call d0 ≡ (d, ret)
Progress _ d0 d = ⊥

pub first_access-Progress : (call : Call) (d : Locked) → Progress (first_access call) d d
first_access-Progress (write_locked n) d = refl
first_access-Progress read_locked d = refl
first_access-Progress increment d = refl

-- Under the lock
abbrev pub inside : Pc → Bool
inside idle = false
inside (acquire call) = false
inside _ = true

abbrev pub returning : Pc → Bool
returning (release call ret) = true
returning _ = false

count_up_lem : (d : Locked) → d.a ≤ 10 → count_up d.a d ≡ record d { a = d.a + 1 }
unfolding count_up
count_up_lem d h = ground arith

count_down_lem :
    (d : Locked)
    → 0 < d.b
    → d.b ≤ 10
    → count_down d.b (record d { a = d.a + 1 }) ≡ record d { a = d.a + 1; b = d.b - 1 }
unfolding count_down
count_down_lem d pos h = ground arith

pair_eq : {x y : Locked} {m n : ℕ} → x ≡ y → m ≡ n → ◌≡◌ {A = Locked × ℕ} (x, m) (y, n)
pair_eq e f = λ i. (e i, f i)

-- A step under the lock, but for the last, brings the call on.
pub step-Progress :
    (t : LockTest) (p : Pc) (call : Call) (d0 : Locked)
    → d0.a + d0.b ≡ 10
    → returning p ≡ false
    → Progress p d0 t.locked
    → Progress (step t p call).1 d0 (step t p call).0.locked × ((step t p call).0.lock ≡ t.lock)
unfolding step
step-Progress t idle call d0 sum r g = absurd g
step-Progress t (acquire c) call d0 sum r g = absurd g
step-Progress t (write_int n) call d0 sum r g =
    (ap (λ x. (record x { locked_int = n }, 0)) (sym g), refl)
step-Progress t read_int call d0 sum r g = (ap (λ x. (x, x.locked_int)) (sym g), refl)
step-Progress t test_b call d0 sum r g = elim (Bool-cases (ltb 0 d0.b)) [
  | inl some_left ↦
      let same : ltb 0 t.locked.b ≡ true = ap (λ x. ltb 0 x.b) g ∙ some_left in
      rw same ((g, ground arith), refl)
  | inr none_left ↦
      let same : ltb 0 t.locked.b ≡ false = ap (λ x. ltb 0 x.b) g ∙ none_left in
      rw same (rw none_left (ap (λ x. (x, x.a)) (sym g)), refl)
]
step-Progress t load_a call d0 sum r g = ((g.0, g.1, ap (λ x. x.a) g.0), refl)
step-Progress t (store_a loaded) call d0 sum r g =
    ((ap₂ count_up g.2 g.0 ∙ count_up_lem d0 (omega (arith, sum)), g.1), refl)
step-Progress t load_b call d0 sum r g = ((g.0, g.1, ap (λ x. x.b) g.0), refl)
step-Progress t (store_b loaded) call d0 sum r g =
    let some_left : ltb 0 d0.b ≡ true = ground (arith, g.1) in
    let counted = ap₂ count_down g.2 g.0 ∙ count_down_lem d0 g.1 (omega (arith, sum)) in
    (rw some_left (pair_eq (sym counted) (ap (λ x. x.a) (sym g.0))), refl)
step-Progress t read_a call d0 sum r g = (g, refl)
step-Progress t (release c ret) call d0 sum r g = cc
