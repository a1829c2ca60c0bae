-- ===== src/LockTest/Runs.antt =====
-- Whatever the schedule, the calls take effect one after the other.
use mathlib.Core.Path.{subst}
use refined_c.Base.{
  ℕ, ◌+◌, ◌≤◌, ◌≡◌, ◌≢◌, ◌⊎◌, inl, inr, refl, sym, ap, ◌∙◌, true, false, List, [], ◌∷◌, ◌==◌,
  if◌then◌else◌, arith, Bool-cases, In,
}
use refined_c.LockTest.{
  Locked, LockTest, Call, increment, Pc, idle, acquire, write_int, release, first_access, sl_lock,
  sl_unlock, step, Log, logged, System, turn, run, start,
}
use refined_c.LockTest.Sequential.{
  exec, IsSequential, IsSequential-total, Progress, first_access-Progress, inside, returning,
  step-Progress,
}

-- The lock is free, or one thread is under it and has begun where the log ends.
abbrev pub Free : System → Type 0
Free s =
    (s.memory.lock ≡ false)
    × IsSequential s.log s.memory.locked
    × ((j : ℕ) → inside (s.pcs j) ≡ false)

abbrev pub Held : System → Type 0
Held s =
    (i : ℕ) × (d0 : Locked) × (s.memory.lock ≡ true)
    × IsSequential s.log d0
    × Progress (s.pcs i) d0 s.memory.locked
    × ((j : ℕ) → i ≢ j → inside (s.pcs j) ≡ false)

-- A thread that is not under the lock, while another one is
waits :
    (t : LockTest) (p : Pc) (call : Call)
    → inside p ≡ false
    → t.lock ≡ true
    → ((step t p call).0 ≡ t) × (inside (step t p call).1 ≡ false)
unfolding step sl_lock
waits t idle call o l = (refl, refl)
waits t (acquire c) call o l = rw l (refl, refl)
waits t (write_int n) call o l = cc
waits t p call o l = cc

logged_outside : (p : Pc) (log : Log) → inside p ≡ false → logged p log ≡ log
logged_outside idle log o = refl
logged_outside (acquire c) log o = refl
logged_outside (release c r) log o = cc
logged_outside p log o = cc

logged_more : (p : Pc) (log : Log) → returning p ≡ false → logged p log ≡ log
logged_more idle log o = refl
logged_more (release c r) log o = cc
logged_more p log o = refl

true_not_false : true ≡ false → ⊥
true_not_false e = cc

abbrev pub Invariant : System → Type 0
Invariant s = Free s ⊎ Held s

-- The system after a step of thread `k`, which stood at `p`.
abbrev after : System → (k : ℕ) → Pc → Call → System
after s k p call = record {
  memory = (step s.memory p call).0;
  pcs = λ j. if k == j then (step s.memory p call).1 else s.pcs j;
  log = logged p s.log;
}

-- Who else is not under the lock
others_outside :
    (s : System) (k : ℕ) (q : Pc)
    → ((j : ℕ) → k ≢ j → inside (s.pcs j) ≡ false)
    → inside q ≡ false
    → (j : ℕ) → inside (if k == j then q else s.pcs j) ≡ false
others_outside s k q all o j = elim (Bool-cases (k == j)) [
  | inl same ↦ rw same o
  | inr off ↦ let ne : k ≢ j = λ e. ground arith in rw off (all j ne)
]

others_kept :
    (s : System) (k : ℕ) (q : Pc)
    → ((j : ℕ) → k ≢ j → inside (s.pcs j) ≡ false)
    → (j : ℕ) → k ≢ j
    → inside (if k == j then q else s.pcs j) ≡ false
others_kept s k q all j ne = let off : (k == j) ≡ false = ground arith in rw off (all j ne)

own_place : (s : System) (k : ℕ) (q : Pc) → (if k == k then q else s.pcs k) ≡ q
own_place s k q = let same : (k == k) ≡ true = ground arith in rw same refl

other_place : (s : System) (k i : ℕ) (q : Pc) → k ≢ i → (if k == i then q else s.pcs i) ≡ s.pcs i
other_place s k i q ne = let off : (k == i) ≡ false = ground arith in rw off refl

after-Free :
    (s : System) (k : ℕ) (p : Pc) (call : Call)
    → Free s
    → inside p ≡ false
    → Invariant (after s k p call)
unfolding step sl_lock
after-Free s k idle call (free, seq, all) o =
    inl (free, seq, others_outside s k (acquire call) (λ j ne. all j) refl)
after-Free s k (acquire c) call (free, seq, all) o = rw free (
    inr (
      k,
      s.memory.locked,
      refl,
      seq,
      subst (λ q. Progress q s.memory.locked s.memory.locked) (sym (own_place s k (first_access c)))
          (first_access-Progress c s.memory.locked),
      others_kept s k (first_access c) (λ j ne. all j),
    ))
after-Free s k (write_int n) call f o = cc
after-Free s k p call f o = cc

after-own :
    (s : System) (k : ℕ) (p : Pc) (call : Call) (d0 : Locked)
    → s.memory.lock ≡ true
    → IsSequential s.log d0
    → Progress p d0 s.memory.locked
    → ((j : ℕ) → k ≢ j → inside (s.pcs j) ≡ false)
    → returning p ≡ false
    → Invariant (after s k p call)
after-own s k p call d0 held seq prog all r =
    let (prog', same) = step-Progress s.memory p call d0 (IsSequential-total s.log d0 seq) r prog in
    let q = (step s.memory p call).1 in
    inr (
      k,
      d0,
      same ∙ held,
      subst (λ log. IsSequential log d0) (sym (logged_more p s.log r)) seq,
      subst (λ x. Progress x d0 (step s.memory p call).0.locked) (sym (own_place s k q)) prog',
      others_kept s k q all,
    )

after-release :
    (s : System) (k : ℕ) (p : Pc) (call : Call) (d0 : Locked)
    → IsSequential s.log d0
    → Progress p d0 s.memory.locked
    → ((j : ℕ) → k ≢ j → inside (s.pcs j) ≡ false)
    → returning p ≡ true
    → Invariant (after s k p call)
unfolding step sl_unlock
after-release s k (release c ret) call d0 seq prog all r =
    inl (refl, (d0, seq, prog), others_outside s k idle all refl)
after-release s k idle call d0 seq prog all r = cc
after-release s k p call d0 seq prog all r = cc

after-other :
    (s : System) (k i : ℕ) (p : Pc) (call : Call) (d0 : Locked)
    → k ≢ i
    → s.memory.lock ≡ true
    → IsSequential s.log d0
    → Progress (s.pcs i) d0 s.memory.locked
    → ((j : ℕ) → i ≢ j → inside (s.pcs j) ≡ false)
    → inside p ≡ false
    → Invariant (after s k p call)
after-other s k i p call d0 ne held seq prog all o =
    let (same, o') = waits s.memory p call o held in
    let q = (step s.memory p call).1 in
    inr (
      i,
      d0,
      ap (λ t. t.lock) same ∙ held,
      subst (λ log. IsSequential log d0) (sym (logged_outside p s.log o)) seq,
      subst (λ x. Progress x d0 (step s.memory p call).0.locked) (sym (other_place s k i q ne))
          (subst (λ t. Progress (s.pcs i) d0 t.locked) (sym same) prog),
      λ j ne'. elim (Bool-cases (k == j)) [ inl at ↦ rw at o' | inr off ↦ rw off (all j ne') ],
    )

turn-Invariant : (s : System) (k : ℕ) (call : Call) → Invariant s → Invariant (turn s k call)
unfolding turn
turn-Invariant s k call (inl f) = after-Free s k (s.pcs k) call f (f.2 k)
turn-Invariant s k call (inr (i, d0, held, seq, prog, all)) = elim (Bool-cases (k == i)) [
  | inl own ↦
      let eq : i ≡ k = ground arith in
      let prog' = subst (λ x. Progress (s.pcs x) d0 s.memory.locked) eq prog in
      let all' : (j : ℕ) → k ≢ j → inside (s.pcs j) ≡ false =
        λ j ne. all j (λ e. ne (sym eq ∙ e)) in
      elim (Bool-cases (returning (s.pcs k))) [
        | inl last ↦ after-release s k (s.pcs k) call d0 seq prog' all' last
        | inr more ↦ after-own s k (s.pcs k) call d0 held seq prog' all' more
      ]
  | inr other ↦
      let ne : k ≢ i = λ e. ground arith in
      after-other s k i (s.pcs k) call d0 ne held seq prog all (all k (λ e. ne (sym e)))
]

run-Invariant : (s : System) (schedule : List (ℕ × Call)) → Invariant s → Invariant (run s schedule)
unfolding run
run-Invariant s [] inv = inv
run-Invariant s ((i, call) ∷ schedule) inv =
    run-Invariant (turn s i call) schedule (turn-Invariant s i call inv)

-- Whatever steps any number of threads made, in any order: if the lock is free, the calls that have
-- returned, in the order of their releases of the lock, lead one after the other from the initial state
-- to what the lock protects, and returned what they return alone.
pub run-IsSequential :
    (schedule : List (ℕ × Call))
    → (run start schedule).memory.lock ≡ false
    → IsSequential (run start schedule).log (run start schedule).memory.locked
run-IsSequential schedule free = elim (run-Invariant start schedule (inl (refl, refl, λ j. refl))) [
  | inl (f, seq, all) ↦ seq
  | inr (i, d0, held, seq, prog, all) ↦ absurd (true_not_false (sym held ∙ free))
]

increment-le : (d : Locked) → d.a + d.b ≡ 10 → (exec increment d).1 ≤ 10
increment-le d h = ground arith

logged-le :
    (log : Log) (d : Locked) (ret : ℕ) → IsSequential log d → In (increment, ret) log → ret ≤ 10
logged-le [] d ret seq i = elim i [ ]
logged-le ((call, r) ∷ log) d ret (d0, seq, e) (inl same) =
    let alone : exec increment d0 ≡ (d, r) = ap (λ x. exec x.0 d0) same ∙ e in
    let value : ret ≡ (exec increment d0).1 = ap (λ x. x.1) same ∙ sym (ap (λ x. x.1) alone) in
    rw value (increment-le d0 (IsSequential-total log d0 seq))
logged-le ((call, r) ∷ log) d ret (d0, seq, e) (inr i) = logged-le log d0 ret seq i

-- Every `increment` that has returned, after whatever steps, returned 10 at most, and while the lock is
-- free the counters `a` and `b` add up to 10.
pub run-total :
    (schedule : List (ℕ × Call))
    → ((ret : ℕ) → In (increment, ret) (run start schedule).log → ret ≤ 10)
      × ((run start schedule).memory.lock ≡ false
          → (run start schedule).memory.locked.a + (run start schedule).memory.locked.b ≡ 10)
run-total schedule =
    let s = run start schedule in
    (
      (λ ret i. elim (run-Invariant start schedule (inl (refl, refl, λ j. refl))) [
        | inl (f, seq, all) ↦ logged-le s.log s.memory.locked ret seq i
        | inr (j, d0, held, seq, prog, all) ↦ logged-le s.log d0 ret seq i
      ]),
      λ free. IsSequential-total s.log s.memory.locked (run-IsSequential schedule free),
    )
