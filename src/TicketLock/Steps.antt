-- ===== src/TicketLock/Steps.antt =====
-- Each step of a thread keeps the invariant.
use mathlib.Core.Path.{subst}
use refined_c.Base.{
  ℕ, ◌+◌, ◌%◌, ◌^◌, ◌<◌, ◌≤◌, ◌≡◌, ◌≢◌, ◌⊎◌, refl, sym, true, false, ◌==◌, arith, Bool-cases, inl,
  inr,
}
use refined_c.TicketLock.{
  HypSpinlock, no_ticket, last_ticket, Pc, idle, load_next, claim, wait, critical, load_owner,
  reset_owner, reset_next, pass, System, step, turn, update,
}
use refined_c.TicketLock.Invariant.{IsLock, One, Beside, Two, Holds, Invariant}

-- The thread itself
step-IsLock : (lock : HypSpinlock) (p : Pc) → IsLock lock → One lock p → IsLock (step lock p).0
unfolding step
step-IsLock lock (claim t) l o = ground arith
step-IsLock lock p l o = ground arith

step-One :
    (lock : HypSpinlock) (p : Pc) → IsLock lock → One lock p → One (step lock p).0 (step lock p).1
unfolding step
step-One lock idle l o = tt
step-One lock load_next l o = elim (Bool-cases (lock.next == no_ticket)) [
  | inl none_left ↦ rw none_left tt
  | inr some_left ↦ rw some_left (ground arith)
]
step-One lock (claim t) l o = elim (Bool-cases (lock.next == t)) [
  | inl won ↦ rw won (ground arith, ground arith)
  | inr lost ↦ rw lost tt
]
step-One lock (wait t) l o = elim (Bool-cases (lock.owner == t)) [
  | inl mine ↦ rw mine (ground arith)
  | inr other ↦ rw other o
]
step-One lock critical l o = o
step-One lock load_owner l o = elim (Bool-cases (lock.owner == last_ticket)) [
  | inl last ↦ rw last (ground arith, o)
  | inr more ↦ rw more (refl, ground arith, o)
]
step-One lock reset_owner l o = (refl, omega arith)
step-One lock reset_next l o = tt
step-One lock (pass t) l o = tt

-- Another thread
others-One :
    (lock : HypSpinlock) (p q : Pc)
    → IsLock lock
    → One lock p
    → One lock q
    → Two lock.owner p q
    → One (step lock p).0 q
unfolding step
others-One lock idle q l o other two = other
others-One lock load_next q l o other two = other
others-One lock (claim t) idle l o other two = tt
others-One lock (claim t) q l o other two = ground arith
others-One lock (wait t) q l o other two = other
others-One lock critical q l o other two = other
others-One lock load_owner q l o other two = other
others-One lock reset_owner idle l o other two = tt
others-One lock reset_owner q l o other two = ground arith
others-One lock reset_next idle l o other two = tt
others-One lock reset_next q l o other two = ground arith
others-One lock (pass t) idle l o other two = tt
others-One lock (pass t) q l o other two = ground arith

step-Two :
    (lock : HypSpinlock) (p q : Pc)
    → IsLock lock
    → One lock p
    → One lock q
    → Two lock.owner p q
    → Two (step lock p).0.owner (step lock p).1 q
unfolding step
step-Two lock idle q l o other two = tt
step-Two lock load_next q l o other two = elim (Bool-cases (lock.next == no_ticket)) [
  | inl none_left ↦ rw none_left tt
  | inr some_left ↦ rw some_left tt
]
step-Two lock (claim t) idle l o other two = ground arith
step-Two lock (claim t) q l o other two = ground arith
step-Two lock (wait t) idle l o other two = ground arith
step-Two lock (wait t) q l o other two = ground arith
step-Two lock critical q l o other two = two
step-Two lock load_owner idle l o other two = ground arith
step-Two lock load_owner q l o other two = ground arith
step-Two lock reset_owner idle l o other two = ground arith
step-Two lock reset_owner q l o other two = ground arith
step-Two lock reset_next q l o other two = tt
step-Two lock (pass t) q l o other two = tt

Two-symm : (owner : ℕ) (p q : Pc) → Two owner p q → Two owner q p
Two-symm owner idle idle two = tt
Two-symm owner idle q two = tt
Two-symm owner load_next idle two = tt
Two-symm owner load_next q two = tt
Two-symm owner (claim t) idle two = tt
Two-symm owner (claim t) q two = tt
Two-symm owner (wait t) idle two = tt
Two-symm owner (wait t) (wait u) two = λ e. two (sym e)
Two-symm owner (wait t) q two = two
Two-symm owner critical idle two = two
Two-symm owner critical q two = two
Two-symm owner load_owner idle two = two
Two-symm owner load_owner q two = two
Two-symm owner reset_owner idle two = two
Two-symm owner reset_owner q two = two
Two-symm owner reset_next idle two = two
Two-symm owner reset_next q two = two
Two-symm owner (pass t) idle two = two
Two-symm owner (pass t) q two = two

-- Two other threads, when the thread gives up the lock
freed-Two :
    (owner owner' : ℕ) (q r : Pc)
    → Beside owner false q
    → Beside owner false r
    → Two owner q r
    → Two owner' q r
freed-Two owner owner' (wait t) (wait u) bq br two = two
freed-Two owner owner' (wait t) idle bq br two = tt
freed-Two owner owner' (wait t) r bq br two = ground arith
freed-Two owner owner' idle r bq br two = tt
freed-Two owner owner' q r bq br two = ground arith

others-Two :
    (lock : HypSpinlock) (p q r : Pc)
    → Two lock.owner p q
    → Two lock.owner p r
    → Two lock.owner q r
    → Two (step lock p).0.owner q r
unfolding step
others-Two lock idle q r pq pr two = two
others-Two lock load_next q r pq pr two = two
others-Two lock (claim t) q r pq pr two = ground arith
others-Two lock (wait t) q r pq pr two = two
others-Two lock critical q r pq pr two = two
others-Two lock load_owner q r pq pr two = two
others-Two lock reset_owner q r pq pr two = freed-Two lock.owner 0 q r pq pr two
others-Two lock reset_next q r pq pr two = two
others-Two lock (pass t) q r pq pr two = freed-Two lock.owner ((t + 1) % 2 ^ 16) q r pq pr two

-- Who holds a ticket: the thread after the step, or the thread that held it.
step-Holds :
    (lock : HypSpinlock) (p : Pc) (d : ℕ)
    → IsLock lock
    → One lock p
    → (step lock p).0.owner ≤ d
    → d < (step lock p).0.next
    → Holds (step lock p).0.owner (step lock p).1 d
      ⊎ ((lock.owner ≤ d)
          × (d < lock.next)
          × (Holds lock.owner p d → Holds (step lock p).0.owner (step lock p).1 d))
unfolding step
step-Holds lock idle d l o low high = inr (low, high, λ h. h)
step-Holds lock load_next d l o low high = inr (low, high, λ h. absurd h)
step-Holds lock (claim t) d l o low high = elim (Bool-cases (lock.next == t)) [
  | inl won ↦ elim (Bool-cases (d == t)) [
    | inl mine ↦ rw won (inl (ground arith))
    | inr other ↦
        let old : lock.owner ≤ d = rw won at low in
        let below : d < (t + 1) % 2 ^ 16 = rw won at high in inr (old, ground arith, λ h. absurd h)
  ]
  | inr lost ↦ inr (rw lost at low, rw lost at high, λ h. absurd h)
]
step-Holds lock (wait t) d l o low high = elim (Bool-cases (lock.owner == t)) [
  | inl mine ↦ inr (low, high, λ h. rw mine (ground (arith, h)))
  | inr other ↦ inr (low, high, λ h. rw other h)
]
step-Holds lock critical d l o low high = inr (low, high, λ h. h)
step-Holds lock load_owner d l o low high = elim (Bool-cases (lock.owner == last_ticket)) [
  | inl last ↦ inr (low, high, λ h. rw last h)
  | inr more ↦ inr (low, high, λ h. rw more h)
]
step-Holds lock reset_owner d l o low high = inl tt
step-Holds lock reset_next d l o low high = absurd (omega arith)
step-Holds lock (pass t) d l o low high =
    inr (omega (arith, o.0, o.1), high, λ h. omega (arith, h, o.0, o.1))

freed-Holds :
    (owner owner' : ℕ) (q : Pc) (d : ℕ) → Beside owner false q → Holds owner q d → Holds owner' q d
freed-Holds owner owner' (wait t) d b h = h
freed-Holds owner owner' idle d b h = h
freed-Holds owner owner' q d b h = ground arith

others-Holds :
    (lock : HypSpinlock) (p q : Pc) (d : ℕ)
    → Two lock.owner p q
    → Holds lock.owner q d
    → Holds (step lock p).0.owner q d
unfolding step
others-Holds lock idle q d two h = h
others-Holds lock load_next q d two h = h
others-Holds lock (claim t) q d two h = ground arith
others-Holds lock (wait t) q d two h = h
others-Holds lock critical q d two h = h
others-Holds lock load_owner q d two h = h
others-Holds lock reset_owner q d two h = freed-Holds lock.owner 0 q d two h
others-Holds lock reset_next q d two h = h
others-Holds lock (pass t) q d two h = freed-Holds lock.owner ((t + 1) % 2 ^ 16) q d two h

update_self : (pcs : ℕ → Pc) (i : ℕ) (p : Pc) → update pcs i p i ≡ p
update_self pcs i p = let same : (i == i) ≡ true = ground arith in rw same refl

update_ne : (pcs : ℕ → Pc) (i j : ℕ) (p : Pc) → i ≢ j → update pcs i p j ≡ pcs j
update_ne pcs i j p ne = let off : (i == j) ≡ false = ground arith in rw off refl

-- A step of any thread keeps the invariant.
module _ (s : System) (i : ℕ) (inv : Invariant s) where
  turn-One : (j : ℕ) → One (turn s i).lock ((turn s i).pcs j)
  unfolding turn
  turn-One j = elim (Bool-cases (i == j)) [
    | inl same ↦ rw same (step-One s.lock (s.pcs i) inv.lock (inv.one i))
    | inr off ↦
        let ne : i ≢ j = λ e. ground arith in
        rw off
          (others-One s.lock (s.pcs i) (s.pcs j) inv.lock (inv.one i) (inv.one j) (inv.two i j ne))
  ]

  turn-Two : (j k : ℕ) → j ≢ k → Two (turn s i).lock.owner ((turn s i).pcs j) ((turn s i).pcs k)
  unfolding turn
  turn-Two j k ne = elim (Bool-cases (i == j)) [
    | inl first ↦
        let ne' : i ≢ k = λ e. ne (ground arith) in
        let off : (i == k) ≡ false = ground arith in
        rw (first, off)
          (step-Two s.lock (s.pcs i) (s.pcs k) inv.lock (inv.one i) (inv.one k) (inv.two i k ne'))
    | inr off ↦
        let ne_j : i ≢ j = λ e. ground arith in
        elim (Bool-cases (i == k)) [
          | inl second ↦
              rw (off, second)
                (Two-symm (step s.lock (s.pcs i)).0.owner (step s.lock (s.pcs i)).1 (s.pcs j) (
                  step-Two s.lock (s.pcs i) (s.pcs j) inv.lock (inv.one i) (inv.one j)
                    (inv.two i j ne_j)))
          | inr off' ↦
              let ne_k : i ≢ k = λ e. ground arith in
              rw (off, off')
                (others-Two s.lock (s.pcs i) (s.pcs j) (s.pcs k) (inv.two i j ne_j)
                  (inv.two i k ne_k) (inv.two j k ne))
        ]
  ]

  turn-covered :
      (d : ℕ)
      → (turn s i).lock.owner ≤ d
      → d < (turn s i).lock.next
      → (j : ℕ) × Holds (turn s i).lock.owner ((turn s i).pcs j) d
  unfolding turn
  turn-covered d low high =
      let p' = (step s.lock (s.pcs i)).1 in
      let owner' = (step s.lock (s.pcs i)).0.owner in
      elim (step-Holds s.lock (s.pcs i) d inv.lock (inv.one i) low high) [
        | inl mine ↦ (i, subst (λ q. Holds owner' q d) (sym (update_self s.pcs i p')) mine)
        | inr (low', high', keep) ↦
            let (j, held) = inv.covered d low' high' in
            elim (Bool-cases (i == j)) [
              | inl same ↦
                  let eq : j ≡ i = ground arith in
                  (
                    i,
                    subst (λ q. Holds owner' q d) (sym (update_self s.pcs i p'))
                        (keep (subst (λ k. Holds s.lock.owner (s.pcs k) d) eq held)),
                  )
              | inr off ↦
                  let ne : i ≢ j = λ e. ground arith in
                  (
                    j,
                    subst (λ q. Holds owner' q d) (sym (update_ne s.pcs i j p' ne))
                        (others-Holds s.lock (s.pcs i) (s.pcs j) d (inv.two i j ne) held),
                  )
            ]
      ]

  pub turn-Invariant : Invariant (turn s i)
  unfolding turn
  turn-Invariant = record {
    lock = step-IsLock s.lock (s.pcs i) inv.lock (inv.one i);
    one = turn-One;
    two = turn-Two;
    covered = turn-covered;
  }
