-- ===== src/Buddy/Clear.antt =====
-- clear_hyp_page of linux/casestudies/page_alloc.c: which bytes its loop clears.
use refined_c.Base.{
  ℕ, zero, suc, ◌+◌, ◌-◌, ◌*◌, ◌%◌, ◌^◌, ◌≤◌, ◌<◌, ◌≡◌, refl, ◌==◌, ◌&&◌, leb, ltb, arith, ap, ◌∙◌,
  ◌⊎◌, inl, inr, Bool-cases,
}
use refined_c.Buddy.{word, hyp_page_to_phys}
use refined_c.Buddy.Alloc.{hyp_page_to_virt, clear_loop}

-- The virtual address of a page: the physical one, less the offset
abbrev pub address : (offset q : ℕ) → ℕ
address offset q = (q * 4096 + (2 ^ 64 - offset % 2 ^ 64)) % 2 ^ 64

pub hyp_page_to_virt-address : (offset p : ℕ) → hyp_page_to_virt offset p ≡ address offset p
unfolding hyp_page_to_virt hyp_page_to_phys
hyp_page_to_virt-address offset p = omega arith

-- The page `p + j` has its address `j` pages behind that of `p`.
pub address-add :
    (offset p j : ℕ) → (hyp_page_to_virt offset p + j * 2 ^ 12) % word ≡ address offset (p + j)
unfolding hyp_page_to_virt hyp_page_to_phys
address-add offset p j = omega arith

-- Outside of the page at the address `a`
abbrev pub Off : (a b : ℕ) → Type 0
Off a b = (b < a) ⊎ (a + 4096 ≤ b)

module _ {M : Type 0} (clear_page : ℕ → M → M) (offset : ℕ) (byte : ℕ → M → ℕ)
    (zeroed : (a b : ℕ) (m : M) → a ≤ b → b < a + 4096 → byte b (clear_page a m) ≡ 0)
    (kept : (a b : ℕ) (m : M) → Off a b → byte b (clear_page a m) ≡ byte b m) where
  page_zero : (a b : ℕ) (m : M) → byte b m ≡ 0 → byte b (clear_page a m) ≡ 0
  page_zero a b m e = elim (Bool-cases (leb a b && ltb b (a + 4096))) [
    | inl on ↦ zeroed a b m (ground (arith, on)) (ground (arith, on))
    | inr off ↦ kept a b m (ground (arith, off)) ∙ e
  ]

  loop_zero :
      (count i virt b : ℕ) (m : M)
      → byte b m ≡ 0
      → byte b (clear_loop clear_page offset count i virt m) ≡ 0
  unfolding clear_loop
  loop_zero zero i virt b m e = e
  loop_zero (suc count) i virt b m e =
      loop_zero count (i + 1) virt b (clear_page ((virt + i * 2 ^ 12) % word) m)
        (page_zero ((virt + i * 2 ^ 12) % word) b m e)

  pub loop_cleared :
      (count i virt j b : ℕ) (m : M)
      → i ≤ j
      → j < i + count
      → (virt + j * 2 ^ 12) % word ≤ b
      → b < (virt + j * 2 ^ 12) % word + 4096
      → byte b (clear_loop clear_page offset count i virt m) ≡ 0
  unfolding clear_loop
  loop_cleared zero i virt j b m low high from to = absurd (omega arith)
  loop_cleared (suc count) i virt j b m low high from to = elim (Bool-cases (i == j)) [
    | inl e ↦
        let same : j ≡ i = ground arith in
        let at : (virt + j * 2 ^ 12) % word ≡ (virt + i * 2 ^ 12) % word =
          ap (λ k. (virt + k * 2 ^ 12) % word) same in
        loop_zero count (i + 1) virt b (clear_page ((virt + i * 2 ^ 12) % word) m)
          (zeroed ((virt + i * 2 ^ 12) % word) b m (omega (arith, at)) (omega (arith, at)))
    | inr other ↦
        loop_cleared count (i + 1) virt j b (clear_page ((virt + i * 2 ^ 12) % word) m)
          (ground arith) (omega arith) from to
  ]

  pub loop_kept :
      (count i virt b : ℕ) (m : M)
      → ((j : ℕ) → i ≤ j → j < i + count → Off ((virt + j * 2 ^ 12) % word) b)
      → byte b (clear_loop clear_page offset count i virt m) ≡ byte b m
  unfolding clear_loop
  loop_kept zero i virt b m off = refl
  loop_kept (suc count) i virt b m off =
      loop_kept count (i + 1) virt b (clear_page ((virt + i * 2 ^ 12) % word) m)
        (λ j low high. off j (omega arith) (omega arith))
      ∙ kept ((virt + i * 2 ^ 12) % word) b m (off i (omega arith) (omega arith))
