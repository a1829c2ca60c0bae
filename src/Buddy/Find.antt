-- ===== src/Buddy/Find.antt =====
-- __find_buddy of linux/casestudies/page_alloc.c on aligned blocks.
use Prim.Native.Nat.{bit_xor}
use native.Mathlib.Nat.{mod-eq_of_lt}
use refined_c.Base.{
  ℕ, ◌+◌, ◌-◌, ◌*◌, ◌/◌, ◌%◌, ◌^◌, ◌≤◌, ◌<◌, ◌≡◌, refl, ◌==◌, ◌&&◌, leb, ltb, none, some,
  if◌then◌else◌, arith, sym, ◌∙◌,
}
use refined_c.Base.Words.{bit_xor_one, bit_xor-shl}
use refined_c.Buddy.{word, page_size, HypPool, hyp_phys_to_page, hyp_page_to_phys, find_buddy}

-- The other half of a block of twice the size
abbrev pub sibling : ℕ → ℕ
sibling k = if k % 2 == 1 then k - 1 else k + 1

pub sibling-sibling : (k : ℕ) → sibling (sibling k) ≡ k
sibling-sibling k = ground arith

buddy_address :
    (k order : ℕ)
    → k * 2 ^ order * 4096 < word
    → bit_xor (hyp_page_to_phys (k * 2 ^ order)) (page_size * 2 ^ order)
      ≡ sibling k * 2 ^ order * 4096
unfolding hyp_page_to_phys
buddy_address k order small =
    let a : k * 2 ^ order * 4096 % word ≡ k * 2 ^ order * 4096 = mod-eq_of_lt small in
    let b : page_size * 2 ^ order ≡ 1 * 2 ^ order * 4096 = omega arith in
    let c = bit_xor-shl 12 (k * 2 ^ order) (1 * 2 ^ order) in
    let d = bit_xor-shl order k 1 in let e = bit_xor_one k in rw (a, b, c, d, e) refl

module _ {M : Type 0} where
  -- The pool's range is that of the pages from `first` to before `last`.
  pub record HasRange (s : HypPool M) (first last : ℕ) : Type 0 where
    pub starts : s.range_start ≡ first * 4096
    pub ends : s.range_end ≡ last * 4096
    pub fits : last * 4096 < word

  -- The buddy of an aligned block of the pool is its sibling, if that is in the pool.
  pub find_buddy-sibling :
      (s : HypPool M) (first last k order : ℕ)
      → HasRange s first last
      → k * 2 ^ order < last
      → find_buddy s (k * 2 ^ order) order ≡ (
          if leb first (sibling k * 2 ^ order) && ltb (sibling k * 2 ^ order) last
          then some (sibling k * 2 ^ order)
          else none)
  unfolding find_buddy hyp_phys_to_page
  find_buddy-sibling s first last k order range inside =
      let e = buddy_address k order (omega (arith, range.fits)) in
      let back : sibling k * 2 ^ order * 4096 / 4096 ≡ sibling k * 2 ^ order = omega arith in
      rw (e, range.starts, range.ends, back) (ground arith)

  pub find_buddy-some :
      (s : HypPool M) (first last k order buddy : ℕ)
      → HasRange s first last
      → k * 2 ^ order < last
      → find_buddy s (k * 2 ^ order) order ≡ some buddy
      → (buddy ≡ sibling k * 2 ^ order) × (first ≤ buddy) × (buddy < last)
  find_buddy-some s first last k order buddy range inside found =
      let e = sym (find_buddy-sibling s first last k order range inside) ∙ found in
      ground (arith, e)

  -- For an aligned block whose first page is in the range of the pool: if find_buddy finds a
  -- buddy, then the buddy's buddy is the block itself.
  pub find_buddy-find_buddy :
      (s : HypPool M) (first last k order buddy : ℕ)
      → HasRange s first last
      → first ≤ k * 2 ^ order
      → k * 2 ^ order < last
      → find_buddy s (k * 2 ^ order) order ≡ some buddy
      → find_buddy s buddy order ≡ some (k * 2 ^ order)
  find_buddy-find_buddy s first last k order buddy range low high found =
      let (e, start, end) = find_buddy-some s first last k order buddy range high found in
      let back : find_buddy s (sibling k * 2 ^ order) order ≡ some (k * 2 ^ order) =
        find_buddy-sibling s first last (sibling k) order range (omega (arith, e, end))
        ∙ rw (sibling-sibling k) (ground arith) in
      rw e back
