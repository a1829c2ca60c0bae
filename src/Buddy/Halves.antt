-- ===== src/Buddy/Halves.antt =====
-- The two halves of a block of the buddy allocator of linux/casestudies/page_alloc.c.
use refined_c.Base.{ℕ, ◌+◌, ◌*◌, ◌^◌, ◌≤◌, ◌≡◌, ◌≢◌, arith, ap, sym, ◌∙◌}
use native.Mathlib.Nat.{mul_assoc, add-mul, mul-add}
use refined_c.Base.Words.{suc-ones}
use refined_c.Buddy.Find.{sibling}
use refined_c.Buddy.Cover.{inside, pow_double}
use refined_c.Buddy.Invariant.{IsBlock}

-- The upper half of a block
abbrev pub upper : (p order : ℕ) → ℕ
upper p order = p + 2 ^ order

pub upper_ne : (p order : ℕ) → p ≢ upper p order
upper_ne p order e = absurd (omega (arith, e, suc-ones order))

pub halved : (index order : ℕ) → index * 2 ^ (order + 1) ≡ 2 * index * 2 ^ order
halved index order =
    ap (λ t. index * t) (pow_double order)
    ∙ omega (arith, mul-add index (2 ^ order) (2 ^ order), mul_assoc 2 index (2 ^ order))

pub upper_sibling :
    (index order : ℕ) → sibling (2 * index) * 2 ^ order ≡ index * 2 ^ (order + 1) + 2 ^ order
upper_sibling index order =
    let e : sibling (2 * index) ≡ 2 * index + 1 = ground arith in
    ap (λ t. t * 2 ^ order) e ∙ omega (arith, add-mul (2 * index) 1 (2 ^ order), halved index order)

pub inside-upper :
    (index order x : ℕ)
    → inside (index * 2 ^ (order + 1)) order x
        + inside (index * 2 ^ (order + 1) + 2 ^ order) order x
      ≡ inside (index * 2 ^ (order + 1)) (order + 1) x
inside-upper index order x = rw (pow_double order) (ground (arith))

pub upper-IsBlock :
    (first last p order : ℕ)
    → IsBlock first last p (order + 1)
    → IsBlock first last (upper p order) order
upper-IsBlock first last p order block = record {
  index = sibling (2 * block.index);
  aligned = ap (λ t. t + 2 ^ order) block.aligned ∙ sym (upper_sibling block.index order);
  starts = omega (arith, block.starts);
  ends = omega (arith, block.ends, pow_double order);
}

pub lower-IsBlock :
    (first last p order : ℕ) → IsBlock first last p (order + 1) → IsBlock first last p order
lower-IsBlock first last p order block = record {
  index = 2 * block.index;
  aligned = block.aligned ∙ halved block.index order;
  starts = block.starts;
  ends = omega (arith, block.ends, pow_double order);
}

pub within :
    (p order q x : ℕ)
    → inside p order x ≤ inside q (order + 1) x
    → inside p order x ≡ 1
    → inside q (order + 1) x ≡ 1
within p order q x le c = ground (arith, le, c)
