-- ===== src/Buddy/Merge.antt =====
-- Two siblings of the buddy allocator make a block of twice their size.
use refined_c.Base.{
  ℕ, ◌+◌, ◌*◌, ◌/◌, ◌^◌, ◌≤◌, ◌≡◌, ltb, if◌then◌else◌, arith, ap, sym, ◌∙◌, inl, inr,
}
use refined_c.Base.Words.{suc-ones}
use refined_c.Buddy.Find.{sibling}
use refined_c.Buddy.Cover.{inside, inside-sibling, sibling-halves, half_block, pow_double}
use refined_c.Buddy.Invariant.{IsBlock}

-- The lower of two siblings begins the block that they make.
pub lower_sibling :
    (k order p buddy : ℕ)
    → p ≡ k * 2 ^ order
    → buddy ≡ sibling k * 2 ^ order
    → (if ltb p buddy then p else buddy) ≡ k / 2 * 2 ^ (order + 1)
lower_sibling k order p buddy e f =
    let size = suc-ones order in
    elim (sibling-halves k (2 ^ order)) [
      | inl (mine, other) ↦ rw (e, f, mine, other, half_block k order) (ground (arith, size))
      | inr (mine, other) ↦ rw (e, f, mine, other, half_block k order) (ground (arith, size))
    ]

merged_end :
    (last k order p buddy : ℕ)
    → p ≡ k * 2 ^ order
    → buddy ≡ sibling k * 2 ^ order
    → p + 2 ^ order ≤ last
    → buddy + 2 ^ order ≤ last
    → (if ltb p buddy then p else buddy) + 2 ^ (order + 1) ≤ last
merged_end last k order p buddy e f low high =
    let start = lower_sibling k order p buddy e f in
    elim (sibling-halves k (2 ^ order)) [
      | inl (mine, other) ↦
          omega (arith, start, half_block k order, pow_double order, e, f, mine, other)
      | inr (mine, other) ↦
          omega (arith, start, half_block k order, pow_double order, e, f, mine, other)
    ]

pub merged-IsBlock :
    (first last k order p buddy : ℕ)
    → p ≡ k * 2 ^ order
    → buddy ≡ sibling k * 2 ^ order
    → IsBlock first last p order
    → IsBlock first last buddy order
    → IsBlock first last (if ltb p buddy then p else buddy) (order + 1)
merged-IsBlock first last k order p buddy e f mine other = record {
  index = k / 2;
  aligned = lower_sibling k order p buddy e f;
  starts = ground (arith, mine.starts, other.starts);
  ends = merged_end last k order p buddy e f mine.ends other.ends;
}

pub merged_cover :
    (k order p buddy x : ℕ)
    → p ≡ k * 2 ^ order
    → buddy ≡ sibling k * 2 ^ order
    → inside (if ltb p buddy then p else buddy) (order + 1) x
      ≡ inside p order x + inside buddy order x
merged_cover k order p buddy x e f =
    ap (λ t. inside t (order + 1) x) (lower_sibling k order p buddy e f)
    ∙ rw (e, f) (sym (inside-sibling k order x))
