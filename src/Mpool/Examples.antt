-- ===== src/Mpool/Examples.antt =====
-- Two pools, and the theorems at them.
use native.Mathlib.Nat.{mod-add-div', mod-lt}
use refined_c.Base.{
  ℕ, suc, ◌+◌, ◌-◌, ◌/◌, ◌%◌, ◌<◌, ◌≡◌, ◌≢◌, refl, false, none, some, [], ◌∷◌, if◌then◌else◌, arith,
  inl, inr, ◌==◌, Bool-cases,
}
use refined_c.Base.Run.{ok, Returns}
use refined_c.Mpool.{
  Ptr, null, chunk, Mpool, Pools, no_blocks, mpool_alloc, mpool_alloc_contiguous,
  mpool_alloc_no_fallback, mpool_fini,
}
use refined_c.Mpool.Bytes.{owned, IsPool, Multiple}
use refined_c.Mpool.Single.{SamePool, Allocated, pool}
use refined_c.Mpool.Contiguous.{RoundsUp, Contiguous}
use refined_c.Mpool.Fallback.{
  Chain, last, link, Walked, Serves, Exhausted, mpool_alloc-Walked, mpool_alloc_contiguous-Walked,
}
use refined_c.Mpool.Transfer.{mpool_fini-owned}

-- The distance to the next multiple of `align`.
abbrev round_up : Ptr → ℕ → ℕ
round_up p align = if p % align == 0 then 0 else align - p % align

round_up-aligned : (p align : ℕ) → 0 < align → Multiple align (p + round_up p align)
round_up-aligned p align apos =
    let whole = mod-add-div' p align in
    let low : p % align < align = mod-lt p apos in
    elim (Bool-cases (p % align == 0)) [
      | inl at ↦ let none_over : p % align ≡ 0 = ground arith in rw at (p / align, omega arith)
      | inr off ↦ rw off (suc (p / align), omega arith)
    ]

round_up-least : (p align : ℕ) → 0 < align → round_up p align < align
round_up-least p align apos =
    let low : p % align < align = mod-lt p apos in
    elim (Bool-cases (p % align == 0)) [
      | inl at ↦ rw at (omega arith)
      | inr off ↦ let over : p % align ≢ 0 = ground arith in rw off (omega arith)
    ]

round_up-RoundsUp : RoundsUp round_up
round_up-RoundsUp = record { aligned = round_up-aligned; least = round_up-least }

abbrev main_pool : Mpool
main_pool = pool 16 false (16 ∷ []) (chunk 48 64 ∷ []) 8

abbrev spare_pool : Mpool
spare_pool = pool 16 false [] (chunk 112 64 ∷ []) 0

abbrev pools : Pools
pools p = if p == 4 then some main_pool else if p == 8 then some spare_pool else none

main_pool-IsPool : IsPool main_pool
main_pool-IsPool = record {
  unlocked = refl;
  positive = omega arith;
  chunks = ((ground arith, omega arith, (3, refl), (4, refl)), tt);
  entries = (ground arith, tt);
}

spare_pool-IsPool : IsPool spare_pool
spare_pool-IsPool = record {
  unlocked = refl;
  positive = omega arith;
  chunks = ((ground arith, omega arith, (7, refl), (4, refl)), tt);
  entries = tt;
}

pools-Chain : Chain IsPool pools 2 4
pools-Chain =
    link 1 4 main_pool (omega arith) refl main_pool-IsPool
      (link 0 8 spare_pool (omega arith) refl spare_pool-IsPool last)

pools-Serves : Chain (Serves 2 2) pools 2 4
pools-Serves =
    link 1 4 main_pool (omega arith) refl
      (record { is_pool = main_pool-IsPool; fits = omega arith })
      (link 0 8 spare_pool (omega arith) refl
        (record { is_pool = spare_pool-IsPool; fits = omega arith }) last)

-- The entry list comes first.
alloc_first : mpool_alloc_no_fallback main_pool ≡ ok (16, pool 16 false [] (chunk 48 64 ∷ []) 8)
unfolding mpool_alloc_no_fallback
alloc_first = refl

mpool_alloc-Walked_example :
    Returns (mpool_alloc 3 pools 4) (Walked (λ m. Allocated m m.entry_size (Exhausted m)) pools 4)
mpool_alloc-Walked_example = mpool_alloc-Walked pools 2 3 4 pools-Chain (omega arith) (omega arith)

mpool_alloc_contiguous-Walked_example :
    Returns
      (mpool_alloc_contiguous round_up 3 pools 4 2 2)
      (Walked (λ m. Contiguous round_up m 2 2) pools 4)
mpool_alloc_contiguous-Walked_example =
    mpool_alloc_contiguous-Walked round_up round_up-RoundsUp pools 2 3 4 2 2 (omega arith)
      pools-Serves (omega arith) (omega arith)

mpool_fini-owned_example : Returns (mpool_fini main_pool spare_pool) (λ (p', fb').
    IsPool p'
    × (p'.locked ≡ no_blocks)
    × (p'.fallback ≡ null)
    × SamePool spare_pool fb'
    × ((a : ℕ) → owned fb' a ≡ owned spare_pool a + owned main_pool a))
mpool_fini-owned_example =
    mpool_fini-owned main_pool spare_pool main_pool-IsPool spare_pool-IsPool (omega arith) refl
