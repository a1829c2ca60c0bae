-- ===== src/Mpool/Fallback.antt =====
-- `mpool_alloc` and `mpool_alloc_contiguous`: the walk along the fallbacks.
use refined_c.Base.{
  ℕ, zero, suc, ◌+◌, ◌*◌, ◌<◌, ◌≡◌, ◌≢◌, refl, sym, ◌∙◌, false, some, [], arith, inl, inr,
  Bool-cases, ◌==◌,
}
use mathlib.Core.Path.{fun_ext, subst}
use refined_c.Base.Run.{Run, Returns}
use refined_c.Mpool.{
  Ptr, null, Mpool, Pools, size_mod, set_pool, walk, mpool_alloc, mpool_alloc_contiguous,
  mpool_alloc_no_fallback, mpool_alloc_contiguous_no_fallback,
}
use refined_c.Mpool.Bytes.{IsPool}
use refined_c.Mpool.Single.{
  SamePool, Allocated, exhausted, block, mpool_alloc_no_fallback-Allocated,
}
use refined_c.Mpool.Contiguous.{RoundsUp, Contiguous, mpool_alloc_contiguous_no_fallback-Contiguous}

-- The fallbacks from an address: `n` pools, each `Good`, and then NULL.
pub data Chain (Good : Mpool → Type 0) (pools : Pools) : ℕ → Ptr → Type 0 where
  last : Chain Good pools 0 null
  link :
      (n : ℕ) (p : Ptr) (m : Mpool)
      → p ≢ null
      → pools p ≡ some m
      → Good m
      → Chain Good pools n m.fallback
      → Chain Good pools (suc n) p

-- The pools after a walk: the first that has a block gave it, and no other changed.
pub data Walked (Result : Mpool → Ptr × Mpool → Type 0) (pools : Pools)
    : Ptr → Ptr × Pools → Type 0 where
  all_exhausted : Walked Result pools null (null, pools)
  found :
      (p : Ptr) (m : Mpool) (r : Ptr) (m' : Mpool)
      → pools p ≡ some m
      → r ≢ null
      → Result m (r, m')
      → Walked Result pools p (r, set_pool pools p m')
  next :
      (p : Ptr) (m : Mpool) (res : Ptr × Pools)
      → pools p ≡ some m
      → Result m (null, m)
      → Walked Result pools m.fallback res
      → Walked Result pools p res

set_pool-same :
    (pools : Pools) (p : Ptr) (m : Mpool) → pools p ≡ some m → set_pool pools p m ≡ pools
set_pool-same pools p m e = fun_ext (λ q. elim (Bool-cases (q == p)) [
  | inl same ↦ let eq : q ≡ p = ground arith in rw (same, eq, e)
  | inr other ↦ rw other
])

module _ (Good : Mpool → Type 0) (Result : Mpool → Ptr × Mpool → Type 0)
    (alloc : Mpool → Run (Ptr × Mpool))
    (alloc_Result : (m : Mpool) → Good m → Returns (alloc m) (Result m))
    (null_same : (m m' : Mpool) → Good m → Result m (null, m') → m' ≡ m) where
  walk_on :
      (pools : Pools) (p : Ptr) (m : Mpool) (fuel : ℕ)
      → (p == null) ≡ false
      → pools p ≡ some m
      → Good m
      → Returns (alloc m) (Result m)
      → Returns (walk alloc fuel pools m.fallback) (Walked Result pools m.fallback)
      → Returns (walk alloc (suc fuel) pools p) (Walked Result pools p)
  unfolding walk
  walk_on pools p m fuel live at good ((r, m'), run, res) (rest, run', walked) =
      elim (Bool-cases (r == null)) [
        | inl failed ↦
            let is_null : r ≡ null = ground arith in
            let res' = subst (λ t. Result m (t, m')) is_null res in
            let same = null_same m m' good res' in
            let res'' = subst (λ t. Result m (null, t)) same res' in
            (
              rest,
              rw (live, at, run, failed, same, set_pool-same pools p m at, run') refl,
              next p m rest at res'' walked,
            )
        | inr got ↦
            let not_null : r ≢ null = ground arith in
            ((r, set_pool pools p m'), rw (live, at, run, got), found p m r m' at not_null res)
      ]

  walk-Walked :
      (pools : Pools) (n fuel : ℕ) (p : Ptr)
      → Chain Good pools n p
      → n < fuel
      → Returns (walk alloc fuel pools p) (Walked Result pools p)
  unfolding walk
  walk-Walked pools n zero p ch h = absurd (omega arith)
  walk-Walked pools zero (suc fuel) p last h = ((null, pools), refl, all_exhausted)
  walk-Walked pools (suc n) (suc fuel) p (link _ _ m ne at good ch) h =
      let live : (p == null) ≡ false = ground arith in
      walk_on pools p m fuel live at good (alloc_Result m good)
        (walk-Walked pools n fuel m.fallback ch (omega arith))

-- A pool is its fields.
SamePool-same : (p p' : Mpool) → IsPool p → SamePool p p' → p'.locked ≡ p.locked → p' ≡ p
SamePool-same p p' is same lists =
    let locks : p'.lock ≡ p.lock = same.is_pool.unlocked ∙ sym is.unlocked in
    λ i. record {
      entry_size = same.entry_size i;
      lock = locks i;
      locked = lists i;
      fallback = same.fallback i;
    }

null_same :
    (p p' : Mpool) (bytes : ℕ) (Why : Type 0) (r : Ptr)
    → IsPool p
    → r ≡ null
    → Allocated p bytes Why (r, p')
    → p' ≡ p
null_same p p' bytes Why r is e (exhausted _ same lists why) = SamePool-same p p' is same lists
null_same p p' bytes Why r is e (block _ _ ne same bytes_of) = absurd (ne e)

abbrev pub Exhausted : Mpool → Type 0
Exhausted m = (m.locked.entry_list ≡ []) × (m.locked.chunk_list ≡ [])

-- `mpool_alloc` ends on a chain of `n` pools. The first pool that is not empty gives one of its entries
-- and no other pool changes; if all are empty, the result is NULL and none changes.
pub mpool_alloc-Walked :
    (pools : Pools) (n fuel : ℕ) (p : Ptr)
    → Chain IsPool pools n p
    → p ≢ null
    → n < fuel
    → Returns
        (mpool_alloc fuel pools p)
        (Walked (λ m. Allocated m m.entry_size (Exhausted m)) pools p)
unfolding mpool_alloc
mpool_alloc-Walked pools n fuel p ch ne h =
    let live : (p == null) ≡ false = ground arith in
    rw live (
      walk-Walked IsPool (λ m. Allocated m m.entry_size (Exhausted m)) mpool_alloc_no_fallback
        mpool_alloc_no_fallback-Allocated
        (λ m m' is a. null_same m m' m.entry_size (Exhausted m) null is refl a) pools n fuel p ch h)

-- A pool for which a request of `count` entries at a multiple of `align` entries does not overflow.
pub record Serves (count align : ℕ) (m : Mpool) : Type 0 where
  pub is_pool : IsPool m
  pub fits : align * m.entry_size + count * m.entry_size < size_mod

-- `mpool_alloc_contiguous` ends on a chain of `n` pools. The first pool with a chunk that has room gives
-- an aligned run and no other pool changes; if none has, the result is NULL and none changes.
pub mpool_alloc_contiguous-Walked :
    (round_pointer_up : Ptr → ℕ → ℕ)
    → RoundsUp round_pointer_up
    → (pools : Pools) (n fuel : ℕ) (p : Ptr) (count align : ℕ) → 0 < align
    → Chain (Serves count align) pools n p
    → p ≢ null
    → n < fuel
    → Returns
        (mpool_alloc_contiguous round_pointer_up fuel pools p count align)
        (Walked (λ m. Contiguous round_pointer_up m count align) pools p)
unfolding mpool_alloc_contiguous
mpool_alloc_contiguous-Walked round_pointer_up rounds pools n fuel p count align apos ch ne h =
    let live : (p == null) ≡ false = ground arith in
    rw live (
      walk-Walked (Serves count align) (λ m. Contiguous round_pointer_up m count align)
        (λ m. mpool_alloc_contiguous_no_fallback round_pointer_up m count align)
        (λ m s.
          mpool_alloc_contiguous_no_fallback-Contiguous round_pointer_up rounds m count align
            s.is_pool apos s.fits)
        (λ m m' s c. null_same m m' _ _ null s.is_pool refl c.allocated) pools n fuel p ch h)
