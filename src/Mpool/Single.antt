-- ===== src/Mpool/Single.antt =====
-- The operations on one pool: no byte is handed out twice, none is lost, and the lock is released
-- on every path.
use refined_c.Base.{
  ℕ, ◌+◌, ◌-◌, ◌<◌, ◌≡◌, ◌≢◌, refl, ap, Bool, true, false, List, [], ◌∷◌, leb, leb→le, leb→gt, ltb,
  arith, ◌⊎◌, inl, inr, Bool-cases, ◌==◌,
}
use refined_c.Base.Run.{Returns}
use refined_c.Mpool.{
  Ptr, null, Chunk, chunk, Mpool, take_block, mpool_add_chunk, mpool_free, mpool_alloc_no_fallback,
}
use refined_c.Mpool.Bytes.{
  in_block, owned, IsChunk, IsPool, Multiple, in_block-split, Multiple-add, Multiple-gap,
  Multiple-sub,
}

-- `p'` is the same pool with other lists.
pub record SamePool (p p' : Mpool) : Type 0 where
  pub is_pool : IsPool p'
  pub entry_size : p'.entry_size ≡ p.entry_size
  pub fallback : p'.fallback ≡ p.fallback

abbrev add_chunk : Mpool → Ptr → ℕ → Mpool
add_chunk p begin size = record p {
  lock = false;
  locked = record (p.locked) { chunk_list = chunk begin size ∷ p.locked.chunk_list };
}

-- `mpool_add_chunk` adds the chunk's bytes to the pool and no others, and returns false exactly for
-- an empty chunk, which changes nothing.
pub mpool_add_chunk-owned :
    (p : Mpool) (begin size : ℕ)
    → IsPool p
    → (size ≡ 0) ⊎ IsChunk p.entry_size (chunk begin size)
    → Returns (mpool_add_chunk p begin size) (λ (added, p').
      SamePool p p'
      × (added ≡ ltb 0 size)
      × ((a : ℕ) → owned p' a ≡ owned p a + in_block begin size a))
unfolding mpool_add_chunk
mpool_add_chunk-owned p begin size is (inl none) =
    let zero_size : (size == 0) ≡ true = ground arith in
    (
      (false, p),
      rw zero_size,
      (
        record { is_pool = is; entry_size = refl; fallback = refl },
        ground arith,
        λ a. ground arith,
      ),
    )
mpool_add_chunk-owned p begin size is (inr good) =
    let some_size : (size == 0) ≡ false = ground (arith, good.1, is.positive) in
    (
      (true, add_chunk p begin size),
      rw (some_size, is.unlocked),
      (
        record {
          is_pool = record {
            unlocked = refl;
            positive = is.positive;
            chunks = (good, is.chunks);
            entries = is.entries;
          };
          entry_size = refl;
          fallback = refl;
        },
        ground (arith, good.1, is.positive),
        λ a. omega arith,
      ),
    )

-- `mpool_free` gives the entry's bytes back to the pool and changes no others.
pub mpool_free-owned :
    (p : Mpool) (ptr : Ptr)
    → IsPool p
    → ptr ≢ null
    → Returns
        (mpool_free p ptr)
        (λ p'. SamePool p p' × ((a : ℕ) → owned p' a ≡ owned p a + in_block ptr p.entry_size a))
unfolding mpool_free
mpool_free-owned p ptr is ne = (
  record p { locked = record (p.locked) { entry_list = ptr ∷ p.locked.entry_list }; lock = false },
  rw is.unlocked,
  (
    record {
      is_pool = record {
        unlocked = refl;
        positive = is.positive;
        chunks = is.chunks;
        entries = (ne, is.entries);
      };
      entry_size = refl;
      fallback = refl;
    },
    λ a. omega arith,
  ),
)

-- What an allocation of `bytes` bytes gives: NULL, for the reason `Why`, and the pool's lists as they
-- were, or a block whose bytes have left the pool.
pub data Allocated (p : Mpool) (bytes : ℕ) (Why : Type 0) : Ptr × Mpool → Type 0 where
  exhausted :
      (p' : Mpool) → SamePool p p' → p'.locked ≡ p.locked → Why → Allocated p bytes Why (null, p')
  block :
      (r : Ptr) (p' : Mpool)
      → r ≢ null
      → SamePool p p'
      → ((a : ℕ) → owned p a ≡ in_block r bytes a + owned p' a)
      → Allocated p bytes Why (r, p')

abbrev pub pool : (entry_size : ℕ) → Bool → List Ptr → List Chunk → Ptr → Mpool
pool n l es cs fb = record {
  entry_size = n;
  lock = l;
  locked = record { chunk_list = cs; entry_list = es };
  fallback = fb;
}

-- The rest of a chunk from which one entry was taken.
rest-IsChunk :
    (n start size : ℕ)
    → 0 < n
    → IsChunk n (chunk start size)
    → n < size
    → IsChunk n (chunk (start + n) (size - n))
rest-IsChunk n start size pos (ne, room, at, len) h =
    let one : Multiple n n = (1, omega arith) in
    (
      ground arith,
      omega (arith, Multiple-gap n n size one len h),
      Multiple-add n start n at one,
      Multiple-sub n n size one len (omega arith),
    )

taken-Allocated :
    (n : ℕ) (l : Bool) (es : List Ptr) (cs : List Chunk) (fb : Ptr)
    → IsPool (pool n l es cs fb)
    → Allocated
        (pool n l es cs fb)
        n
        ((es ≡ []) × (cs ≡ []))
        ((take_block n es cs).0, record (pool n false es cs fb) { locked = (take_block n es cs).1 })
taken-Allocated n l (e ∷ es) cs fb is =
    block e _ is.entries.0
      (record {
        is_pool = record {
          unlocked = refl;
          positive = is.positive;
          chunks = is.chunks;
          entries = is.entries.1;
        };
        entry_size = refl;
        fallback = refl;
      })
      (λ a. omega arith)
taken-Allocated n l [] [] fb is =
    exhausted _
      (record {
        is_pool = record { unlocked = refl; positive = is.positive; chunks = tt; entries = tt };
        entry_size = refl;
        fallback = refl;
      })
      refl (refl, refl)
taken-Allocated n l [] (c ∷ cs) fb is = elim (Bool-cases (leb c.size n)) [
  | inl whole ↦
      let same : c.size ≡ n = omega (arith, leb→le c.size n whole, is.chunks.0.1) in
      rw whole (
        block c.start _ is.chunks.0.0
          (record {
            is_pool = record {
              unlocked = refl;
              positive = is.positive;
              chunks = is.chunks.1;
              entries = tt;
            };
            entry_size = refl;
            fallback = refl;
          })
          (λ a. rw same (omega arith)))
  | inr piece ↦
      let more : n < c.size = leb→gt c.size n piece in
      let whole : n + (c.size - n) ≡ c.size = omega arith in
      rw piece (
        block c.start _ is.chunks.0.0
          (record {
            is_pool = record {
              unlocked = refl;
              positive = is.positive;
              chunks = (rest-IsChunk n c.start c.size is.positive is.chunks.0 more, is.chunks.1);
              entries = tt;
            };
            entry_size = refl;
            fallback = refl;
          })
          (λ a.
            omega (
              arith,
              ap (λ t. in_block c.start t a) whole,
              in_block-split c.start n (c.size - n) a,
            )))
]

-- `mpool_alloc_no_fallback` ends. It returns NULL only if both lists are empty; otherwise the bytes of
-- the returned entry, and no others, have left the pool.
pub mpool_alloc_no_fallback-Allocated :
    (p : Mpool)
    → IsPool p
    → Returns
        (mpool_alloc_no_fallback p)
        (Allocated p p.entry_size ((p.locked.entry_list ≡ []) × (p.locked.chunk_list ≡ [])))
unfolding mpool_alloc_no_fallback
mpool_alloc_no_fallback-Allocated p is = (
  _,
  rw is.unlocked,
  taken-Allocated p.entry_size p.lock p.locked.entry_list p.locked.chunk_list p.fallback is,
)
