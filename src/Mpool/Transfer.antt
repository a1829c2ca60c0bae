-- ===== src/Mpool/Transfer.antt =====
-- `mpool_fini` and `mpool_init_from`, which move a pool's blocks to another pool.
use refined_c.Base.{ℕ, ◌+◌, ◌≡◌, ◌≢◌, refl, sym, ap, ◌∙◌, false, List, [], ◌∷◌, arith, inr, ◌==◌}
use mathlib.Core.Path.{subst}
use refined_c.Base.Run.{Returns}
use refined_c.Mpool.{
  Ptr, null, Chunk, Mpool, no_blocks, free_entries, give_chunks, mpool_fini, mpool_init,
  mpool_init_from,
}
use refined_c.Mpool.Bytes.{in_chunks, in_entries, owned, AllChunks, AllEntries, IsPool}
use refined_c.Mpool.Single.{SamePool, mpool_free-owned, mpool_add_chunk-owned}

-- What `fb` is after blocks whose bytes `given` counts.
abbrev Given : Mpool → (ℕ → ℕ) → Mpool → Type 0
Given fb given fb' = SamePool fb fb' × ((a : ℕ) → owned fb' a ≡ owned fb a + given a)

free_entries-Given :
    (fb : Mpool) (es : List Ptr)
    → IsPool fb
    → AllEntries es
    → Returns (free_entries fb es) (Given fb (in_entries fb.entry_size es))
unfolding free_entries
free_entries-Given fb [] is all =
    (fb, refl, (record { is_pool = is; entry_size = refl; fallback = refl }, λ a. omega arith))
free_entries-Given fb (e ∷ es) is (ne, all) =
    let (fb1, run, (same, has)) = mpool_free-owned fb e is ne in
    let (fb2, run', (same', has')) = free_entries-Given fb1 es same.is_pool all in
    (
      fb2,
      rw (run, run'),
      (
        record {
          is_pool = same'.is_pool;
          entry_size = same'.entry_size ∙ same.entry_size;
          fallback = same'.fallback ∙ same.fallback;
        },
        λ a.
            let size : in_entries fb1.entry_size es a ≡ in_entries fb.entry_size es a =
              ap (λ t. in_entries t es a) same.entry_size in
            omega (arith, has a, has' a),
      ),
    )

give_chunks-Given :
    (fb : Mpool) (cs : List Chunk)
    → IsPool fb
    → AllChunks fb.entry_size cs
    → Returns (give_chunks fb cs) (Given fb (in_chunks cs))
unfolding give_chunks
give_chunks-Given fb [] is all =
    (fb, refl, (record { is_pool = is; entry_size = refl; fallback = refl }, λ a. omega arith))
give_chunks-Given fb (c ∷ cs) is (good, all) =
    let ((added, fb1), run, (same, _, has)) =
      mpool_add_chunk-owned fb c.start c.size is (inr good) in
    let all' = subst (λ t. AllChunks t cs) (sym same.entry_size) all in
    let (fb2, run', (same', has')) = give_chunks-Given fb1 cs same.is_pool all' in
    (
      fb2,
      rw (run, run'),
      (
        record {
          is_pool = same'.is_pool;
          entry_size = same'.entry_size ∙ same.entry_size;
          fallback = same'.fallback ∙ same.fallback;
        },
        λ a. omega (arith, has a, has' a),
      ),
    )

-- `mpool_fini` of a pool with a fallback of the same entry size ends; the pool is then empty and has no
-- fallback, and the fallback owns its own bytes and the pool's.
pub mpool_fini-owned :
    (p fb : Mpool)
    → IsPool p
    → IsPool fb
    → p.fallback ≢ null
    → p.entry_size ≡ fb.entry_size
    → Returns (mpool_fini p fb) (λ (p', fb').
      IsPool p'
      × (p'.locked ≡ no_blocks)
      × (p'.fallback ≡ null)
      × SamePool fb fb'
      × ((a : ℕ) → owned fb' a ≡ owned fb a + owned p a))
unfolding mpool_fini
mpool_fini-owned p fb is is_fb ne size =
    let live : (p.fallback == null) ≡ false = ground arith in
    let (fb1, run, (same, has)) = free_entries-Given fb p.locked.entry_list is_fb is.entries in
    let chunks =
      subst (λ t. AllChunks t p.locked.chunk_list) (size ∙ sym same.entry_size) is.chunks in
    let (fb2, run', (same', has')) =
      give_chunks-Given fb1 p.locked.chunk_list same.is_pool chunks in
    (
      (record p { locked = no_blocks; fallback = null }, fb2),
      rw (live, run, run'),
      (
        record { unlocked = is.unlocked; positive = is.positive; chunks = tt; entries = tt },
        refl,
        refl,
        record {
          is_pool = same'.is_pool;
          entry_size = same'.entry_size ∙ same.entry_size;
          fallback = same'.fallback ∙ same.fallback;
        },
        λ a.
            let entries : in_entries p.entry_size p.locked.entry_list a
                ≡ in_entries fb.entry_size p.locked.entry_list a =
              ap (λ t. in_entries t p.locked.entry_list a) size in
            omega (arith, has a, has' a),
      ),
    )

-- `mpool_init_from` ends; the new pool has the blocks and the fallback of `from`, which is left empty.
pub mpool_init_from-owned :
    (from : Mpool)
    → IsPool from
    → Returns (mpool_init_from from) (λ (p, from').
      SamePool from p
      × ((a : ℕ) → owned p a ≡ owned from a)
      × SamePool from from'
      × (from'.locked ≡ no_blocks))
unfolding mpool_init_from mpool_init
mpool_init_from-owned from is = (
  _,
  rw is.unlocked,
  (
    record {
      is_pool = record {
        unlocked = refl;
        positive = is.positive;
        chunks = is.chunks;
        entries = is.entries;
      };
      entry_size = refl;
      fallback = refl;
    },
    λ a. refl,
    record {
      is_pool = record { unlocked = refl; positive = is.positive; chunks = tt; entries = tt };
      entry_size = refl;
      fallback = refl;
    },
    refl,
  ),
)
