-- ===== src/Mpool/Contiguous.antt =====
-- `mpool_alloc_contiguous_no_fallback`: an aligned run of entries, cut out of one chunk.
use refined_c.Base.{
  ℕ, zero, suc, ◌+◌, ◌-◌, ◌*◌, ◌%◌, ◌<◌, ◌≤◌, ◌≡◌, ◌≢◌, refl, sym, ap, ◌∙◌, false, List, [], ◌∷◌,
  leb, leb→le, leb→gt, if◌then◌else◌, arith, inl, inr, Bool-cases, ◌==◌,
}
use refined_c.Base.Run.{Returns}
use refined_c.Mpool.{
  Ptr, null, Chunk, chunk, Mpool, size_mod, split_chunk, search_chunks,
  mpool_alloc_contiguous_no_fallback,
}
use refined_c.Mpool.Bytes.{
  in_block, in_chunks, IsChunk, AllChunks, IsPool, Multiple, in_block-split, Multiple-add,
  Multiple-gap, Multiple-sub,
}
use refined_c.Mpool.Single.{Allocated, exhausted, block}

-- What `round_pointer_up` is specified to do.
pub record RoundsUp (round_pointer_up : Ptr → ℕ → ℕ) : Type 0 where
  pub aligned : (p align : ℕ) → 0 < align → Multiple align (p + round_pointer_up p align)
  pub least : (p align : ℕ) → 0 < align → round_pointer_up p align < align

-- The part of a chunk before the aligned address is either no entry or whole entries.
Multiple-small : (n d : ℕ) → Multiple n d → d < n → d ≡ 0
Multiple-small n d (zero, e) h = grind arith
Multiple-small n d (suc k, e) h = grind arith

in_block-zero : (start a : ℕ) → in_block start 0 a ≡ 0
in_block-zero start a = ground arith

-- One chunk that is long enough.
module _ (n bytes before : ℕ) (c : Chunk) (good : IsChunk n c) (pos : 0 < n)
    (whole : Multiple n bytes) (offset : Multiple n before) (fits : before + bytes ≤ c.size) where
  abbrev behind : List Chunk → List Chunk
  behind cs =
      if before + bytes == c.size
      then cs
      else chunk (c.start + before + bytes) (c.size - (before + bytes)) ∷ cs

  behind-AllChunks : (cs : List Chunk) → AllChunks n cs → AllChunks n (behind cs)
  behind-AllChunks cs all = elim (Bool-cases (before + bytes == c.size)) [
    | inl exact ↦ rw exact all
    | inr more ↦
        let used : Multiple n (before + bytes) = Multiple-add n before bytes offset whole in
        let ne = good.0 in
        let lt : before + bytes < c.size = ground arith in
        rw more (
          (
            (λ (e : c.start + before + bytes ≡ null). ne (omega arith)),
            omega (arith, Multiple-gap n (before + bytes) c.size used good.3 lt),
            Multiple-add n (c.start + before) bytes (Multiple-add n c.start before good.2 offset)
                whole,
            Multiple-sub n (before + bytes) c.size used good.3 fits,
          ),
          all,
        )
  ]

  in_chunks-behind :
      (cs : List Chunk) (a : ℕ)
      → in_chunks (behind cs) a
        ≡ in_block (c.start + before + bytes) (c.size - (before + bytes)) a + in_chunks cs a
  in_chunks-behind cs a = elim (Bool-cases (before + bytes == c.size)) [
    | inl exact ↦
        let none : c.size - (before + bytes) ≡ 0 = ground arith in
        rw (exact, none) (omega (arith, in_block-zero (c.start + before + bytes) a))
    | inr more ↦ rw more
  ]

  -- The chunk's bytes: before, in and behind the allocated run.
  three_parts :
      (a : ℕ)
      → in_block c.start c.size a
        ≡ in_block c.start before a
          + (in_block (c.start + before) bytes a
              + in_block (c.start + before + bytes) (c.size - (before + bytes)) a)
  three_parts a =
      let rest = c.size - (before + bytes) in
      let total : before + (bytes + rest) ≡ c.size = omega arith in
      ap (λ t. in_block c.start t a) (sym total)
      ∙ (in_block-split c.start before (bytes + rest) a
          ∙ ap (λ t. in_block c.start before a + t)
              (in_block-split (c.start + before) bytes rest a))

  split-AllChunks :
      (cs : List Chunk)
      → AllChunks n cs
      → AllChunks n (split_chunk n bytes before (before + bytes) c cs)
  split-AllChunks cs all = elim (Bool-cases (leb n before)) [
    | inl room ↦ rw room ((good.0, leb→le n before room, good.2, offset), behind-AllChunks cs all)
    | inr none ↦ rw none (behind-AllChunks cs all)
  ]

  in_chunks-split :
      (cs : List Chunk) (a : ℕ)
      → in_chunks (c ∷ cs) a
        ≡ in_block (c.start + before) bytes a
          + in_chunks (split_chunk n bytes before (before + bytes) c cs) a
  in_chunks-split cs a = elim (Bool-cases (leb n before)) [
    | inl room ↦ rw room (omega (arith, three_parts a, in_chunks-behind cs a))
    | inr none ↦
        let empty : before ≡ 0 = Multiple-small n before offset (leb→gt n before none) in
        let nothing : in_block c.start before a ≡ 0 =
          ap (λ t. in_block c.start t a) empty ∙ in_block-zero c.start a in
        rw none (omega (arith, three_parts a, nothing, in_chunks-behind cs a))
  ]

-- No chunk has room for the run.
abbrev pub NoRoom : (round_pointer_up : Ptr → ℕ → ℕ) → (bytes align : ℕ) → List Chunk → Type 0
NoRoom round_pointer_up bytes align [] = Unit {0}
NoRoom round_pointer_up bytes align (c ∷ cs) =
    (c.size < round_pointer_up c.start align + bytes) × NoRoom round_pointer_up bytes align cs

-- What the search finds, and the chunks it leaves.
data Search (round_pointer_up : Ptr → ℕ → ℕ) (n bytes align : ℕ) (cs : List Chunk)
    : Ptr × List Chunk → Type 0 where
  no_room :
      NoRoom round_pointer_up bytes align cs → Search round_pointer_up n bytes align cs (null, cs)
  cut :
      (r : Ptr) (cs' : List Chunk)
      → r ≢ null
      → Multiple align r
      → AllChunks n cs'
      → ((a : ℕ) → in_chunks cs a ≡ in_block r bytes a + in_chunks cs' a)
      → Search round_pointer_up n bytes align cs (r, cs')

-- The search for `bytes` bytes at a multiple of `align`.
module _ (round_pointer_up : Ptr → ℕ → ℕ) (rounds : RoundsUp round_pointer_up) (n bytes align : ℕ)
    (pos : 0 < n) (whole : Multiple n bytes) (aligns : Multiple n align) (apos : 0 < align)
    (small : align + bytes < size_mod) where
  Multiple-trans : (r : ℕ) → Multiple align r → Multiple n r
  Multiple-trans r (k, e) = let (j, f) = aligns in (k * j, grind arith)

  offset-Multiple : (c : Chunk) → IsChunk n c → Multiple n (round_pointer_up c.start align)
  offset-Multiple c good =
      let before = round_pointer_up c.start align in
      let total = Multiple-trans (c.start + before) (rounds.aligned c.start align apos) in
      let (k, e) = Multiple-sub n c.start (c.start + before) good.2 total (omega arith) in
      (k, omega (arith, e))

  extend :
      (c : Chunk) (cs : List Chunk) {r : Ptr × List Chunk}
      → IsChunk n c
      → c.size < round_pointer_up c.start align + bytes
      → Search round_pointer_up n bytes align cs r
      → Search round_pointer_up n bytes align (c ∷ cs) (r.0, c ∷ r.1)
  extend c cs good short (no_room none) = no_room (short, none)
  extend c cs good short (cut r cs' ne at all same) =
      cut r (c ∷ cs') ne at (good, all) (λ a. omega (arith, same a))

  search_chunks-Search :
      (cs : List Chunk)
      → AllChunks n cs
      → Search round_pointer_up n bytes align cs (search_chunks round_pointer_up n bytes align cs)
  unfolding search_chunks
  search_chunks-Search [] all = no_room tt
  search_chunks-Search (c ∷ cs) (good, all) =
      let before = round_pointer_up c.start align in
      let exact : (before + bytes) % size_mod ≡ before + bytes =
        omega (arith, rounds.least c.start align apos) in
      let offset = offset-Multiple c good in
      let ne = good.0 in
      rw exact (elim (Bool-cases (leb (before + bytes) c.size)) [
        | inl room ↦
            let fits = leb→le (before + bytes) c.size room in
            rw room (
              cut (c.start + before) _ (λ (e : c.start + before ≡ null). ne (omega arith))
                (rounds.aligned c.start align apos)
                (split-AllChunks n bytes before c good pos whole offset fits cs all)
                (in_chunks-split n bytes before c good pos whole offset fits cs))
        | inr none ↦
            rw none
              (extend c cs good (leb→gt (before + bytes) c.size none) (search_chunks-Search cs all))
      ])

-- The result for a request of `count` entries at a multiple of `align` entries: NULL if no chunk has
-- room, or an aligned block whose bytes have left the pool.
pub record Contiguous (round_pointer_up : Ptr → ℕ → ℕ) (p : Mpool) (count align : ℕ)
    (r : Ptr × Mpool) : Type 0 where
  pub allocated :
      Allocated p
        (count * p.entry_size)
        (NoRoom round_pointer_up (count * p.entry_size) (align * p.entry_size) p.locked.chunk_list)
        r
  pub aligned : Multiple (align * p.entry_size) r.0

result-Contiguous :
    (round_pointer_up : Ptr → ℕ → ℕ) (p : Mpool) (count align : ℕ)
    → IsPool p
    → {r : Ptr × List Chunk}
    → Search round_pointer_up p.entry_size
        (count * p.entry_size)
        (align * p.entry_size)
        p.locked.chunk_list
        r
    → Contiguous round_pointer_up p count align
        (r.0, record p { locked = record (p.locked) { chunk_list = r.1 }; lock = false })
result-Contiguous round_pointer_up p count align is (no_room none) = record {
  allocated =
      exhausted _
        (record {
          is_pool = record {
            unlocked = refl;
            positive = is.positive;
            chunks = is.chunks;
            entries = is.entries;
          };
          entry_size = refl;
          fallback = refl;
        })
        refl none;
  aligned = (0, omega arith);
}
result-Contiguous round_pointer_up p count align is (cut r cs' ne at all same) = record {
  allocated =
      block r _ ne
        (record {
          is_pool = record {
            unlocked = refl;
            positive = is.positive;
            chunks = all;
            entries = is.entries;
          };
          entry_size = refl;
          fallback = refl;
        })
        (λ a. omega (arith, same a));
  aligned = at;
}

-- `mpool_alloc_contiguous_no_fallback` ends. Where the sizes do not overflow, it returns NULL only if
-- no chunk has room for the run at the alignment; otherwise the run is aligned, and its bytes, and no
-- others, have left the pool.
pub mpool_alloc_contiguous_no_fallback-Contiguous :
    (round_pointer_up : Ptr → ℕ → ℕ)
    → RoundsUp round_pointer_up
    → (p : Mpool) (count align : ℕ) → IsPool p
    → 0 < align
    → align * p.entry_size + count * p.entry_size < size_mod
    → Returns
        (mpool_alloc_contiguous_no_fallback round_pointer_up p count align)
        (Contiguous round_pointer_up p count align)
unfolding mpool_alloc_contiguous_no_fallback
mpool_alloc_contiguous_no_fallback-Contiguous round_pointer_up rounds p count align is pos small =
    let n = p.entry_size in
    let bytes_fit : count * n % size_mod ≡ count * n = omega arith in
    let align_fit : align * n % size_mod ≡ align * n = omega arith in
    let apos : 0 < align * n = grind (arith, is.positive) in
    (
      _,
      rw (is.unlocked, bytes_fit, align_fit),
      result-Contiguous round_pointer_up p count align is (
          search_chunks-Search round_pointer_up rounds n (count * n) (align * n) is.positive
            (count, refl) (align, refl) apos small p.locked.chunk_list is.chunks),
    )
