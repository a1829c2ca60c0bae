-- ===== src/Mpool.antt =====
-- The memory pool of examples/mpool.c. The chunk list and the entry list, which the code threads
-- through the free memory itself, are lists of blocks; a pool's fallback is an address in a store of
-- pools. `round_pointer_up` is declared and not defined there, so it is a parameter.
pub mod Bytes
pub mod Single
pub mod Contiguous
pub mod Fallback
pub mod Transfer
mod Examples
use refined_c.Base.{
  ℕ, zero, suc, ◌+◌, ◌-◌, ◌*◌, ◌%◌, ◌^◌, Bool, true, false, Option, none, some, List, [], ◌∷◌, leb,
  ◌==◌, if◌then◌else◌, not,
}
use refined_c.Base.Run.{Run, ok, hang, fault, out_of_fuel, ◌>>=◌, ◌>>◌, need}

abbrev pub Ptr : Type 0
Ptr = ℕ

abbrev pub null : Ptr
null = 0

abbrev pub size_mod : ℕ
size_mod = 2 ^ 64

-- `struct mpool_chunk` with its address; the link is the list's.
pub record Chunk : Type 0 where
  pub start : Ptr
  pub size : ℕ

abbrev pub chunk : Ptr → ℕ → Chunk
chunk p n = record { start = p; size = n }

-- `struct mpool_locked_inner`; an entry is its address.
pub record Lists : Type 0 where
  pub chunk_list : List Chunk
  pub entry_list : List Ptr

-- `lock` tells whether the spinlock is held.
pub record Mpool : Type 0 where
  pub entry_size : ℕ
  pub lock : Bool
  pub locked : Lists
  pub fallback : Ptr

abbrev sl_lock : Mpool → Run Mpool
sl_lock p = if p.lock then hang else ok (record p { lock = true })

abbrev sl_unlock : Mpool → Mpool
sl_unlock p = record p { lock = false }

abbrev with_chunks : Mpool → List Chunk → Mpool
with_chunks p cs = record p { locked = record (p.locked) { chunk_list = cs } }

abbrev with_entries : Mpool → List Ptr → Mpool
with_entries p es = record p { locked = record (p.locked) { entry_list = es } }

abbrev no_blocks : Lists
no_blocks = record { chunk_list = []; entry_list = [] }

unfoldable pub mpool_init : ℕ → Mpool
mpool_init entry_size = record {
  entry_size = entry_size;
  lock = false;
  locked = no_blocks;
  fallback = null;
}

-- The new pool, and what is left of `from`.
unfoldable pub mpool_init_from : Mpool → Run (Mpool × Mpool)
mpool_init_from from = do
  from1 ← sl_lock from
  let p = record (mpool_init from.entry_size) { locked = from1.locked; fallback = from1.fallback }
  ok (p, sl_unlock (record from1 { locked = no_blocks }))

-- `fallback` is the address of the pool `fb`.
unfoldable pub mpool_init_with_fallback : Ptr → Mpool → Mpool
mpool_init_with_fallback fallback fb = record (mpool_init fb.entry_size) { fallback = fallback }

unfoldable pub mpool_add_chunk : Mpool → Ptr → ℕ → Run (Bool × Mpool)
mpool_add_chunk p begin size = if size == 0 then ok (false, p) else do
  p1 ← sl_lock p
  ok (true, sl_unlock (with_chunks p1 (chunk begin size ∷ p1.locked.chunk_list)))

unfoldable pub mpool_free : Mpool → Ptr → Run Mpool
mpool_free p ptr = do p1 ← sl_lock p; ok (sl_unlock (with_entries p1 (ptr ∷ p1.locked.entry_list)))

-- What the lists give: an entry if there is one, else a piece of the first chunk.
abbrev pub take_block : ℕ → List Ptr → List Chunk → Ptr × Lists
take_block entry_size (e ∷ es) cs = (e, record { chunk_list = cs; entry_list = es })
take_block entry_size [] [] = (null, no_blocks)
take_block entry_size [] (c ∷ cs) = (
  c.start,
  record {
    chunk_list =
        if leb c.size entry_size
        then cs
        else chunk (c.start + entry_size) (c.size - entry_size) ∷ cs;
    entry_list = [];
  },
)

unfoldable pub mpool_alloc_no_fallback : Mpool → Run (Ptr × Mpool)
mpool_alloc_no_fallback p = do
  p1 ← sl_lock p
  let r = take_block p1.entry_size p1.locked.entry_list p1.locked.chunk_list
  ok (r.0, sl_unlock (record p1 { locked = r.1 }))

-- The chunks that are left of one from which `bytes` bytes were taken: the space that the alignment
-- leaves before them, if an entry fits there, and what is behind them. `needed` is the sum of both.
abbrev pub split_chunk :
    (entry_size bytes before_start needed : ℕ) → Chunk → List Chunk → List Chunk
split_chunk entry_size bytes before_start needed c cs =
    let behind =
      if needed == c.size
      then cs
      else chunk (c.start + before_start + bytes) (c.size - needed) ∷ cs in
    if leb entry_size before_start then chunk c.start before_start ∷ behind else behind

-- The loop of `mpool_alloc_contiguous_no_fallback`: the recursion on the list is the walk of `prev`.
-- `round_pointer_up` gives the distance to the next aligned address.
unfoldable pub search_chunks :
    (round_pointer_up : Ptr → ℕ → ℕ) → (entry_size bytes align : ℕ) → List Chunk → Ptr × List Chunk
search_chunks round_pointer_up entry_size bytes align [] = (null, [])
search_chunks round_pointer_up entry_size bytes align (c ∷ cs) =
    let before_start = round_pointer_up c.start align in
    let needed = (before_start + bytes) % size_mod in
    let rest = search_chunks round_pointer_up entry_size bytes align cs in
    if leb needed c.size
    then (c.start + before_start, split_chunk entry_size bytes before_start needed c cs)
    else (rest.0, c ∷ rest.1)

unfoldable pub mpool_alloc_contiguous_no_fallback :
    (round_pointer_up : Ptr → ℕ → ℕ) → Mpool → (count align : ℕ) → Run (Ptr × Mpool)
unfolding search_chunks
mpool_alloc_contiguous_no_fallback round_pointer_up p count align = do
  p1 ← sl_lock p
  let r =
      search_chunks round_pointer_up p1.entry_size (count * p1.entry_size % size_mod)
        (align * p1.entry_size % size_mod) p1.locked.chunk_list
  ok (r.0, sl_unlock (with_chunks p1 r.1))

-- The pools by their addresses.
abbrev pub Pools : Type 0
Pools = Ptr → Option Mpool

abbrev pub set_pool : Pools → Ptr → Mpool → Pools
set_pool pools p new q = if q == p then some new else pools q

-- `mpool_alloc` and `mpool_alloc_contiguous` are one walk along the fallbacks. `alloc` is the
-- allocation that they try in each pool.
unfoldable pub walk :
    (alloc : Mpool → Run (Ptr × Mpool)) → (fuel : ℕ) → Pools → Ptr → Run (Ptr × Pools)
walk alloc zero pools p = out_of_fuel
walk alloc (suc fuel) pools p = if p == null then ok (null, pools) else do
  pool ← need (pools p)
  r ← alloc pool
  let pools' = set_pool pools p r.1
  let rest = walk alloc fuel pools' r.1.fallback
  if r.0 == null then rest else ok (r.0, pools')

unfoldable pub mpool_alloc : (fuel : ℕ) → Pools → Ptr → Run (Ptr × Pools)
unfolding walk mpool_alloc_no_fallback
mpool_alloc fuel pools p = if p == null then fault else walk mpool_alloc_no_fallback fuel pools p

unfoldable pub mpool_alloc_contiguous :
    (round_pointer_up : Ptr → ℕ → ℕ)
    → (fuel : ℕ) → Pools
    → Ptr
    → (count align : ℕ) → Run (Ptr × Pools)
unfolding walk mpool_alloc_contiguous_no_fallback
mpool_alloc_contiguous round_pointer_up fuel pools p count align =
    if p == null
    then fault
    else walk (λ q. mpool_alloc_contiguous_no_fallback round_pointer_up q count align) fuel pools p

-- The two loops of `mpool_fini`.
unfoldable pub free_entries : Mpool → List Ptr → Run Mpool
unfolding mpool_free
free_entries fb [] = ok fb
free_entries fb (ptr ∷ es) = mpool_free fb ptr >>= λ fb'. free_entries fb' es

unfoldable pub give_chunks : Mpool → List Chunk → Run Mpool
unfolding mpool_add_chunk
give_chunks fb [] = ok fb
give_chunks fb (c ∷ cs) = mpool_add_chunk fb c.start c.size >>= λ r. give_chunks r.1 cs

-- The pool and its fallback `fb`, another pool, afterwards.
unfoldable pub mpool_fini : Mpool → Mpool → Run (Mpool × Mpool)
unfolding free_entries give_chunks
mpool_fini p fb = if p.fallback == null then ok (p, fb) else do
  fb1 ← free_entries fb p.locked.entry_list
  fb2 ← give_chunks fb1 p.locked.chunk_list
  ok (record p { locked = no_blocks; fallback = null }, fb2)
