-- ===== src/Mpool/Bytes.antt =====
-- Which bytes a pool owns, counted with multiplicity, and the pool's invariant.
use native.Mathlib.Nat.{mul-sub}
use refined_c.Base.{
  ℕ, ◌+◌, ◌-◌, ◌*◌, ◌<◌, ◌≤◌, ◌≡◌, ◌≢◌, false, ◌&&◌, List, [], ◌∷◌, leb, ltb, if◌then◌else◌, arith,
}
use refined_c.Mpool.{Ptr, null, Chunk, Mpool}

-- Is the byte at `a` one of the `len` bytes from `start`?
abbrev pub in_block : (start len a : ℕ) → ℕ
in_block start len a = if leb start a && ltb a (start + len) then 1 else 0

abbrev pub in_chunks : List Chunk → ℕ → ℕ
in_chunks [] a = 0
in_chunks (c ∷ cs) a = in_block c.start c.size a + in_chunks cs a

abbrev pub in_entries : (entry_size : ℕ) → List Ptr → ℕ → ℕ
in_entries entry_size [] a = 0
in_entries entry_size (e ∷ es) a = in_block e entry_size a + in_entries entry_size es a

-- How many of the pool's blocks hold the byte at `a`.
abbrev pub owned : Mpool → ℕ → ℕ
owned p a = in_chunks p.locked.chunk_list a + in_entries p.entry_size p.locked.entry_list a

abbrev pub Multiple : ℕ → ℕ → Type 0
Multiple d n = (k : ℕ) × (n ≡ k * d)

-- A chunk holds one entry at least, and starts and ends at a multiple of the entry size.
abbrev pub IsChunk : ℕ → Chunk → Type 0
IsChunk entry_size c =
    (c.start ≢ null)
    × (entry_size ≤ c.size)
    × Multiple entry_size c.start
    × Multiple entry_size c.size

abbrev pub AllChunks : ℕ → List Chunk → Type 0
AllChunks entry_size [] = Unit {0}
AllChunks entry_size (c ∷ cs) = IsChunk entry_size c × AllChunks entry_size cs

abbrev pub AllEntries : List Ptr → Type 0
AllEntries [] = Unit {0}
AllEntries (e ∷ es) = (e ≢ null) × AllEntries es

-- A pool whose lock is free.
pub record IsPool (p : Mpool) : Type 0 where
  pub unlocked : p.lock ≡ false
  pub positive : 0 < p.entry_size
  pub chunks : AllChunks p.entry_size p.locked.chunk_list
  pub entries : AllEntries p.locked.entry_list

-- A block is the part before a cut and the part behind it.
pub in_block-split :
    (start m n a : ℕ) → in_block start (m + n) a ≡ in_block start m a + in_block (start + m) n a
in_block-split start m n a = ground arith

pub Multiple-add : (d m n : ℕ) → Multiple d m → Multiple d n → Multiple d (m + n)
Multiple-add d m n (j, p) (k, q) = (j + k, grind arith)

-- Two multiples are a whole step apart.
pub Multiple-gap : (d m n : ℕ) → Multiple d m → Multiple d n → m < n → m + d ≤ n
Multiple-gap d m n (j, p) (k, q) h = let lt : j < k = grind arith in grind arith

pub Multiple-sub : (d m n : ℕ) → Multiple d m → Multiple d n → m ≤ n → Multiple d (n - m)
Multiple-sub d m n (j, p) (k, q) h = (k - j, omega (arith, mul-sub d k j))
