-- ===== src/Buddy/Hand.antt =====
-- hyp_alloc_pages of linux/casestudies/page_alloc.c as a whole: what it hands out.
use refined_c.Base.{
  ℕ, ◌+◌, ◌-◌, ◌*◌, ◌%◌, ◌<◌, ◌≢◌, sym, ◌∙◌, ◌^◌, ◌≤◌, ◌≡◌, refl, Bool, true, false, ◌==◌,
  if◌then◌else◌, arith, ap, List, [], ◌⊎◌, inl, inr, Bool-cases, some, none,
}
use Prim.Native.Nat.{bit_and}
use mathlib.Core.Path.{subst}
use refined_c.Base.Words.{suc-ones}
use refined_c.Buddy.Cover.{inside}
use refined_c.Buddy.Clear.{
  address, hyp_page_to_virt-address, Off, address-add, loop_cleared, loop_kept,
}
use refined_c.Base.Run.{ok}
use refined_c.ListHead.{head, list_first_entry}
use refined_c.Buddy.{word, HypPool, hyp_spin_lock, hyp_spin_unlock}
use refined_c.Buddy.Alloc.{
  null, hyp_extract_page, first_order, hyp_page_to_virt, clear_loop, clear_hyp_page, clear_if,
  alloc_locked, hyp_alloc_pages,
}
use refined_c.Buddy.Invariant.{IsPool}
use refined_c.Buddy.Release.{lock-IsPool}
use refined_c.Buddy.Allocate.{IsTaken, first_order-First, filled_list, hyp_extract_page-IsTaken}

module _ {M : Type 0} where
  -- The lock and the memory are no part of what is taken.
  kept-IsTaken :
      (s t : HypPool M) (first last : ℕ) (lists lists' : ℕ → List ℕ) (p order : ℕ) (b : Bool)
      (m : M)
      → IsTaken s t first last lists lists' p order
      → IsTaken s (record t { lock = b; memory = m }) first last lists lists' p order
  kept-IsTaken s t first last lists lists' p order b m taken = record {
    pool = record {
      range = record {
        starts = taken.pool.range.starts;
        ends = taken.pool.range.ends;
        fits = taken.pool.range.fits;
      };
      ring = taken.pool.ring;
      order = taken.pool.order;
      idle = taken.pool.idle;
      block = taken.pool.block;
      filed = taken.pool.filed;
      once = taken.pool.once;
    };
    block = taken.block;
    level = taken.level;
    one = taken.one;
    others = taken.others;
    members = taken.members;
    settled = taken.settled;
    sum = taken.sum;
  }

  module _ (clear_page : ℕ → M → M) (offset : ℕ) where
    -- The memory after the block's pages were cleared if asked for
    abbrev after_clear : (mask p order : ℕ) → M → M
    after_clear mask p order m =
        if bit_and mask 1 == 0
        then m
        else clear_loop clear_page offset (2 ^ order) 0 (hyp_page_to_virt offset p) m

    clear_if-some :
        (mask p order : ℕ) (t : HypPool M)
        → (t.pages p).order ≡ order
        → clear_if clear_page offset mask (some p, t)
          ≡ ok (some p, record t { memory = after_clear mask p order t.memory })
    unfolding clear_if clear_hyp_page
    clear_if-some mask p order t e = elim (Bool-cases (bit_and mask 1 == 0)) [
      | inl keep ↦ rw (clear_if, keep) refl
      | inr clear ↦ rw (clear_if, clear, e) refl
    ]

    -- The state after an allocation, with the lock released
    abbrev handed : (mask p order : ℕ) → HypPool M → HypPool M
    handed mask p order t = record t { lock = false; memory = after_clear mask p order t.memory }

    alloc_run :
        (mask order i p : ℕ) (s t : HypPool M)
        → s.lock ≡ false
        → first_order 13 order s.links ≡ some i
        → list_first_entry (head i) s.links ≡ ok p
        → hyp_extract_page p order (record s { lock = true }) ≡ ok (some p, t)
        → (t.pages p).order ≡ order
        → hyp_alloc_pages clear_page offset mask order s
          ≡ ok (hyp_page_to_virt offset p, handed mask p order t)
    unfolding hyp_alloc_pages alloc_locked hyp_spin_lock hyp_spin_unlock
    alloc_run mask order i p s t unlocked found entry extract level =
        let cleared = clear_if-some mask p order t level in
        rw (unlocked, alloc_locked, found, entry, extract, cleared) refl

    none_run :
        (mask order : ℕ) (s : HypPool M)
        → s.lock ≡ false
        → first_order 13 order s.links ≡ none
        → hyp_alloc_pages clear_page offset mask order s ≡ ok (null, record s { lock = false })
    unfolding hyp_alloc_pages alloc_locked hyp_spin_lock hyp_spin_unlock
    none_run mask order s unlocked found = rw (unlocked, alloc_locked, found) refl

    IsTaken-from :
        (s t : HypPool M) (first last : ℕ) (lists lists' : ℕ → List ℕ) (p order mask : ℕ)
        → IsTaken (record s { lock = true }) t first last lists lists' p order
        → IsTaken s (handed mask p order t) first last lists lists' p order
    IsTaken-from s t first last lists lists' p order mask taken =
        let kept =
          kept-IsTaken (record s { lock = true }) t first last lists lists' p order false
            (after_clear mask p order t.memory) taken in
        record {
          pool = kept.pool;
          block = kept.block;
          level = kept.level;
          one = kept.one;
          others = kept.others;
          members = kept.members;
          settled = kept.settled;
          sum = kept.sum;
        }

-- The bytes of the block's pages are 0 if the mask asks for it and as before if not, and all other bytes
-- are as before. A page has 4096 bytes from its address on.
pub record IsCleared {M : Type 0} (byte : ℕ → M → ℕ) (offset mask p order : ℕ) (before after : M)
    : Type 0 where
  pub pages :
      (q b : ℕ)
      → inside p order q ≡ 1
      → address offset q ≤ b
      → b < address offset q + 4096
      → byte b after ≡ (if bit_and mask 1 == 0 then byte b before else 0)
  pub others :
      (b : ℕ)
      → ((q : ℕ) → inside p order q ≡ 1 → Off (address offset q) b)
      → byte b after ≡ byte b before

-- `clear_page a` sets the 4096 bytes from `a` on to 0, and keeps the others.
module _ {M : Type 0} (clear_page : ℕ → M → M) (offset : ℕ) (byte : ℕ → M → ℕ)
    (zeroed : (a b : ℕ) (m : M) → a ≤ b → b < a + 4096 → byte b (clear_page a m) ≡ 0)
    (kept : (a b : ℕ) (m : M) → Off a b → byte b (clear_page a m) ≡ byte b m) where
  page_place :
      (p j b : ℕ)
      → Off (address offset (p + j)) b
      → Off ((hyp_page_to_virt offset p + j * 2 ^ 12) % word) b
  page_place p j b off = subst (λ a. Off a b) (sym (address-add offset p j)) off

  after_clear-IsCleared :
      (mask p order : ℕ) (m : M)
      → IsCleared byte offset mask p order m (after_clear clear_page offset mask p order m)
  after_clear-IsCleared mask p order m = elim (Bool-cases (bit_and mask 1 == 0)) [
    | inl keep ↦ record {
      pages = λ q b member low high. rw keep refl;
      others = λ b off. rw keep refl;
    }
    | inr clear ↦ record {
      pages = λ q b member low high.
          let low' : p ≤ q = ground (arith, member) in
          let high' : q < p + 2 ^ order = ground (arith, member) in
          let at : (hyp_page_to_virt offset p + (q - p) * 2 ^ 12) % word ≡ address offset q =
            address-add offset p (q - p) ∙ ap (address offset) (omega arith) in
          rw clear (
            loop_cleared clear_page offset byte zeroed kept (2 ^ order) 0
              (hyp_page_to_virt offset p) (q - p) b m (omega arith) (omega arith)
              (omega (arith, at)) (omega (arith, at)));
      others = λ b off. rw clear (
          loop_kept clear_page offset byte zeroed kept (2 ^ order) 0 (hyp_page_to_virt offset p) b m
            (λ j low high. page_place p j b (off (p + j) (ground arith))));
    }
  ]

  -- hyp_alloc_pages ends, if no page of the pool has the address NULL. It returns NULL only if all lists
  -- from the order on are empty, and changes nothing then. Otherwise it returns the address, which is not
  -- NULL, of an aligned block of the order inside of the pool, which leaves the free pages exactly, with
  -- one reference. Every byte of the block is 0 then if the mask says so, and no other byte has changed.
  pub hyp_alloc_pages-IsTaken :
      (mask order : ℕ) (s : HypPool M) (first last : ℕ) (lists : ℕ → List ℕ)
      → IsPool s first last lists
      → s.lock ≡ false
      → ((q : ℕ) → first ≤ q → q < last → address offset q ≢ null)
      → ((hyp_alloc_pages clear_page offset mask order s ≡ ok (null, record s { lock = false }))
          × ((j : ℕ) → order ≤ j → j ≤ 11 → lists j ≡ []))
        ⊎ ((p : ℕ) × (t : HypPool M) × (lists' : ℕ → List ℕ) × (hyp_alloc_pages clear_page offset
                mask order s
              ≡ ok (address offset p, t))
            × (address offset p ≢ null)
            × IsTaken s t first last lists lists' p order
            × (t.lock ≡ false)
            × IsCleared byte offset mask p order s.memory t.memory)
  hyp_alloc_pages-IsTaken mask order s first last lists pool unlocked mapped =
      let locked : HypPool M = record s { lock = true } in
      let pool' = lock-IsPool s first last lists true pool in
      elim (first_order-First 13 order s first last lists pool (omega arith)) [
        | inl (found, all) ↦ inl (none_run clear_page offset mask order s unlocked found, all)
        | inr (i, p, qs, found, low, high, e) ↦
            let entry = (filled_list s first last lists i p qs pool high e).1 in
            let (t, lists', run, taken, lock, memory) =
              hyp_extract_page-IsTaken locked first last lists i p qs order pool' high low e in
            let cleared = after_clear-IsCleared mask p order t.memory in
            inr (
              p,
              handed clear_page offset mask p order t,
              lists',
              alloc_run clear_page offset mask order i p s t unlocked found entry run taken.level
                  ∙ ap (λ a. ok (a, handed clear_page offset mask p order t))
                      (hyp_page_to_virt-address offset p),
              mapped p taken.block.starts (omega (arith, taken.block.ends, suc-ones order)),
              IsTaken-from clear_page offset s t first last lists lists' p order mask taken,
              refl,
              subst
                  (λ m.
                    IsCleared byte offset mask p order m
                      (after_clear clear_page offset mask p order t.memory))
                  memory cleared,
            )
      ]
