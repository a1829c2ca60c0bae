-- ===== src/Buddy/Coalesce.antt =====
-- The loop of __hyp_attach_page in linux/casestudies/page_alloc.c.
use mathlib.Core.Path.{subst}
use mathlib.Core.Bool.{true≢false}
use refined_c.Base.{
  ℕ, zero, suc, ◌+◌, ◌*◌, ◌^◌, ◌≤◌, ◌<◌, ◌≡◌, ◌≢◌, refl, true, false, ◌==◌, ltb, ltb→lt,
  if◌then◌else◌, arith, ap, sym, ◌∙◌, List, ◌++◌, In, split_In, inl, inr, Bool-cases, Option-cases,
  some,
}
use refined_c.Base.Run.{Returns}
use refined_c.Base.Words.{suc-ones}
use refined_c.ListHead.{page, Links, list_del_init, list_empty}
use refined_c.ListHead.Ring.{same_refl}
use refined_c.Buddy.{HypPool, no_order, set_links, set_order, find_buddy}
use refined_c.Buddy.Free.{free_buddy, detach, coalesce}
use refined_c.Buddy.Find.{sibling, find_buddy-some}
use refined_c.Buddy.Cover.{inside, put, cover-In, inside-first}
use refined_c.Buddy.Invariant.{free, IsPool}
use refined_c.Buddy.Steps.{free-leave}
use refined_c.Buddy.Leave.{leave-IsPool, leave-IsUnlisted}
use refined_c.Buddy.Merge.{merged-IsBlock, merged_cover}
use refined_c.Buddy.Edit.{set_page-IsPool}
use refined_c.Buddy.Same.{
  IsSame, IsPending, IsSettled, set_order-IsSame, set_order-other, IsSame-refl, IsSame-trans,
}

self_empty : (g : Links) (p : ℕ) → g.next (page p) ≡ page p → list_empty (page p) g ≡ true
unfolding list_empty
self_empty g p self = rw self (same_refl (page p))

module _ {M : Type 0} where
  free_buddy-some :
      (s : HypPool M) (p order buddy : ℕ)
      → free_buddy s p order ≡ some buddy
      → (find_buddy s p order ≡ some buddy)
        × (list_empty (page buddy) s.links ≡ false)
        × ((s.pages buddy).order ≡ order)
  unfolding free_buddy
  free_buddy-some s p order buddy found = ground arith

  -- The buddy that the loop finds is the sibling, and in the list of its order.
  found_buddy :
      (s : HypPool M) (first last : ℕ) (lists : ℕ → List ℕ) (k p order buddy : ℕ)
      → IsPool s first last lists
      → p ≡ k * 2 ^ order
      → p < last
      → free_buddy s p order ≡ some buddy
      → (buddy ≡ sibling k * 2 ^ order) × (first ≤ buddy) × (buddy < last) × In buddy (lists order)
  found_buddy s first last lists k p order buddy pool aligned inside_pool found =
      let (seen, linked, same_order) = free_buddy-some s p order buddy found in
      let seen' = subst (λ t. find_buddy s t order ≡ some buddy) aligned seen in
      let (e, start, end) =
        find_buddy-some s first last k order buddy pool.range (omega (arith, aligned)) seen' in
      elim (pool.filed buddy start end) [
        | inl (small, i) ↦ (e, start, end, subst (λ t. In buddy (lists t)) same_order i)
        | inr (self, out) ↦ absurd (true≢false (sym (self_empty s.links buddy self) ∙ linked))
      ]

  detach-IsSame : (s : HypPool M) (buddy : ℕ) → IsSame s (detach buddy s)
  unfolding detach
  detach-IsSame s buddy =
      let edit = set_order-IsSame (set_links (list_del_init (page buddy)) s) buddy no_order in
      record {
        lock = edit.lock;
        memory = edit.memory;
        refcount = edit.refcount;
        in_pool = edit.in_pool;
      }

  merged_idle :
      (s : HypPool M) (first last : ℕ) (lists : ℕ → List ℕ) (k p order buddy x : ℕ)
      → (pending : IsPending s first last lists p order) → p ≡ k * 2 ^ order
      → buddy ≡ sibling k * 2 ^ order
      → In buddy (lists order)
      → inside (if ltb p buddy then p else buddy) (order + 1) x ≡ 1
      → (s.pages x).refcount ≡ 0
  merged_idle s first last lists k p order buddy x pending aligned e i c =
      let sum = merged_cover k order p buddy x aligned e in
      elim (Bool-cases (inside p order x == 1)) [
        | inl one ↦ pending.count x (ground arith)
        | inr out ↦ pending.pool.idle x (
            ground (
              arith,
              c,
              out,
              sum,
              cover-In 12 order buddy lists x (omega (arith, pending.small)) i,
            ))
      ]

  detach-IsSettled :
      (s : HypPool M) (lists : ℕ → List ℕ) (p order buddy : ℕ)
      → order ≤ 11
      → In buddy (lists order)
      → IsSettled s (detach buddy s) lists p order
  unfolding detach
  detach-IsSettled s lists p order buddy small i q out =
      let covered = cover-In 12 order buddy lists buddy (omega (arith, small)) i in
      let apart : q ≢ buddy = λ e.
        let same = ap (free lists) e in
        absurd (omega (arith, covered, inside-first buddy order, out, same)) in
      set_order-other (set_links (list_del_init (page buddy)) s) buddy no_order q apart

  -- A step of the loop: the buddy leaves its list, and the block doubles.
  detach-IsPending :
      (s : HypPool M) (first last : ℕ) (lists : ℕ → List ℕ) (p order buddy : ℕ)
      → IsPending s first last lists p order
      → order < 11
      → free_buddy s p order ≡ some buddy
      → (lists' : ℕ → List ℕ) × IsPending
          (detach buddy s)
          first
          last
          lists'
          (if ltb p buddy then p else buddy)
          (order + 1)
        × IsSame s (detach buddy s)
        × ((x : ℕ)
            → free lists' x + inside (if ltb p buddy then p else buddy) (order + 1) x
              ≡ free lists x + inside p order x)
        × IsSettled s (detach buddy s) lists p order
  unfolding detach set_order
  detach-IsPending s first last lists p order buddy pending less found =
      let k = pending.block.index in
      let (e, start, end, i) =
        found_buddy s first last lists k p order buddy pending.pool pending.block.aligned
          (omega (arith, suc-ones order, pending.block.ends)) found in
      let (xs, ys, split) = split_In buddy (lists order) i in
      let detached = detach-IsSame s buddy in
      let left =
        leave-IsPool s first last lists pending.pool order buddy xs ys pending.small split in
      let out =
        leave-IsUnlisted s first last lists pending.pool order buddy xs ys pending.small split in
      let sum : (x : ℕ)
          → free (put order (xs ++ ys) lists) x
              + inside (if ltb p buddy then p else buddy) (order + 1) x
            ≡ free lists x + inside p order x =
        λ x. omega (
          arith,
          free-leave s first last lists pending.pool order buddy xs ys x pending.small split,
          merged_cover k order p buddy x pending.block.aligned e,
        ) in
      (
        put order (xs ++ ys) lists,
        record {
          pool =
              set_page-IsPool (set_links (list_del_init (page buddy)) s) first last
                (put order (xs ++ ys) lists) left buddy out
                (record (s.pages buddy) { order = no_order }) (λ c. left.idle buddy c);
          small = omega arith;
          block =
              merged-IsBlock first last k order p buddy pending.block.aligned e pending.block
                (pending.pool.block order buddy pending.small i);
          apart = λ x. omega (arith, sum x, pending.apart x);
          count = λ x c.
              detached.refcount x
              ∙ merged_idle s first last lists k p order buddy x pending pending.block.aligned e i
                  c;
        },
        detached,
        sum,
        detach-IsSettled s lists p order buddy pending.small i,
      )

  -- The loop ends, with a block that holds the pages of all it has merged.
  pub coalesce-IsPending :
      (fuel : ℕ) (s : HypPool M) (first last : ℕ) (lists : ℕ → List ℕ) (p order : ℕ)
      → IsPending s first last lists p order
      → 12 ≤ fuel + order
      → Returns (coalesce fuel s p order) (λ r.
        (lists' : ℕ → List ℕ) × IsPending r.0 first last lists' r.1 r.2
        × IsSame s r.0
        × ((x : ℕ) → free lists' x + inside r.1 r.2 x ≡ free lists x + inside p order x)
        × IsSettled s r.0 lists p order)
  unfolding coalesce
  coalesce-IsPending zero s first last lists p order pending enough =
      absurd (omega (arith, pending.small))
  coalesce-IsPending (suc fuel) s first last lists p order pending enough =
      elim (Bool-cases (ltb order 11)) [
        | inr done ↦
            rw (coalesce, done)
              ((s, p, order), refl, (lists, pending, IsSame-refl s, (λ x. refl), λ q out. refl))
        | inl more ↦ elim (Option-cases (free_buddy s p order)) [
          | inl stop ↦
              rw (coalesce, more, stop)
                ((s, p, order), refl, (lists, pending, IsSame-refl s, (λ x. refl), λ q out. refl))
          | inr (buddy, found) ↦
              let (lists', next, same, sum, settled) =
                detach-IsPending s first last lists p order buddy pending (ltb→lt order 11 more)
                  found in
              let (r, run, (lists'', end, same', sum', settled')) =
                coalesce-IsPending fuel (detach buddy s) first last lists'
                  (if ltb p buddy then p else buddy) (order + 1) next (omega arith) in
              rw (coalesce, more, found)
                (
                  r,
                  run,
                  (
                    lists'',
                    end,
                    IsSame-trans s (detach buddy s) r.0 same same',
                    (λ x. sum' x ∙ sum x),
                    λ q out. settled' q (sum q ∙ out) ∙ settled q out,
                  ),
                )
        ]
      ]
