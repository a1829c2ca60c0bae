-- ===== src/Buddy/Split.antt =====
-- __hyp_extract_page of linux/casestudies/page_alloc.c: a block is split until it has the order.
use mathlib.Core.Path.{subst}
use refined_c.Base.{
  ℕ, zero, suc, ◌+◌, ◌-◌, ◌*◌, ◌^◌, ◌≤◌, ◌<◌, ◌≡◌, ◌≢◌, refl, true, ltb, ltb→lt, ltb→ge, arith, ap,
  sym, ◌∙◌, List, [], ◌∷◌, ◌++◌, inl, inr, Bool-cases, some,
}
use refined_c.Base.Run.{ok, Returns}
use refined_c.Base.Words.{suc-ones}
use refined_c.ListHead.{head, page, list_add_tail}
use refined_c.Buddy.{HypPool, set_links, set_order, find_buddy}
use refined_c.Buddy.Alloc.{split_page, split_loop}
use refined_c.Buddy.Find.{sibling, find_buddy-sibling}
use refined_c.Buddy.Cover.{inside, put, cover-put, count-append, pow_double}
use refined_c.Buddy.Invariant.{IsBlock, free, IsUnlisted, IsPool, apart-In}
use refined_c.Buddy.Steps.{enter_tail-IsPool}
use refined_c.Buddy.Same.{
  IsSame, IsSame-refl, IsSame-trans, IsPending, IsApart-IsUnlisted, set_order-IsSame,
  set_order-other, IsSettled,
}
use refined_c.Buddy.Attach.{set_order_self, outside, set_order-IsPool, free_area-ok}
use refined_c.Buddy.Halves.{
  upper, upper_ne, halved, upper_sibling, inside-upper, upper-IsBlock, lower-IsBlock, within,
}

module _ {M : Type 0} where
  -- The buddy of the lower half is the upper half.
  find_buddy-upper :
      (s : HypPool M) (first last : ℕ) (lists : ℕ → List ℕ) (p order : ℕ)
      → IsPool s first last lists
      → IsBlock first last p (order + 1)
      → find_buddy s p order ≡ some (upper p order)
  find_buddy-upper s first last lists p order pool block =
      let e = block.aligned ∙ halved block.index order in
      let high : sibling (2 * block.index) * 2 ^ order ≡ upper p order =
        upper_sibling block.index order ∙ ap (λ t. t + 2 ^ order) (sym block.aligned) in
      let size = pow_double order in
      let one = suc-ones order in
      let found =
        find_buddy-sibling s first last (2 * block.index) order pool.range
          (omega (arith, e, block.ends, size, one)) in
      subst (λ t. find_buddy s t order ≡ some (upper p order)) (sym e)
        (found ∙ rw high (ground (arith, block.starts, block.ends, size, one)))

  lowered-IsSame :
      (s : HypPool M) (p order : ℕ)
      → IsSame s (set_order (upper p order) order (set_order p order s))
  lowered-IsSame s p order =
      IsSame-trans s (set_order p order s) (set_order (upper p order) order (set_order p order s))
        (set_order-IsSame s p order) (set_order-IsSame (set_order p order s) (upper p order) order)

  -- The upper half enters the list of its order.
  upper-IsPool :
      (s : HypPool M) (first last : ℕ) (lists : ℕ → List ℕ) (p order : ℕ)
      → IsPending s first last lists p (order + 1)
      → ((x : ℕ) → inside p order x + inside (upper p order) order x ≡ inside p (order + 1) x)
      → IsPool
          (set_links
            (list_add_tail (page (upper p order)) (head order))
            (set_order (upper p order) order (set_order p order s)))
          first
          last
          (put order (lists order ++ upper p order ∷ []) lists)
  upper-IsPool s first last lists p order pending halves =
      let b = upper p order in
      let cut = set_order p order s in
      let none_of = IsApart-IsUnlisted lists p (order + 1) pending.apart in
      let covered : inside p (order + 1) b ≡ 1 = ground (arith, pow_double order, suc-ones order) in
      let out : IsUnlisted lists b =
        λ o le i. apart-In lists p (order + 1) o b pending.apart covered le i in
      let pool = set_order-IsPool s first last lists p order pending.pool none_of in
      let pool' = set_order-IsPool cut first last lists b order pool out in
      let same = lowered-IsSame s p order in
      enter_tail-IsPool (set_order b order cut) first last lists pool' order b
        (omega (arith, pending.small)) out (set_order_self cut b order)
        (λ x c. same.refcount x ∙ pending.count x (within b order p x (omega (arith, halves x)) c))
        (upper-IsBlock first last p order pending.block)
        (λ x. omega (arith, pending.apart x, halves x))

  split-IsSettled :
      (s : HypPool M) (lists : ℕ → List ℕ) (p order : ℕ)
      → IsSettled s (set_order (upper p order) order (set_order p order s)) lists p (order + 1)
  split-IsSettled s lists p order q out =
      let low : q ≢ p = outside lists p (order + 1) q out in
      let high : q ≢ upper p order = λ e.
        let same = ap (inside p (order + 1)) e in
        let covered : inside p (order + 1) (upper p order) ≡ 1 =
          ground (arith, pow_double order, suc-ones order) in
        absurd (omega (arith, out, covered, same)) in
      set_order-other (set_order p order s) (upper p order) order q high
      ∙ set_order-other s p order q low

  -- A split keeps the invariant, and the block becomes its lower half.
  split_page-IsPending :
      (s : HypPool M) (first last : ℕ) (lists : ℕ → List ℕ) (p order : ℕ)
      → IsPending s first last lists p (order + 1)
      → (s.pages p).order ≡ order + 1
      → Returns (split_page p s) (λ t.
        (lists' : ℕ → List ℕ) × IsPending t first last lists' p order
        × ((t.pages p).order ≡ order)
        × IsSame s t
        × ((x : ℕ) → free lists' x + inside p order x ≡ free lists x + inside p (order + 1) x)
        × IsSettled s t lists p (order + 1))
  unfolding split_page
  split_page-IsPending s first last lists p order pending e =
      let b = upper p order in
      let cut = set_order p order s in
      let end = set_links (list_add_tail (page b) (head order)) (set_order b order cut) in
      let none_of = IsApart-IsUnlisted lists p (order + 1) pending.apart in
      let found =
        find_buddy-upper cut first last lists p order
          (set_order-IsPool s first last lists p order pending.pool none_of) pending.block in
      let halves : (x : ℕ) → inside p order x + inside b order x ≡ inside p (order + 1) x =
        λ x. rw pending.block.aligned (inside-upper pending.block.index order x) in
      let small : order ≤ 11 = omega (arith, pending.small) in
      let edit = lowered-IsSame s p order in
      let same : IsSame s end = record {
        lock = edit.lock;
        memory = edit.memory;
        refcount = edit.refcount;
        in_pool = edit.in_pool;
      } in
      let sum : (x : ℕ)
          → free (put order (lists order ++ b ∷ []) lists) x + inside p order x
            ≡ free lists x + inside p (order + 1) x =
        λ x. omega (
          arith,
          halves x,
          cover-put 12 order (lists order ++ b ∷ []) lists x (omega arith),
          count-append order (lists order) (b ∷ []) x,
        ) in
      let next : IsPending end first last (put order (lists order ++ b ∷ []) lists) p order =
        record {
          pool = upper-IsPool s first last lists p order pending halves;
          small = small;
          block = lower-IsBlock first last p order pending.block;
          apart = λ x. omega (arith, sum x, pending.apart x);
          count = λ x c.
              same.refcount x ∙ pending.count x (within p order p x (omega (arith, halves x)) c);
        } in
      let level = set_order-other cut b order p (upper_ne p order) ∙ set_order_self s p order in
      let one : order + 1 - 1 ≡ order = omega arith in
      rw (e, one, found, free_area-ok order small)
        (
          end,
          refl,
          (
            put order (lists order ++ b ∷ []) lists,
            next,
            level,
            same,
            sum,
            split-IsSettled s lists p order,
          ),
        )

  split_loop_step :
      (fuel p order o : ℕ) (s t u : HypPool M)
      → (s.pages p).order ≡ o
      → ltb order o ≡ true
      → split_page p s ≡ ok t
      → split_loop fuel p order t ≡ ok u
      → split_loop (suc fuel) p order s ≡ ok u
  unfolding split_loop
  split_loop_step fuel p order o s t u e more step rest = rw (split_loop, e, more, step) rest

  -- The loop of splits ends at the order asked for.
  pub split_loop-IsPending :
      (fuel : ℕ) (s : HypPool M) (first last : ℕ) (lists : ℕ → List ℕ) (p o order : ℕ)
      → IsPending s first last lists p o
      → (s.pages p).order ≡ o
      → order ≤ o
      → o < fuel
      → Returns (split_loop fuel p order s) (λ t.
        (lists' : ℕ → List ℕ) × IsPending t first last lists' p order
        × ((t.pages p).order ≡ order)
        × IsSame s t
        × ((x : ℕ) → free lists' x + inside p order x ≡ free lists x + inside p o x)
        × IsSettled s t lists p o)
  unfolding split_loop
  split_loop-IsPending zero s first last lists p o order pending e le enough = absurd (omega arith)
  split_loop-IsPending (suc fuel) s first last lists p o order pending e le enough =
      elim (Bool-cases (ltb order o)) [
        | inr done ↦
            let q : o ≡ order = omega (arith, le, ltb→ge order o done) in
            let run : split_loop (suc fuel) p order s ≡ ok s = rw (split_loop, e, done) refl in
            (
              s,
              run,
              (
                lists,
                subst (λ t. IsPending s first last lists p t) q pending,
                e ∙ q,
                IsSame-refl s,
                (λ x. ap (λ t. free lists x + inside p t x) (sym q)),
                λ k out. refl,
              ),
            )
        | inl more ↦
            let less = ltb→lt order o more in
            let q : o ≡ o - 1 + 1 = omega arith in
            let (t, step, (lists', next, level, same, sum, settled)) =
              split_page-IsPending s first last lists p (o - 1)
                (subst (λ k. IsPending s first last lists p k) q pending) (e ∙ q) in
            let (u, rest, (lists'', end, level', same', sum', settled')) =
              split_loop-IsPending fuel t first last lists' p (o - 1) order next level (omega arith)
                (omega arith) in
            let whole : (j : ℕ)
                → free lists j + inside p o j ≡ 0
                → free lists j + inside p (o - 1 + 1) j ≡ 0 =
              λ j out. ap (λ k. free lists j + inside p k j) (sym q) ∙ out in
            let run : split_loop (suc fuel) p order s ≡ ok u =
              split_loop_step fuel p order o s t u e more step rest in
            (
              u,
              run,
              (
                lists'',
                end,
                level',
                IsSame-trans s t u same same',
                (λ x. sum' x ∙ (sum x ∙ ap (λ k. free lists x + inside p k x) (sym q))),
                λ j out. settled' j (sum j ∙ whole j out) ∙ settled j (whole j out),
              ),
            )
      ]
