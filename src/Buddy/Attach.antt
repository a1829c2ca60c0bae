-- ===== src/Buddy/Attach.antt =====
-- __hyp_attach_page and hyp_put_page of linux/casestudies/page_alloc.c: a block is freed.
use refined_c.Base.{ℕ, ◌+◌, ◌≤◌, ◌≡◌, ◌≢◌, refl, arith, ap, ◌∙◌, List, ◌∷◌, ==_refl}
use refined_c.Base.Run.{ok, Returns}
use refined_c.ListHead.{head, page, list_add}
use refined_c.Buddy.{HypPool, no_order, set_links, set_order, free_area}
use refined_c.Buddy.Free.{hyp_attach_page}
use refined_c.Buddy.Cover.{inside, inside-first, put}
use refined_c.Buddy.Invariant.{free, IsUnlisted, IsPool}
use refined_c.Buddy.Steps.{enter-IsPool, free-enter}
use refined_c.Buddy.Edit.{set_page-IsPool}
use refined_c.Buddy.Same.{
  IsSame, IsSame-trans, IsPending, IsApart-IsUnlisted, set_order-IsSame, set_order-other, IsSettled,
}
use refined_c.Buddy.Coalesce.{coalesce-IsPending}

pub free_area-ok : (o : ℕ) → o ≤ 11 → free_area o ≡ ok (head o)
unfolding free_area
free_area-ok o le = ground arith

pub outside : (lists : ℕ → List ℕ) (p order q : ℕ) → free lists q + inside p order q ≡ 0 → q ≢ p
outside lists p order q out e =
    let same = ap (inside p order) e in absurd (omega (arith, out, inside-first p order, same))

module _ {M : Type 0} where
  pub set_order_self : (s : HypPool M) (p order : ℕ) → ((set_order p order s).pages p).order ≡ order
  unfolding set_order
  set_order_self s p order = rw (==_refl p) refl

  pub set_order-IsPool :
      (s : HypPool M) (first last : ℕ) (lists : ℕ → List ℕ) (p order : ℕ)
      → IsPool s first last lists
      → IsUnlisted lists p
      → IsPool (set_order p order s) first last lists
  unfolding set_order
  set_order-IsPool s first last lists p order pool none_of =
      set_page-IsPool s first last lists pool p none_of (record (s.pages p) { order = order })
        (λ c. pool.idle p c)

  -- The end of __hyp_attach_page
  link-IsPool :
      (s : HypPool M) (first last : ℕ) (lists : ℕ → List ℕ) (p order : ℕ)
      → IsPending s first last lists p order
      → (lists' : ℕ → List ℕ) × IsPool
          (set_links (list_add (page p) (head order)) (set_order p order s))
          first
          last
          lists'
        × IsSame s (set_links (list_add (page p) (head order)) (set_order p order s))
        × ((x : ℕ) → free lists' x ≡ free lists x + inside p order x)
        × IsSettled s
            (set_links (list_add (page p) (head order)) (set_order p order s))
            lists
            p
            order
  link-IsPool s first last lists p order pending =
      let none_of = IsApart-IsUnlisted lists p order pending.apart in
      let ready = set_order-IsPool s first last lists p order pending.pool none_of in
      let edit = set_order-IsSame s p order in
      (
        put order (p ∷ lists order) lists,
        enter-IsPool (set_order p order s) first last lists ready order p pending.small none_of
            (set_order_self s p order) (λ x c. edit.refcount x ∙ pending.count x c) pending.block
            pending.apart,
        record {
          lock = edit.lock;
          memory = edit.memory;
          refcount = edit.refcount;
          in_pool = edit.in_pool;
        },
        λ x.
            free-enter (set_order p order s) first last lists ready order p (p ∷ lists order) x
              pending.small (omega arith),
        λ q out. set_order-other s p order q (outside lists p order q out),
      )

  -- __hyp_attach_page adds exactly the pages of the block to the free ones.
  pub hyp_attach_page-IsPool :
      (s : HypPool M) (first last : ℕ) (lists : ℕ → List ℕ) (p order : ℕ)
      → IsPending s first last lists p order
      → (s.pages p).order ≡ order
      → Returns (hyp_attach_page p s) (λ t.
        (lists' : ℕ → List ℕ) × IsPool t first last lists'
        × IsSame s t
        × ((x : ℕ) → free lists' x ≡ free lists x + inside p order x)
        × IsSettled s t lists p order)
  unfolding hyp_attach_page
  hyp_attach_page-IsPool s first last lists p order pending e =
      let none_of = IsApart-IsUnlisted lists p order pending.apart in
      let edit = set_order-IsSame s p no_order in
      let begin : IsPending (set_order p no_order s) first last lists p order = record {
        pool = set_order-IsPool s first last lists p no_order pending.pool none_of;
        small = pending.small;
        block = pending.block;
        apart = pending.apart;
        count = λ x c. edit.refcount x ∙ pending.count x c;
      } in
      let (r, run, (lists', end, same, sum, settled)) =
        coalesce-IsPending 12 (set_order p no_order s) first last lists p order begin
          (omega arith) in
      let (lists'', pool, same', sum', settled') = link-IsPool r.0 first last lists' r.1 r.2 end in
      let linked = set_links (list_add (page r.1) (head r.2)) (set_order r.1 r.2 r.0) in
      let whole =
        IsSame-trans s (set_order p no_order s) linked edit
          (IsSame-trans (set_order p no_order s) r.0 linked same same') in
      let area = free_area-ok r.2 end.small in
      rw (e, run, area)
        (
          linked,
          refl,
          (
            lists'',
            pool,
            whole,
            (λ x. sum' x ∙ sum x),
            λ q out.
                settled' q (sum q ∙ out)
                ∙ (settled q out ∙ set_order-other s p no_order q (outside lists p order q out)),
          ),
        )
