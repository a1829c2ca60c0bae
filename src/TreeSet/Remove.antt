-- ===== src/TreeSet/Remove.antt =====
-- `remove`: the removed key is replaced by the greatest key below it.
use refined_c.Base.{
  ℕ, ◌<◌, ◌≤◌, ◌≡◌, refl, sym, ◌∙◌, Bool, true, false, ◌||◌, ◌&&◌, not, ltb, ◌==◌, if◌then◌else◌,
  arith, Bool-cases, inl, inr,
}
use refined_c.Base.Run.{ok, Returns, ◌>>=◌}
use refined_c.TreeSet.{Tree, leaf, branch, is_null, tree_max, remove}
use refined_c.TreeSet.Search.{has, has-false, IsSearch, has_above, has_below}

abbrev Greatest : Tree → ℕ → Type 0
Greatest t m = (has t m ≡ true) × ((q : ℕ) → has t q ≡ true → q ≤ m)

-- The greatest key is the one at the end of the right links.
tree_max-Greatest :
    (l : Tree) (key : ℕ) (r : Tree)
    → IsSearch (branch l key r)
    → Returns (tree_max (branch l key r)) (Greatest (branch l key r))
unfolding tree_max
tree_max-Greatest l key leaf is =
    (key, refl, (ground arith, λ q e. last_key key q (has l q) (is.2 q) e))
  where
    last_key :
        (key q : ℕ) (low : Bool)
        → (low ≡ true → q < key)
        → ((q == key) || (low || false)) ≡ true
        → q ≤ key
    last_key key q true h e = omega (arith, h refl)
    last_key key q false h e = ground arith
tree_max-Greatest l key (branch rl rk rr) is =
    let (m, run, (in_tree, above)) = tree_max-Greatest rl rk rr is.1 in
    let r = branch rl rk rr in
    let more = is.3 m in_tree in
    (
      m,
      run,
      (ground (arith, in_tree), λ q e. upper key m q (has l q) (has r q) more (is.2 q) (above q) e),
    )
  where
    upper :
        (key m q : ℕ) (low high : Bool)
        → key < m
        → (low ≡ true → q < key)
        → (high ≡ true → q ≤ m)
        → ((q == key) || (low || high)) ≡ true
        → q ≤ m
    upper key m q true high lt h k e = omega (arith, h refl)
    upper key m q false true lt h k e = k refl
    upper key m q false false lt h k e = ground arith

-- A tree without the key `k`, in the order.
abbrev pub Removed : Tree → ℕ → Tree → Type 0
Removed t k t' = IsSearch t' × ((q : ℕ) → has t' q ≡ (not (q == k) && has t q))

and_true : (a b : Bool) → (a && b) ≡ true → b ≡ true
and_true true b e = e
and_true false b e = cc

-- The other branches keep the root, and the side where the key cannot be.
beside_left :
    (key k q : ℕ) (high low' low : Bool)
    → (k == key) ≡ false
    → low' ≡ (not (q == k) && low)
    → (q ≡ k → high ≡ false)
    → ((q == key) || (low' || high)) ≡ (not (q == k) && ((q == key) || (low || high)))
beside_left key k q high low' low other e h = elim (Bool-cases (q == k)) [
  | inl here ↦
      let eq : q ≡ k = ground arith in
      let off : (q == key) ≡ false = ground arith in rw (e, here, off, h eq)
  | inr there ↦ rw (e, there)
]

beside_right :
    (key k q : ℕ) (low high' high : Bool)
    → (k == key) ≡ false
    → high' ≡ (not (q == k) && high)
    → (q ≡ k → low ≡ false)
    → ((q == key) || (low || high')) ≡ (not (q == k) && ((q == key) || (low || high)))
beside_right key k q low high' high other e h = elim (Bool-cases (q == k)) [
  | inl here ↦
      let eq : q ≡ k = ground arith in
      let off : (q == key) ≡ false = ground arith in rw (e, here, off, h eq)
  | inr there ↦ rw (e, there)
]

-- The branch of `remove` that found the key above another key.
replaced :
    (l r : Tree) (k m : ℕ) (l' : Tree)
    → IsSearch (branch l k r)
    → Greatest l m
    → Removed l m l'
    → Removed (branch l k r) k (branch l' m r)
replaced l r k m l' is (in_l, top) (is', has') =
    let less = is.2 m in_l in
    (
      (
        is',
        is.1,
        λ q e.
            let old = and_true (not (q == m)) (has l q) (sym (has' q) ∙ e) in
            let bound = top q old in
            let ne : (q == m) ≡ false = differs q m (has l q) (sym (has' q) ∙ e) in
            ground (arith, bound, ne),
        λ q e. omega (arith, less, is.3 q e),
      ),
      λ q. same_keys q (has' q),
    )
  where
    differs : (q m : ℕ) (old : Bool) → (not (q == m) && old) ≡ true → (q == m) ≡ false
    differs q m true e = ground arith
    differs q m false e = ground arith

    same_keys :
        (q : ℕ)
        → has l' q ≡ (not (q == m) && has l q)
        → ((q == m) || (has l' q || has r q)) ≡ (not (q == k) && ((q == k) || (has l q || has r q)))
    same_keys q e =
        let less = is.2 m in_l in
        elim (Bool-cases (q == m)) [
          | inl at ↦
              let eq_m : q ≡ m = ground arith in
              let old : has l q ≡ true = rw eq_m in_l in
              let off : (q == k) ≡ false = ground arith in rw (at, off, old)
          | inr off ↦
              let kept : has l' q ≡ has l q = e ∙ rw off in
              elim (Bool-cases (q == k)) [
                | inl here ↦
                    let eq_k : q ≡ k = ground arith in
                    let low : has l q ≡ false = has-false l q (λ i. omega (arith, is.2 q i)) in
                    let high : has r q ≡ false = has-false r q (λ i. omega (arith, is.3 q i)) in
                    rw (off, here, kept, low, high)
                | inr there ↦ rw (off, there, kept)
              ]
        ]

-- `remove` of the root's key.
remove_root :
    (l : Tree) (key : ℕ) (r : Tree)
    → IsSearch (branch l key r)
    → ((m : ℕ) → Returns (remove l m) (Removed l m))
    → Returns
        (if is_null l then ok r else tree_max l >>= λ m. remove l m >>= λ l'. ok (branch l' m r))
        (Removed (branch l key r) key)
remove_root leaf key r is rec = (r, refl, (is.1, λ q. without q (has r q) (λ e. is.3 q e)))
  where
    without :
        (q : ℕ) (old : Bool)
        → (old ≡ true → key < q)
        → old ≡ (not (q == key) && ((q == key) || (false || old)))
    without q true h = let lt = h refl in ground arith
    without q false h = ground arith
remove_root (branch ll lk lr) key r is rec =
    let l = branch ll lk lr in
    let (m, run, top) = tree_max-Greatest ll lk lr is.0 in
    let (l', run', rem) = rec m in (branch l' m r, rw (run, run'), replaced l r key m l' is top rem)

-- `remove` ends on every search tree. The tree that it leaves is a search tree with the former keys
-- without the removed one.
pub remove-Removed : (t : Tree) (k : ℕ) → IsSearch t → Returns (remove t k) (Removed t k)
unfolding remove
remove-Removed leaf k is = (leaf, refl, (tt, λ q. ground arith))
remove-Removed (branch l key r) k is = elim (Bool-cases (k == key)) [
  | inl same ↦
      let eq : k ≡ key = ground arith in
      rw (same, eq) (remove_root l key r is (λ m. remove-Removed l m is.0))
  | inr other ↦ elim (Bool-cases (ltb k key)) [
    | inl less ↦
        let (l', run, (is', has')) = remove-Removed l k is.0 in
        let out = has_above l r key k is (ground arith) in
        (
          branch l' key r,
          rw (other, less, run),
          (
            (is', is.1, λ q e. is.2 q (and_true (not (q == k)) (has l q) (sym (has' q) ∙ e)), is.3),
            λ q. beside_left key k q (has r q) (has l' q) (has l q) other (has' q) (λ e. rw e out),
          ),
        )
    | inr more ↦
        let (r', run, (is', has')) = remove-Removed r k is.1 in
        let out = has_below l r key k is (ground arith) in
        (
          branch l key r',
          rw (other, more, run),
          (
            (is.0, is', is.2, λ q e. is.3 q (and_true (not (q == k)) (has r q) (sym (has' q) ∙ e))),
            λ q. beside_right key k q (has l q) (has r' q) (has r q) other (has' q) (λ e. rw e out),
          ),
        )
  ]
]
