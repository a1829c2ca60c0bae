-- ===== src/BTree/Shape.antt =====
-- The balance of a B-tree, and the entries on each side of a child.
use refined_c.Base.{ℕ, zero, suc, ◌-◌, ◌<◌, ◌≤◌, ◌≡◌, refl, ap, List, [], ◌∷◌, ◌++◌, length, arith}
use refined_c.Base.Run.{ok}
use refined_c.BTree.{Btree, null, at, Forest, nil, cons, get_child, store_child, order}
use refined_c.BTree.Entries.{Entry, entries, flatten, IsAscending}

abbrev pub size : Forest → ℕ
size nil = 0
size (cons c cs) = suc (size cs)

-- A tree of height `d` with at least `low` keys in its root and at least two in each other node; the
-- arrays have their lengths, and each node tells its height.
unfoldable mutual
  pub IsBalanced : Btree → (low d : ℕ) → Type 0
  IsBalanced null low d = d ≡ 0
  IsBalanced (at n keys vals children h) low zero = ⊥
  IsBalanced (at n keys vals children h) low (suc e) =
      (h ≡ suc e)
      × (low ≤ n)
      × (n < order)
      × (length keys ≡ order - 1)
      × (length vals ≡ order - 1)
      × (size children ≡ order)
      × AllBalanced children (suc n) e

  -- The first `m` children
  pub AllBalanced : Forest → (m e : ℕ) → Type 0
  AllBalanced cs zero e = Unit {0}
  AllBalanced nil (suc m) e = ⊥
  AllBalanced (cons c cs) (suc m) e = IsBalanced c 2 e × AllBalanced cs m e

abbrev pub child_at : Forest → ℕ → Btree
child_at nil i = null
child_at (cons c cs) zero = c
child_at (cons c cs) (suc i) = child_at cs i

abbrev pub set_child : Forest → ℕ → Btree → Forest
set_child nil i t = nil
set_child (cons c cs) zero t = cons t cs
set_child (cons c cs) (suc i) t = cons c (set_child cs i t)

pub get_child-child_at : (cs : Forest) (i : ℕ) → i < size cs → get_child cs i ≡ ok (child_at cs i)
get_child-child_at nil i h = elim h [ ]
get_child-child_at (cons c cs) zero h = refl
get_child-child_at (cons c cs) (suc i) h = get_child-child_at cs i (omega arith)

pub store_child-set_child :
    (cs : Forest) (i : ℕ) (t : Btree) → i < size cs → store_child cs i t ≡ ok (set_child cs i t)
store_child-set_child nil i t h = elim h [ ]
store_child-set_child (cons c cs) zero t h = refl
store_child-set_child (cons c cs) (suc i) t h = rw (store_child-set_child cs i t (omega arith)) refl

pub size-set_child : (cs : Forest) (i : ℕ) (t : Btree) → size (set_child cs i t) ≡ size cs
size-set_child nil i t = refl
size-set_child (cons c cs) zero t = refl
size-set_child (cons c cs) (suc i) t = ap suc (size-set_child cs i t)

pub child_at-IsBalanced :
    (cs : Forest) (m i e : ℕ) → AllBalanced cs m e → i < m → IsBalanced (child_at cs i) 2 e
unfolding IsBalanced
child_at-IsBalanced cs zero i e a h = elim h [ ]
child_at-IsBalanced nil (suc m) i e a h = elim a [ ]
child_at-IsBalanced (cons c cs) (suc m) zero e a h = a.0
child_at-IsBalanced (cons c cs) (suc m) (suc i) e a h =
    child_at-IsBalanced cs m i e a.1 (omega arith)

pub set_child-AllBalanced :
    (cs : Forest) (m i e : ℕ) (t : Btree)
    → AllBalanced cs m e
    → IsBalanced t 2 e
    → AllBalanced (set_child cs i t) m e
unfolding IsBalanced
set_child-AllBalanced cs zero i e t a b = tt
set_child-AllBalanced nil (suc m) i e t a b = elim a [ ]
set_child-AllBalanced (cons c cs) (suc m) zero e t a b = (b, a.1)
set_child-AllBalanced (cons c cs) (suc m) (suc i) e t a b =
    (a.0, set_child-AllBalanced cs m i e t a.1 b)

-- The entries of a node on the left of child `i`, and those on its right.
abbrev pub before : (i : ℕ) (keys vals : List ℕ) → Forest → List Entry
before zero keys vals cs = []
before (suc i) (k ∷ keys) (v ∷ vals) (cons c cs) = entries c ++ (k, v) ∷ before i keys vals cs
before (suc i) _ _ _ = []

abbrev pub rest : (n : ℕ) (keys vals : List ℕ) → Forest → List Entry
rest (suc n) (k ∷ keys) (v ∷ vals) cs = (k, v) ∷ flatten n keys vals cs
rest _ _ _ _ = []

abbrev pub after : (i n : ℕ) (keys vals : List ℕ) → Forest → List Entry
after zero n keys vals (cons c cs) = rest n keys vals cs
after (suc i) (suc n) (k ∷ keys) (v ∷ vals) (cons c cs) = after i n keys vals cs
after _ _ _ _ _ = []

-- A B-tree: balanced, and ascending.
pub record IsBtree (t : Btree) : Type 0 where
  pub depth : ℕ
  pub balanced : IsBalanced t 1 depth
  pub ascending : IsAscending (entries t)
