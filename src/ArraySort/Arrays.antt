-- ===== src/ArraySort/Arrays.antt =====
-- Reading, writing and counting the elements of an array.
use refined_c.Base.{
  ℕ, zero, suc, ◌+◌, ◌<◌, ◌≡◌, ◌≢◌, refl, some, List, [], ◌∷◌, get_elem?, set, get_or, length,
  length-set, get_or-set_self, get_or-set_ne, get_elem?-get_or, ◌==◌, if◌then◌else◌, arith,
}
use refined_c.Base.Run.{ok}
use refined_c.ArraySort.{store}

-- The element at an index
abbrev pub elem : List ℕ → ℕ → ℕ
elem a i = get_or a i 0

abbrev pub count : ℕ → List ℕ → ℕ
count x [] = 0
count x (y ∷ a) = (if y == x then 1 else 0) + count x a

pub get-elem : (a : List ℕ) (i : ℕ) → i < length a → get_elem? a i ≡ some (elem a i)
get-elem a i h = get_elem?-get_or a i 0 h

pub store-set : (a : List ℕ) (i v : ℕ) → i < length a → store a i v ≡ ok (set a i v)
store-set a i v h = ground arith

pub elem-set :
    (a : List ℕ) (i p v : ℕ) → i < length a → elem (set a i v) p ≡ (if i == p then v else elem a p)
elem-set [] i p v h = elim h [ ]
elem-set (x ∷ a) zero zero v h = refl
elem-set (x ∷ a) zero (suc p) v h = ground arith
elem-set (x ∷ a) (suc i) zero v h = ground arith
elem-set (x ∷ a) (suc i) (suc p) v h = ground (arith, elem-set a i p v)

pub elem-set_ne : (a : List ℕ) (i p v : ℕ) → i ≢ p → elem (set a i v) p ≡ elem a p
elem-set_ne a i p v h = get_or-set_ne a i p v 0 h

pub elem-set_self : (a : List ℕ) (i v : ℕ) → i < length a → elem (set a i v) i ≡ v
elem-set_self a i v h = get_or-set_self a i v 0 h

-- A write trades one element for another.
pub count-set :
    (x : ℕ) (a : List ℕ) (i v : ℕ)
    → i < length a
    → count x (set a i v) + (if elem a i == x then 1 else 0) ≡ count x a + (if v == x then 1 else 0)
count-set x [] i v h = elim h [ ]
count-set x (y ∷ a) zero v h = omega arith
count-set x (y ∷ a) (suc i) v h = omega (arith, count-set x a i v)

-- A copy moves the place where the key is missing.
pub count-move :
    (x : ℕ) (a : List ℕ) (i j key : ℕ)
    → i < length a
    → j < length a
    → count x (set (set a i (elem a j)) j key) ≡ count x (set a i key)
count-move x a i j key hi hj =
    let moved = set a i (elem a j) in
    let same : elem moved j ≡ elem a j = ground (arith, elem-set a i j (elem a j) hi) in
    let first = count-set x a i (elem a j) hi in
    let second = count-set x moved j key (rw (length-set a i (elem a j)) hj) in
    let direct = count-set x a i key hi in omega (arith, first, rw same at second, direct)
