-- ===== src/BTree/Order.antt =====
-- Ascending lists of entries, cut in two.
use refined_c.Base.{
  ℕ, ◌<◌, ◌≡◌, refl, ap, true, false, none, some, List, [], ◌∷◌, ◌++◌, ltb, ◌==◌, if◌then◌else◌,
  arith, Bool-cases, inl, inr,
}
use refined_c.BTree.Entries.{Entry, lookup, insert, AllBelow, AllAbove, IsAscending}

pub AllBelow-append :
    (k : ℕ) (xs ys : List Entry) → AllBelow k xs → AllBelow k ys → AllBelow k (xs ++ ys)
AllBelow-append k [] ys a b = b
AllBelow-append k ((j, w) ∷ xs) ys a b = (a.0, AllBelow-append k xs ys a.1 b)

pub AllBelow-left : (k : ℕ) (xs ys : List Entry) → AllBelow k (xs ++ ys) → AllBelow k xs
AllBelow-left k [] ys a = tt
AllBelow-left k ((j, w) ∷ xs) ys a = (a.0, AllBelow-left k xs ys a.1)

pub AllBelow-right : (k : ℕ) (xs ys : List Entry) → AllBelow k (xs ++ ys) → AllBelow k ys
AllBelow-right k [] ys a = a
AllBelow-right k ((j, w) ∷ xs) ys a = AllBelow-right k xs ys a.1

pub AllBelow-lt : (j k : ℕ) (xs : List Entry) → j < k → AllBelow j xs → AllBelow k xs
AllBelow-lt j k [] h a = tt
AllBelow-lt j k ((i, w) ∷ xs) h a = (omega (arith, a.0), AllBelow-lt j k xs h a.1)

pub AllAbove-lt : (j k : ℕ) (xs : List Entry) → j < k → AllAbove k xs → AllAbove j xs
AllAbove-lt j k [] h a = tt
AllAbove-lt j k ((i, w) ∷ xs) h a = (omega (arith, a.0), AllAbove-lt j k xs h a.1)

pub AllAbove-append :
    (k : ℕ) (xs ys : List Entry) → AllAbove k xs → AllAbove k ys → AllAbove k (xs ++ ys)
AllAbove-append k [] ys a b = b
AllAbove-append k ((j, w) ∷ xs) ys a b = (a.0, AllAbove-append k xs ys a.1 b)

pub AllAbove-left : (k : ℕ) (xs ys : List Entry) → AllAbove k (xs ++ ys) → AllAbove k xs
AllAbove-left k [] ys a = tt
AllAbove-left k ((j, w) ∷ xs) ys a = (a.0, AllAbove-left k xs ys a.1)

pub AllAbove-right : (k : ℕ) (xs ys : List Entry) → AllAbove k (xs ++ ys) → AllAbove k ys
AllAbove-right k [] ys a = a
AllAbove-right k ((j, w) ∷ xs) ys a = AllAbove-right k xs ys a.1

pub IsAscending-left : (xs ys : List Entry) → IsAscending (xs ++ ys) → IsAscending xs
IsAscending-left [] ys a = tt
IsAscending-left ((j, w) ∷ xs) ys a = (AllAbove-left j xs ys a.0, IsAscending-left xs ys a.1)

pub IsAscending-right : (xs ys : List Entry) → IsAscending (xs ++ ys) → IsAscending ys
IsAscending-right [] ys a = a
IsAscending-right ((j, w) ∷ xs) ys a = IsAscending-right xs ys a.1

-- What stands before an entry is below it.
pub IsAscending-AllBelow :
    (k v : ℕ) (xs ys : List Entry) → IsAscending (xs ++ (k, v) ∷ ys) → AllBelow k xs
IsAscending-AllBelow k v [] ys a = tt
IsAscending-AllBelow k v ((j, w) ∷ xs) ys a =
    ((AllAbove-right j xs ((k, v) ∷ ys) a.0).0, IsAscending-AllBelow k v xs ys a.1)

-- An entry fits between what is below it and what is above.
pub IsAscending-between :
    (k v : ℕ) (xs ys : List Entry)
    → IsAscending (xs ++ ys)
    → AllBelow k xs
    → AllAbove k ys
    → IsAscending (xs ++ (k, v) ∷ ys)
IsAscending-between k v [] ys a low high = (high, a)
IsAscending-between k v ((j, w) ∷ xs) ys a low high = (
  AllAbove-append j xs ((k, v) ∷ ys) (AllAbove-left j xs ys a.0)
      (low.0, AllAbove-right j xs ys a.0),
  IsAscending-between k v xs ys a.1 low.1 high,
)

module _ (k : ℕ) where
  pub lookup-append_below : (xs ys : List Entry) → AllBelow k xs → lookup k (xs ++ ys) ≡ lookup k ys
  lookup-append_below [] ys a = refl
  lookup-append_below ((j, w) ∷ xs) ys a =
      let off : (j == k) ≡ false = ground (arith, a.0) in rw off (lookup-append_below xs ys a.1)

  lookup-above : (ys : List Entry) → AllAbove k ys → lookup k ys ≡ none
  lookup-above [] a = refl
  lookup-above ((j, w) ∷ ys) a =
      let off : (j == k) ≡ false = ground (arith, a.0) in rw off (lookup-above ys a.1)

  pub lookup-append_above : (xs ys : List Entry) → AllAbove k ys → lookup k (xs ++ ys) ≡ lookup k xs
  lookup-append_above [] ys a = lookup-above ys a
  lookup-append_above ((j, w) ∷ xs) ys a =
      ap (λ t. if j == k then some w else t) (lookup-append_above xs ys a)

  -- `insert` puts a new entry between what is below it and what is above.
  pub insert-between :
      (v : ℕ) (xs ys : List Entry)
      → AllBelow k xs
      → AllAbove k ys
      → insert k v (xs ++ ys) ≡ xs ++ (k, v) ∷ ys
  insert-between v [] [] a b = refl
  insert-between v [] ((j, w) ∷ ys) a b =
      let off : (j == k) ≡ false = ground (arith, b.0) in
      let less : ltb k j ≡ true = ground (arith, b.0) in rw (off, less) refl
  insert-between v ((j, w) ∷ xs) ys a b =
      let off : (j == k) ≡ false = ground (arith, a.0) in
      let more : ltb k j ≡ false = ground (arith, a.0) in
      rw (off, more) (ap (λ t. (j, w) ∷ t) (insert-between v xs ys a.1 b))

  -- `insert` of a key that is there replaces its entry.
  pub insert-replace :
      (v old : ℕ) (xs ys : List Entry)
      → AllBelow k xs
      → insert k v (xs ++ (k, old) ∷ ys) ≡ xs ++ (k, v) ∷ ys
  insert-replace v old [] ys a = let same : (k == k) ≡ true = ground arith in rw same refl
  insert-replace v old ((j, w) ∷ xs) ys a =
      let off : (j == k) ≡ false = ground (arith, a.0) in
      let more : ltb k j ≡ false = ground (arith, a.0) in
      rw (off, more) (ap (λ t. (j, w) ∷ t) (insert-replace v old xs ys a.1))

AllAbove-insert : (j k v : ℕ) (xs : List Entry) → j < k → AllAbove j xs → AllAbove j (insert k v xs)
AllAbove-insert j k v [] h a = (h, tt)
AllAbove-insert j k v ((i, w) ∷ xs) h a =
    let behind = AllAbove-insert j k v xs h a.1 in
    elim (Bool-cases (i == k)) [
      | inl same ↦ rw same (h, a.1)
      | inr other ↦ elim (Bool-cases (ltb k i)) [
        | inl less ↦ rw (other, less) (h, a)
        | inr more ↦ rw (other, more) (a.0, behind)
      ]
    ]

pub insert-IsAscending : (k v : ℕ) (xs : List Entry) → IsAscending xs → IsAscending (insert k v xs)
insert-IsAscending k v [] a = (tt, tt)
insert-IsAscending k v ((i, w) ∷ xs) a =
    let behind = insert-IsAscending k v xs a.1 in
    elim (Bool-cases (i == k)) [
      | inl same ↦ let eq : i ≡ k = ground arith in rw same (rw eq at a.0, a.1)
      | inr other ↦ elim (Bool-cases (ltb k i)) [
        | inl less ↦
            let lt : k < i = ground arith in rw (other, less) ((lt, AllAbove-lt k i xs lt a.0), a)
        | inr more ↦
            let lt : i < k = ground arith in
            rw (other, more) (AllAbove-insert i k v xs lt a.0, behind)
      ]
    ]
