-- ===== src/BTree/Entries.antt =====
-- The keys of a B-tree with their values, in order, and the dictionary that such a list is.
use refined_c.Base.{
  ℕ, zero, suc, ◌<◌, Option, none, some, List, [], ◌∷◌, ◌++◌, ltb, ◌==◌, if◌then◌else◌,
}
use refined_c.BTree.{Btree, null, at, Forest, nil, cons}

abbrev pub Entry : Type 0
Entry = ℕ × ℕ

unfoldable mutual
  pub entries : Btree → List Entry
  entries null = []
  entries (at n keys vals children h) = flatten n keys vals children

  -- The first `n` entries of a node, with the entries of the children before, between and behind.
  pub flatten : (n : ℕ) (keys vals : List ℕ) → Forest → List Entry
  flatten n keys vals nil = []
  flatten zero keys vals (cons c cs) = entries c
  flatten (suc n) [] vals (cons c cs) = []
  flatten (suc n) (k ∷ keys) [] (cons c cs) = []
  flatten (suc n) (k ∷ keys) (v ∷ vals) (cons c cs) = entries c ++ (k, v) ∷ flatten n keys vals cs

abbrev pub lookup : ℕ → List Entry → Option ℕ
lookup k [] = none
lookup k ((j, w) ∷ m) = if j == k then some w else lookup k m

abbrev pub insert : (k v : ℕ) → List Entry → List Entry
insert k v [] = (k, v) ∷ []
insert k v ((j, w) ∷ m) =
    let behind = (j, w) ∷ insert k v m in
    if j == k then (k, v) ∷ m else if ltb k j then (k, v) ∷ (j, w) ∷ m else behind

abbrev pub AllBelow : ℕ → List Entry → Type 0
AllBelow k [] = Unit {0}
AllBelow k ((j, w) ∷ m) = (j < k) × AllBelow k m

abbrev pub AllAbove : ℕ → List Entry → Type 0
AllAbove k [] = Unit {0}
AllAbove k ((j, w) ∷ m) = (k < j) × AllAbove k m

abbrev pub IsAscending : List Entry → Type 0
IsAscending [] = Unit {0}
IsAscending ((k, v) ∷ m) = AllAbove k m × IsAscending m
