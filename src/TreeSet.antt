-- ===== src/TreeSet.antt =====
-- The set of numbers as a search tree of tutorial/t11_tree_set.c. A tree owns its nodes, so a
-- `struct tree *` is a tree, with NULL as `leaf`.
pub mod Search
pub mod Remove
mod Examples
use refined_c.Base.{
  ℕ, Bool, true, false, Option, none, some, List, [], ◌∷◌, ltb, ◌==◌, if◌then◌else◌,
}
use refined_c.Base.Run.{Run, ok, fault, ◌>>=◌}

pub data Tree : Type 0 where
  leaf : Tree
  branch : Tree → (key : ℕ) → Tree → Tree

abbrev pub empty : Tree
empty = leaf

abbrev pub init : ℕ → Tree
init key = branch leaf key leaf

abbrev pub node : Tree → ℕ → Tree → Tree
node left key right = branch left key right

unfoldable pub member_rec : Tree → ℕ → Bool
member_rec leaf k = false
member_rec (branch l key r) k =
    let below = member_rec l k in
    let above = member_rec r k in if key == k then true else if ltb k key then below else above

unfoldable pub insert_rec : Tree → ℕ → Tree
insert_rec leaf k = node leaf k leaf
insert_rec (branch l key r) k =
    let below = branch (insert_rec l k) key r in
    let above = branch l key (insert_rec r k) in
    if key == k then branch l key r else if ltb k key then below else above

-- The loops of `member` and `insert` move a cursor, the address of a child, down the tree. Where it
-- stands is the turns that it took.
pub data Turn : Type 0 where
  left right : Turn

-- The loop ends at a node with the key, or at a NULL.
pub data Stop : Type 0 where
  at_key : List Turn → Stop
  at_null : List Turn → Stop

abbrev pub turned : Turn → Stop → Stop
turned d (at_key ds) = at_key (d ∷ ds)
turned d (at_null ds) = at_null (d ∷ ds)

unfoldable pub cursor_loop : Tree → ℕ → Stop
cursor_loop leaf k = at_null []
cursor_loop (branch l key r) k =
    let below = turned left (cursor_loop l k) in
    let above = turned right (cursor_loop r k) in
    if key == k then at_key [] else if ltb k key then below else above

-- What `member` and `insert` do behind their loops.
abbrev pub found : Stop → Bool
found (at_key ds) = true
found (at_null ds) = false

unfoldable pub member : Tree → ℕ → Bool
unfolding cursor_loop
member t k = found (cursor_loop t k)

-- `*cur = sub`
abbrev pub store_at : Tree → List Turn → Tree → Tree
store_at t [] sub = sub
store_at leaf (d ∷ ds) sub = leaf
store_at (branch l key r) (left ∷ ds) sub = branch (store_at l ds sub) key r
store_at (branch l key r) (right ∷ ds) sub = branch l key (store_at r ds sub)

abbrev pub stored : Tree → ℕ → Stop → Tree
stored t k (at_key ds) = t
stored t k (at_null ds) = store_at t ds (node leaf k leaf)

unfoldable pub insert : Tree → ℕ → Tree
unfolding cursor_loop
insert t k = stored t k (cursor_loop t k)

-- It reads through its argument, which must not be NULL.
unfoldable pub tree_max : Tree → Run ℕ
tree_max leaf = fault
tree_max (branch l key leaf) = ok key
tree_max (branch l key (branch rl rk rr)) = tree_max (branch rl rk rr)

abbrev pub is_null : Tree → Bool
is_null leaf = true
is_null (branch l key r) = false

unfoldable pub remove : Tree → ℕ → Run Tree
unfolding tree_max
remove leaf k = ok leaf
remove (branch l key r) k =
    let max_out = tree_max l >>= λ m. remove l m >>= λ l'. ok (branch l' m r) in
    let below = remove l k >>= λ l'. ok (branch l' key r) in
    let above = remove r k >>= λ r'. ok (branch l key r') in
    if k == key then if is_null l then ok r else max_out else if ltb k key then below else above
