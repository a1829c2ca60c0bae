-- ===== src/TreeSet/Examples.antt =====
-- A tree, and the theorems at it.
use refined_c.Base.{ℕ, ◌≡◌, refl, ◌||◌, ◌==◌, arith}
use refined_c.Base.Run.{ok, Returns}
use refined_c.TreeSet.{Tree, leaf, branch, init, insert, remove, cursor_loop, tree_max}
use refined_c.TreeSet.Search.{has, IsSearch, insert-has}
use refined_c.TreeSet.Remove.{Removed, remove-Removed}

-- What `main` does first.
abbrev two : Tree
two = branch (branch leaf 2 leaf) 3 leaf

free_two : insert (init 3) 2 ≡ two
unfolding insert cursor_loop
free_two = refl

drops_three : remove two 3 ≡ ok (branch leaf 2 leaf)
unfolding remove tree_max
drops_three = refl

two-IsSearch : IsSearch two
two-IsSearch = ((tt, tt, λ k e. cc, λ k e. cc), tt, λ k e. ground arith, λ k e. cc)

insert-has_example :
    IsSearch (insert two 5) × ((q : ℕ) → has (insert two 5) q ≡ ((q == 5) || has two q))
insert-has_example = insert-has two 5 two-IsSearch

remove-Removed_example : Returns (remove two 3) (Removed two 3)
remove-Removed_example = remove-Removed two 3 two-IsSearch
