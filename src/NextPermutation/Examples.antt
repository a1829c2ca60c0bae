-- ===== src/NextPermutation/Examples.antt =====
-- An array, and the theorem at it.
use refined_c.Base.{ℕ, ◌≡◌, refl, true, false, List, [], ◌∷◌}
use refined_c.Base.Run.{ok, Returns}
use refined_c.NextPermutation.{next}
use refined_c.NextPermutation.Result.{Nexts, next-Nexts}

abbrev sample : List ℕ
sample = 1 ∷ 3 ∷ 4 ∷ 2 ∷ []

steps_on : next sample 4 ≡ ok (1 ∷ 4 ∷ 2 ∷ 3 ∷ [], true)
unfolding next
steps_on = refl

ends : next (3 ∷ 2 ∷ 1 ∷ []) 3 ≡ ok (3 ∷ 2 ∷ 1 ∷ [], false)
unfolding next
ends = refl

next-Nexts_example : Returns (next sample 4) (Nexts sample)
next-Nexts_example = next-Nexts sample 4 refl
