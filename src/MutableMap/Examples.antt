-- ===== src/MutableMap/Examples.antt =====
-- Runs of the map on small tables, and the theorems at those tables.
use refined_c.Base.{ℕ, ◌<◌, ◌≡◌, refl, none, some, arith, inl, inr, List, [], ◌∷◌}
use refined_c.Base.Run.{ok, Returns, Returns-ok}
use refined_c.MutableMap.{
  FixedSizeMap, empty, entry, tombstone, fsm_init, fsm_probe, fsm_get, fsm_insert, fsm_remove,
  fsm_realloc_if_necessary, fsm_slot_for_key, insert_at_slot, compute_min_count,
}
use refined_c.MutableMap.Probe.{IsMap}
use refined_c.MutableMap.View.{view}
use refined_c.MutableMap.Update.{Updated, fsm_remove-Updated}
use refined_c.MutableMap.Grow.{
  Grown, Inserted, grow_limit, fsm_init-IsMap, fsm_realloc_if_necessary-Grown, fsm_insert-Inserted,
}
use refined_c.MutableMap.Session.{
  Call, insert, get, remove, run_calls, spec_calls, run_calls-spec_calls,
}

program : Unit {0}
unfolding fsm_init fsm_probe fsm_get fsm_insert fsm_remove insert_at_slot fsm_slot_for_key
    compute_min_count fsm_realloc_if_necessary
program = tt

-- Keys 4 and 1 have one slot. After `insert 4`, `remove 4` and `insert 1`:
abbrev table : FixedSizeMap ℕ
table = record { items = empty ∷ tombstone 4 ∷ entry 1 10 ∷ []; count = 1; length = 3 }

abbrev with_four : FixedSizeMap ℕ
with_four = record { items = empty ∷ entry 4 20 ∷ empty ∷ []; count = 2; length = 3 }

abbrev without_four : FixedSizeMap ℕ
without_four = record { items = empty ∷ tombstone 4 ∷ empty ∷ []; count = 2; length = 3 }

insert_four : fsm_insert (fsm_init 3) 4 20 ≡ ok (with_four, none)
unfolding program
insert_four = refl

remove_four : fsm_remove with_four 4 ≡ ok (without_four, some 20)
unfolding program
remove_four = refl

insert_one : fsm_insert without_four 1 10 ≡ ok (table, none)
unfolding program
insert_one = refl

with_four-IsMap : IsMap with_four
with_four-IsMap =
    (Returns-ok
      (fsm_insert-Inserted (fsm_init 3) 4 20 (fsm_init-IsMap ℕ 3 (omega arith) (omega arith))
        (inr short))
      insert_four).0.is_map
  where
    short : (fsm_init {V = ℕ} 3).length < grow_limit
    short = unfold fsm_init in omega arith

without_four-IsMap : IsMap without_four
without_four-IsMap =
    (Returns-ok (fsm_remove-Updated with_four 4 with_four-IsMap) remove_four).0.is_map

table-IsMap : IsMap table
table-IsMap =
    (Returns-ok (fsm_insert-Inserted without_four 1 10 without_four-IsMap (inl (omega arith)))
      insert_one).0.is_map

-- The next insertion finds one empty slot left and doubles the table; the tombstone is dropped.
grows :
    fsm_insert table 7 30
    ≡ ok (
      record {
        items = empty ∷ entry 1 10 ∷ entry 7 30 ∷ empty ∷ empty ∷ empty ∷ [];
        count = 4;
        length = 6;
      },
      none,
    )
unfolding program
grows = refl

fsm_remove-Updated_example :
    Returns
      (fsm_remove table 1)
      (λ (m', old). Updated table 1 none m' × (old ≡ some 10) × (m'.count ≡ 1))
fsm_remove-Updated_example = fsm_remove-Updated table 1 table-IsMap

fsm_realloc_if_necessary-Grown_example : Returns (fsm_realloc_if_necessary table) (Grown table)
fsm_realloc_if_necessary-Grown_example =
    fsm_realloc_if_necessary-Grown table table-IsMap (inr (omega arith))

fsm_insert-Inserted_example :
    Returns (fsm_insert table 7 30) (λ (m', old). Inserted table 7 30 m' × (old ≡ none))
fsm_insert-Inserted_example = fsm_insert-Inserted table 7 30 table-IsMap (inr (omega arith))

abbrev calls : List (Call ℕ)
calls = insert 7 30 ∷ get 1 ∷ remove 1 ∷ get 1 ∷ []

run_calls-spec_calls_example : Returns (run_calls table calls) (λ (m', os).
    IsMap m'
    × (view m'.items ≡ (spec_calls (view table.items) calls).0)
    × (os ≡ none ∷ some 10 ∷ some 10 ∷ none ∷ []))
run_calls-spec_calls_example = run_calls-spec_calls table calls table-IsMap (omega arith)
