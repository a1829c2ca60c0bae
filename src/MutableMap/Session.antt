-- ===== src/MutableMap/Session.antt =====
-- A client's sequence of calls against a finite map: the table's representation cannot be seen.
use mathlib.Core.Path.{fun_ext, ap₂}
use refined_c.Base.{
  ℕ, suc, ◌+◌, ◌<◌, ◌⊎◌, ◌≤◌, ◌≡◌, refl, ap, ◌∙◌, Option, none, some, arith, ◌==◌, if◌then◌else◌,
  List, [], ◌∷◌,
}
use refined_c.Base.Run.{Run, ok, Returns, ◌>>=◌}
use refined_c.MutableMap.{FixedSizeMap, fsm_insert, fsm_get, fsm_remove}
use refined_c.MutableMap.Probe.{IsMap}
use refined_c.MutableMap.View.{view}
use refined_c.MutableMap.Update.{fsm_get-view, fsm_remove-Updated}
use refined_c.MutableMap.Grow.{grow_limit, fsm_insert-Inserted}

-- A call of the map's interface.
pub data Call {ℓ} (V : Type ℓ) : Type ℓ where
  insert : (key : ℕ) → V → Call V
  get remove : (key : ℕ) → Call V

-- How many calls of `insert` there are
abbrev pub inserts {ℓ} : {V : Type ℓ} → List (Call V) → ℕ
inserts [] = 0
inserts (insert key v ∷ cs) = suc (inserts cs)
inserts (get key ∷ cs) = inserts cs
inserts (remove key ∷ cs) = inserts cs

module _ {ℓ} {V : Type ℓ} where
  -- A finite map, and what each call does to it and returns.
  abbrev bind : (ℕ → Option V) → ℕ → Option V → ℕ → Option V
  bind f key o k = if key == k then o else f k

  abbrev spec_call : (ℕ → Option V) → Call V → (ℕ → Option V) × Option V
  spec_call f (insert key v) = (bind f key (some v), f key)
  spec_call f (get key) = (f, f key)
  spec_call f (remove key) = (bind f key none, f key)

  abbrev pub spec_calls : (ℕ → Option V) → List (Call V) → (ℕ → Option V) × List (Option V)
  spec_calls f [] = (f, [])
  spec_calls f (c ∷ cs) = let (g, o) = spec_call f c in let (h, os) = spec_calls g cs in (h, o ∷ os)

  -- The same calls on the table.
  run_call : FixedSizeMap V → Call V → Run (FixedSizeMap V × Option V)
  run_call m (insert key v) = fsm_insert m key v
  run_call m (get key) = fsm_get m key >>= λ o. ok (m, o)
  run_call m (remove key) = fsm_remove m key

  unfoldable pub run_calls : FixedSizeMap V → List (Call V) → Run (FixedSizeMap V × List (Option V))
  unfolding run_call
  run_calls m [] = ok (m, [])
  run_calls m (c ∷ cs) = run_call m c >>= λ r. (run_calls r.0 cs >>= λ s. ok (s.0, r.1 ∷ s.1))

  abbrev Agrees : (ℕ → Option V) × Option V → FixedSizeMap V × Option V → Type ℓ
  Agrees (g, o) (m', o') = IsMap m' × (view m'.items ≡ g) × (o' ≡ o)

  -- The slots in use after a call are one more at most, and no more unless it inserts.
  run_call-Agrees :
      (m : FixedSizeMap V) (c : Call V)
      → IsMap m
      → m.length + inserts (c ∷ []) < m.count + grow_limit
      → Returns (run_call m c) (λ r.
        Agrees (spec_call (view m.items) c) r
        × (r.0.length + m.count ≤ r.0.count + m.length + inserts (c ∷ [])))
  unfolding run_call
  run_call-Agrees m (get key) is room =
      ((m, view m.items key), rw (fsm_get-view m key is), ((is, refl, refl), omega arith))
  run_call-Agrees m (remove key) is room =
      let (r, run, facts) = fsm_remove-Updated m key is in
      (
        r,
        run,
        (
          (facts.0.is_map, fun_ext facts.0.viewed, facts.1),
          omega (arith, facts.0.same_length, facts.2),
        ),
      )
  run_call-Agrees m (insert key v) is room =
      let can : (1 < m.count) ⊎ (m.length < grow_limit) = ground arith in
      let (r, run, facts) = fsm_insert-Inserted m key v is can in
      (
        r,
        run,
        ((facts.0.is_map, fun_ext facts.0.viewed, facts.1), omega (arith, facts.0.at_most_used)),
      )

  inserts-cons :
      (c : Call V) (cs : List (Call V)) → inserts (c ∷ cs) ≡ inserts (c ∷ []) + inserts cs
  inserts-cons (insert key v) cs = omega arith
  inserts-cons (get key) cs = omega arith
  inserts-cons (remove key) cs = omega arith

  -- A sequence of calls ends and returns what the finite map returns, and the table then stands for
  -- the map's final state, if the slots in use at the beginning and the calls of insert are together
  -- fewer than the length from which a table is not doubled.
  pub run_calls-spec_calls :
      (m : FixedSizeMap V) (cs : List (Call V))
      → IsMap m
      → m.length + inserts cs < m.count + grow_limit
      → Returns (run_calls m cs) (λ (m', os).
        IsMap m'
        × (view m'.items ≡ (spec_calls (view m.items) cs).0)
        × (os ≡ (spec_calls (view m.items) cs).1))
  unfolding run_calls
  run_calls-spec_calls m [] is fits = ((m, []), refl, (is, refl, refl))
  run_calls-spec_calls m (c ∷ cs) is fits =
      let sum = inserts-cons c cs in
      let (r, run, (facts, used)) = run_call-Agrees m c is (omega (arith, sum)) in
      let (s, runs, rest) = run_calls-spec_calls r.0 cs facts.0 (omega (arith, sum, used)) in
      (
        (s.0, r.1 ∷ s.1),
        rw (run, runs),
        (
          rest.0,
          rest.1 ∙ ap (λ f. (spec_calls f cs).0) facts.1,
          ap₂ ◌∷◌ facts.2 (rest.2 ∙ ap (λ f. (spec_calls f cs).1) facts.1),
        ),
      )
