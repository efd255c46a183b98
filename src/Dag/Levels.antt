-- ===== src/Dag/Levels.antt =====
-- core/dag/graph.py: `get_levels`, and how its levels compare with `topological_sort`.
use puffinfloww.Base.{
  ℕ, zero, suc, ◌+◌, ◌≤◌, ◌≡◌, refl, sym, ◌∙◌, ap, inl, inr, Bool-cases, Option, none, some, List,
  [], ◌∷◌, ◌++◌, Name, Dict, arith, ◌==◌, filter, keys, length, if◌then◌else◌,
}
use mathlib.Core.List.{append-nil, append_assoc}
use puffinfloww.Dag.{Dag, create, get_successors}
use puffinfloww.Dag.Edits.{Call, run}
use puffinfloww.Dag.Components.{
  Validation, valid, cycle_detected, disconnected, undecided, validate,
}
use puffinfloww.Dag.Sort.{degree, in_degrees, lower, sort_loop, kahn, topological_sort, sorted}
use puffinfloww.Dag.Order.{kahn_sorts, valid_facts, sorted_of_kahn, run_unvalidated}

-- The two loops over a level and its successors.
unfoldable pub lower_level :
    (Name → List Name) → List Name → Dict ℕ → List Name → Dict ℕ × List Name
unfolding lower
lower_level next [] in_degree next_level = (in_degree, next_level)
lower_level next (node ∷ level) in_degree next_level =
    lower_level next level (lower (next node) in_degree next_level).0
      (lower (next node) in_degree next_level).1

-- The loop `while current_level`; `none` if the fuel runs out.
unfoldable pub levels_loop :
    (Name → List Name) → ℕ → List Name → Dict ℕ → List (List Name) → Option (List (List Name))
unfolding lower_level
levels_loop next fuel [] in_degree levels = some levels
levels_loop next zero (node ∷ level) in_degree levels = none
levels_loop next (suc fuel) (node ∷ level) in_degree levels =
    let (later_degree, next_level) = lower_level next (node ∷ level) in_degree [] in
    levels_loop next fuel next_level later_degree (levels ++ (node ∷ level) ∷ [])

pub data Levelling {ℓ} (T : Type ℓ) : Type ℓ where
  levelled : Dag T → List (List Name) → Levelling T
  refused : Validation T → Levelling T
  exhausted : Levelling T

module _ {ℓ} {T : Type ℓ} where
  -- No level is empty, so the number of nodes is enough fuel.
  unfoldable pub levels_of : Dag T → Option (List (List Name))
  unfolding levels_loop in_degrees get_successors
  levels_of d =
      let in_degree = in_degrees (get_successors d) (keys d.nodes) [] in
      levels_loop (get_successors d) (length (keys d.nodes))
        (filter (λ node. degree in_degree node == 0) (keys d.nodes)) in_degree []

  unfoldable pub level_valid : Dag T → Levelling T
  unfolding levels_of
  level_valid d = elim (levels_of d) [ none ↦ exhausted | some levels ↦ levelled d levels ]

  unfoldable pub get_levels : Dag T → Levelling T
  unfolding level_valid validate
  get_levels d = if d.is_validated then level_valid d else elim (validate d) [
    | valid d' ↦ level_valid d'
    | cycle_detected c ↦ refused (cycle_detected c)
    | disconnected n ↦ refused (disconnected n)
    | undecided ↦ refused undecided
  ]

unfoldable pub concat : List (List Name) → List Name
concat [] = []
concat (l ∷ ls) = l ++ concat ls

same_list : {s t : List Name} → some s ≡ some t → s ≡ t
same_list e = cc

concat-snoc : (ls : List (List Name)) (l : List Name) → concat (ls ++ l ∷ []) ≡ concat ls ++ l
unfolding concat
concat-snoc [] l = append-nil l
concat-snoc (x ∷ ls) l = ap (◌++◌ x) (concat-snoc ls l) ∙ sym (append_assoc x (concat ls) l)

lower-append :
    (ys : List Name) (m : Dict ℕ) (c q : List Name)
    → lower ys m (c ++ q) ≡ ((lower ys m q).0, c ++ (lower ys m q).1)
unfolding lower
lower-append [] m c q = refl
lower-append (y ∷ ys) m c q = elim (Bool-cases (degree m y == 1)) [
  | inl last ↦
      rw (lower, last)
        (ap (lower ys _) (append_assoc c q (y ∷ [])) ∙ lower-append ys _ c (q ++ y ∷ []))
  | inr other ↦ rw (lower, other) (lower-append ys _ c q)
]

module _ (next : Name → List Name) where
  -- The turns of `topological_sort` that give out one level.
  sort_level :
      (level acc : List Name) (fuel : ℕ) (m : Dict ℕ) (r t : List Name)
      → sort_loop next fuel (level ++ acc) m r ≡ some t
      → (less : ℕ) × (less + length level ≡ fuel)
        × (sort_loop next less
              (lower_level next level m acc).1
              (lower_level next level m acc).0
              (r ++ level)
            ≡ some t)
  unfolding sort_loop lower_level
  sort_level [] acc fuel m r t e =
      (fuel, omega arith, ap (sort_loop next fuel acc m) (append-nil r) ∙ e)
  sort_level (x ∷ level) acc zero m r t e = cc
  sort_level (x ∷ level) acc (suc fuel) m r t e =
      let after = lower-append (next x) m level acc in
      let turned : sort_loop next fuel (level ++ (lower (next x) m acc).1) (lower (next x) m acc).0
            (r ++ x ∷ [])
          ≡ some t =
        ap (λ s. sort_loop next fuel s.1 s.0 (r ++ x ∷ [])) (sym after) ∙ e in
      let (less, count, rest) =
        sort_level level (lower (next x) m acc).1 fuel (lower (next x) m acc).0 (r ++ x ∷ []) t
          turned in
      (
        less,
        omega (arith, count),
        ap (sort_loop next less _ _) (sym (append_assoc r (x ∷ []) level)) ∙ rest,
      )

  levels_concat :
      (n fuel : ℕ) (level : List Name) (m : Dict ℕ) (levels : List (List Name)) (t : List Name)
      → fuel ≤ n
      → sort_loop next fuel level m (concat levels) ≡ some t
      → (ls : List (List Name)) × (levels_loop next n level m levels ≡ some ls) × (concat ls ≡ t)
  unfolding levels_loop sort_loop
  levels_concat zero fuel [] m levels t h e = (levels, refl, same_list e)
  levels_concat (suc n) fuel [] m levels t h e = (levels, refl, same_list e)
  levels_concat zero zero (x ∷ level) m levels t h e = cc
  levels_concat zero (suc fuel) (x ∷ level) m levels t h e = absurd (omega (arith, h))
  levels_concat (suc n) fuel (x ∷ level) m levels t h e =
      let (less, count, rest) =
        sort_level (x ∷ level) [] fuel m (concat levels) t
          (ap (λ q. sort_loop next fuel q m (concat levels)) (append-nil (x ∷ level)) ∙ e) in
      levels_concat n less (lower_level next (x ∷ level) m []).1
        (lower_level next (x ∷ level) m []).0 (levels ++ (x ∷ level) ∷ []) t
        (omega (arith, h, count))
        (ap (sort_loop next less _ _) (concat-snoc levels (x ∷ level)) ∙ rest)

module _ {ℓ} {T : Type ℓ} (cs : List (Call T)) where
  abbrev d : Dag T
  d = run create cs

  -- For a graph that was made by any history of added nodes and edges, refused ones included, and
  -- that `validate` accepts: `get_levels` returns levels that, one behind the other, are the order that
  -- `topological_sort` returns.
  pub get_levels-topological_sort :
      (d' : Dag T)
      → validate d ≡ valid d'
      → (order : List Name) × (levels : List (List Name)) × (topological_sort d ≡ sorted d' order)
        × (get_levels d ≡ levelled d' levels)
        × (concat levels ≡ order)
  unfolding get_levels level_valid levels_of kahn concat
  get_levels-topological_sort d' h =
      let facts = valid_facts cs d' h in
      let (order, ends, orders) = kahn_sorts cs facts.0 in
      let (levels, found, same) =
        levels_concat (get_successors d) (length (keys d.nodes)) (length (keys d.nodes)) _ _ []
          order (omega arith) ends in
      let same_levels : levels_of d' ≡ some levels = ap levels_of facts.1 ∙ found in
      (
        order,
        levels,
        sorted_of_kahn cs d' order h ends,
        rw
            (
              get_levels,
              run_unvalidated create cs (unfold create in refl),
              h,
              level_valid,
              same_levels,
            )
            refl,
        same,
      )
