-- ===== src/Dag/Sort.antt =====
-- core/dag/graph.py: `topological_sort`.
use puffinfloww.Base.{
  ℕ, zero, suc, ◌+◌, ◌-◌, Option, none, some, List, [], ◌∷◌, ◌++◌, Name, Dict, ◌==◌, filter, get_or,
  put, keys, length, if◌then◌else◌,
}
use puffinfloww.Dag.{Dag, get_successors}
use puffinfloww.Dag.Components.{
  Validation, valid, cycle_detected, disconnected, undecided, validate,
}

abbrev pub degree : Dict ℕ → Name → ℕ
degree in_degree node = get_or node in_degree 0

unfoldable pub count_successors : List Name → Dict ℕ → Dict ℕ
count_successors [] in_degree = in_degree
count_successors (y ∷ ys) in_degree = count_successors ys (put y (degree in_degree y + 1) in_degree)

unfoldable pub in_degrees : (Name → List Name) → List Name → Dict ℕ → Dict ℕ
unfolding count_successors
in_degrees next [] in_degree = in_degree
in_degrees next (node ∷ ns) in_degree = in_degrees next ns (count_successors (next node) in_degree)

-- The loop over the successors. A degree of 0 stays 0 here and goes below it in the code, and in
-- neither case is the test met again.
unfoldable pub lower : List Name → Dict ℕ → List Name → Dict ℕ × List Name
lower [] in_degree queue = (in_degree, queue)
lower (y ∷ ys) in_degree queue =
    lower ys (put y (degree in_degree y - 1) in_degree)
      (if degree in_degree y == 1 then queue ++ y ∷ [] else queue)

-- The loop `while queue`; `none` if the fuel runs out.
unfoldable pub sort_loop :
    (Name → List Name) → ℕ → List Name → Dict ℕ → List Name → Option (List Name)
unfolding lower
sort_loop next fuel [] in_degree result = some result
sort_loop next zero (node ∷ queue) in_degree result = none
sort_loop next (suc fuel) (node ∷ queue) in_degree result =
    let (later_degree, later_queue) = lower (next node) in_degree queue in
    sort_loop next fuel later_queue later_degree (result ++ node ∷ [])

pub data Sorting {ℓ} (T : Type ℓ) : Type ℓ where
  sorted : Dag T → List Name → Sorting T
  invalid : Validation T → Sorting T
  exhausted : Sorting T

module _ {ℓ} {T : Type ℓ} where
  -- Every turn of the loop gives out another node, so their number is enough fuel.
  unfoldable pub kahn : Dag T → Option (List Name)
  unfolding in_degrees sort_loop get_successors
  kahn d =
      let in_degree = in_degrees (get_successors d) (keys d.nodes) [] in
      sort_loop (get_successors d) (length (keys d.nodes))
        (filter (λ node. degree in_degree node == 0) (keys d.nodes)) in_degree []

  unfoldable pub sort_valid : Dag T → Sorting T
  unfolding kahn
  sort_valid d = elim (kahn d) [ none ↦ exhausted | some result ↦ sorted d result ]

  unfoldable pub topological_sort : Dag T → Sorting T
  unfolding sort_valid validate
  topological_sort d = if d.is_validated then sort_valid d else elim (validate d) [
    | valid d' ↦ sort_valid d'
    | cycle_detected c ↦ invalid (cycle_detected c)
    | disconnected n ↦ invalid (disconnected n)
    | undecided ↦ invalid undecided
  ]
