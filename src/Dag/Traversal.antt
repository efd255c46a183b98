-- ===== src/Dag/Traversal.antt =====
-- core/dag/graph.py: `get_ancestors` and `get_descendants`. A queue of names that are found already is
-- gone through at once, so each unit of fuel is a name that is found.
use puffinfloww.Base.{
  ℕ, zero, suc, Option, none, some, List, [], ◌∷◌, ◌++◌, Name, contains, add, length, if◌then◌else◌,
}
use puffinfloww.DependencyGraph.{names}
use puffinfloww.Dag.{Dag, get_predecessors, get_successors}

-- The queue after the turns of the loop that find nothing new.
unfoldable pub skip_found : List Name → List Name → List Name
skip_found found [] = []
skip_found found (node ∷ queue) =
    let rest = skip_found found queue in if contains node found then rest else node ∷ queue

-- The loop `while queue`; `none` if the fuel runs out.
unfoldable pub collect : (Name → List Name) → ℕ → List Name → List Name → Option (List Name)
unfolding skip_found
collect next zero queue found = elim (skip_found found queue) [
  | [] ↦ some found
  | node ∷ rest ↦ none
]
collect next (suc fuel) queue found = elim (skip_found found queue) [
  | [] ↦ some found
  | node ∷ rest ↦ collect next fuel (rest ++ next node) (add node found)
]

module _ {ℓ} {T : Type ℓ} where
  -- Every name found is one of the adjacency dictionary, so their number is enough fuel.
  unfoldable pub get_ancestors : Dag T → Name → Option (List Name)
  unfolding collect get_predecessors
  get_ancestors d node =
      collect (get_predecessors d) (length (names d.reverse_adjacency)) (get_predecessors d node) []

  unfoldable pub get_descendants : Dag T → Name → Option (List Name)
  unfolding collect get_successors
  get_descendants d node =
      collect (get_successors d) (length (names d.adjacency)) (get_successors d node) []
