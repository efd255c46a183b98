-- ===== src/Dag/Components.antt =====
-- core/dag/graph.py: the connected components and `validate`.
use puffinfloww.Base.{
  ℕ, zero, suc, Bool, true, false, Option, none, some, List, [], ◌∷◌, ◌++◌, Name, contains, add,
  ltb, length, if◌then◌else◌, keys,
}
use puffinfloww.DependencyGraph.{names}
use puffinfloww.Dag.{Dag, get_predecessors, get_successors, has_cycle, find_cycle}

-- What the nested function `dfs` changes.
pub record Colouring : Type 0 where
  pub visited : List Name
  pub component : List Name

-- A loop over the neighbors, where `dfs` is the recursive call; `none` if the fuel runs out.
unfoldable pub colour_all :
    (Name → Colouring → Option Colouring) → List Name → Colouring → Option Colouring
colour_all dfs [] c = some c
colour_all dfs (neighbor ∷ ns) c =
    let next = colour_all dfs ns c in
    if contains neighbor c.visited
    then next
    else elim (dfs neighbor c) [ none ↦ none | some c' ↦ colour_all dfs ns c' ]

unfoldable pub colour :
    (Name → List Name) → (Name → List Name) → ℕ → Name → Colouring → Option Colouring
unfolding colour_all
colour succ pred zero node c = none
colour succ pred (suc fuel) node c =
    elim (colour_all (colour succ pred fuel) (succ node)
      (record { visited = add node c.visited; component = add node c.component })) [
        | none ↦ none
        | some c' ↦ colour_all (colour succ pred fuel) (pred node) c'
      ]

unfoldable pub components_from :
    (Name → Colouring → Option Colouring)
    → List Name
    → List Name
    → List (List Name)
    → Option (List (List Name))
components_from dfs [] visited found = some found
components_from dfs (node ∷ ns) visited found =
    let next = components_from dfs ns visited found in
    if contains node visited
    then next
    else elim (dfs node (record { visited = visited; component = [] })) [
      | none ↦ none
      | some c ↦ components_from dfs ns c.visited (found ++ c.component ∷ [])
    ]

-- The ends of `validate`; the names in the message of a cycle, and the number of components.
pub data Validation {ℓ} (T : Type ℓ) : Type ℓ where
  valid : Dag T → Validation T
  cycle_detected : List Name → Validation T
  disconnected : ℕ → Validation T
  undecided : Validation T

module _ {ℓ} {T : Type ℓ} where
  unfoldable pub get_connected_components : Dag T → Option (List (List Name))
  unfolding components_from colour get_successors get_predecessors
  get_connected_components d =
      components_from
        (colour (get_successors d) (get_predecessors d)
          (length (keys d.nodes ++ names d.adjacency ++ names d.reverse_adjacency)))
        (keys d.nodes) [] []

  unfoldable pub is_disconnected : Dag T → Option Bool
  unfolding get_connected_components
  is_disconnected d = elim (get_connected_components d) [
    | none ↦ none
    | some components ↦ some (ltb 1 (length components))
  ]

  unfoldable pub validate : Dag T → Validation T
  unfolding has_cycle find_cycle is_disconnected get_connected_components
  validate d = elim (has_cycle d) [
    | none ↦ undecided
    | some true ↦ elim (find_cycle d) [ none ↦ undecided | some c ↦ cycle_detected c ]
    | some false ↦ elim (get_connected_components d) [
      | none ↦ undecided
      | some components ↦
          if ltb 1 (length components)
          then disconnected (length components)
          else valid (record d { is_validated = true })
    ]
  ]
