-- ===== src/Dag/Samples.antt =====
-- core/dag/graph.py: small graphs.
use puffinfloww.Base.{
  refl, discard, filter, contains, add, get, put, keys, ◌↔◌, ℕ, ◌≡◌, ◌⊎◌, true, false, none, some,
  List, [], ◌∷◌, Name,
}
use puffinfloww.Digraph.{IsCycle, IsAcyclic, Walk}
use puffinfloww.Dag.{
  Edge, Dag, create, add_node, add_edge, add_to_edges, get_successors, has_cycle, find_cycle,
}
use puffinfloww.Dag.Edits.{Call, step, adds_node, adds_edge, run, Wired, run-create-Wired}
use puffinfloww.Dag.Serialized.{to_dict, from_dict}
use puffinfloww.Dag.Replay.{from_dict-to_dict}
use puffinfloww.Dag.Traversal.{get_ancestors, get_descendants, collect, skip_found}
use puffinfloww.Dag.Reach.{descendants_ancestors}
use puffinfloww.DependencyGraph.{add_to, names}
use puffinfloww.Dag.Components.{
  validate, valid, get_connected_components, components_from, colour, colour_all,
}
use puffinfloww.Dag.Sort.{
  topological_sort, sorted, kahn, sort_loop, lower, in_degrees, count_successors,
}
use puffinfloww.Dag.Order.{Orders, topological_sort-Orders}
use puffinfloww.Dag.{check_all, check_dfs, check_scan, get_predecessors}
use puffinfloww.Dag.Levels.{get_levels, levelled, concat, get_levels-topological_sort}
use puffinfloww.Base.{keys, ◌<◌, ◌≤◌, length}
use puffinfloww.Dag.Components.{cycle_detected, disconnected}
use puffinfloww.Dag.Partition.{IsComponents}
use puffinfloww.Dag.Connected.{validate_decides}
use puffinfloww.Dag.Cycles.{has_cycle-find_cycle}

abbrev edge : Name → Name → Edge
edge a b = record { source = a; target = b; metadata = 0; condition = none }

-- The second edge is refused, since there is no node 9.
abbrev calls : List (Call ℕ)
calls =
    adds_node 1 100
    ∷ adds_node 2 200
    ∷ adds_edge (edge 1 9)
    ∷ adds_edge (edge 1 2)
    ∷ adds_edge (edge 2 1)
    ∷ []

abbrev ring : Dag ℕ
ring = run create calls

run-create-Wired_example : Wired (run {T = ℕ} create calls)
run-create-Wired_example = run-create-Wired calls

has_cycle-find_cycle_example :
    ((has_cycle ring ≡ some false) × (find_cycle ring ≡ some []) × IsAcyclic (get_successors ring))
    ⊎ ((has_cycle ring ≡ some true)
        × ((c : List Name) × (find_cycle ring ≡ some c) × IsCycle (get_successors ring) c))
has_cycle-find_cycle_example = has_cycle-find_cycle ring (run-create-Wired calls)

abbrev lines : List (Call ℕ)
lines =
    adds_node 1 100
    ∷ adds_node 2 200
    ∷ adds_node 3 300
    ∷ adds_edge (edge 1 2)
    ∷ adds_edge (edge 2 3)
    ∷ adds_edge (edge 2 3)
    ∷ []

from_dict-to_dict_example :
    from_dict (to_dict (run {T = ℕ} create lines))
    ≡ some (record (run {T = ℕ} create lines) { is_validated = false })
from_dict-to_dict_example = from_dict-to_dict lines

descendants_ancestors_example :
    (below above : List Name) × (get_descendants ring 1 ≡ some below)
    × (get_ancestors ring 1 ≡ some above)
    × ((y : Name) → (contains y below ≡ true) ↔ Walk (get_successors ring) 1 y)
    × ((y : Name) → (contains y above ≡ true) ↔ Walk (get_successors ring) y 1)
descendants_ancestors_example = descendants_ancestors ring (run-create-Wired calls) 1

program : Unit {0}
unfolding run create get_descendants get_successors collect skip_found contains add names get put
    keys
program = tt

descendants_of_first : get_descendants (run {T = ℕ} create lines) 1 ≡ some (2 ∷ 3 ∷ [])
unfolding program step add_node add_edge add_to add_to_edges
descendants_of_first = refl

abbrev line : Dag ℕ
line = run create lines

line_valid : validate line ≡ valid (record line { is_validated = true })
unfolding program step add_node add_edge add_to add_to_edges validate get_connected_components
    components_from colour colour_all has_cycle check_all check_dfs check_scan get_predecessors
    discard
line_valid = refl

topological_sort-Orders_example :
    (order : List Name) × (topological_sort line
      ≡ sorted (record line { is_validated = true }) order)
    × Orders line order
topological_sort-Orders_example =
    topological_sort-Orders lines (record line { is_validated = true }) line_valid

line_sorted : kahn line ≡ some (1 ∷ 2 ∷ 3 ∷ [])
unfolding program step add_node add_edge add_to add_to_edges kahn sort_loop lower in_degrees
    count_successors filter
line_sorted = refl

get_levels-topological_sort_example :
    (order : List Name) × (levels : List (List Name)) × (topological_sort line
      ≡ sorted (record line { is_validated = true }) order)
    × (get_levels line ≡ levelled (record line { is_validated = true }) levels)
    × (concat levels ≡ order)
get_levels-topological_sort_example =
    get_levels-topological_sort lines (record line { is_validated = true }) line_valid

validate_decides_example :
    ((c : List Name) × (validate ring ≡ cycle_detected c) × IsCycle (get_successors ring) c)
    ⊎ (IsAcyclic (get_successors ring)
        × ((parts : List (List Name)) × (get_connected_components ring ≡ some parts)
            × IsComponents (get_successors ring) (keys ring.nodes) parts
            × (((1 < length parts) × (validate ring ≡ disconnected (length parts)))
                ⊎ ((length parts ≤ 1)
                    × (validate ring ≡ valid (record ring { is_validated = true }))))))
validate_decides_example = validate_decides calls
