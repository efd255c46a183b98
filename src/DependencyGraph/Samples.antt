-- ===== src/DependencyGraph/Samples.antt =====
-- core/coordination/deadlock.py: small dependency graphs.
use puffinfloww.Base.{
  ◌≡◌, refl, ◌⊎◌, true, false, some, List, [], ◌∷◌, Name, is_empty, All, contains, add, discard,
  get, put, keys,
}
use puffinfloww.Digraph.{IsAcyclic, IsCycle, from_first, drop_last}
use puffinfloww.DependencyGraph.{
  Graph, empty, add_dependency, neighbors, find_cycles, CycleDetectionResult, add_to, names, search,
  scan, dfs, result_of, get_shortest_cycle, shortest,
}
use puffinfloww.DependencyGraph.Edits.{
  edge, Mirrored, empty-Mirrored, add_dependency_edges, Edit, adds, removes, deletes, edit_all,
  edges_after, edit_all_refines,
}
use puffinfloww.DependencyGraph.Cycles.{find_cycles_decides}

abbrev chain : Graph
chain = add_dependency (add_dependency empty 1 2) 2 3

abbrev ring : Graph
ring = add_dependency chain 3 1

-- 4 depends on a node of the ring, and 2 depends on 5.
abbrev tangled : Graph
tangled = add_dependency (add_dependency ring 4 2) 2 5

chain-Mirrored : Mirrored chain
chain-Mirrored =
    (add_dependency_edges (add_dependency empty 1 2) 2 3
      (add_dependency_edges empty 1 2 empty-Mirrored).1).1

abbrev edits : List Edit
edits = adds 3 1 ∷ removes 1 2 ∷ deletes 3 ∷ adds 2 1 ∷ []

edit_all_refines_example :
    ((x y : Name) → edge (edit_all chain edits) x y ≡ edges_after (edge chain) edits x y)
    × Mirrored (edit_all chain edits)
edit_all_refines_example = edit_all_refines chain edits chain-Mirrored

find_cycles_decides_example :
    (r : CycleDetectionResult) × (find_cycles ring ≡ some r)
    × All (λ c. is_empty c ≡ false) r.cycles
    × (((r.has_cycle ≡ false) × (r.cycles ≡ []) × IsAcyclic (neighbors ring))
        ⊎ ((r.has_cycle ≡ true)
            × ((c : List Name) × (rest : List (List Name)) × (r.cycles ≡ c ∷ rest)
                × IsCycle (neighbors ring) c)))
find_cycles_decides_example = find_cycles_decides ring

program : Unit {0}
unfolding add_dependency add_to add get put keys find_cycles names search scan dfs neighbors
    result_of contains discard drop_last from_first get_shortest_cycle shortest
program = tt

find_cycles-ring :
    find_cycles ring
    ≡ some (record { has_cycle = true; cycles = (1 ∷ 2 ∷ 3 ∷ 1 ∷ []) ∷ []; graph_size = 3 })
unfolding program
find_cycles-ring = refl

find_cycles-chain :
    find_cycles chain ≡ some (record { has_cycle = false; cycles = []; graph_size = 2 })
unfolding program
find_cycles-chain = refl

-- The search that follows a found cycle finds a stale stack: the second list is no cycle.
find_cycles-tangled :
    find_cycles tangled
    ≡ some (record {
      has_cycle = true;
      cycles = (1 ∷ 2 ∷ 3 ∷ 1 ∷ []) ∷ (2 ∷ 3 ∷ 4 ∷ 2 ∷ []) ∷ [];
      graph_size = 4;
    })
unfolding program
find_cycles-tangled = refl
