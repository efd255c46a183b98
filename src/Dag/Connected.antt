-- ===== src/Dag/Connected.antt =====
-- core/dag/graph.py: `get_connected_components` ends, and what `validate` decides.
use puffinfloww.Base.{
  ◌≤◌, ◌<◌, ◌≡◌, refl, inl, inr, ◌⊎◌, Bool-cases, true, some, List, [], ◌++◌, Name, arith, contains,
  length, keys, ltb,
}
use puffinfloww.Digraph.{Subset, IsCycle, IsAcyclic}
use puffinfloww.DependencyGraph.{names}
use puffinfloww.DependencyGraph.Cycles.{contains-append}
use puffinfloww.Dag.{Dag, create, get_successors, get_predecessors}
use puffinfloww.Dag.Edits.{Call, Wired, run, run-create-Wired}
use puffinfloww.Dag.Cycles.{has_cycle-find_cycle}
use puffinfloww.Dag.Reach.{contains-names_of_default}
use puffinfloww.Dag.Components.{
  get_connected_components, valid, cycle_detected, disconnected, validate,
}
use puffinfloww.Dag.Partition.{IsComponents, components_lem}

module _ {ℓ} {T : Type ℓ} where
  pub get_connected_components-IsComponents :
      (d : Dag T)
      → Wired d
      → (parts : List (List Name)) × (get_connected_components d ≡ some parts)
        × IsComponents (get_successors d) (keys d.nodes) parts
  unfolding get_connected_components get_successors get_predecessors contains
  get_connected_components-IsComponents d wired =
      let both = λ (y : Name).
        contains-append y (keys d.nodes ++ names d.adjacency) (names d.reverse_adjacency) in
      let first = λ (y : Name). contains-append y (keys d.nodes) (names d.adjacency) in
      let (parts, ends, a) =
        components_lem (get_successors d) (get_predecessors d)
          (keys d.nodes ++ names d.adjacency ++ names d.reverse_adjacency)
          (λ x y m. ground (arith, both y, first y, contains-names_of_default d.adjacency x y m))
          (λ x y m.
            ground (arith, both y, first y, contains-names_of_default d.reverse_adjacency x y m))
          wired.mirrored (keys d.nodes) (keys d.nodes) [] []
          (λ y m. ground (arith, both y, first y, m)) (λ y m. m) nothing_visited in
      (parts, ends, record { each = a.each; apart = a.apart; covers = a.covers })
    where
      nothing_visited :
          (y : Name)
          → contains y [] ≡ true
          → Subset (get_successors d y) [] × Subset (get_predecessors d y) []
      nothing_visited y m = cc

  -- For a graph that was made by any history of added nodes and edges, refused ones included,
  -- `validate` ends: it raises with a cycle of the graph, or there is no cycle and it raises with the
  -- number of connected components, which is above one, or it accepts the graph, which is acyclic and
  -- has at most one. The components are sets that share no name and cover all the nodes, and each
  -- holds just the names that edges, whichever way they point, link to a node of it.
  pub validate_decides :
      (cs : List (Call T))
      → let d = run create cs in
        ((c : List Name) × (validate d ≡ cycle_detected c) × IsCycle (get_successors d) c)
        ⊎ (IsAcyclic (get_successors d)
            × ((parts : List (List Name)) × (get_connected_components d ≡ some parts)
                × IsComponents (get_successors d) (keys d.nodes) parts
                × (((1 < length parts) × (validate d ≡ disconnected (length parts)))
                    ⊎ ((length parts ≤ 1)
                        × (validate d ≡ valid (record d { is_validated = true }))))))
  unfolding validate
  validate_decides cs =
      let d = run create cs in
      elim (has_cycle-find_cycle d (run-create-Wired cs)) [
        | inr (cyclic, (c, found, is)) ↦ inl (c, rw (validate, cyclic, found) refl, is)
        | inl (no_cycle, found, acyclic) ↦
            let (parts, ended, are) =
              get_connected_components-IsComponents d (run-create-Wired cs) in
            inr (
              acyclic,
              (
                parts,
                ended,
                are,
                (elim (Bool-cases (ltb 1 (length parts))) [
                  | inl many ↦ inl (ground (arith, many), rw (validate, no_cycle, ended, many) refl)
                  | inr few ↦ inr (ground (arith, few), rw (validate, no_cycle, ended, few) refl)
                ]),
              ),
            )
      ]
