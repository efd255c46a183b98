-- ===== src/Dag/Cycles.antt =====
-- core/dag/graph.py: what `has_cycle` and `_find_cycle` promise.
use puffinfloww.Base.{
  ◌≡◌, refl, ap, ◌∙◌, ◌⊎◌, inl, inr, true, false, some, List, [], Name, arith, length, keys, has,
  contains-keys, unseen-le_length, not, is_empty,
}
use puffinfloww.Digraph.{Walk, one, more, IsCycle, IsAcyclic, Subset, finished_acyclic}
use puffinfloww.DependencyGraph
use puffinfloww.DependencyGraph.{names, blank}
use puffinfloww.DependencyGraph.Cycles.{
  contains-append, neighbors-Subset, blank-Inv, search-Outcome,
}
use puffinfloww.DependencyGraph.Terminates.{search_returns}
use puffinfloww.Dag.{Dag, get_successors, universe, find_cycle, has_cycle}
use puffinfloww.Dag.Edits.{Wired}
use puffinfloww.Dag.Search.{search_first, head_or_nil}

module _ {ℓ} {T : Type ℓ} where
  successors-Subset : (d : Dag T) (x : Name) → Subset (get_successors d x) (universe d)
  unfolding get_successors DependencyGraph.neighbors
  successors-Subset d x y m =
      let inside = neighbors-Subset (record { nodes = d.adjacency; reverse_edges = [] }) x y m in
      ground (arith, contains-append y (keys d.nodes) (names d.adjacency), inside)

  nodes-Subset : (d : Dag T) → Subset (keys d.nodes) (universe d)
  nodes-Subset d y m = ground (arith, contains-append y (keys d.nodes) (names d.adjacency), m)

  walk_from_node :
      (d : Dag T) (x y : Name) → Wired d → Walk (get_successors d) x y → has x d.nodes ≡ true
  walk_from_node d x y w (one e) = (w.known x y e).0
  walk_from_node d x y w (more {y = z} v e) = walk_from_node d x z w v

  -- In a graph whose edges join known nodes both searches for a cycle return with the fuel given,
  -- and they agree: `has_cycle` says yes and `_find_cycle` returns a cycle of the graph, or
  -- `has_cycle` says no, `_find_cycle` returns the empty list, and no node lies on a cycle.
  pub has_cycle-find_cycle :
      (d : Dag T)
      → Wired d
      → ((has_cycle d ≡ some false) × (find_cycle d ≡ some []) × IsAcyclic (get_successors d))
        ⊎ ((has_cycle d ≡ some true)
            × ((c : List Name) × (find_cycle d ≡ some c) × IsCycle (get_successors d) c))
  unfolding has_cycle find_cycle
  has_cycle-find_cycle d w =
      let next = get_successors d in
      let fuel = length (universe d) in
      let (st, e) =
        search_returns next (universe d) (successors-Subset d) fuel (keys d.nodes) blank
          (nodes-Subset d) (unseen-le_length (universe d) []) in
      let (finds, checks) =
        search_first next fuel (keys d.nodes) blank st [] (blank-Inv next) refl refl e in
      elim (search-Outcome next fuel (keys d.nodes) blank st [] (blank-Inv next) refl refl e) [
        | inl (quiet, (f, fin, _, all)) ↦ inl (
          checks ∙ ap (λ cs. some (not (is_empty cs))) quiet,
          finds ∙ ap (λ cs. some (head_or_nil cs)) quiet,
          λ x v.
              finished_acyclic next f x fin
                (all x (contains-keys x d.nodes ∙ walk_from_node d x x w v)) v,
        )
        | inr (c, rest, listed, real) ↦ inr (
          checks ∙ ap (λ cs. some (not (is_empty cs))) listed,
          (c, finds ∙ ap (λ cs. some (head_or_nil cs)) listed, real),
        )
      ]
