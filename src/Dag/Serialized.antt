-- ===== src/Dag/Serialized.antt =====
-- core/dag/graph.py: `to_dict`, and `from_dict` without a node factory. The name and the metadata of nodes
-- are handed through unread and left out.
use puffinfloww.Base.{Option, none, some, List, [], ◌∷◌, Dict}
use puffinfloww.Dag.{Edge, Dag, create, add_node, add_edge}

pub record Serialized {ℓ} (T : Type ℓ) : Type ℓ where
  pub node_data : Dict T
  pub edge_data : List Edge

module _ {ℓ} {T : Type ℓ} where
  unfoldable pub to_dict : Dag T → Serialized T
  to_dict d = record { node_data = d.nodes; edge_data = d.edges }

  unfoldable pub add_nodes : Dag T → Dict T → Option (Dag T)
  unfolding add_node
  add_nodes d [] = some d
  add_nodes d ((id, x) ∷ rest) = elim (add_node d id x) [
    | none ↦ none
    | some d' ↦ add_nodes d' rest
  ]

  unfoldable pub add_edges : Dag T → List Edge → Option (Dag T)
  unfolding add_edge
  add_edges d [] = some d
  add_edges d (e ∷ es) = elim (add_edge d e) [ none ↦ none | some d' ↦ add_edges d' es ]

  -- `none` is the ValueError of a node or an edge that cannot be added.
  unfoldable pub from_dict : Serialized T → Option (Dag T)
  unfolding add_nodes add_edges create
  from_dict data_ = elim (add_nodes create data_.node_data) [
    | none ↦ none
    | some d ↦ add_edges d data_.edge_data
  ]
