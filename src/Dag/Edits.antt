-- ===== src/Dag/Edits.antt =====
-- core/dag/graph.py: `add_node` and `add_edge`, and what they keep.
use puffinfloww.Base.{
  ◌≡◌, refl, inl, inr, true, ◌&&◌, Option, none, some, List, [], ◌∷◌, Name, arith, ◌==◌, contains,
  get, put, has, get-put, Bool-cases, ==→eq,
}
use puffinfloww.DependencyGraph.Edits.{at-add_to}
use puffinfloww.Dag.{Edge, Dag, create, add_node, add_edge, get_predecessors, get_successors}

pub data Call {ℓ} (T : Type ℓ) : Type ℓ where
  adds_node : Name → T → Call T
  adds_edge : Edge → Call T

-- Edges join known nodes, and the predecessors are the successors read backwards.
pub record Wired {ℓ} {T : Type ℓ} (d : Dag T) : Type ℓ where
  pub known :
      (x y : Name)
      → contains y (get_successors d x) ≡ true
      → (has x d.nodes ≡ true) × (has y d.nodes ≡ true)
  pub mirrored : (x y : Name) → contains y (get_successors d x) ≡ contains x (get_predecessors d y)

module _ {ℓ} {T : Type ℓ} where
  -- A call that raises leaves the graph.
  abbrev or_same : Dag T → Option (Dag T) → Dag T
  or_same d none = d
  or_same d (some d') = d'

  unfoldable pub step : Dag T → Call T → Dag T
  step d (adds_node id data_) = or_same d (add_node d id data_)
  step d (adds_edge e) = or_same d (add_edge d e)

  unfoldable pub run : Dag T → List (Call T) → Dag T
  run d [] = d
  run d (c ∷ cs) = run (step d c) cs

  has-put : (j k : Name) (v : T) (d : List (Name × T)) → has j d ≡ true → has j (put k v d) ≡ true
  has-put j k v d h = ground (arith, get-put j k v d)

  add_node-Wired : (d : Dag T) (id : Name) (x : T) → Wired d → Wired (or_same d (add_node d id x))
  unfolding add_node get_successors get_predecessors
  add_node-Wired d id x w = elim (Bool-cases (has id d.nodes)) [
    | inl old ↦ rw old w
    | inr new ↦ rw new (record {
      known = λ a b m.
          let k = w.known a b m in (has-put a id x d.nodes k.0, has-put b id x d.nodes k.1);
      mirrored = w.mirrored;
    })
  ]

  add_edge-Wired : (d : Dag T) (e : Edge) → Wired d → Wired (or_same d (add_edge d e))
  unfolding add_edge get_successors get_predecessors
  add_edge-Wired d e w = elim (Bool-cases (has e.source d.nodes)) [
    | inr missing ↦ rw missing w
    | inl source ↦ elim (Bool-cases (has e.target d.nodes)) [
      | inr missing ↦ rw (source, missing) w
      | inl target ↦
          rw (source, target)
            (record {
              known = λ a b m. elim (Bool-cases ((a == e.source) && (b == e.target))) [
                | inl new ↦ ground (arith, source, target, new, ==→eq a e.source, ==→eq b e.target)
                | inr old ↦
                    w.known a b
                      (ground (arith, at-add_to d.adjacency e.source e.target a b, m, old))
              ];
              mirrored = λ a b. ground (
                arith,
                at-add_to d.adjacency e.source e.target a b,
                at-add_to d.reverse_adjacency e.target e.source b a,
                w.mirrored a b,
              );
            })
    ]
  ]

  step-Wired : (d : Dag T) (c : Call T) → Wired d → Wired (step d c)
  unfolding step
  step-Wired d (adds_node id x) w = add_node-Wired d id x w
  step-Wired d (adds_edge e) w = add_edge-Wired d e w

  run-Wired : (d : Dag T) (cs : List (Call T)) → Wired d → Wired (run d cs)
  unfolding run
  run-Wired d [] w = w
  run-Wired d (c ∷ cs) w = run-Wired (step d c) cs (step-Wired d c w)

  -- After any history of added nodes and edges, refused ones included, on an empty graph, every
  -- edge joins two nodes of the graph, and a node is a successor of another exactly when that is a
  -- predecessor of it.
  pub run-create-Wired : (cs : List (Call T)) → Wired (run create cs)
  unfolding create get_successors get_predecessors contains get
  run-create-Wired cs = run-Wired create cs (record { known = λ x y m. cc; mirrored = λ x y. refl })
