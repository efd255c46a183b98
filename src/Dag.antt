-- ===== src/Dag.antt =====
-- core/dag/graph.py: `DAG`, its nodes and edges and the two searches for a cycle. The `ValueError`
-- of an edit is `none`. The cached networkx graph and the metadata of nodes are left out; the metadata of
-- an edge is only compared, so a number stands for it.
pub mod Search
pub mod Edits
pub mod Cycles
pub mod Serialized
pub mod Replay
pub mod Traversal
pub mod Reach
pub mod Components
pub mod Linked
pub mod Coloured
pub mod Partition
pub mod Connected
pub mod Sort
pub mod Degrees
pub mod Kahn
pub mod Complete
pub mod Order
pub mod Levels
pub mod Samples
use puffinfloww.Base.{
  ℕ, zero, suc, ◌+◌, Bool, true, false, ◌&&◌, Option, none, some, List, [], ◌∷◌, ◌++◌, Name, Dict,
  ◌==◌, if◌then◌else◌, length, contains, add, discard, get_or, put, has, keys,
}
use puffinfloww.Digraph.{from_first, drop_last}
use puffinfloww.DependencyGraph.{add_to, names}

pub record Edge : Type 0 where
  pub source : Name
  pub target : Name
  pub metadata : ℕ
  pub condition : Option Name

abbrev pub same_condition : Option Name → Option Name → Bool
same_condition none none = true
same_condition (some a) (some b) = a == b
same_condition _ _ = false

-- The equality of the dataclass, which the set of edges uses.
abbrev pub same_edge : Edge → Edge → Bool
same_edge e f =
    (e.source == f.source)
    && ((e.target == f.target)
        && ((e.metadata == f.metadata) && same_condition e.condition f.condition))

-- `self._edges.add(edge)`
unfoldable pub add_to_edges : Edge → List Edge → List Edge
add_to_edges e [] = e ∷ []
add_to_edges e (f ∷ es) = if same_edge e f then f ∷ es else f ∷ add_to_edges e es

pub record Dag {ℓ} (T : Type ℓ) : Type ℓ where
  pub nodes : Dict T
  pub edges : List Edge
  pub adjacency : Dict (List Name)
  pub reverse_adjacency : Dict (List Name)
  pub is_validated : Bool

-- What the nested functions `dfs` share.
pub record State : Type 0 where
  pub visited : List Name
  pub rec_stack : List Name
  pub path : List Name

-- The end of a call of `dfs` in `_find_cycle`: out of fuel, a cycle, or None. A cycle ends with its
-- first node and so is never falsy.
pub data Visit : Type 0 where
  exhausted : Visit
  cycle : List Name → Visit
  clear : State → Visit

abbrev pub enter : State → Name → State
enter st node = record {
  visited = add node st.visited;
  rec_stack = add node st.rec_stack;
  path = st.path ++ node ∷ [];
}

abbrev pub leave : State → Name → State
leave st node = record st { rec_stack = discard node st.rec_stack; path = drop_last st.path }

-- The loop over the neighbors, where `dfs` is the recursive call.
unfoldable pub scan : (Name → State → Visit) → List Name → State → Visit
scan dfs [] st = clear st
scan dfs (neighbor ∷ ns) st =
    let next = scan dfs ns st in
    if contains neighbor st.visited
    then (if contains neighbor st.rec_stack
        then cycle (from_first neighbor st.path ++ neighbor ∷ [])
        else next)
    else elim (dfs neighbor st) [
      | exhausted ↦ exhausted
      | cycle c ↦ cycle c
      | clear st' ↦ scan dfs ns st'
    ]

unfoldable pub dfs : (Name → List Name) → ℕ → Name → State → Visit
unfolding scan
dfs next zero node st = exhausted
dfs next (suc fuel) node st = elim (scan (dfs next fuel) (next node) (enter st node)) [
  | exhausted ↦ exhausted
  | cycle c ↦ cycle c
  | clear st' ↦ clear (leave st' node)
]

-- The loop over the nodes, up to the first cycle; `none` if the fuel runs out.
unfoldable pub search : (Name → List Name) → ℕ → List Name → State → Option (List Name)
search next fuel [] st = some []
search next fuel (node ∷ ns) st =
    let rest = search next fuel ns st in
    if contains node st.visited then rest else elim (dfs next fuel node st) [
      | exhausted ↦ none
      | cycle c ↦ some c
      | clear st' ↦ search next fuel ns st'
    ]

-- The state of `dfs` in `has_cycle`, and its end.
pub record Marks : Type 0 where
  pub visited : List Name
  pub rec_stack : List Name

pub data Check : Type 0 where
  out_of_fuel : Check
  yes : Check
  no : Marks → Check

unfoldable pub check_scan : (Name → Marks → Check) → List Name → Marks → Check
check_scan dfs [] st = no st
check_scan dfs (neighbor ∷ ns) st =
    let next = check_scan dfs ns st in
    if contains neighbor st.visited
    then (if contains neighbor st.rec_stack then yes else next)
    else elim (dfs neighbor st) [
      | out_of_fuel ↦ out_of_fuel
      | yes ↦ yes
      | no st' ↦ check_scan dfs ns st'
    ]

unfoldable pub check_dfs : (Name → List Name) → ℕ → Name → Marks → Check
unfolding check_scan
check_dfs next zero node st = out_of_fuel
check_dfs next (suc fuel) node st =
    elim (check_scan (check_dfs next fuel) (next node)
      (record { visited = add node st.visited; rec_stack = add node st.rec_stack })) [
        | out_of_fuel ↦ out_of_fuel
        | yes ↦ yes
        | no st' ↦ no (record st' { rec_stack = discard node st'.rec_stack })
      ]

unfoldable pub check_all : (Name → List Name) → ℕ → List Name → Marks → Option Bool
check_all next fuel [] st = some false
check_all next fuel (node ∷ ns) st =
    let rest = check_all next fuel ns st in
    if contains node st.visited then rest else elim (check_dfs next fuel node st) [
      | out_of_fuel ↦ none
      | yes ↦ some true
      | no st' ↦ check_all next fuel ns st'
    ]

module _ {ℓ} {T : Type ℓ} where
  unfoldable pub create : Dag T
  create = record {
    nodes = [];
    edges = [];
    adjacency = [];
    reverse_adjacency = [];
    is_validated = false;
  }

  unfoldable pub add_node : Dag T → Name → T → Option (Dag T)
  add_node d id data_ =
      if has id d.nodes
      then none
      else some (record d { nodes = put id data_ d.nodes; is_validated = false })

  unfoldable pub add_edge : Dag T → Edge → Option (Dag T)
  unfolding add_to add_to_edges
  add_edge d e =
      if has e.source d.nodes
      then (if has e.target d.nodes
          then some (record d {
            edges = add_to_edges e d.edges;
            adjacency = add_to e.source e.target d.adjacency;
            reverse_adjacency = add_to e.target e.source d.reverse_adjacency;
            is_validated = false;
          })
          else none)
      else none

  unfoldable pub get_predecessors : Dag T → Name → List Name
  get_predecessors d id = get_or id d.reverse_adjacency []

  unfoldable pub get_successors : Dag T → Name → List Name
  get_successors d id = get_or id d.adjacency []

  -- Every name that the searches can meet; their number is the fuel.
  abbrev pub universe : Dag T → List Name
  universe d = keys d.nodes ++ names d.adjacency

  unfoldable pub find_cycle : Dag T → Option (List Name)
  unfolding search get_successors
  find_cycle d =
      search (get_successors d) (length (universe d)) (keys d.nodes)
        (record { visited = []; rec_stack = []; path = [] })

  unfoldable pub has_cycle : Dag T → Option Bool
  unfolding check_all get_successors
  has_cycle d =
      check_all (get_successors d) (length (universe d)) (keys d.nodes)
        (record { visited = []; rec_stack = [] })
