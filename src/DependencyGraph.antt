-- ===== src/DependencyGraph.antt =====
-- core/coordination/deadlock.py: `DependencyGraph`, its edits and the search for cycles. The lock around each edit is held for the whole method, which never suspends
-- inside, so an edit is a function.
pub mod Edits
pub mod Search
pub mod Extends
pub mod Terminates
pub mod Cycles
pub mod Samples
use puffinfloww.Base.{
  ℕ, zero, suc, ◌+◌, ◌-◌, Bool, true, false, Option, none, some, List, [], ◌∷◌, ◌++◌, Name, Dict,
  ◌==◌, if◌then◌else◌, length, is_empty, contains, add, discard, get, get_or, put, pop, has, keys,
  ltb,
}
use puffinfloww.Digraph.{from_first, drop_last}

pub record Graph : Type 0 where
  pub nodes : Dict (List Name)
  pub reverse_edges : Dict (List Name)

abbrev pub empty : Graph
empty = record { nodes = []; reverse_edges = [] }

-- `if k not in d: d[k] = set()`, then `d[k].add(x)`
unfoldable pub add_to : Name → Name → Dict (List Name) → Dict (List Name)
add_to k x d = put k (add x (get_or k d [])) d

-- `d[k].discard(x)` and `del d[k]` if nothing is left, for a key `k`
unfoldable pub drop_from : Name → Name → Dict (List Name) → Dict (List Name)
drop_from k x d = elim (get k d) [
  | none ↦ d
  | some s ↦ if is_empty (discard x s) then pop k d else put k (discard x s) d
]

-- `if k in d: d[k].discard(x)`, as `remove_node` does it
unfoldable pub discard_from : Name → Name → Dict (List Name) → Dict (List Name)
discard_from k x d = elim (get k d) [ none ↦ d | some s ↦ put k (discard x s) d ]

unfoldable pub discard_from_all : List Name → Name → Dict (List Name) → Dict (List Name)
discard_from_all [] x d = d
discard_from_all (k ∷ ks) x d = discard_from_all ks x (discard_from k x d)

unfoldable pub add_dependency : Graph → Name → Name → Graph
unfolding add_to
add_dependency g node depends_on = record {
  nodes = add_to node depends_on g.nodes;
  reverse_edges = add_to depends_on node g.reverse_edges;
}

unfoldable pub remove_dependency : Graph → Name → Name → Graph
unfolding drop_from
remove_dependency g node depends_on = record {
  nodes = drop_from node depends_on g.nodes;
  reverse_edges = drop_from depends_on node g.reverse_edges;
}

unfoldable pub remove_outgoing : Graph → Name → Graph
unfolding discard_from_all
remove_outgoing g node = elim (get node g.nodes) [
  | none ↦ g
  | some deps ↦ record {
    nodes = pop node g.nodes;
    reverse_edges = discard_from_all deps node g.reverse_edges;
  }
]

unfoldable pub remove_incoming : Graph → Name → Graph
unfolding discard_from_all
remove_incoming g node = elim (get node g.reverse_edges) [
  | none ↦ g
  | some dependents ↦ record {
    nodes = discard_from_all dependents node g.nodes;
    reverse_edges = pop node g.reverse_edges;
  }
]

unfoldable pub remove_node : Graph → Name → Graph
unfolding remove_outgoing remove_incoming
remove_node g node = remove_incoming (remove_outgoing g node) node

-- `self.nodes.get(node, [])`
unfoldable pub neighbors : Graph → Name → List Name
neighbors g node = get_or node g.nodes []

-- The variables that the nested function `dfs` of `find_cycles` shares.
pub record State : Type 0 where
  pub cycles : List (List Name)
  pub visited : List Name
  pub rec_stack : List Name
  pub path : List Name

abbrev pub blank : State
blank = record { cycles = []; visited = []; rec_stack = []; path = [] }

abbrev pub enter : State → Name → State
enter st node = record st {
  visited = add node st.visited;
  rec_stack = add node st.rec_stack;
  path = st.path ++ node ∷ [];
}

abbrev pub leave : State → Name → State
leave st node = record st { rec_stack = discard node st.rec_stack; path = drop_last st.path }

abbrev pub report : State → Name → State
report st neighbor = record st {
  cycles = st.cycles ++ (from_first neighbor st.path ++ neighbor ∷ []) ∷ [];
}

-- The end of a call of `dfs`: out of fuel, or it returned True or False.
pub data Visit (S : Type 0) : Type 0 where
  exhausted : Visit S
  found : S → Visit S
  finished : S → Visit S

-- The loop over the neighbors, where `dfs` is the recursive call.
unfoldable pub scan : (Name → State → Visit State) → List Name → State → Visit State
scan dfs [] st = finished st
scan dfs (neighbor ∷ ns) st =
    if contains neighbor st.visited
    then (if contains neighbor st.rec_stack then found (report st neighbor) else scan dfs ns st)
    else elim (dfs neighbor st) [
      | exhausted ↦ exhausted
      | found st' ↦ found st'
      | finished st' ↦ scan dfs ns st'
    ]

unfoldable pub dfs : (Name → List Name) → ℕ → Name → State → Visit State
unfolding scan
dfs next zero node st = exhausted
dfs next (suc fuel) node st = elim (scan (dfs next fuel) (next node) (enter st node)) [
  | exhausted ↦ exhausted
  | found st' ↦ found st'
  | finished st' ↦ finished (leave st' node)
]

-- The loop over the nodes; `none` if the fuel runs out.
unfoldable pub search : (Name → List Name) → ℕ → List Name → State → Option State
search next fuel [] st = some st
search next fuel (node ∷ ns) st =
    if contains node st.visited then search next fuel ns st else elim (dfs next fuel node st) [
      | exhausted ↦ none
      | found st' ↦ search next fuel ns st'
      | finished st' ↦ search next fuel ns st'
    ]

-- Every name that stands in the dictionary, as a key or as a dependency. The search marks no other.
unfoldable pub names : Dict (List Name) → List Name
names [] = []
names ((k, s) ∷ d) = k ∷ s ++ names d

pub record CycleDetectionResult : Type 0 where
  pub has_cycle : Bool
  pub cycles : List (List Name)
  pub graph_size : ℕ

unfoldable pub result_of : Graph → State → CycleDetectionResult
result_of g st = record {
  has_cycle = ltb 0 (length st.cycles);
  cycles = st.cycles;
  graph_size = length g.nodes;
}

-- The fuel is the number of names, which is enough: `find_cycles_decides`.
unfoldable pub find_cycles : Graph → Option CycleDetectionResult
unfolding search names neighbors result_of
find_cycles g = elim (search (neighbors g) (length (names g.nodes)) (keys g.nodes) blank) [
  | none ↦ none
  | some st ↦ some (result_of g st)
]

-- `min(self.cycles, key=len)`: the first of the shortest.
unfoldable pub shortest : List Name → List (List Name) → List Name
shortest c [] = c
shortest c (d ∷ ds) = shortest (if ltb (length d) (length c) then d else c) ds

unfoldable pub get_shortest_cycle : CycleDetectionResult → Option (List Name)
unfolding shortest
get_shortest_cycle r = elim r.cycles [ [] ↦ none | c ∷ cs ↦ some (shortest c cs) ]
