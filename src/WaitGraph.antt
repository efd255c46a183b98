-- ===== src/WaitGraph.antt =====
-- core/coordination/deadlock.py: `ResourceWaitGraph` and the parts of `DeadlockDetector` that use it.
-- The graph's asyncio lock is not reentrant: a method that awaits another locking method of the
-- same graph never returns and keeps the lock, which is the outcome `wedged`.
pub mod Holders
pub mod Handover
pub mod Detection
pub mod Detector
pub mod Samples
use puffinfloww.Base.{
  ℕ, suc, ◌+◌, Bool, true, false, ◌&&◌, ◌||◌, not, Option, none, some, List, [], ◌∷◌, ◌++◌, Name,
  Dict, ◌==◌, ltb, if◌then◌else◌, length, is_empty, contains, add, discard, get, get_or, put, pop,
  has,
}

pub record ResourceNode : Type 0 where
  pub resource_type : Name
  pub holders : List Name
  pub waiters : List Name
  pub acquired_at : Option ℕ

pub record ProcessNode : Type 0 where
  pub process_name : Name
  pub holding : List Name
  pub waiting_for : List Name
  pub started_at : ℕ
  pub blocked_at : Option ℕ

unfoldable pub is_free : ResourceNode → Bool
is_free r = is_empty r.holders

unfoldable pub is_blocked : ProcessNode → Bool
is_blocked p = not (is_empty p.waiting_for)

pub record Graph : Type 0 where
  pub resources : Dict ResourceNode
  pub processes : Dict ProcessNode

abbrev pub empty : Graph
empty = record { resources = []; processes = [] }

-- A call returns a value, or it wedges the graph's lock in the state that it has made.
pub data Outcome (A : Type 0) : Type 0 where
  done : Graph → A → Outcome A
  wedged : Graph → Outcome A

abbrev new_resource : Name → ResourceNode
new_resource kind = record { resource_type = kind; holders = []; waiters = []; acquired_at = none }

abbrev new_process : Name → ℕ → ProcessNode
new_process name now = record {
  process_name = name;
  holding = [];
  waiting_for = [];
  started_at = now;
  blocked_at = none;
}

unfoldable pub add_resource : Graph → Name → Name → Graph
add_resource g r kind =
    if has r g.resources then g else record g { resources = put r (new_resource kind) g.resources }

-- `process_name or process_id`: the name 0 stands for the empty string.
unfoldable pub add_process : Graph → Name → Name → ℕ → Graph
add_process g p name now = if has p g.processes then g else record g {
  processes = put p (new_process (if name == 0 then p else name) now) g.processes;
}

-- The two nodes of a call, which `acquire_resource` and `request_resource` look up after they made
-- sure, by calls that wedge, that both are there.
unfoldable pub lookup_nodes : Graph → Name → Name → Option (ResourceNode × ProcessNode)
lookup_nodes g r p = elim (get r g.resources) [
  | none ↦ none
  | some resource ↦ elim (get p g.processes) [
    | none ↦ none
    | some process ↦ some (resource, process)
  ]
]

unfoldable pub set_nodes : Graph → Name → ResourceNode → Name → ProcessNode → Graph
set_nodes g r resource p process = record {
  resources = put r resource g.resources;
  processes = put p process g.processes;
}

-- `if process.blocked_at is None: process.blocked_at = now`
unfoldable pub block : ProcessNode → Name → ℕ → ProcessNode
block process r now = record process {
  waiting_for = add r process.waiting_for;
  blocked_at = elim process.blocked_at [ none ↦ some now | some t ↦ some t ];
}

-- The process as it is once it holds `r`.
unfoldable pub hold : ProcessNode → Name → ProcessNode
hold process r =
    let waiting = discard r process.waiting_for in
    record process {
      holding = add r process.holding;
      waiting_for = waiting;
      blocked_at = if is_empty waiting then none else process.blocked_at;
    }

unfoldable pub acquire_resource : Graph → Name → Name → ℕ → Outcome Bool
unfolding lookup_nodes set_nodes hold block is_free
acquire_resource g p r now = elim (lookup_nodes g r p) [
  | none ↦ wedged g
  | some (resource, process) ↦
      if is_free resource || contains p resource.holders
      then done
          (set_nodes g r
            (record resource { holders = add p resource.holders; acquired_at = some now }) p
            (hold process r))
          true
      else done
          (set_nodes g r (record resource { waiters = add p resource.waiters }) p
            (block process r now))
          false
]

-- With a waiter left, `release_resource` removes it from the waiters and awaits
-- `acquire_resource` for it, with the lock taken.
unfoldable pub release_resource : Graph → Name → Name → Outcome (Unit {0})
unfolding lookup_nodes set_nodes is_free
release_resource g p r = elim (lookup_nodes g r p) [
  | none ↦ done g tt
  | some (resource, process) ↦
      let resource' = record resource { holders = discard p resource.holders } in
      let process' = record process { holding = discard r process.holding } in
      elim resource'.waiters [
        | [] ↦ done (set_nodes g r resource' p process') tt
        | next ∷ rest ↦
            if is_free resource'
            then wedged (set_nodes g r (record resource' { waiters = rest }) p process')
            else done (set_nodes g r resource' p process') tt
      ]
]

unfoldable pub request_resource : Graph → Name → Name → ℕ → Outcome (Unit {0})
unfolding lookup_nodes set_nodes block
request_resource g p r now = elim (lookup_nodes g r p) [
  | none ↦ wedged g
  | some (resource, process) ↦
      done
        (set_nodes g r (record resource { waiters = add p resource.waiters }) p
          (block process r now))
        tt
]

unfoldable pub get_resource_holders : Graph → Name → List Name
get_resource_holders g r = elim (get r g.resources) [ none ↦ [] | some n ↦ n.holders ]

unfoldable pub get_resource_waiters : Graph → Name → List Name
get_resource_waiters g r = elim (get r g.resources) [ none ↦ [] | some n ↦ n.waiters ]

unfoldable pub blocked_among : Dict ProcessNode → List ProcessNode
blocked_among [] = []
blocked_among ((k, p) ∷ ps) = if is_blocked p then p ∷ blocked_among ps else blocked_among ps

unfoldable pub get_blocked_processes : Graph → List ProcessNode
unfolding blocked_among
get_blocked_processes g = blocked_among g.processes

-- The tasks that use one graph: a call runs only while the lock is free.
pub record System : Type 0 where
  pub graph : Graph
  pub lock_stuck : Bool

pub data Call : Type 0 where
  adds_resource : (r kind : Name) → Call
  adds_process : (p name : Name) (now : ℕ) → Call
  acquires : (p r : Name) (now : ℕ) → Call
  releases : (p r : Name) → Call
  requests : (p r : Name) (now : ℕ) → Call

abbrev pub settle : {A : Type 0} → Outcome A → System
settle (done g a) = record { graph = g; lock_stuck = false }
settle (wedged g) = record { graph = g; lock_stuck = true }

unfoldable pub perform : Graph → Call → System
perform g (adds_resource r kind) = record { graph = add_resource g r kind; lock_stuck = false }
perform g (adds_process p name now) = record {
  graph = add_process g p name now;
  lock_stuck = false;
}
perform g (acquires p r now) = settle (acquire_resource g p r now)
perform g (releases p r) = settle (release_resource g p r)
perform g (requests p r now) = settle (request_resource g p r now)

unfoldable pub step : System → Call → System
step s c = if s.lock_stuck then s else perform s.graph c

unfoldable pub run : System → List Call → System
run s [] = s
run s (c ∷ cs) = run (step s c) cs
