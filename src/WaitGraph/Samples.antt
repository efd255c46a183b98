-- ===== src/WaitGraph/Samples.antt =====
-- core/coordination/deadlock.py: small wait graphs.
use puffinfloww.Base.{
  ℕ, ◌≡◌, refl, false, none, some, List, [], ◌∷◌, Name, contains, add, discard, get, put, pop,
}
use puffinfloww.Digraph.{Walk}
use puffinfloww.DependencyGraph
use puffinfloww.DependencyGraph.{neighbors}
use puffinfloww.WaitGraph.{
  ResourceNode, ProcessNode, Graph, empty, Call, adds_resource, adds_process, acquires, step, run,
  perform, acquire_resource, release_resource, request_resource, add_resource, add_process,
  lookup_nodes, set_nodes, hold, block, is_free, get_resource_holders, get_resource_waiters,
}
use puffinfloww.WaitGraph.Holders.{Consistent, run_exclusive}
use puffinfloww.WaitGraph.Detection.{detect_deadlock, run_tasks, detect_misses}
use puffinfloww.WaitGraph.Detector.{Detector}

program : Unit {0}
unfolding contains add discard get put pop step run perform acquire_resource release_resource
    request_resource add_resource add_process lookup_nodes set_nodes hold block is_free
    get_resource_holders get_resource_waiters
program = tt

-- Process 1 holds resource 10 and waits for 20, which process 2 holds; 2 waits for 10.
abbrev crossing : List Call
crossing =
    adds_resource 10 5
    ∷ adds_resource 20 5
    ∷ adds_process 1 0 0
    ∷ adds_process 2 0 0
    ∷ acquires 1 10 1
    ∷ acquires 2 20 2
    ∷ acquires 1 20 3
    ∷ acquires 2 10 4
    ∷ []

abbrev resource : List Name → List Name → ℕ → ResourceNode
resource holders waiters time = record {
  resource_type = 5;
  holders = holders;
  waiters = waiters;
  acquired_at = some time;
}

abbrev process : Name → Name → Name → ℕ → ProcessNode
process name held wanted time = record {
  process_name = name;
  holding = held ∷ [];
  waiting_for = wanted ∷ [];
  started_at = 0;
  blocked_at = some time;
}

abbrev crossed : Graph
crossed = record {
  resources = (10, resource (1 ∷ []) (2 ∷ []) 1) ∷ (20, resource (2 ∷ []) (1 ∷ []) 2) ∷ [];
  processes = (1, process 1 10 20 3) ∷ (2, process 2 20 10 4) ∷ [];
}

run-crossing :
    run (record { graph = empty; lock_stuck = false }) crossing
    ≡ record { graph = crossed; lock_stuck = false }
unfolding program
run-crossing = refl

run_exclusive_example :
    Consistent (run (record { graph = empty; lock_stuck = false }) crossing).graph
run_exclusive_example = run_exclusive crossing

detect_misses_example :
    Walk (neighbors (run_tasks (detect_deadlock crossed).1 DependencyGraph.empty)) 2 2
    × ((detect_deadlock crossed).0
        ≡ some (record { has_cycle = false; cycles = []; graph_size = 0 }))
unfolding program
detect_misses_example =
    detect_misses crossed 2 1 10 20 (resource (1 ∷ []) (2 ∷ []) 1) (resource (2 ∷ []) (1 ∷ []) 2)
      refl refl refl refl refl refl refl

abbrev watching : Detector
watching = record {
  dependency_graph =
      DependencyGraph.add_dependency (DependencyGraph.add_dependency DependencyGraph.empty 1 2) 2 1;
  resource_graph = crossed;
  cycle_count = 0;
  last_cycle = none;
  detection_history = [];
}
