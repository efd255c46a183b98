-- ===== src/WaitGraph/Detection.antt =====
-- core/coordination/deadlock.py: `detect_deadlock`.
-- `detect_deadlock` hands each edge to `asyncio.create_task`; the tasks can only run after it has
-- returned, so `find_cycles` runs on a graph without edges.
use puffinfloww.Base.{
  ◌≡◌, refl, Bool, true, false, ◌&&◌, Option, some, List, [], ◌∷◌, ◌++◌, Name, arith, ◌==◌,
  if◌then◌else◌, keys, contains, get,
}
use puffinfloww.WaitGraph.{ResourceNode, Graph}
use puffinfloww.Digraph.{Walk, one, more}
use puffinfloww.DependencyGraph
use puffinfloww.DependencyGraph.{
  CycleDetectionResult, find_cycles, get_shortest_cycle, add_dependency, neighbors,
}
use puffinfloww.DependencyGraph.Edits.{Mirrored, add_dependency_edges, empty-Mirrored, edge}

-- The edges from one waiter to the holders, and from all waiters.
unfoldable pub edges_from : Name → List Name → List (Name × Name)
edges_from waiter [] = []
edges_from waiter (holder ∷ hs) =
    if waiter == holder then edges_from waiter hs else (waiter, holder) ∷ edges_from waiter hs

unfoldable pub edges_at : List Name → List Name → List (Name × Name)
unfolding edges_from
edges_at [] holders = []
edges_at (waiter ∷ ws) holders = edges_from waiter holders ++ edges_at ws holders

-- The tasks that `detect_deadlock` creates, in order.
unfoldable pub tasks_of : List (Name × ResourceNode) → List (Name × Name)
unfolding edges_at
tasks_of [] = []
tasks_of ((r, node) ∷ rs) = edges_at node.waiters node.holders ++ tasks_of rs

-- What the tasks make of a wait graph once they run.
unfoldable pub run_tasks : List (Name × Name) → DependencyGraph.Graph → DependencyGraph.Graph
run_tasks [] g = g
run_tasks ((a, b) ∷ ts) g = run_tasks ts (add_dependency g a b)

-- The result, and the tasks that are left to run on a graph that nobody reads.
unfoldable pub detect_deadlock : Graph → Option CycleDetectionResult × List (Name × Name)
unfolding tasks_of
detect_deadlock g = (find_cycles DependencyGraph.empty, tasks_of g.resources)

mem : Name × Name → List (Name × Name) → Bool
mem e [] = false
mem e ((a, b) ∷ es) = if (e.0 == a) && (e.1 == b) then true else mem e es

mem-append :
    (e : Name × Name) (es fs : List (Name × Name))
    → mem e (es ++ fs) ≡ (if mem e es then true else mem e fs)
unfolding mem
mem-append e [] fs = refl
mem-append e ((a, b) ∷ es) fs = ground (arith, mem-append e es fs)

mem-edges_from :
    (w h : Name) (hs : List Name)
    → (w == h) ≡ false
    → contains h hs ≡ true
    → mem (w, h) (edges_from w hs) ≡ true
unfolding mem edges_from contains
mem-edges_from w h [] ne m = cc
mem-edges_from w h (x ∷ hs) ne m = ground (arith, mem-edges_from w h hs)

mem-edges_at :
    (w h : Name) (ws hs : List Name)
    → (w == h) ≡ false
    → contains w ws ≡ true
    → contains h hs ≡ true
    → mem (w, h) (edges_at ws hs) ≡ true
unfolding edges_at contains
mem-edges_at w h [] hs ne m n = cc
mem-edges_at w h (x ∷ ws) hs ne m n = ground (
  arith,
  mem-append (w, h) (edges_from x hs) (edges_at ws hs),
  mem-edges_from w h hs,
  mem-edges_at w h ws hs,
)

mem-tasks_of :
    (w h r : Name) (node : ResourceNode) (rs : List (Name × ResourceNode))
    → (w == h) ≡ false
    → get r rs ≡ some node
    → contains w node.waiters ≡ true
    → contains h node.holders ≡ true
    → mem (w, h) (tasks_of rs) ≡ true
unfolding tasks_of get
mem-tasks_of w h r node [] ne e m n = cc
mem-tasks_of w h r node ((k, x) ∷ rs) ne e m n = ground (
  arith,
  mem-append (w, h) (edges_at x.waiters x.holders) (tasks_of rs),
  mem-edges_at w h x.waiters x.holders ne,
  mem-tasks_of w h r node rs ne,
)

edge-run_tasks :
    (ts : List (Name × Name)) (g : DependencyGraph.Graph) (a b : Name)
    → Mirrored g
    → (if mem (a, b) ts then true else edge g a b) ≡ true
    → edge (run_tasks ts g) a b ≡ true
unfolding mem run_tasks
edge-run_tasks [] g a b m h = h
edge-run_tasks ((c, d) ∷ ts) g a b m h =
    let (added, kept) = add_dependency_edges g c d m in
    edge-run_tasks ts (add_dependency g c d) a b kept (ground (arith, added a b))

-- Two processes that each wait for a resource which the other holds: the edges that
-- `detect_deadlock` computes for them make a cycle, and yet its answer is that there is none, as it
-- is for every graph.
pub detect_misses :
    (g : Graph) (p q r s : Name) (res_r res_s : ResourceNode)
    → (p == q) ≡ false
    → get r g.resources ≡ some res_r
    → contains p res_r.waiters ≡ true
    → contains q res_r.holders ≡ true
    → get s g.resources ≡ some res_s
    → contains q res_s.waiters ≡ true
    → contains p res_s.holders ≡ true
    → Walk (neighbors (run_tasks (detect_deadlock g).1 DependencyGraph.empty)) p p
      × ((detect_deadlock g).0 ≡ some (record { has_cycle = false; cycles = []; graph_size = 0 }))
unfolding detect_deadlock neighbors find_cycles keys
detect_misses g p q r s res_r res_s ne er pw qh es qw ph = (
  more
      (one (
        edge-run_tasks (tasks_of g.resources) DependencyGraph.empty p q empty-Mirrored
          (ground (arith, mem-tasks_of p q r res_r g.resources ne er pw qh))))
      (edge-run_tasks (tasks_of g.resources) DependencyGraph.empty q p empty-Mirrored
        (ground (arith, mem-tasks_of q p s res_s g.resources (ground arith) es qw ph))),
  refl,
)
