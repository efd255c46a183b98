-- ===== src/Allocation.antt =====
-- core/resources/allocation.py: the allocators over the resource pool. Priorities and weights are
-- never negative; metadata and deadlines are carried along by the code and never read. `start` and
-- `now` are what the clock says at the begin and at the end of a call.
pub mod Acquiring
pub mod Fit
pub mod HeapQueue
pub mod PriorityQueue
pub mod FairShare
pub mod Factory
pub mod Orders
pub mod Batch
pub mod Contracts
pub mod Blocking
pub mod Serving
pub mod Precedence
pub mod Shares
pub mod Forgetful
pub mod Samples
use puffinfloww.Base.{
  ℕ, ◌+◌, ◌-◌, Bool, true, false, Option, none, some, List, [], ◌∷◌, ◌++◌, Name, leb, ltb,
  if◌then◌else◌, ◌==◌,
}
use puffinfloww.ResourcePool.{
  ResourceType, all_types, Requirements, required, Allocation, amount_of, allocation_for, Pool,
  Error, for_all, raises, granted, retries, waits, attempt, enlist, delist, timed_out,
}

pub record AllocationRequest : Type 0 where
  pub request_id : Name
  pub requester_id : Name
  pub requirements : Requirements
  pub priority : ℕ
  pub weight : ℕ
  pub timestamp : ℕ

pub data Reason : Type 0 where
  insufficient_resources queued_for_resources : Reason
  exceeds_fair_share : (current total requesters : ℕ) → Reason

pub record AllocationResult : Type 0 where
  pub result_id : Name
  pub success : Bool
  pub allocated : Allocation
  pub reason : Option Reason
  pub allocation_time : Option ℕ

unfoldable pub succeeded : AllocationRequest → (start now : ℕ) → AllocationResult
succeeded request start now = record {
  result_id = request.request_id;
  success = true;
  allocated = allocation_for request.requirements;
  reason = none;
  allocation_time = some (now - start);
}

unfoldable pub refused : AllocationRequest → Reason → (start now : ℕ) → AllocationResult
refused request why start now = record {
  result_id = request.request_id;
  success = false;
  allocated = λ t. none;
  reason = some why;
  allocation_time = some (now - start);
}

pub record AllocationMetrics : Type 0 where
  pub total_requests : ℕ
  pub successful_allocations : ℕ
  pub failed_allocations : ℕ
  pub total_allocation_time : ℕ
  pub resource_utilization : ResourceType → ℕ
  pub wait_times : List ℕ

unfoldable pub new_metrics : AllocationMetrics
new_metrics = record {
  total_requests = 0;
  successful_allocations = 0;
  failed_allocations = 0;
  total_allocation_time = 0;
  resource_utilization = λ t. 0;
  wait_times = [];
}

unfoldable pub record_allocation : AllocationMetrics → AllocationResult → ℕ → AllocationMetrics
record_allocation m result wait_time = record {
  total_requests = m.total_requests + 1;
  successful_allocations =
      if result.success then m.successful_allocations + 1 else m.successful_allocations;
  failed_allocations = if result.success then m.failed_allocations else m.failed_allocations + 1;
  total_allocation_time = elim result.allocation_time [
    | none ↦ m.total_allocation_time
    | some taken ↦ m.total_allocation_time + taken
  ];
  resource_utilization = λ t.
      if result.success
      then m.resource_utilization t + amount_of result.allocated t
      else m.resource_utilization t;
  wait_times = if ltb 0 wait_time then m.wait_times ++ wait_time ∷ [] else m.wait_times;
}

-- `pool.acquire` with a timeout, as an allocator calls it. `denied` is the run in which the deadline
-- comes before enough is given back; a timeout that Python reads as false sets no deadline, and the
-- call is `blocked` on the event of the request.
pub data Acquired : Type 0 where
  acquired denied blocked : Pool → Acquired
  failed : Pool → Error → Acquired

unfoldable pub has_deadline : Option ℕ → Bool
has_deadline none = false
has_deadline (some t) = ltb 0 t

unfoldable pub acquire : Pool → Name → Requirements → Option ℕ → (start now : ℕ) → Acquired
unfolding has_deadline
acquire p id req timeout start now = elim (attempt (enlist p id) id req false start now) [
  | raises q e ↦ failed (delist q id) e
  | granted q ↦ acquired (delist q id)
  | retries q ↦ blocked q
  | waits q ↦ if has_deadline timeout then denied (timed_out q id) else blocked q
]

-- An allocator of a class whose own attributes are `Own`.
pub record Allocator (Own : Type 0) : Type 0 where
  pub resource_pool : Pool
  pub metrics : AllocationMetrics
  pub own : Own

-- How a call of `allocate` ends, or that it is suspended.
pub data Outcome (Own : Type 0) : Type 0 where
  returned : Allocator Own → AllocationResult → Outcome Own
  returned_none : Allocator Own → Outcome Own
  raised : Allocator Own → Error → Outcome Own
  suspended : Allocator Own → Outcome Own

-- The abstract methods of `ResourceAllocator`. An order may change the allocator.
pub record ResourceAllocator (Own : Type 0) : Type 0 where
  pub allocate : Allocator Own → AllocationRequest → (start now : ℕ) → Outcome Own
  pub get_allocation_order :
      Allocator Own → List AllocationRequest → List AllocationRequest × Allocator Own

unfoldable pub can_allocate : {Own : Type 0} → Allocator Own → Requirements → Bool
can_allocate a req = for_all all_types req (λ t. leb (required req t) (a.resource_pool.available t))

-- How a batch ends: `no_result` is the AttributeError of a result that is None.
pub data BatchOutcome (Own : Type 0) : Type 0 where
  finished : Allocator Own → List AllocationResult → BatchOutcome Own
  stopped : Allocator Own → Error → BatchOutcome Own
  no_result : Allocator Own → BatchOutcome Own
  stuck : Allocator Own → BatchOutcome Own

unfoldable pub recorded : {Own : Type 0} → Allocator Own → AllocationResult → Allocator Own
unfolding record_allocation
recorded a result = record a { metrics = record_allocation a.metrics result 0 }

-- `record_allocation` counts the request before it looks at the result.
unfoldable pub count_request : {Own : Type 0} → Allocator Own → Allocator Own
count_request a = record a {
  metrics = (let m = a.metrics in record m { total_requests = m.total_requests + 1 });
}

-- The times at which a request is begun and done.
abbrev pub Clock : Type 0
Clock = AllocationRequest → ℕ × ℕ

unfoldable pub allocate_each :
    {Own : Type 0}
    → ResourceAllocator Own
    → Clock
    → Allocator Own
    → List AllocationRequest
    → List AllocationResult
    → BatchOutcome Own
unfolding recorded count_request
allocate_each c clock a [] results = finished a results
allocate_each c clock a (request ∷ requests) results =
    elim (c.allocate a request (clock request).0 (clock request).1) [
      | returned b result ↦
          allocate_each c clock (recorded b result) requests (results ++ result ∷ [])
      | returned_none b ↦ no_result (count_request b)
      | raised b e ↦ stopped b e
      | suspended b ↦ stuck b
    ]

unfoldable pub allocate_batch :
    {Own : Type 0}
    → ResourceAllocator Own
    → Clock
    → Allocator Own
    → List AllocationRequest
    → BatchOutcome Own
unfolding allocate_each
allocate_batch c clock a requests =
    let (ordered, b) = c.get_allocation_order a requests in allocate_each c clock b ordered []
