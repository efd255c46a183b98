-- ===== src/Allocation/Samples.antt =====
-- core/resources/allocation.py: small runs of the allocators.
use puffinfloww.Base.{
  ℕ, ◌-◌, ◌*◌, ◌≡◌, refl, Bool, true, false, List, [], ◌∷◌, length, Perm, sort_by, get, put,
  contains, add, discard,
}
use puffinfloww.ResourcePool as R
use puffinfloww.ResourcePool.{
  ResourceType, cpu, gpu, Requirements, Pool, required, for_all, check_quota, validate_requirements,
  enlist, delist, allocate, update_stats, attempt, await_event, held, drop_older, overflow,
  quota_exceeded, allocation_for,
}
use puffinfloww.Allocation.{
  AllocationRequest, AllocationResult, new_metrics, Allocator, Outcome, returned, raised, suspended,
  succeeded, refused, acquire, BatchOutcome, finished, stopped, no_result, stuck, allocate_batch,
  Clock, count_request, recorded, record_allocation, allocate_each, has_deadline,
}
use puffinfloww.Allocation as A
use puffinfloww.Allocation.Acquiring.{given, waited_for}
use puffinfloww.Allocation.Fit.{Plain, first_fit, worst_fit, best_fit, allocate_fit}
use puffinfloww.Allocation.HeapQueue.{sorted_queue}
use puffinfloww.Allocation.PriorityQueue.{
  allocate_by_priority, priority_allocator, weighted_allocator, weight_of, allocate_weighted,
}
use puffinfloww.Allocation.FairShare.{History, fair_share, usage_of, allocate_fairly}
use puffinfloww.Allocation.Orders.{
  IsOrder, left_after, ascending, descending, get_allocation_order-IsOrder,
}
use puffinfloww.Allocation.Batch.{ids, ids_of, Tally, allocate_batch_finished}
use puffinfloww.Allocation.Contracts.{first_fit-Lawful}
use puffinfloww.Allocation.Blocking.{allocate_fit_table}
use puffinfloww.Allocation.Serving.{Ending}
use puffinfloww.Allocation.Precedence.{allocate_by_priority-Ending}
use puffinfloww.Allocation.Shares.{Fair, allocate_fairly-Fair}
use puffinfloww.Allocation.Forgetful.{allocate_weighted_table}

abbrev totals : ResourceType → ℕ
totals cpu = 8
totals _ = 4

abbrev only_cpu : ResourceType → Bool
only_cpu cpu = true
only_cpu _ = false

abbrev cores : ℕ → Requirements
cores n = record {
  cpu_units = n;
  memory_mb = 0;
  io_weight = 0;
  network_weight = 0;
  gpu_units = 0;
  resource_types = only_cpu;
}

abbrev asks : (id requester n priority : ℕ) → AllocationRequest
asks id requester n urgency = record {
  request_id = id;
  requester_id = requester;
  requirements = cores n;
  priority = urgency;
  weight = 1000;
  timestamp = 10 - id;
}

abbrev starting : {Own : Type 0} → Own → Allocator Own
starting own = record {
  resource_pool = R.create totals false false 60;
  metrics = new_metrics;
  own = own;
}

abbrev nobody : History
nobody = record { usage_history = []; allocation_counts = [] }

abbrev small : AllocationRequest
small = asks 1 7 3 5

abbrev large : AllocationRequest
large = asks 2 7 6 9

abbrev clock : Clock
clock r = (3, 4)

program : Unit {0}
unfolding A.can_allocate allocate_batch allocate_fit allocate_by_priority allocate_fairly
    allocate_weighted R.create attempt for_all required check_quota validate_requirements
    R.can_allocate allocate update_stats held first_fit worst_fit fair_share sort_by sorted_queue
    delist enlist get put add discard contains new_metrics
program = tt

end_of : {Own : Type 0} → Allocator Own → BatchOutcome Own → Allocator Own
end_of a (finished b results) = b
end_of a _ = a

results_of : {Own : Type 0} → BatchOutcome Own → List AllocationResult
results_of (finished b results) = results
results_of _ = []

abbrev busy : {Own : Type 0} → Own → Allocator Own
busy own = record (starting own) {
  resource_pool = given (R.create totals false false 60) 9 (cores 6) 0 1;
}

allocate_fit_table_example :
    allocate_fit (busy tt) small 3 4
    ≡ suspended (record (busy tt) { resource_pool = waited_for (busy tt).resource_pool 1 })
unfolding program
allocate_fit_table_example = allocate_fit_table (busy tt) small 3 4

get_allocation_order-IsOrder_example :
    IsOrder ascending
      (λ r. r.timestamp)
      (small ∷ large ∷ [])
      (first_fit.get_allocation_order (starting tt) (small ∷ large ∷ [])).0
    × IsOrder ascending
        (λ r. left_after (starting tt).resource_pool r.requirements)
        (small ∷ large ∷ [])
        (best_fit.get_allocation_order (starting tt) (small ∷ large ∷ [])).0
    × IsOrder descending
        (λ r. left_after (starting tt).resource_pool r.requirements)
        (small ∷ large ∷ [])
        (worst_fit.get_allocation_order (starting tt) (small ∷ large ∷ [])).0
    × IsOrder descending
        (λ r. r.priority)
        (small ∷ large ∷ [])
        ((priority_allocator sorted_queue).get_allocation_order
          (starting [])
          (small ∷ large ∷ [])).0
    × IsOrder ascending
        (λ r. usage_of r.requester_id nobody)
        (small ∷ large ∷ [])
        (fair_share.get_allocation_order (starting nobody) (small ∷ large ∷ [])).0
    × IsOrder descending
        (λ r. r.priority * weight_of [] r)
        (small ∷ large ∷ [])
        ((weighted_allocator sorted_queue).get_allocation_order
          (starting [])
          (small ∷ large ∷ [])).0
get_allocation_order-IsOrder_example =
    get_allocation_order-IsOrder sorted_queue (starting tt) (starting []) (starting nobody)
      (starting []) (small ∷ large ∷ [])

first_fit-order :
    (first_fit.get_allocation_order (starting tt) (small ∷ large ∷ [])).0 ≡ large ∷ small ∷ []
unfolding program
first_fit-order = refl

abbrev tiny : AllocationRequest
tiny = asks 3 8 2 1

both_fit : BatchOutcome Plain
both_fit = allocate_batch first_fit clock (starting tt) (large ∷ tiny ∷ [])

both_done : both_fit ≡ finished (end_of (starting tt) both_fit) (results_of both_fit)
unfolding program both_fit end_of results_of
both_done = refl

allocate_batch_finished_example :
    (ids_of (results_of both_fit)
      ≡ ids (first_fit.get_allocation_order (starting tt) (large ∷ tiny ∷ [])).0)
    × Perm (first_fit.get_allocation_order (starting tt) (large ∷ tiny ∷ [])).0 (large ∷ tiny ∷ [])
    × (length (results_of both_fit) ≡ 2)
    × Tally new_metrics (results_of both_fit) (end_of (starting tt) both_fit).metrics
unfolding allocate_batch both_fit
allocate_batch_finished_example =
    allocate_batch_finished first_fit first_fit-Lawful clock (starting tt)
      (end_of (starting tt) both_fit) (large ∷ tiny ∷ []) (results_of both_fit) both_done

-- The small request waits behind the large one, which goes before it and does not fit.
allocate_by_priority-Ending_example :
    Ending small 3 4
      (small ∷ large ∷ [])
      (busy (large ∷ [])).resource_pool
      (allocate_by_priority sorted_queue (busy (large ∷ [])) small 3 4)
unfolding program
allocate_by_priority-Ending_example =
    allocate_by_priority-Ending sorted_queue small 3 4 (busy (large ∷ [])) (tt, tt)

-- The requester is above its share of the resources.
allocate_fairly-Fair_example :
    Fair (starting (record nobody { usage_history = (7, 20) ∷ (8, 1) ∷ [] })) small 3 4 (
      allocate_fairly
        (starting (record nobody { usage_history = (7, 20) ∷ (8, 1) ∷ [] }))
        small
        3
        4)
allocate_fairly-Fair_example =
    allocate_fairly-Fair (starting (record nobody { usage_history = (7, 20) ∷ (8, 1) ∷ [] })) small
      3 4

allocate_weighted_table_example :
    allocate_weighted sorted_queue (busy ((7, 2000) ∷ [])) small 3 4
    ≡ returned (busy ((7, 2000) ∷ [])) (refused small A.queued_for_resources 3 4)
unfolding program
allocate_weighted_table_example =
    allocate_weighted_table sorted_queue (busy ((7, 2000) ∷ [])) small 3 4
