-- ===== src/Allocation/PriorityQueue.antt =====
-- core/resources/allocation.py: PriorityAllocator, and WeightedAllocator, which makes a
-- PriorityAllocator of its own for each request. Weights are in thousandths.
use puffinfloww.Base.{
  ℕ, zero, suc, ◌*◌, ◌/◌, Bool, some, [], ◌∷◌, Dict, get_or, put, leb, ◌==◌, length, sort_by,
  if◌then◌else◌, Name,
}
use puffinfloww.Allocation.{
  AllocationRequest, queued_for_resources, succeeded, refused, acquire, acquired, denied, blocked,
  failed, Allocator, Outcome, returned, returned_none, raised, suspended, ResourceAllocator,
  can_allocate, new_metrics,
}
use puffinfloww.Allocation.HeapQueue.{HeapQueue, Requests, precedes}

abbrev pub Weights : Type 0
Weights = Dict ℕ

unfoldable pub set_weight : Allocator Weights → Name → ℕ → Allocator Weights
set_weight a requester weight = record a { own = put requester weight a.own }

abbrev pub weight_of : Weights → AllocationRequest → ℕ
weight_of weights request = get_or request.requester_id weights request.weight

unfoldable pub weighted_request : Weights → AllocationRequest → AllocationRequest
weighted_request weights request = record request {
  priority = (request.priority * weight_of weights request) / 1000;
  weight = weight_of weights request;
}

-- Back from the allocator that was made for the call to the one that made it.
unfoldable pub back_to : Allocator Weights → Outcome Requests → Outcome Weights
back_to a (returned b result) = returned (record a { resource_pool = b.resource_pool }) result
back_to a (returned_none b) = returned_none (record a { resource_pool = b.resource_pool })
back_to a (raised b e) = raised (record a { resource_pool = b.resource_pool }) e
back_to a (suspended b) = suspended (record a { resource_pool = b.resource_pool })

abbrev pub heavier : Weights → AllocationRequest → AllocationRequest → Bool
heavier weights r s = leb (s.priority * weight_of weights s) (r.priority * weight_of weights r)

module _ (heap : HeapQueue) where
  -- One run of the loop over the queue that starts with `next`, which `rest` continues.
  unfoldable pub process :
      ℕ → Allocator Requests → AllocationRequest → (start now : ℕ) → Outcome Requests
  unfolding acquire can_allocate succeeded refused
  process zero a request start now = returned a (refused request queued_for_resources start now)
  process (suc n) a request start now = elim a.own [
    | [] ↦ returned a (refused request queued_for_resources start now)
    | x ∷ xs ↦
        let (next, rest) = heap.heappop x xs in
        if can_allocate a next.requirements
        then (elim (acquire a.resource_pool next.request_id next.requirements (some 0) start now) [
          | acquired p ↦
              let b = record a { resource_pool = p; own = rest } in
              let later = process n b request start now in
              if next.request_id == request.request_id
              then returned b (succeeded request start now)
              else later
          | denied p ↦
              returned (record a { resource_pool = p; own = heap.heappush next rest })
                (refused request queued_for_resources start now)
          | blocked p ↦ suspended (record a { resource_pool = p; own = rest })
          | failed p e ↦ raised (record a { resource_pool = p; own = rest }) e
        ])
        else returned (record a { own = heap.heappush next rest })
            (refused request queued_for_resources start now)
  ]

  -- Each turn of the loop takes a request off the queue, so its length is enough fuel.
  unfoldable pub allocate_by_priority :
      Allocator Requests → AllocationRequest → (start now : ℕ) → Outcome Requests
  unfolding process
  allocate_by_priority a request start now =
      let queue = heap.heappush request a.own in
      process (length queue) (record a { own = queue }) request start now

  unfoldable pub priority_allocator : ResourceAllocator Requests
  unfolding allocate_by_priority sort_by
  priority_allocator = record {
    allocate = allocate_by_priority;
    get_allocation_order = λ a requests. (sort_by precedes requests, a);
  }

  unfoldable pub allocate_weighted :
      Allocator Weights → AllocationRequest → (start now : ℕ) → Outcome Weights
  unfolding allocate_by_priority weighted_request new_metrics back_to
  allocate_weighted a request start now = back_to a (
      allocate_by_priority
        (record { resource_pool = a.resource_pool; metrics = new_metrics; own = [] })
        (weighted_request a.own request) start now)

  unfoldable pub weighted_allocator : ResourceAllocator Weights
  unfolding allocate_weighted sort_by
  weighted_allocator = record {
    allocate = allocate_weighted;
    get_allocation_order = λ a requests. (sort_by (heavier a.own) requests, a);
  }
