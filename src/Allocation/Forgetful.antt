-- ===== src/Allocation/Forgetful.antt =====
-- core/resources/allocation.py: what WeightedAllocator makes of the weights and of a request that
-- does not fit.
use puffinfloww.Base.{
  Bool, ℕ, ◌≡◌, refl, ◌∙◌, ap, Bool-cases, inl, inr, true, [], ◌∷◌, ◌==◌, if◌then◌else◌, ==_self,
}
use puffinfloww.ResourcePool.{
  Pool, quota_exceeded, overflow, validate_requirements, check_quota, can_allocate,
}
use puffinfloww.Allocation.{
  AllocationRequest, queued_for_resources, succeeded, refused, Allocator, Outcome, returned, raised,
  new_metrics,
}
use puffinfloww.Allocation.Acquiring.{given, untaken, answer, acquire_now}
use puffinfloww.Allocation.HeapQueue.{HeapQueue, Requests}
use puffinfloww.Allocation.PriorityQueue.{
  process, allocate_by_priority, Weights, weighted_request, back_to, allocate_weighted,
}
use puffinfloww.Allocation.Precedence.{can_allocate_same}

module _ (heap : HeapQueue) (a : Allocator Weights) (request : AllocationRequest)
    (start now : ℕ) where
  abbrev with_pool : Pool → Allocator Weights
  with_pool p = record a { resource_pool = p }

  -- The outcome of the tests of the pool, whatever the weights.
  abbrev pub by_tests : Outcome Weights
  by_tests =
      if can_allocate a.resource_pool request.requirements
      then (if validate_requirements a.resource_pool request.requirements
          then (if check_quota a.resource_pool request.request_id request.requirements
              then returned
                  (with_pool
                    (given a.resource_pool request.request_id request.requirements start now))
                  (succeeded request start now)
              else raised (with_pool (untaken a.resource_pool request.request_id)) quota_exceeded)
          else raised (with_pool (untaken a.resource_pool request.request_id)) overflow)
      else returned a (refused request queued_for_resources start now)

  abbrev weighted : AllocationRequest
  weighted = weighted_request a.own request

  abbrev helper : Requests → Allocator Requests
  helper q = record { resource_pool = a.resource_pool; metrics = new_metrics; own = q }

  abbrev popped : AllocationRequest
  popped = (heap.heappop weighted []).0

  popped_same : popped ≡ weighted
  popped_same = ap (λ h. h.0) (heap.heappop_single weighted)

  -- What holds of the request holds of the one that is taken off the heap.
  popped_too : (f : AllocationRequest → Bool) → f popped ≡ f weighted
  popped_too f = ap f popped_same

  popped_ours : (popped.request_id == request.request_id) ≡ true
  unfolding weighted_request
  popped_ours =
      ap (λ n. n.request_id == request.request_id) popped_same ∙ ==_self request.request_id

  one_turn : back_to a (process heap 1 (helper (weighted ∷ [])) weighted start now) ≡ by_tests
  unfolding process weighted_request back_to answer succeeded refused
  one_turn = elim (Bool-cases (can_allocate a.resource_pool request.requirements)) [
    | inr short ↦
        rw
          (
            process,
            heap.heappop_single weighted,
            can_allocate_same (helper (weighted ∷ [])) request.requirements,
            short,
          )
          refl
    | inl free ↦
        rw
          (
            process,
            can_allocate_same (helper (weighted ∷ [])) popped.requirements,
            popped_too (λ n. can_allocate a.resource_pool n.requirements) ∙ free,
            acquire_now a.resource_pool popped.request_id popped.requirements start now,
          )
          (elim (Bool-cases (validate_requirements a.resource_pool request.requirements)) [
            | inr bad ↦
                rw
                  (
                    answer,
                    popped_too (λ n. validate_requirements a.resource_pool n.requirements) ∙ bad,
                    bad,
                    free,
                    popped_same,
                  )
                  refl
            | inl valid ↦
                elim (Bool-cases
                  (check_quota a.resource_pool request.request_id request.requirements)) [
                    | inr over ↦
                        rw
                          (
                            answer,
                            popped_too (λ n. validate_requirements a.resource_pool n.requirements)
                                ∙ valid,
                            popped_too
                                  (λ n. check_quota a.resource_pool n.request_id n.requirements)
                                ∙ over,
                            valid,
                            over,
                            free,
                            popped_same,
                          )
                          refl
                    | inl within ↦
                        rw
                          (
                            answer,
                            popped_too (λ n. validate_requirements a.resource_pool n.requirements)
                                ∙ valid,
                            popped_too
                                  (λ n. check_quota a.resource_pool n.request_id n.requirements)
                                ∙ within,
                            popped_too (λ n. can_allocate a.resource_pool n.requirements) ∙ free,
                            popped_ours,
                            valid,
                            within,
                            free,
                            popped_same,
                          )
                          refl
                  ]
          ])
  ]

  -- `allocate` of WeightedAllocator does what the tests of the pool say, for all weights: a request
  -- that does not fit is refused as queued, and the allocator and the pool are left as they were, with
  -- the request in no queue.
  pub allocate_weighted_table : allocate_weighted heap a request start now ≡ by_tests
  unfolding allocate_weighted allocate_by_priority
  allocate_weighted_table = rw (allocate_weighted, heap.heappush-nil weighted) one_turn
