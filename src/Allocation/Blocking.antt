-- ===== src/Allocation/Blocking.antt =====
-- core/resources/allocation.py: when the fit allocators answer, and when they do not.
use puffinfloww.Base.{
  ℕ, ◌≡◌, refl, Bool-cases, inl, inr, List, [], ◌∷◌, if◌then◌else◌, sort_by, sort_by-Perm, length,
  length-Perm, arith,
}
use puffinfloww.ResourcePool.{
  Pool, overflow, quota_exceeded, validate_requirements, check_quota, can_allocate,
}
use puffinfloww.Allocation.{
  AllocationRequest, succeeded, Allocator, returned, raised, suspended, no_result, Clock,
  allocate_each, allocate_batch, count_request,
}
use puffinfloww.Allocation.Acquiring.{given, untaken, waited_for, answer, acquire_now}
use puffinfloww.Allocation.Fit.{Plain, allocate_fit, worst_fit, more_remaining}

module _ (a : Allocator Plain) (request : AllocationRequest) (start now : ℕ) where
  abbrev with_pool : Pool → Allocator Plain
  with_pool p = record a { resource_pool = p }

  -- What FirstFitAllocator and BestFitAllocator do, by the tests of the pool: the request is granted,
  -- or an exception is raised, or, where the resources do not suffice, the call waits without a
  -- deadline. No run returns a failure.
  pub allocate_fit_table : allocate_fit a request start now ≡ (
      if validate_requirements a.resource_pool request.requirements
      then (if check_quota a.resource_pool request.request_id request.requirements
          then (if can_allocate a.resource_pool request.requirements
              then returned
                  (with_pool
                    (given a.resource_pool request.request_id request.requirements start now))
                  (succeeded request start now)
              else suspended (with_pool (waited_for a.resource_pool request.request_id)))
          else raised (with_pool (untaken a.resource_pool request.request_id)) quota_exceeded)
      else raised (with_pool (untaken a.resource_pool request.request_id)) overflow)
  unfolding allocate_fit answer
  allocate_fit_table =
      rw
        (
          allocate_fit,
          acquire_now a.resource_pool request.request_id request.requirements start now,
        )
        (elim (Bool-cases (validate_requirements a.resource_pool request.requirements)) [
          | inr bad ↦ rw (answer, bad) refl
          | inl valid ↦
              elim (Bool-cases
                (check_quota a.resource_pool request.request_id request.requirements)) [
                  | inr over ↦ rw (answer, valid, over) refl
                  | inl within ↦
                      elim (Bool-cases (can_allocate a.resource_pool request.requirements)) [
                        | inl free ↦ rw (answer, valid, within, free) refl
                        | inr short ↦ rw (answer, valid, within, short) refl
                      ]
                ]
        ])

-- A batch of WorstFitAllocator that is not empty ends with the AttributeError of a result that is
-- None. One request is counted, and nothing is allocated.
pub worst_fit_no_result :
    (clock : Clock) (a : Allocator Plain) (request : AllocationRequest)
    (requests : List AllocationRequest)
    → allocate_batch worst_fit clock a (request ∷ requests) ≡ no_result (count_request a)
unfolding allocate_batch allocate_each worst_fit
worst_fit_no_result clock a request requests =
    each (sort_by (more_remaining a.resource_pool) (request ∷ requests))
      (length-Perm (sort_by-Perm (more_remaining a.resource_pool) (request ∷ requests)))
  where
    each :
        (ordered : List AllocationRequest)
        → length ordered ≡ length (request ∷ requests)
        → allocate_each worst_fit clock a ordered [] ≡ no_result (count_request a)
    each [] e = ground arith
    each (r ∷ rs) e = refl
