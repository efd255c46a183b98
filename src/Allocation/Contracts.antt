-- ===== src/Allocation/Contracts.antt =====
-- core/resources/allocation.py: the allocators that keep to the contract of a batch.
use puffinfloww.Base.{
  ℕ, zero, suc, ◌≡◌, refl, subst, Bool-cases, inl, inr, [], ◌∷◌, sort_by-Perm, ◌==◌,
}
use puffinfloww.Allocation.{
  AllocationRequest, AllocationResult, Allocator, Outcome, returned, returned_none, raised,
  suspended, succeeded, refused, AllocationMetrics,
}
use puffinfloww.ResourcePool.{Pool, validate_requirements, check_quota, can_allocate}
use puffinfloww.Allocation.Acquiring.{answer, acquire_now}
use puffinfloww.Allocation.Blocking.{allocate_fit_table}
use puffinfloww.Allocation.Forgetful.{allocate_weighted_table}
use puffinfloww.Allocation.Precedence.{can_allocate_same}
use puffinfloww.Allocation.Batch.{Lawful}
use puffinfloww.Allocation.Fit.{Plain, allocate_fit, first_fit, best_fit}
use puffinfloww.Allocation.HeapQueue.{HeapQueue, Requests}
use puffinfloww.Allocation.PriorityQueue.{
  process, allocate_by_priority, priority_allocator, Weights, allocate_weighted, weighted_allocator,
}
use puffinfloww.Allocation.FairShare.{
  History, allocate_fairly, fair_share, exceeds, calculate_resource_total,
}

-- An outcome whose result carries this id, and whose allocator has these metrics.
abbrev Keeps : {Own : Type 0} → AllocationMetrics → AllocationRequest → Outcome Own → Type 0
Keeps m r (returned b result) = (result.result_id ≡ r.request_id) × (b.metrics ≡ m)
Keeps m r (returned_none b) = Unit {0}
Keeps m r (raised b e) = Unit {0}
Keeps m r (suspended b) = Unit {0}

Keeps-own :
    {Own : Type 0} (m : AllocationMetrics) (r : AllocationRequest) (o : Outcome Own)
    → Keeps m r o
    → (b : Allocator Own) (result : AllocationResult) → o ≡ returned b result
    → (result.result_id ≡ r.request_id) × (b.metrics ≡ m)
Keeps-own m r o k b result e = subst (Keeps m r) e k

allocate_fit-Keeps :
    (a : Allocator Plain) (r : AllocationRequest) (start now : ℕ)
    → Keeps a.metrics r (allocate_fit a r start now)
unfolding succeeded
allocate_fit-Keeps a r start now =
    rw (allocate_fit_table a r start now)
      (elim (Bool-cases (validate_requirements a.resource_pool r.requirements)) [
        | inr bad ↦ rw bad tt
        | inl valid ↦ elim (Bool-cases (check_quota a.resource_pool r.request_id r.requirements)) [
          | inr over ↦ rw (valid, over) tt
          | inl allowed ↦ elim (Bool-cases (can_allocate a.resource_pool r.requirements)) [
            | inl free ↦ rw (valid, allowed, free) (refl, refl)
            | inr short ↦ rw (valid, allowed, short) tt
          ]
        ]
      ])

allocate_weighted-Keeps :
    (heap : HeapQueue) (a : Allocator Weights) (r : AllocationRequest) (start now : ℕ)
    → Keeps a.metrics r (allocate_weighted heap a r start now)
unfolding succeeded refused
allocate_weighted-Keeps heap a r start now =
    rw (allocate_weighted_table heap a r start now)
      (elim (Bool-cases (can_allocate a.resource_pool r.requirements)) [
        | inr short ↦ rw short (refl, refl)
        | inl free ↦ elim (Bool-cases (validate_requirements a.resource_pool r.requirements)) [
          | inr bad ↦ rw (free, bad) tt
          | inl valid ↦
              elim (Bool-cases (check_quota a.resource_pool r.request_id r.requirements)) [
                | inr over ↦ rw (free, valid, over) tt
                | inl allowed ↦ rw (free, valid, allowed) (refl, refl)
              ]
        ]
      ])

allocate_fairly-Keeps :
    (a : Allocator History) (r : AllocationRequest) (start now : ℕ)
    → Keeps a.metrics r (allocate_fairly a r start now)
unfolding allocate_fairly answer succeeded refused
allocate_fairly-Keeps a r start now =
    elim (Bool-cases
      (exceeds a.resource_pool a.own r.requester_id (calculate_resource_total r.requirements))) [
        | inl above ↦ rw (allocate_fairly, above) (refl, refl)
        | inr within ↦
            rw
              (
                allocate_fairly,
                within,
                acquire_now a.resource_pool r.request_id r.requirements start now,
              )
              (elim (Bool-cases (validate_requirements a.resource_pool r.requirements)) [
                | inr bad ↦ rw (answer, bad) tt
                | inl valid ↦
                    elim (Bool-cases (check_quota a.resource_pool r.request_id r.requirements)) [
                      | inr over ↦ rw (answer, valid, over) tt
                      | inl allowed ↦
                          elim (Bool-cases (can_allocate a.resource_pool r.requirements)) [
                            | inl free ↦ rw (answer, valid, allowed, free) (refl, refl)
                            | inr short ↦ rw (answer, valid, allowed, short) tt
                          ]
                    ]
              ])
      ]

module _ (heap : HeapQueue) (m : AllocationMetrics) (r : AllocationRequest) (start now : ℕ) where
  abbrev allocator : Pool → Requests → Allocator Requests
  allocator p q = record { resource_pool = p; metrics = m; own = q }

  turn-Keeps :
      (n : ℕ) (p : Pool) (x : AllocationRequest) (xs : Requests)
      → ((p' : Pool) (q : Requests) → Keeps m r (process heap n (allocator p' q) r start now))
      → Keeps m r (process heap (suc n) (allocator p (x ∷ xs)) r start now)
  unfolding process answer succeeded refused
  turn-Keeps n p x xs later =
      let next = (heap.heappop x xs).0 in
      elim (Bool-cases (can_allocate p next.requirements)) [
        | inr short ↦
            rw (process, can_allocate_same (allocator p (x ∷ xs)) next.requirements, short)
              (refl, refl)
        | inl free ↦
            rw
              (
                process,
                can_allocate_same (allocator p (x ∷ xs)) next.requirements,
                free,
                acquire_now p next.request_id next.requirements start now,
              )
              (elim (Bool-cases (validate_requirements p next.requirements)) [
                | inr bad ↦ rw (answer, bad) tt
                | inl valid ↦ elim (Bool-cases (check_quota p next.request_id next.requirements)) [
                  | inr over ↦ rw (answer, valid, over) tt
                  | inl allowed ↦
                      rw (answer, valid, allowed, free)
                        (elim (Bool-cases (next.request_id == r.request_id)) [
                          | inl ours ↦ rw ours (refl, refl)
                          | inr other ↦ rw other (later _ _)
                        ])
                ]
              ])
      ]

  process-Keeps :
      (n : ℕ) (p : Pool) (q : Requests) → Keeps m r (process heap n (allocator p q) r start now)
  unfolding process refused
  process-Keeps zero p q = (refl, refl)
  process-Keeps (suc n) p [] = (refl, refl)
  process-Keeps (suc n) p (x ∷ xs) = turn-Keeps n p x xs (λ p' q. process-Keeps n p' q)

pub first_fit-Lawful : Lawful first_fit
unfolding first_fit
first_fit-Lawful = record {
  returns_own = λ a r start now. Keeps-own a.metrics r _ (allocate_fit-Keeps a r start now);
  order-Perm = λ a requests. sort_by-Perm _ requests;
  order_metrics = λ a requests. refl;
}

pub best_fit-Lawful : Lawful best_fit
unfolding best_fit
best_fit-Lawful = record {
  returns_own = λ a r start now. Keeps-own a.metrics r _ (allocate_fit-Keeps a r start now);
  order-Perm = λ a requests. sort_by-Perm _ requests;
  order_metrics = λ a requests. refl;
}

pub priority_allocator-Lawful : (heap : HeapQueue) → Lawful (priority_allocator heap)
unfolding priority_allocator allocate_by_priority
priority_allocator-Lawful heap = record {
  returns_own = λ a r start now.
      Keeps-own a.metrics r _ (process-Keeps heap a.metrics r start now _ a.resource_pool _);
  order-Perm = λ a requests. sort_by-Perm _ requests;
  order_metrics = λ a requests. refl;
}

pub fair_share-Lawful : Lawful fair_share
unfolding fair_share
fair_share-Lawful = record {
  returns_own = λ a r start now. Keeps-own a.metrics r _ (allocate_fairly-Keeps a r start now);
  order-Perm = λ a requests. sort_by-Perm _ requests;
  order_metrics = λ a requests. refl;
}

pub weighted_allocator-Lawful : (heap : HeapQueue) → Lawful (weighted_allocator heap)
unfolding weighted_allocator
weighted_allocator-Lawful heap = record {
  returns_own =
      λ a r start now. Keeps-own a.metrics r _ (allocate_weighted-Keeps heap a r start now);
  order-Perm = λ a requests. sort_by-Perm _ requests;
  order_metrics = λ a requests. refl;
}
