-- ===== src/Allocation/Batch.antt =====
-- core/resources/allocation.py: what a batch returns and counts, for any allocator that keeps to the
-- contract of `ResourceAllocator`, and the allocators that do.
use puffinfloww.Base.{
  Bool, true, false, none, some, if◌then◌else◌, ℕ, suc, ◌+◌, ◌≡◌, refl, ap, sym, ◌∙◌, subst, List,
  [], ◌∷◌, ◌++◌, map, length, length-Perm, arith, Perm, Name,
}
use mathlib.Core.List.{append-nil, append_assoc}
use puffinfloww.ResourcePool.{ResourceType, amount_of}
use puffinfloww.Allocation.{
  AllocationRequest, AllocationResult, AllocationMetrics, record_allocation, Allocator, Outcome,
  returned, returned_none, raised, suspended, ResourceAllocator, finished, stopped, no_result,
  stuck, recorded, count_request, Clock, allocate_each, allocate_batch,
}

-- The contract: a result carries the id of its request, an order has the requests it is given, and
-- neither touches the metrics.
pub record Lawful {Own : Type 0} (c : ResourceAllocator Own) : Type 0 where
  pub returns_own :
      (a : Allocator Own) (r : AllocationRequest) (start now : ℕ) (b : Allocator Own)
      (result : AllocationResult)
      → c.allocate a r start now ≡ returned b result
      → (result.result_id ≡ r.request_id) × (b.metrics ≡ a.metrics)
  pub order-Perm :
      (a : Allocator Own) (requests : List AllocationRequest)
      → Perm (c.get_allocation_order a requests).0 requests
  pub order_metrics :
      (a : Allocator Own) (requests : List AllocationRequest)
      → (c.get_allocation_order a requests).1.metrics ≡ a.metrics

-- How many of the results are a success, or a failure; what the successes took of a type; and the
-- time of all of them.
abbrev pub count_with : Bool → List AllocationResult → ℕ
count_with good [] = 0
count_with good (x ∷ xs) =
    (if x.success then (if good then 1 else 0) else (if good then 0 else 1)) + count_with good xs

abbrev pub taken_of : ResourceType → List AllocationResult → ℕ
taken_of t [] = 0
taken_of t (x ∷ xs) = (if x.success then amount_of x.allocated t else 0) + taken_of t xs

abbrev pub time_of : List AllocationResult → ℕ
time_of [] = 0
time_of (x ∷ xs) = (elim x.allocation_time [ none ↦ 0 | some n ↦ n ]) + time_of xs

-- What the metrics have counted after some more results.
pub record Tally (m : AllocationMetrics) (results : List AllocationResult) (k : AllocationMetrics)
    : Type 0 where
  pub requests : k.total_requests ≡ m.total_requests + length results
  pub successes : k.successful_allocations ≡ m.successful_allocations + count_with true results
  pub failures : k.failed_allocations ≡ m.failed_allocations + count_with false results
  pub utilization :
      (t : ResourceType) → k.resource_utilization t ≡ m.resource_utilization t + taken_of t results
  pub waits : k.wait_times ≡ m.wait_times
  pub times : k.total_allocation_time ≡ m.total_allocation_time + time_of results

Tally-nil : (m : AllocationMetrics) → Tally m [] m
Tally-nil m = record {
  requests = omega arith;
  successes = omega arith;
  failures = omega arith;
  utilization = λ t. omega arith;
  waits = refl;
  times = omega arith;
}

Tally-record_allocation :
    (m k : AllocationMetrics) (result : AllocationResult) (results : List AllocationResult)
    → Tally (record_allocation m result 0) results k
    → Tally m (result ∷ results) k
unfolding record_allocation
Tally-record_allocation m k result results t = record {
  requests = (let e = t.requests in omega arith);
  successes = (let e = t.successes in ground (arith, e));
  failures = (let e = t.failures in ground (arith, e));
  utilization = λ u. (let e = t.utilization u in ground (arith, e));
  waits = t.waits;
  times = (let e = t.times in ground (arith, e));
}

abbrev pub ids_of : List AllocationResult → List Name
ids_of results = map (λ r. r.result_id) results

abbrev pub ids : List AllocationRequest → List Name
ids requests = map (λ r. r.request_id) requests

length_of_ids :
    (results : List AllocationResult) (requests : List AllocationRequest)
    → ids_of results ≡ ids requests
    → length results ≡ length requests
length_of_ids [] [] e = refl
length_of_ids [] (r ∷ rs) e = cc
length_of_ids (x ∷ xs) [] e = cc
length_of_ids (x ∷ xs) (r ∷ rs) e = ap suc (length_of_ids xs rs (tails_equal e))
  where
    tails_equal : {m n : Name} {ms ns : List Name} → (m ∷ ms) ≡ (n ∷ ns) → ms ≡ ns
    tails_equal f = cc

module _ {Own : Type 0} (c : ResourceAllocator Own) (lawful : Lawful c) (clock : Clock) where
  -- The results that a run adds, in the order of the requests, and the counts of the metrics.
  abbrev Adds :
      Allocator Own
      → List AllocationRequest
      → (old new : List AllocationResult) → Allocator Own
      → Type 0
  Adds a requests old results b =
      (new : List AllocationResult) × (results ≡ old ++ new)
      × (ids_of new ≡ ids requests)
      × Tally a.metrics new b.metrics

  finished_injective :
      {a b : Allocator Own} {old results : List AllocationResult}
      → finished a old ≡ finished b results
      → (a ≡ b) × (results ≡ old)
  finished_injective e = (cc, cc)

  allocate_each-Adds :
      (a b : Allocator Own) (requests : List AllocationRequest)
      (old results : List AllocationResult)
      → allocate_each c clock a requests old ≡ finished b results
      → Adds a requests old results b
  unfolding allocate_each
  allocate_each-Adds a b [] old results e =
      let same = finished_injective e in
      (
        [],
        same.1 ∙ sym (append-nil old),
        refl,
        subst (λ x. Tally a.metrics [] x.metrics) same.0 (Tally-nil a.metrics),
      )
  allocate_each-Adds a b (r ∷ rs) old results e =
      by_outcome (c.allocate a r (clock r).0 (clock r).1) refl e
        (λ a' old'. allocate_each-Adds a' b rs old' results)
    where
      by_outcome :
          (o : Outcome Own)
          → c.allocate a r (clock r).0 (clock r).1 ≡ o
          → (elim o [
            | returned b' result ↦
                allocate_each c clock (recorded b' result) rs (old ++ result ∷ [])
            | returned_none b' ↦ no_result (count_request b')
            | raised b' e' ↦ stopped b' e'
            | suspended b' ↦ stuck b'
          ])
            ≡ finished b results
          → ((a' : Allocator Own) (old' : List AllocationResult)
              → allocate_each c clock a' rs old' ≡ finished b results
              → Adds a' rs old' results b)
          → Adds a (r ∷ rs) old results b
      by_outcome (returned b' result) f g later =
          let (more, split, same, tally) = later (recorded b' result) (old ++ result ∷ []) g in
          let law = lawful.returns_own a r (clock r).0 (clock r).1 b' result f in
          (
            result ∷ more,
            split ∙ append_assoc old (result ∷ []) more,
            ground (arith, same, law.0),
            Tally-record_allocation a.metrics b.metrics result more
                (subst (λ m. Tally (record_allocation m result 0) more b.metrics) law.1 tally),
          )
      by_outcome (returned_none b') f g later = cc
      by_outcome (raised b' e') f g later = cc
      by_outcome (suspended b') f g later = cc

  -- With an allocator that keeps to the contract, a batch that finishes has one result for each
  -- request, in the order of the allocator, which has the requests of the batch. The metrics count each
  -- result that is a success as a success and each other one as a failure, and add up what the
  -- successes took of each type and the times of all; no waiting time is recorded.
  pub allocate_batch_finished :
      (a b : Allocator Own) (requests : List AllocationRequest) (results : List AllocationResult)
      → allocate_batch c clock a requests ≡ finished b results
      → (ids_of results ≡ ids (c.get_allocation_order a requests).0)
        × Perm (c.get_allocation_order a requests).0 requests
        × (length results ≡ length requests)
        × Tally a.metrics results b.metrics
  unfolding allocate_batch
  allocate_batch_finished a b requests results e =
      let (ordered, a') = c.get_allocation_order a requests in
      let (new, split, same, tally) = allocate_each-Adds a' b ordered [] results e in
      let permuted = lawful.order-Perm a requests in
      let same_ids = ap ids_of split ∙ same in
      (
        same_ids,
        permuted,
        length_of_ids results ordered same_ids ∙ length-Perm permuted,
        subst (λ m. Tally m results b.metrics) (lawful.order_metrics a requests)
            (subst (λ xs. Tally a'.metrics xs b.metrics) (sym split) tally),
      )
