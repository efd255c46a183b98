-- ===== src/Allocation/Orders.antt =====
-- core/resources/allocation.py: the orders of allocation.
use puffinfloww.Base.{
  ℕ, true, false, none, some, ◌-◌, Bool-cases, inl, inr, [], ◌∷◌, ◌+◌, ap, ◌∙◌, refl, subst,
  fun_ext, ◌&&◌, if◌then◌else◌, ◌*◌, ◌≡◌, arith, Bool, List, leb, ◌==◌, filter, sort_by, IsSortedBy,
  sort_by-Perm, sort_by-IsSortedBy, sort_by-filter, Perm,
}
use puffinfloww.ResourcePool.{
  ResourceType, cpu, memory, io, network, gpu, all_types, Requirements, required, Pool, allocate,
  allocation_for,
}
use puffinfloww.Allocation.{AllocationRequest, Allocator}
use puffinfloww.Allocation.Fit.{
  Plain, first_fit, best_fit, worst_fit, remaining_of, less_waste, more_remaining, calculate_waste,
  calculate_remaining,
}
use puffinfloww.Allocation.HeapQueue.{HeapQueue, Requests}
use puffinfloww.Allocation.PriorityQueue.{
  Weights, weight_of, priority_allocator, weighted_allocator,
}
use puffinfloww.Allocation.FairShare.{History, fair_share, usage_of}

-- `ordered` has the requests of `requests`, in an order in which the keys follow `leq`, and equal
-- keys keep the order they had.
abbrev pub IsOrder :
    (ℕ → ℕ → Bool)
    → (AllocationRequest → ℕ)
    → List AllocationRequest
    → List AllocationRequest
    → Type 0
IsOrder leq key requests ordered =
    Perm ordered requests
    × IsSortedBy (λ r s. leq (key r) (key s)) ordered
    × ((k : ℕ) → filter (λ r. key r == k) ordered ≡ filter (λ r. key r == k) requests)

abbrev pub ascending : ℕ → ℕ → Bool
ascending m n = leb m n

abbrev pub descending : ℕ → ℕ → Bool
descending m n = leb n m

module _ (key : AllocationRequest → ℕ) (requests : List AllocationRequest) where
  sort_by-ascending : IsOrder ascending key requests (sort_by (λ r s. leb (key r) (key s)) requests)
  sort_by-ascending = (
    sort_by-Perm _ requests,
    sort_by-IsSortedBy (λ r s. leb (key r) (key s)) (λ x y h. grind arith)
        (λ x y z h k. grind arith) requests,
    λ k.
        sort_by-filter (λ r s. leb (key r) (key s)) (λ r. key r == k) requests
          (λ x y h j. grind arith),
  )

  sort_by-descending :
      IsOrder descending key requests (sort_by (λ r s. leb (key s) (key r)) requests)
  sort_by-descending = (
    sort_by-Perm _ requests,
    sort_by-IsSortedBy (λ r s. leb (key s) (key r)) (λ x y h. grind arith)
        (λ x y z h k. grind arith) requests,
    λ k.
        sort_by-filter (λ r s. leb (key s) (key r)) (λ r. key r == k) requests
          (λ x y h j. grind arith),
  )

-- How much of all the resources would be left by an allocation to a request, of the types that the
-- request names and that have enough for it.
abbrev pub left_of : Pool → Requirements → ResourceType → ℕ
left_of p req t =
    if req.resource_types t && leb (required req t) (p.available t)
    then (allocate p 0 req 0).available t
    else 0

abbrev pub left_after : Pool → Requirements → ℕ
left_after p req =
    left_of p req cpu
    + (left_of p req memory
        + (left_of p req io + (left_of p req network + (left_of p req gpu + 0))))

available-allocate :
    (p : Pool) (req : Requirements) (t : ResourceType)
    → req.resource_types t ≡ true
    → (allocate p 0 req 0).available t ≡ p.available t - required req t
unfolding allocate allocation_for
available-allocate p req t named =
    ap (λ a. p.available t - elim a [ none ↦ 0 | some n ↦ n ])
      (given_named (req.resource_types t) named)
  where
    given_named :
        (b : Bool) → b ≡ true → (if b then some (required req t) else none) ≡ some (required req t)
    given_named true e = refl
    given_named false e = cc

left_of-step :
    (p : Pool) (req : Requirements) (t : ResourceType) (ts : List ResourceType)
    → remaining_of p req (t ∷ ts) ≡ left_of p req t + remaining_of p req ts
unfolding remaining_of
left_of-step p req t ts = elim (Bool-cases (req.resource_types t)) [
  | inl named ↦ ground (arith, named, available-allocate p req t named)
  | inr other ↦ ground (arith, other)
]

remaining_of-left_after :
    (p : Pool) (req : Requirements) → remaining_of p req all_types ≡ left_after p req
unfolding remaining_of
remaining_of-left_after p req =
    left_of-step p req cpu (memory ∷ io ∷ network ∷ gpu ∷ [])
    ∙ ap (λ n. left_of p req cpu + n)
        (left_of-step p req memory (io ∷ network ∷ gpu ∷ [])
          ∙ ap (λ n. left_of p req memory + n)
              (left_of-step p req io (network ∷ gpu ∷ [])
                ∙ ap (λ n. left_of p req io + n)
                    (left_of-step p req network (gpu ∷ [])
                      ∙ ap (λ n. left_of p req network + n) (left_of-step p req gpu []))))

calculate_waste-left_after :
    (p : Pool) (req : Requirements) → calculate_waste p req ≡ left_after p req
unfolding calculate_waste
calculate_waste-left_after p req = remaining_of-left_after p req

calculate_remaining-left_after :
    (p : Pool) (req : Requirements) → calculate_remaining p req ≡ left_after p req
unfolding calculate_remaining
calculate_remaining-left_after p req = remaining_of-left_after p req

-- The order of each allocator: first come first, least left after an allocation by the pool's own
-- `allocate` of the types that the request names and that have enough for it (`left_after`), most left
-- after it, highest priority, least used and highest weighted priority. All keep every request, and do
-- not exchange requests with equal keys.
pub get_allocation_order-IsOrder :
    (heap : HeapQueue) (p : Allocator Plain) (q : Allocator Requests) (h : Allocator History)
    (w : Allocator Weights) (requests : List AllocationRequest)
    → IsOrder ascending (λ r. r.timestamp) requests (first_fit.get_allocation_order p requests).0
      × IsOrder ascending
          (λ r. left_after p.resource_pool r.requirements)
          requests
          (best_fit.get_allocation_order p requests).0
      × IsOrder descending
          (λ r. left_after p.resource_pool r.requirements)
          requests
          (worst_fit.get_allocation_order p requests).0
      × IsOrder descending
          (λ r. r.priority)
          requests
          ((priority_allocator heap).get_allocation_order q requests).0
      × IsOrder ascending
          (λ r. usage_of r.requester_id h.own)
          requests
          (fair_share.get_allocation_order h requests).0
      × IsOrder descending
          (λ r. r.priority * weight_of w.own r)
          requests
          ((weighted_allocator heap).get_allocation_order w requests).0
unfolding first_fit best_fit worst_fit priority_allocator fair_share weighted_allocator
get_allocation_order-IsOrder heap p q h w requests = (
  sort_by-ascending (λ r. r.timestamp) requests,
  subst (λ key. IsOrder ascending key requests (sort_by (less_waste p.resource_pool) requests))
      (fun_ext (λ r. calculate_waste-left_after p.resource_pool r.requirements))
      (sort_by-ascending (λ r. calculate_waste p.resource_pool r.requirements) requests),
  subst (λ key. IsOrder descending key requests (sort_by (more_remaining p.resource_pool) requests))
      (fun_ext (λ r. calculate_remaining-left_after p.resource_pool r.requirements))
      (sort_by-descending (λ r. calculate_remaining p.resource_pool r.requirements) requests),
  sort_by-descending (λ r. r.priority) requests,
  sort_by-ascending (λ r. usage_of r.requester_id h.own) requests,
  sort_by-descending (λ r. r.priority * weight_of w.own r) requests,
)
