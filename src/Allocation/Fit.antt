-- ===== src/Allocation/Fit.antt =====
-- core/resources/allocation.py: FirstFitAllocator, BestFitAllocator and WorstFitAllocator. The waste
-- that BestFitAllocator.allocate computes goes to the log only.
use puffinfloww.Base.{ℕ, ◌+◌, ◌-◌, Bool, some, List, [], ◌∷◌, leb, if◌then◌else◌, sort_by}
use puffinfloww.ResourcePool.{ResourceType, all_types, Requirements, required, Pool}
use puffinfloww.Allocation.{
  AllocationRequest, insufficient_resources, succeeded, refused, acquire, acquired, denied, blocked,
  failed, Allocator, Outcome, returned, returned_none, raised, suspended, ResourceAllocator,
}

-- The allocators without attributes of their own.
abbrev pub Plain : Type 0
Plain = Unit {0}

unfoldable pub allocate_fit : Allocator Plain → AllocationRequest → (start now : ℕ) → Outcome Plain
unfolding acquire succeeded refused
allocate_fit a request start now =
    elim (acquire a.resource_pool request.request_id request.requirements (some 0) start now) [
      | acquired p ↦ returned (record a { resource_pool = p }) (succeeded request start now)
      | denied p ↦
          returned (record a { resource_pool = p })
            (refused request insufficient_resources start now)
      | blocked p ↦ suspended (record a { resource_pool = p })
      | failed p e ↦ raised (record a { resource_pool = p }) e
    ]

unfoldable pub remaining_of : Pool → Requirements → List ResourceType → ℕ
remaining_of p req [] = 0
remaining_of p req (t ∷ ts) =
    let rest = remaining_of p req ts in
    if req.resource_types t
    then (if leb (required req t) (p.available t)
        then (p.available t - required req t) + rest
        else rest)
    else rest

unfoldable pub calculate_waste : Pool → Requirements → ℕ
unfolding remaining_of
calculate_waste p req = remaining_of p req all_types

unfoldable pub calculate_remaining : Pool → Requirements → ℕ
unfolding remaining_of
calculate_remaining p req = remaining_of p req all_types

abbrev pub earlier : AllocationRequest → AllocationRequest → Bool
earlier r s = leb r.timestamp s.timestamp

abbrev pub less_waste : Pool → AllocationRequest → AllocationRequest → Bool
less_waste p r s = leb (calculate_waste p r.requirements) (calculate_waste p s.requirements)

abbrev pub more_remaining : Pool → AllocationRequest → AllocationRequest → Bool
more_remaining p r s =
    leb (calculate_remaining p s.requirements) (calculate_remaining p r.requirements)

unfoldable pub first_fit : ResourceAllocator Plain
unfolding allocate_fit sort_by
first_fit = record {
  allocate = allocate_fit;
  get_allocation_order = λ a requests. (sort_by earlier requests, a);
}

unfoldable pub best_fit : ResourceAllocator Plain
unfolding allocate_fit sort_by calculate_waste
best_fit = record {
  allocate = allocate_fit;
  get_allocation_order = λ a requests. (sort_by (less_waste a.resource_pool) requests, a);
}

-- `super().allocate` is the abstract method, which returns None.
unfoldable pub worst_fit : ResourceAllocator Plain
unfolding sort_by calculate_remaining
worst_fit = record {
  allocate = λ a request start now. returned_none a;
  get_allocation_order = λ a requests. (sort_by (more_remaining a.resource_pool) requests, a);
}
