-- ===== src/Allocation/Factory.antt =====
-- core/resources/allocation.py: create_allocator.
pub data AllocationStrategy : Type 0 where
  first_fit best_fit worst_fit priority fair_share round_robin weighted : AllocationStrategy

pub data AllocatorClass : Type 0 where
  first_fit_allocator best_fit_allocator worst_fit_allocator : AllocatorClass
  priority_allocator fair_share_allocator weighted_allocator : AllocatorClass

-- The class of the allocator: `allocators.get(strategy, FirstFitAllocator)`.
unfoldable pub create_allocator : AllocationStrategy → AllocatorClass
create_allocator first_fit = first_fit_allocator
create_allocator best_fit = best_fit_allocator
create_allocator worst_fit = worst_fit_allocator
create_allocator priority = priority_allocator
create_allocator fair_share = fair_share_allocator
create_allocator weighted = weighted_allocator
create_allocator round_robin = first_fit_allocator
