-- ===== src/Allocation/HeapQueue.antt =====
-- What core/resources/allocation.py relies on in Python's heapq: a heap of requests that gives out
-- one that no other is less than. Which of several equals it gives out is left open.
use puffinfloww.Base.{
  ◌≡◌, refl, arith, Bool, true, false, List, [], ◌∷◌, leb, All, insert_sorted, insert_sorted-Perm,
  insert_sorted-IsSortedBy, IsSortedBy, Perm,
}
use mathlib.Core.List.Perm
use puffinfloww.Allocation.{AllocationRequest}

-- `r` is not behind `s` under `__lt__`: its priority is at least as high.
abbrev pub precedes : AllocationRequest → AllocationRequest → Bool
precedes r s = leb s.priority r.priority

abbrev pub Requests : Type 0
Requests = List AllocationRequest

pub precedes_total : (r s : AllocationRequest) → precedes r s ≡ false → precedes s r ≡ true
precedes_total r s h = grind arith

pub precedes_trans :
    (r s t : AllocationRequest) → precedes r s ≡ true → precedes s t ≡ true → precedes r t ≡ true
precedes_trans r s t h k = grind arith

pub record HeapQueue : Type 1 where
  pub heappush : AllocationRequest → Requests → Requests
  -- `heappop` of the heap with this head and tail.
  pub heappop : AllocationRequest → Requests → AllocationRequest × Requests
  pub IsHeap : Requests → Type 0
  pub heappush-Perm : (r : AllocationRequest) (h : Requests) → Perm (heappush r h) (r ∷ h)
  pub heappush-IsHeap : (r : AllocationRequest) (h : Requests) → IsHeap h → IsHeap (heappush r h)
  pub heappop-Perm :
      (r : AllocationRequest) (h : Requests) → Perm ((heappop r h).0 ∷ (heappop r h).1) (r ∷ h)
  pub heappop-IsHeap :
      (r : AllocationRequest) (h : Requests) → IsHeap (r ∷ h) → IsHeap (heappop r h).1
  pub heappop_first :
      (r : AllocationRequest) (h : Requests)
      → IsHeap (r ∷ h)
      → All (λ s. precedes (heappop r h).0 s ≡ true) (heappop r h).1
  pub heappush-nil : (r : AllocationRequest) → heappush r [] ≡ r ∷ []
  pub heappop_single : (r : AllocationRequest) → heappop r [] ≡ (r, [])

-- A sorted list is such a heap.
unfoldable pub sorted_queue : HeapQueue
unfolding insert_sorted
sorted_queue = record {
  heappush = insert_sorted precedes;
  heappop = λ r h. (r, h);
  IsHeap = IsSortedBy precedes;
  heappush-Perm = insert_sorted-Perm precedes;
  heappush-IsHeap = insert_sorted-IsSortedBy precedes precedes_total precedes_trans;
  heappop-Perm = λ r h. Perm.refl (r ∷ h);
  heappop-IsHeap = λ r h s. s.1;
  heappop_first = λ r h s. s.0;
  heappush-nil = λ r. refl;
  heappop_single = λ r. refl;
}
