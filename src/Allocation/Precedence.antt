-- ===== src/Allocation/Precedence.antt =====
-- core/resources/allocation.py: what the queue of PriorityAllocator guarantees.
use puffinfloww.Base.{
  ==→eq, ==→ne, ℕ, zero, suc, ◌≤◌, ◌≡◌, refl, Bool-cases, inl, inr, [], ◌∷◌, length, length-Perm,
  arith, ◌==◌,
}
use mathlib.Core.List.Perm
use puffinfloww.ResourcePool.{Pool, Requirements, validate_requirements, check_quota, can_allocate}
use puffinfloww.Allocation.{
  AllocationRequest, AllocationResult, AllocationMetrics, queued_for_resources, succeeded, refused,
  Allocator, Outcome, returned, returned_none, raised, suspended,
}
use puffinfloww.Allocation as A
use puffinfloww.Allocation.Acquiring.{given, answer, acquire_now}
use puffinfloww.Allocation.HeapQueue.{HeapQueue, Requests}
use puffinfloww.Allocation.PriorityQueue.{process, allocate_by_priority}
use puffinfloww.Allocation.Serving.{Serves-cons, Serves-nil, Ending, Ending-Perm, Ending-cons}

-- The two tests for free resources agree.
pub can_allocate_same :
    (a : Allocator Requests) (req : Requirements)
    → A.can_allocate a req ≡ can_allocate a.resource_pool req
unfolding A.can_allocate can_allocate
can_allocate_same a req = refl

module _ (heap : HeapQueue) (request : AllocationRequest) (start now : ℕ) where
  abbrev pub allocator : Pool → AllocationMetrics → Requests → Allocator Requests
  allocator p m q = record { resource_pool = p; metrics = m; own = q }

  -- One run of the loop, where the runs after it end well.
  turn :
      (n : ℕ) (p : Pool) (m : AllocationMetrics) (x : AllocationRequest) (xs : Requests)
      → heap.IsHeap (x ∷ xs)
      → ((p' : Pool)
          → Ending request start now
              (heap.heappop x xs).1
              p'
              (process heap n (allocator p' m (heap.heappop x xs).1) request start now))
      → Ending request start now
          ((heap.heappop x xs).0 ∷ (heap.heappop x xs).1)
          p
          (process heap (suc n) (allocator p m (x ∷ xs)) request start now)
  unfolding process answer
  turn n p m x xs h later =
      let next = (heap.heappop x xs).0 in
      let rest = (heap.heappop x xs).1 in
      let first = heap.heappop_first x xs h in
      elim (Bool-cases (can_allocate p next.requirements)) [
        | inr short ↦
            rw (process, can_allocate_same (allocator p m (x ∷ xs)) next.requirements, short)
              (inr (
                refl,
                (
                  [],
                  tt,
                  Serves-nil request start now (next ∷ rest) (heap.heappush next rest) p
                      (Perm.symm (heap.heappush-Perm next rest)),
                  inr (next, rest, heap.heappush-Perm next rest, short, first),
                ),
              ))
        | inl free ↦
            rw
              (
                process,
                can_allocate_same (allocator p m (x ∷ xs)) next.requirements,
                free,
                acquire_now p next.request_id next.requirements start now,
              )
              (elim (Bool-cases (validate_requirements p next.requirements)) [
                | inr bad ↦
                    rw (answer, bad)
                      (
                        [],
                        next,
                        tt,
                        Serves-nil request start now _ _ p (Perm.refl _),
                        refl,
                        ground (arith, bad),
                        first,
                      )
                | inl valid ↦ elim (Bool-cases (check_quota p next.request_id next.requirements)) [
                  | inr over ↦
                      rw (answer, valid, over)
                        (
                          [],
                          next,
                          tt,
                          Serves-nil request start now _ _ p (Perm.refl _),
                          refl,
                          ground (arith, valid, over),
                          first,
                        )
                  | inl within ↦
                      rw (answer, valid, within, free)
                        (elim (Bool-cases (next.request_id == request.request_id)) [
                          | inl ours ↦ rw ours (
                              inl (
                                refl,
                                (
                                  next ∷ [],
                                  inl (==→eq _ _ ours, refl),
                                  Serves-cons request start now next rest p _ [] rest free first
                                      (Serves-nil request start now rest rest _ (Perm.refl _)),
                                ),
                              ))
                          | inr other ↦ rw other (
                              Ending-cons request start now next rest p _ free first
                                (==→ne _ _ other)
                                (later (given p next.request_id next.requirements start now)))
                        ])
                ]
              ])
      ]

  process_lem :
      (n : ℕ) (p : Pool) (m : AllocationMetrics) (q : Requests)
      → heap.IsHeap q
      → length q ≤ n
      → Ending request start now q p (process heap n (allocator p m q) request start now)
  unfolding process
  process_lem zero p m [] h enough =
      inr (refl, ([], tt, Serves-nil request start now [] [] p (Perm.refl []), inl refl))
  process_lem (suc n) p m [] h enough =
      inr (refl, ([], tt, Serves-nil request start now [] [] p (Perm.refl []), inl refl))
  process_lem zero p m (x ∷ xs) h enough = ground arith
  process_lem (suc n) p m (x ∷ xs) h enough =
      let same = heap.heappop-Perm x xs in
      let shorter = length-Perm same in
      Ending-Perm request start now _ (x ∷ xs) p _ (Perm.symm same) (
        turn n p m x xs h (λ p'.
          process_lem n p' m (heap.heappop x xs).1 (heap.heappop-IsHeap x xs h) (omega arith)))

  -- `allocate` of PriorityAllocator, from a heap, does not wait and loses no request but one that makes
  -- it raise. It serves requests of its own and of the queue in an order of priority, each when it
  -- fits: each precedes those served after it and those left. It returns a success if its own is the last
  -- served, and a failure if that is not served and either nothing is left or a request is that does
  -- not fit and precedes the others left. It raises if the request that precedes the others left is too
  -- large for the pool's totals or its quota. The pool is the one
  -- after the grants of the served, and where it raises with that request off its waiting list.
  pub allocate_by_priority-Ending :
      (a : Allocator Requests)
      → heap.IsHeap a.own
      → Ending request start now
          (request ∷ a.own)
          a.resource_pool
          (allocate_by_priority heap a request start now)
  unfolding allocate_by_priority
  allocate_by_priority-Ending a h =
      Ending-Perm request start now _ (request ∷ a.own) a.resource_pool _
        (Perm.symm (heap.heappush-Perm request a.own))
        (process_lem (length (heap.heappush request a.own)) a.resource_pool a.metrics
          (heap.heappush request a.own) (heap.heappush-IsHeap request a.own h) (omega arith))
