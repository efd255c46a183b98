-- ===== src/Allocation/Serving.antt =====
-- core/resources/allocation.py: what it is to serve a queue of requests in an order of priority, and how
-- a call of PriorityAllocator ends.
use puffinfloww.Base.{
  ◌≢◌, ◌++◌, ◌&&◌, Perm, All-Perm, Name, ℕ, ◌≡◌, refl, inl, inr, ◌⊎◌, true, false, [], ◌∷◌, All,
}
use mathlib.Core.List.Perm
use puffinfloww.ResourcePool.{Pool, validate_requirements, check_quota, can_allocate}
use puffinfloww.Allocation.{
  AllocationRequest, queued_for_resources, succeeded, refused, Allocator, Outcome, returned,
  returned_none, raised, suspended,
}
use puffinfloww.Allocation.Acquiring.{untaken, given}
use puffinfloww.Allocation.HeapQueue.{Requests, precedes}

-- The pool after it has granted the requests, one after another.
abbrev pub serve_all : Pool → Requests → (start now : ℕ) → Pool
serve_all p [] start now = p
serve_all p (r ∷ rs) start now =
    serve_all (given p r.request_id r.requirements start now) rs start now

-- Each of the requests fits when it is granted.
abbrev pub Fitting : Pool → Requests → (start now : ℕ) → Type 0
Fitting p [] start now = Unit {0}
Fitting p (r ∷ rs) start now =
    (can_allocate p r.requirements ≡ true)
    × Fitting (given p r.request_id r.requirements start now) rs start now

-- Each of the requests precedes those granted after it and those left.
abbrev pub Ahead : (served left : Requests) → Type 0
Ahead [] left = Unit {0}
Ahead (r ∷ rs) left = All (λ s. precedes r s ≡ true) (rs ++ left) × Ahead rs left

-- The last of the requests is the only one with this id.
abbrev pub EndsWith : Name → Requests → Type 0
EndsWith id [] = ⊥
EndsWith id (r ∷ rs) = ((r.request_id ≡ id) × (rs ≡ [])) ⊎ ((r.request_id ≢ id) × EndsWith id rs)

-- Of the requests of a queue some are served by the pool, in an order of priority, and the others are
-- left.
pub record Serves (q : Requests) (p : Pool) (start now : ℕ) (served left : Requests) (p' : Pool)
    : Type 0 where
  pub all : Perm q (served ++ left)
  pub ahead : Ahead served left
  pub fitting : Fitting p served start now
  pub pool : p' ≡ serve_all p served start now

module _ (request : AllocationRequest) (start now : ℕ) where
  -- The request of the call is the last that is served.
  abbrev pub Success : Requests → Pool → Allocator Requests → Type 0
  Success q p b =
      (served : Requests) × EndsWith request.request_id served
      × Serves q p start now served b.own b.resource_pool

  -- The request of the call is not served. Nothing is left, or a request is left that does not fit and
  -- precedes all the others that are.
  abbrev pub Failure : Requests → Pool → Allocator Requests → Type 0
  Failure q p b =
      (served : Requests) × All (λ r. r.request_id ≢ request.request_id) served
      × Serves q p start now served b.own b.resource_pool
      × ((b.own ≡ [])
          ⊎ ((next : AllocationRequest) × (rest : Requests) × Perm b.own (next ∷ rest)
              × (can_allocate b.resource_pool next.requirements ≡ false)
              × All (λ s. precedes next s ≡ true) rest))

  -- A request is taken off the queue that the pool does not take: it asks for more than there is at
  -- all, or than its quota.
  abbrev pub Raise : Requests → Pool → Allocator Requests → Type 0
  Raise q p b =
      (served : Requests) × (bad : AllocationRequest) × All (λ r. r.request_id ≢ request.request_id)
        served
      × Serves q p start now served (bad ∷ b.own) (serve_all p served start now)
      × (b.resource_pool ≡ untaken (serve_all p served start now) bad.request_id)
      × (validate_requirements (serve_all p served start now) bad.requirements
            && check_quota (serve_all p served start now) bad.request_id bad.requirements
          ≡ false)
      × All (λ s. precedes bad s ≡ true) b.own

  -- How a call with this queue and this pool ends.
  abbrev pub Ending : Requests → Pool → Outcome Requests → Type 0
  Ending q p (returned b result) =
      ((result ≡ succeeded request start now) × Success q p b)
      ⊎ ((result ≡ refused request queued_for_resources start now) × Failure q p b)
  Ending q p (returned_none b) = ⊥
  Ending q p (raised b e) = Raise q p b
  Ending q p (suspended b) = ⊥

  Serves-Perm :
      (q q' : Requests) (p p' : Pool) (served left : Requests)
      → Perm q' q
      → Serves q p start now served left p'
      → Serves q' p start now served left p'
  Serves-Perm q q' p p' served left same s = record {
    all = Perm.trans same s.all;
    ahead = s.ahead;
    fitting = s.fitting;
    pool = s.pool;
  }

  -- One request more is served before.
  pub Serves-cons :
      (next : AllocationRequest) (rest : Requests) (p p' : Pool) (served left : Requests)
      → can_allocate p next.requirements ≡ true
      → All (λ s. precedes next s ≡ true) rest
      → Serves rest (given p next.request_id next.requirements start now) start now served left p'
      → Serves (next ∷ rest) p start now (next ∷ served) left p'
  Serves-cons next rest p p' served left free first s = record {
    all = Perm.cons _ s.all;
    ahead = (All-Perm (precedes next) rest (served ++ left) s.all first, s.ahead);
    fitting = (free, s.fitting);
    pool = s.pool;
  }

  pub Serves-nil : (q left : Requests) (p : Pool) → Perm q left → Serves q p start now [] left p
  Serves-nil q left p same = record { all = same; ahead = tt; fitting = tt; pool = refl }

  pub Ending-Perm :
      (q q' : Requests) (p : Pool) (o : Outcome Requests) → Perm q' q → Ending q p o → Ending q' p o
  Ending-Perm q q' p (returned b result) same (inl (good, (served, ends, s))) =
      inl (good, (served, ends, Serves-Perm q q' p _ served b.own same s))
  Ending-Perm q q' p (returned b result) same (inr (bad, (served, others, s, end_))) =
      inr (bad, (served, others, Serves-Perm q q' p _ served b.own same s, end_))
  Ending-Perm q q' p (returned_none b) same e = e
  Ending-Perm q q' p (raised b e) same (served, bad, others, s, pool, refusal, after) =
      (served, bad, others, Serves-Perm q q' p _ served (bad ∷ b.own) same s, pool, refusal, after)
  Ending-Perm q q' p (suspended b) same e = e

  pub Ending-cons :
      (next : AllocationRequest) (rest : Requests) (p : Pool) (o : Outcome Requests)
      → can_allocate p next.requirements ≡ true
      → All (λ s. precedes next s ≡ true) rest
      → next.request_id ≢ request.request_id
      → Ending rest (given p next.request_id next.requirements start now) o
      → Ending (next ∷ rest) p o
  Ending-cons next rest p (returned b result) free first other (inl (good, (served, ends, s))) =
      inl (
        good,
        (next ∷ served, inr (other, ends), Serves-cons next rest p _ served b.own free first s),
      )
  Ending-cons next rest p (returned b result) free first other
        (inr (bad, (served, others, s, end_))) =
      inr (
        bad,
        (next ∷ served, (other, others), Serves-cons next rest p _ served b.own free first s, end_),
      )
  Ending-cons next rest p (returned_none b) free first other e = e
  Ending-cons next rest p (raised b e) free first other
        (served, bad, others, s, pool, refusal, after) =
      (
        next ∷ served,
        bad,
        (other, others),
        Serves-cons next rest p _ served (bad ∷ b.own) free first s,
        pool,
        refusal,
        after,
      )
  Ending-cons next rest p (suspended b) free first other e = e
