-- ===== src/TaskQueue.antt =====
-- core/scheduler/queue.py: `PriorityQueue`. `heapq` keeps the smallest tuple in front, so the heap
-- is the list of its entries in the order in which it gives them up. Every method runs under the
-- queue's lock without suspending, but for the wait in `dequeue`.
pub mod Heap
pub mod Invariant
pub mod Paused
pub mod Waiting
pub mod Fronts
pub mod Refines
pub mod Delayed
pub mod DeadLetter
pub mod Router
pub mod Samples
use puffinfloww.Base.{
  ℕ, suc, ◌+◌, ◌-◌, Bool, true, false, ◌&&◌, ◌||◌, Option, none, some, List, [], ◌∷◌, ◌++◌, Dict,
  ◌==◌, ltb, leb, if◌then◌else◌, length, is_empty, get, get_or, put, pop, ℤ, neg, ltb_ℤ, pos,
}

pub data QueueStatus : Type 0 where
  active paused draining stopped : QueueStatus

-- The tuple (-priority, counter, item).
pub record Entry {ℓ} (A : Type ℓ) : Type ℓ where
  pub key : ℤ
  pub counter : ℕ
  pub item : A

-- Tuples are compared by the key and then by the counter; no two entries share a counter.
abbrev pub before {ℓ} : {A : Type ℓ} → Entry A → Entry A → Bool
before e f =
    if ltb_ℤ e.key f.key then true else if ltb_ℤ f.key e.key then false else ltb e.counter f.counter

-- `heapq.heappush`
unfoldable pub heappush {ℓ} : {A : Type ℓ} → Entry A → List (Entry A) → List (Entry A)
heappush e [] = e ∷ []
heappush e (f ∷ h) = if before e f then e ∷ f ∷ h else f ∷ heappush e h

pub record PriorityQueue {ℓ} (A : Type ℓ) : Type ℓ where
  pub capacity : Option ℕ
  pub drop_oldest : Bool
  pub queue : List (Entry A)
  pub counter : ℕ
  pub enqueued_total : ℕ
  pub dequeued_total : ℕ
  pub dropped_total : ℕ
  pub wait_times : List ℕ
  pub enqueue_times : Dict ℕ
  pub status : QueueStatus

abbrev pub accepts : QueueStatus → Bool
accepts draining = false
accepts stopped = false
accepts _ = true

abbrev pub is_stopped : QueueStatus → Bool
is_stopped stopped = true
is_stopped _ = false

abbrev pub is_active : QueueStatus → Bool
is_active active = true
is_active _ = false

-- `self.capacity and len(self._queue) >= self.capacity`
abbrev pub at_capacity : Option ℕ → ℕ → Bool
at_capacity none n = false
at_capacity (some c) n = if c == 0 then false else leb c n

-- `deque(maxlen=1000).append`
abbrev pub append_bounded : List ℕ → ℕ → List ℕ
append_bounded [] t = t ∷ []
append_bounded (x ∷ xs) t =
    if ltb 1000 (length ((x ∷ xs) ++ t ∷ [])) then xs ++ t ∷ [] else (x ∷ xs) ++ t ∷ []

-- `blocks`: the call waits for a notification; it returns None if its time runs out, and else runs
-- again.
pub data Dequeued {ℓ} (A : Type ℓ) : Type ℓ where
  got : PriorityQueue A → Option A → Dequeued A
  blocks : Dequeued A

module _ {ℓ} {A : Type ℓ} where
  unfoldable pub create : Option ℕ → Bool → PriorityQueue A
  create capacity drop_oldest = record {
    capacity = capacity;
    drop_oldest = drop_oldest;
    queue = [];
    counter = 0;
    enqueued_total = 0;
    dequeued_total = 0;
    dropped_total = 0;
    wait_times = [];
    enqueue_times = [];
    status = active;
  }

  unfoldable pub push_item : PriorityQueue A → A → ℤ → ℕ → PriorityQueue A
  push_item q item priority now =
      let n = q.counter + 1 in
      record q {
        counter = n;
        queue = heappush (record { key = neg priority; counter = n; item = item }) q.queue;
        enqueue_times = put n now q.enqueue_times;
        enqueued_total = q.enqueued_total + 1;
      }

  -- What `enqueue` does first with a queue that is full and may drop: it pops the heap.
  unfoldable pub drop_front : PriorityQueue A → PriorityQueue A
  drop_front q = elim q.queue [
    | [] ↦ q
    | e ∷ rest ↦ record q {
      queue = rest;
      enqueue_times = pop e.counter q.enqueue_times;
      dropped_total = q.dropped_total + 1;
    }
  ]

  unfoldable pub enqueue : PriorityQueue A → A → ℤ → ℕ → PriorityQueue A × Bool
  unfolding push_item drop_front
  enqueue q item priority now =
      if accepts q.status
      then (if at_capacity q.capacity (length q.queue)
          then (if q.drop_oldest
              then (push_item (drop_front q) item priority now, true)
              else (q, false))
          else (push_item q item priority now, true))
      else (q, false)

  unfoldable pub take_front : PriorityQueue A → Entry A → List (Entry A) → ℕ → ℕ → PriorityQueue A
  take_front q e rest start now = record q {
    queue = rest;
    enqueue_times = pop e.counter q.enqueue_times;
    wait_times = append_bounded q.wait_times (now - get_or e.counter q.enqueue_times start);
    dequeued_total = q.dequeued_total + 1;
  }

  unfoldable pub dequeue : PriorityQueue A → (start now : ℕ) → Dequeued A
  unfolding take_front
  dequeue q start now = if is_stopped q.status then got q none else elim q.queue [
    | [] ↦ if is_active q.status then blocks else got q none
    | e ∷ rest ↦ got (take_front q e rest start now) (some e.item)
  ]

  unfoldable pub peek : PriorityQueue A → Option A
  peek q = elim q.queue [ [] ↦ none | e ∷ rest ↦ some e.item ]

  unfoldable pub size : PriorityQueue A → ℕ
  size q = length q.queue

  unfoldable pub clear : PriorityQueue A → PriorityQueue A × ℕ
  clear q = (record q { queue = []; enqueue_times = [] }, length q.queue)

  unfoldable pub set_status : PriorityQueue A → QueueStatus → PriorityQueue A
  set_status q s = record q { status = s }
