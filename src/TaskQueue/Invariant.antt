-- ===== src/TaskQueue/Invariant.antt =====
-- core/scheduler/queue.py: what a `PriorityQueue` keeps through any history of calls.
use puffinfloww.Base.{
  ℕ, suc, ◌+◌, ◌≤◌, ◌<◌, ◌≡◌, ◌≢◌, ◌⊎◌, ◌&&◌, refl, ap, subst, inl, inr, Bool, true, false, Option,
  none, some, List, [], ◌∷◌, arith, length, All, contains, Distinct, ℤ, neg, Bool-cases, List-cases,
  get, pop, has, get-put, get-pop,
}
use puffinfloww.TaskQueue.{
  Entry, PriorityQueue, QueueStatus, accepts, at_capacity, is_stopped, create, push_item,
  drop_front, enqueue, got, blocks, take_front, dequeue, clear, set_status,
}
use puffinfloww.TaskQueue.Heap.{
  IsSorted, counters, All-heappush, IsSorted-heappush, length-heappush, contains-counters-heappush,
  Distinct-heappush,
}

pub data Call {ℓ} (A : Type ℓ) : Type ℓ where
  enqueues : A → (priority : ℤ) (now : ℕ) → Call A
  dequeues : (start now : ℕ) → Call A
  clears : Call A
  sets_status : QueueStatus → Call A

abbrev pub Fits : Option ℕ → ℕ → Type 0
Fits none n = Unit {0}
Fits (some c) n = (c ≢ 0 → n ≤ c)

Fits-zero : (c : Option ℕ) → Fits c 0
Fits-zero none = tt
Fits-zero (some c) = λ ne. omega arith

Fits-of_room : (c : Option ℕ) (n : ℕ) → at_capacity c n ≡ false → Fits c (suc n)
Fits-of_room none n h = tt
Fits-of_room (some c) n h = λ ne. ground arith

pub record WellFormed {ℓ} {A : Type ℓ} (q : PriorityQueue A) : Type ℓ where
  pub sorted : IsSorted q.queue
  pub distinct : Distinct (counters q.queue)
  pub fresh : All (λ e. e.counter < q.counter + 1) q.queue
  pub fits : Fits q.capacity (length q.queue)
  pub timed : (n : ℕ) → has n q.enqueue_times ≡ contains n (counters q.queue)

module _ {ℓ} {A : Type ℓ} where
  -- The queue after a call, and how many items a `clear` took out.
  unfoldable pub step : PriorityQueue A → Call A → PriorityQueue A × ℕ
  step q (enqueues item priority now) = ((enqueue q item priority now).0, 0)
  step q (dequeues start now) = elim (dequeue q start now) [ got q' r ↦ (q', 0) | blocks ↦ (q, 0) ]
  step q clears = clear q
  step q (sets_status s) = (set_status q s, 0)

  unfoldable pub run : PriorityQueue A → List (Call A) → PriorityQueue A × ℕ
  run q [] = (q, 0)
  run q (c ∷ cs) = let (q', n) = step q c in let (q'', m) = run q' cs in (q'', n + m)

  All-weaken :
      (n : ℕ) (h : List (Entry A)) → All (λ e. e.counter < n) h → All (λ e. e.counter < n + 1) h
  All-weaken n [] a = tt
  All-weaken n (e ∷ h) a = (let less = a.0 in omega arith, All-weaken n h a.1)

  push_item-WellFormed :
      (q : PriorityQueue A) (item : A) (priority : ℤ) (now : ℕ)
      → Fits q.capacity (suc (length q.queue))
      → WellFormed q
      → WellFormed (push_item q item priority now)
  unfolding push_item
  push_item-WellFormed q item priority now room w =
      let e : Entry A = record { key = neg priority; counter = q.counter + 1; item = item } in
      record {
        sorted = IsSorted-heappush e q.queue w.fresh w.sorted;
        distinct = Distinct-heappush e q.queue w.fresh w.distinct;
        fresh =
            All-heappush (λ f. f.counter < q.counter + 1 + 1) e q.queue (omega arith)
              (All-weaken (q.counter + 1) q.queue w.fresh);
        fits = rw (length-heappush e q.queue) room;
        timed = λ n. ground (
          arith,
          w.timed n,
          get-put n (q.counter + 1) now q.enqueue_times,
          contains-counters-heappush n e q.queue,
        );
      }

  -- Taking the front entry out, whatever else the call writes.
  module _ (q : PriorityQueue A) (e : Entry A) (rest : List (Entry A)) (front : q.queue ≡ e ∷ rest)
      (w : WellFormed q) where
    pub front-IsSorted : IsSorted (e ∷ rest)
    front-IsSorted = subst IsSorted front w.sorted

    front-Distinct : Distinct (counters (e ∷ rest))
    front-Distinct = subst (λ h. Distinct (counters h)) front w.distinct

    front_fresh : All (λ f. f.counter < q.counter + 1) (e ∷ rest)
    front_fresh = subst (All (λ f. f.counter < q.counter + 1)) front w.fresh

    front_timed : (n : ℕ) → has n (pop e.counter q.enqueue_times) ≡ contains n (counters rest)
    unfolding contains
    front_timed n =
        let apart = front-Distinct.0 in
        let known = w.timed n in
        ground (
          arith,
          known,
          ap (λ h. contains n (counters h)) front,
          get-pop n e.counter q.enqueue_times,
          apart,
        )

    front_room : Fits q.capacity (suc (length rest))
    front_room = subst (λ h. Fits q.capacity (length h)) front w.fits

    Fits-pred : (c : Option ℕ) → Fits c (suc (length rest)) → Fits c (length rest)
    Fits-pred none f = tt
    Fits-pred (some n) f = λ ne. let less = f ne in omega arith

    drop_front-WellFormed : (c : Option ℕ) → q.capacity ≡ c → WellFormed (drop_front q)
    unfolding drop_front
    drop_front-WellFormed c same =
        rw (front, drop_front)
          (record {
            sorted = front-IsSorted.1;
            distinct = front-Distinct.1;
            fresh = front_fresh.1;
            fits = Fits-pred q.capacity front_room;
            timed = front_timed;
          })

    take_front-WellFormed : (start now : ℕ) → WellFormed (take_front q e rest start now)
    unfolding take_front
    take_front-WellFormed start now = record {
      sorted = front-IsSorted.1;
      distinct = front-Distinct.1;
      fresh = front_fresh.1;
      fits = Fits-pred q.capacity front_room;
      timed = front_timed;
    }

    drop_front_room : Fits (drop_front q).capacity (suc (length (drop_front q).queue))
    unfolding drop_front
    drop_front_room = rw (front, drop_front) front_room

  full_nonempty : (c : Option ℕ) (h : List (Entry A)) → at_capacity c (length h) ≡ true → h ≢ []
  full_nonempty none h e = cc
  full_nonempty (some c) [] e = ground arith
  full_nonempty (some c) (x ∷ h) e = ground arith

  -- The three ways in which a call of `enqueue` ends.
  pub enqueue_cases :
      (q : PriorityQueue A) (item : A) (priority : ℤ) (now : ℕ)
      → (enqueue q item priority now ≡ (q, false))
        ⊎ ((at_capacity q.capacity (length q.queue) ≡ false)
            × (enqueue q item priority now ≡ (push_item q item priority now, true)))
        ⊎ ((e : Entry A) × (rest : List (Entry A)) × (q.queue ≡ e ∷ rest)
            × (enqueue q item priority now ≡ (push_item (drop_front q) item priority now, true)))
  unfolding enqueue
  enqueue_cases q item priority now = elim (List-cases q.queue) [
    | inl none_left ↦
        let never = full_nonempty q.capacity q.queue in
        ground (arith, full_nonempty q.capacity q.queue)
    | inr (e, rest, front) ↦ elim (Bool-cases q.drop_oldest) [
      | inl drops ↦
          elim (Bool-cases (accepts q.status && at_capacity q.capacity (length q.queue))) [
            | inl full ↦ inr (inr (e, rest, front, ground arith))
            | inr other ↦ ground arith
          ]
      | inr keeps ↦ ground arith
    ]
  ]

  enqueue-WellFormed :
      (q : PriorityQueue A) (item : A) (priority : ℤ) (now : ℕ)
      → WellFormed q
      → WellFormed (enqueue q item priority now).0
  enqueue-WellFormed q item priority now w = elim (enqueue_cases q item priority now) [
    | inl e ↦ rw e w
    | inr (inl (room, e)) ↦
        rw e (push_item-WellFormed q item priority now (Fits-of_room q.capacity _ room) w)
    | inr (inr (x, rest, front, e)) ↦ rw e (
        push_item-WellFormed (drop_front q) item priority now (drop_front_room q x rest front w)
          (drop_front-WellFormed q x rest front w q.capacity refl))
  ]

  -- The three ways in which a call of `dequeue` ends.
  pub dequeue_cases :
      (q : PriorityQueue A) (start now : ℕ)
      → (dequeue q start now ≡ blocks)
        ⊎ (dequeue q start now ≡ got q none)
        ⊎ ((e : Entry A) × (rest : List (Entry A)) × (q.queue ≡ e ∷ rest)
            × (dequeue q start now ≡ got (take_front q e rest start now) (some e.item)))
  unfolding dequeue
  dequeue_cases q start now = elim (List-cases q.queue) [
    | inl none_left ↦ ground arith
    | inr (e, rest, front) ↦ elim (Bool-cases (is_stopped q.status)) [
      | inl stop ↦ ground arith
      | inr runs ↦ inr (inr (e, rest, front, ground arith))
    ]
  ]

  dequeue-WellFormed :
      (q : PriorityQueue A) (start now : ℕ)
      → WellFormed q
      → WellFormed (step q (dequeues start now)).0
  unfolding step
  dequeue-WellFormed q start now w = elim (dequeue_cases q start now) [
    | inl e ↦ rw (e, step) w
    | inr (inl e) ↦ rw (e, step) w
    | inr (inr (x, rest, front, e)) ↦
        rw (e, step) (take_front-WellFormed q x rest front w start now)
  ]

  clear-WellFormed : (q : PriorityQueue A) → WellFormed q → WellFormed (clear q).0
  unfolding clear get contains
  clear-WellFormed q w = record {
    sorted = tt;
    distinct = tt;
    fresh = tt;
    fits = Fits-zero q.capacity;
    timed = λ n. refl;
  }

  pub step-WellFormed : (q : PriorityQueue A) (c : Call A) → WellFormed q → WellFormed (step q c).0
  unfolding step set_status
  step-WellFormed q (enqueues item priority now) w = enqueue-WellFormed q item priority now w
  step-WellFormed q (dequeues start now) w = dequeue-WellFormed q start now w
  step-WellFormed q clears w = clear-WellFormed q w
  step-WellFormed q (sets_status s) w = record {
    sorted = w.sorted;
    distinct = w.distinct;
    fresh = w.fresh;
    fits = w.fits;
    timed = w.timed;
  }

  run-WellFormed :
      (q : PriorityQueue A) (cs : List (Call A)) → WellFormed q → WellFormed (run q cs).0
  unfolding run
  run-WellFormed q [] w = w
  run-WellFormed q (c ∷ cs) w = run-WellFormed (step q c).0 cs (step-WellFormed q c w)

  create-WellFormed :
      (capacity : Option ℕ) (drops : Bool) → WellFormed (create {A = A} capacity drops)
  unfolding create get contains
  create-WellFormed capacity drops = record {
    sorted = tt;
    distinct = tt;
    fresh = tt;
    fits = Fits-zero capacity;
    timed = λ n. refl;
  }

  -- The counters of a queue against its content.
  abbrev pub Accounts : PriorityQueue A → ℕ → Type 0
  Accounts q cleared =
      q.enqueued_total ≡ q.dequeued_total + q.dropped_total + length q.queue + cleared

  step-Accounts :
      (q : PriorityQueue A) (c : Call A) (n : ℕ)
      → Accounts q n
      → Accounts (step q c).0 (n + (step q c).1)
  unfolding step
  step-Accounts q (enqueues item priority now) n a = elim (enqueue_cases q item priority now) [
    | inl e ↦ rw (e, step) (omega arith)
    | inr (inl (room, e)) ↦
        rw (e, step)
          (unfold push_item in
            omega (
              arith,
              length-heappush (record { key = neg priority; counter = q.counter + 1; item = item })
                  q.queue,
            ))
    | inr (inr (x, rest, front, e)) ↦
        rw (e, step)
          (unfold push_item drop_front in
            ground (
              arith,
              a,
              front,
              length-heappush (record { key = neg priority; counter = q.counter + 1; item = item })
                  rest,
            ))
  ]
  step-Accounts q (dequeues start now) n a = elim (dequeue_cases q start now) [
    | inl e ↦ rw (e, step) (omega arith)
    | inr (inl e) ↦ rw (e, step) (omega arith)
    | inr (inr (x, rest, front, e)) ↦
        rw (e, step) (unfold take_front in omega (arith, ap length front))
  ]
  step-Accounts q clears n a = unfold clear in omega arith
  step-Accounts q (sets_status s) n a = unfold set_status in omega arith

  run-Accounts :
      (q : PriorityQueue A) (cs : List (Call A)) (n : ℕ)
      → Accounts q n
      → Accounts (run q cs).0 (n + (run q cs).1)
  unfolding run
  run-Accounts q [] n a = omega arith
  run-Accounts q (c ∷ cs) n a =
      let tail = run-Accounts (step q c).0 cs (n + (step q c).1) (step-Accounts q c n a) in
      omega arith

-- After any history of calls on a new queue: the heap is in order with no counter twice, it is
-- within the capacity (where that is not 0), exactly the entries in it have an enqueue time, and
-- every item that was enqueued was dequeued, dropped or cleared, or is still there.
pub run-create-Accounts {ℓ} :
    {A : Type ℓ} (capacity : Option ℕ) (drops : Bool) (cs : List (Call A))
    → let r = run (create capacity drops) cs in WellFormed r.0 × Accounts r.0 r.1
run-create-Accounts capacity drops cs = (
  run-WellFormed (create capacity drops) cs (create-WellFormed capacity drops),
  (let accounts = run-Accounts (create capacity drops) cs 0 (unfold create in omega arith) in
      omega arith),
)
