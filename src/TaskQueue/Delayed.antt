-- ===== src/TaskQueue/Delayed.antt =====
-- core/scheduler/queue.py: `DelayedQueue`. The ready queue is the list of the items put into it.
use puffinfloww.Base.{
  ℕ, zero, suc, subst, ◌+◌, ◌≡◌, refl, ◌∙◌, inl, inr, Bool, true, false, Option, List, [], ◌∷◌,
  ◌++◌, arith, if◌then◌else◌, All, sym, pos, neg, leb_ℤ, pop,
}
use mathlib.Core.List.{append-nil, append_assoc}
use puffinfloww.TaskQueue.Heap.{All-heappush}
use puffinfloww.TaskQueue.Invariant.{enqueue_cases}
use puffinfloww.TaskQueue.{Entry, PriorityQueue, enqueue, create, push_item, drop_front, is_stopped}

pub record DelayedQueue {ℓ} (A : Type ℓ) : Type ℓ where
  pub base : PriorityQueue A
  pub ready : List A

pub data Submission {ℓ} (A : Type ℓ) : Type ℓ where
  at : A → (run_at now : ℕ) → Submission A
  delayed : A → (delay now : ℕ) → Submission A

module _ {ℓ} {A : Type ℓ} where
  -- `enqueue_at`: the priority is the negated timestamp.
  unfoldable pub enqueue_at : DelayedQueue A → A → ℕ → ℕ → DelayedQueue A × Bool
  enqueue_at d item run_at now =
      let (q, taken) = enqueue d.base item (neg (pos run_at)) now in (record d { base = q }, taken)

  -- `enqueue_delayed`
  unfoldable pub enqueue_delayed : DelayedQueue A → A → ℕ → ℕ → DelayedQueue A × Bool
  unfolding enqueue_at
  enqueue_delayed d item delay now = enqueue_at d item (now + delay) now

  -- The inner loop of `_process_delayed` at the time `now`, over the entries of the heap.
  unfoldable pub process : List (Entry A) → DelayedQueue A → ℕ → DelayedQueue A
  process [] d now = record d { base = record (d.base) { queue = [] } }
  process (e ∷ rest) d now =
      let next =
        process rest
          (record d {
            base = record (d.base) { enqueue_times = pop e.counter d.base.enqueue_times };
            ready = d.ready ++ e.item ∷ [];
          })
          now in
      if leb_ℤ (neg e.key) (pos now)
      then next
      else record d { base = record (d.base) { queue = e ∷ rest } }

  unfoldable pub process_delayed : DelayedQueue A → ℕ → DelayedQueue A
  unfolding process
  process_delayed d now = if is_stopped d.base.status then d else process d.base.queue d now

  unfoldable pub items : List (Entry A) → List A
  items [] = []
  items (e ∷ h) = e.item ∷ items h

  -- The entry passes the test of `_process_delayed` at every time.
  abbrev Due : Entry A → Type 0
  Due e = (now : ℕ) → leb_ℤ (neg e.key) (pos now) ≡ true

  process_all :
      (h : List (Entry A)) (d : DelayedQueue A) (now : ℕ)
      → All Due h
      → ((process h d now).base.queue ≡ []) × ((process h d now).ready ≡ d.ready ++ items h)
  unfolding process items
  process_all [] d now a = (refl, sym (append-nil d.ready))
  process_all (e ∷ h) d now a =
      let due = a.0 now in
      let next = record d {
        base = record (d.base) { enqueue_times = pop e.counter d.base.enqueue_times };
        ready = d.ready ++ e.item ∷ [];
      } in
      let (emptied, moved) = process_all h next now a.1 in
      ground (arith, due, emptied, moved, append_assoc d.ready (e.item ∷ []) (items h))

  unfoldable pub submit : DelayedQueue A → List (Submission A) → DelayedQueue A
  submit d [] = d
  submit d (at item run_at now ∷ ss) = submit (enqueue_at d item run_at now).0 ss
  submit d (delayed item delay now ∷ ss) = submit (enqueue_delayed d item delay now).0 ss

  Due-timestamp :
      (item : A) (run_at counter : ℕ)
      → Due (record { key = neg (neg (pos run_at)); counter = counter; item = item })
  Due-timestamp item zero counter now = ground arith
  Due-timestamp item (suc t) counter now = ground arith

  All-Due_front :
      (q : PriorityQueue A) (e : Entry A) (rest : List (Entry A))
      → q.queue ≡ e ∷ rest
      → All Due q.queue
      → All Due (drop_front q).queue
  unfolding drop_front
  All-Due_front q e rest front a = let a' = subst (All Due) front a in rw (front, drop_front) a'.1

  enqueue_at-Due :
      (d : DelayedQueue A) (item : A) (run_at now : ℕ)
      → All Due d.base.queue
      → All Due (enqueue_at d item run_at now).0.base.queue
  unfolding enqueue_at
  enqueue_at-Due d item run_at now a = elim (enqueue_cases d.base item (neg (pos run_at)) now) [
    | inl e ↦ rw (e, enqueue_at) a
    | inr (inl (room, e)) ↦
        rw (e, enqueue_at)
          (unfold push_item in
            All-heappush Due _ d.base.queue (Due-timestamp item run_at (d.base.counter + 1)) a)
    | inr (inr (x, rest, front, e)) ↦
        rw (e, enqueue_at)
          (unfold push_item in
            All-heappush Due _ (drop_front d.base).queue
              (Due-timestamp item run_at ((drop_front d.base).counter + 1))
              (All-Due_front d.base x rest front a))
  ]

  submit-Due :
      (d : DelayedQueue A) (ss : List (Submission A))
      → All Due d.base.queue
      → All Due (submit d ss).base.queue
  unfolding submit enqueue_delayed
  submit-Due d [] a = a
  submit-Due d (at item run_at now ∷ ss) a =
      submit-Due (enqueue_at d item run_at now).0 ss (enqueue_at-Due d item run_at now a)
  submit-Due d (delayed item delay now ∷ ss) a =
      submit-Due (enqueue_at d item (now + delay) now).0 ss
        (enqueue_at-Due d item (now + delay) now a)

  enqueue_at-status :
      (d : DelayedQueue A) (item : A) (run_at now : ℕ)
      → is_stopped (enqueue_at d item run_at now).0.base.status ≡ is_stopped d.base.status
  unfolding enqueue_at push_item drop_front
  enqueue_at-status d item run_at now = elim (enqueue_cases d.base item (neg (pos run_at)) now) [
    | inl e ↦ ground (arith, e)
    | inr (inl (room, e)) ↦ ground (arith, e)
    | inr (inr (x, rest, front, e)) ↦ ground (arith, e, front)
  ]

  submit-status :
      (d : DelayedQueue A) (ss : List (Submission A))
      → is_stopped (submit d ss).base.status ≡ is_stopped d.base.status
  unfolding submit enqueue_delayed
  submit-status d [] = refl
  submit-status d (at item run_at now ∷ ss) =
      submit-status (enqueue_at d item run_at now).0 ss ∙ enqueue_at-status d item run_at now
  submit-status d (delayed item delay now ∷ ss) =
      submit-status (enqueue_at d item (now + delay) now).0 ss
      ∙ enqueue_at-status d item (now + delay) now

  -- However far in the future the items were to run, the first pass of `_process_delayed` over a
  -- new queue to which they were submitted, at whatever time it runs, empties the heap and makes
  -- every item ready.
  pub process_delayed_all :
      (capacity : Option ℕ) (ss : List (Submission A)) (now : ℕ)
      → let d = submit (record { base = create capacity false; ready = [] }) ss in
        ((process_delayed d now).base.queue ≡ [])
        × ((process_delayed d now).ready ≡ d.ready ++ items d.base.queue)
  unfolding process_delayed create
  process_delayed_all capacity ss now =
      let start : DelayedQueue A = record { base = create capacity false; ready = [] } in
      let d = submit start ss in
      rw (submit-status start ss, process_delayed)
        (process_all d.base.queue d now (submit-Due start ss tt))
