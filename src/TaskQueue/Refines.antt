-- ===== src/TaskQueue/Refines.antt =====
-- core/scheduler/queue.py: `PriorityQueue` does what is promised of it.
use puffinfloww.Base.{
  ℕ, ◌+◌, ◌<◌, ◌≡◌, refl, sym, ap, subst, ◌∙◌, ◌⊎◌, inl, inr, Bool, true, false, Option, none, some,
  List, [], ◌∷◌, arith, if◌then◌else◌, length, All, Bool-cases, List-cases, ℤ, neg, neg-neg,
}
use puffinfloww.TaskQueue.{
  Entry, heappush, PriorityQueue, active, accepts, is_stopped, is_active, at_capacity, create,
  push_item, drop_front, enqueue, got, blocks, take_front, dequeue, peek, size, clear, set_status,
}
use puffinfloww.TaskQueue.Invariant.{Call, enqueues, dequeues, clears, sets_status}
use puffinfloww.TaskQueue.Waiting.{
  Answer, took, gave, waits, cleared, done, Waiting, take_highest, without_highest, highest,
  with_item, expected, all_expected,
}
use puffinfloww.TaskQueue.Fronts.{heap_of, seen, seen_all, Decreasing, length-heap_of, takes}

module _ {ℓ} {A : Type ℓ} where
  -- What a call does.
  abbrev pub observed : PriorityQueue A → Call A → PriorityQueue A × Answer A
  observed q (enqueues item priority now) =
      let (q', taken) = enqueue q item priority now in (q', took taken)
  observed q (dequeues start now) = elim (dequeue q start now) [
    | got q' r ↦ (q', gave r)
    | blocks ↦ (q, waits)
  ]
  observed q clears = let (q', n) = clear q in (q', cleared n)
  observed q (sets_status s) = (set_status q s, done)

  -- The answers of a history of calls, and what `peek` and `size` answer after each.
  abbrev pub all_observed : PriorityQueue A → List (Call A) → List (Answer A × Option A × ℕ)
  all_observed q [] = []
  all_observed q (c ∷ cs) = let (q', a) = observed q c in (a, peek q', size q') ∷ all_observed q' cs

  -- The heap of the queue is made of the waiting items, pushed in the order of their counters.
  record Shows (q : PriorityQueue A) (s : Waiting A) : Type ℓ where
    entries : List (Entry A)
    queue : q.queue ≡ heap_of entries
    pending : s.pending ≡ seen_all entries
    decreasing : Decreasing entries
    fresh : All (λ e. e.counter < q.counter + 1) entries
    limit : s.limit ≡ q.capacity
    drops : s.drops ≡ q.drop_oldest
    state : s.state ≡ q.status

  record Front (q : PriorityQueue A) (s : Waiting A) : Type ℓ where
    first : Entry A
    others : List (Entry A)
    front : q.queue ≡ first ∷ heap_of others
    best : take_highest s.pending ≡ some (seen first, seen_all others)
    decreasing : Decreasing others
    fresh : All (λ e. e.counter < q.counter + 1) others

  -- Both are empty, or both have a front.
  Shows-Front :
      (q : PriorityQueue A) (s : Waiting A)
      → Shows q s
      → ((q.queue ≡ []) × (take_highest s.pending ≡ none)) ⊎ Front q s
  Shows-Front q s w = elim (List-cases w.entries) [
    | inl empty ↦ inl (w.queue ∙ ap heap_of empty, ap take_highest (w.pending ∙ ap seen_all empty))
    | inr (e, es, split) ↦
        let (b, rest, t) = takes e es (subst Decreasing split w.decreasing) in
        inr (record {
          first = b;
          others = rest;
          front = w.queue ∙ ap heap_of split ∙ t.front;
          best = ap take_highest (w.pending ∙ ap seen_all split) ∙ t.best;
          decreasing = t.decreasing;
          fresh =
              (t.split (λ x. x.counter < q.counter + 1)
                (subst (All (λ x. x.counter < q.counter + 1)) split w.fresh)).1;
        })
  ]

  Shows-length :
      (q : PriorityQueue A) (s : Waiting A) → Shows q s → length q.queue ≡ length s.pending
  Shows-length q s w = ap length w.queue ∙ length-heap_of w.entries ∙ sym (ap length w.pending)

  Shows-peek : (q : PriorityQueue A) (s : Waiting A) → Shows q s → peek q ≡ highest s
  unfolding peek
  Shows-peek q s w = elim (Shows-Front q s w) [
    | inl (empty, nothing) ↦ rw (empty, highest, nothing)
    | inr f ↦ rw (f.front, highest, f.best)
  ]

  drop_front-Shows :
      (q : PriorityQueue A) (s : Waiting A) → Shows q s → Shows (drop_front q) (without_highest s)
  unfolding drop_front
  drop_front-Shows q s w = elim (Shows-Front q s w) [
    | inl (empty, nothing) ↦ rw (drop_front, empty, without_highest, nothing) w
    | inr f ↦
        rw (drop_front, f.front, without_highest, f.best)
          (record {
            entries = f.others;
            queue = refl;
            pending = refl;
            decreasing = f.decreasing;
            fresh = f.fresh;
            limit = w.limit;
            drops = w.drops;
            state = w.state;
          })
  ]

  All-below :
      (n : ℕ) (es : List (Entry A)) → All (λ e. e.counter < n) es → All (λ e. e.counter < n + 1) es
  All-below n [] a = tt
  All-below n (e ∷ es) a = (let less = a.0 in omega arith, All-below n es a.1)

  push_item-Shows :
      (q : PriorityQueue A) (s : Waiting A) (item : A) (priority : ℤ) (now : ℕ)
      → Shows q s
      → Shows (push_item q item priority now) (with_item item priority s)
  unfolding push_item
  push_item-Shows q s item priority now w =
      let e : Entry A = record { key = neg priority; counter = q.counter + 1; item = item } in
      record {
        entries = e ∷ w.entries;
        queue = ap (heappush e) w.queue;
        pending =
            ap (λ p. (p, item) ∷ s.pending) (sym (neg-neg priority))
            ∙ ap (λ xs. (neg (neg priority), item) ∷ xs) w.pending;
        decreasing = (w.fresh, w.decreasing);
        fresh = (omega arith, All-below (q.counter + 1) w.entries w.fresh);
        limit = w.limit;
        drops = w.drops;
        state = w.state;
      }

  -- A call answers as expected, and leaves the queue as expected.
  abbrev Agrees : PriorityQueue A × Answer A → Waiting A × Answer A → Type ℓ
  Agrees (q, a) (s, b) = (a ≡ b) × Shows q s

  Agrees-by :
      (p p' : PriorityQueue A × Answer A) (r r' : Waiting A × Answer A)
      → p ≡ p'
      → r ≡ r'
      → Agrees p' r'
      → Agrees p r
  Agrees-by p p' r r' e f a = subst (λ x. Agrees x r) (sym e) (subst (Agrees p') (sym f) a)

  enqueue-Agrees :
      (q : PriorityQueue A) (s : Waiting A) (item : A) (priority : ℤ) (now : ℕ)
      → Shows q s
      → Agrees (observed q (enqueues item priority now)) (expected s (enqueues item priority now))
  unfolding enqueue
  enqueue-Agrees q s item priority now w =
      let open_ = ap accepts w.state in
      let full =
        ap (λ c. at_capacity c (length s.pending)) w.limit
        ∙ ap (at_capacity q.capacity) (sym (Shows-length q s w)) in
      let added : PriorityQueue A × Answer A = (push_item q item priority now, took true) in
      elim (Bool-cases (accepts q.status)) [
        | inr shut ↦
            Agrees-by _ (q, took false) _ (s, took false) (ground (arith, shut))
              (ground (arith, shut, open_)) (refl, w)
        | inl opened ↦ elim (Bool-cases (at_capacity q.capacity (length q.queue))) [
          | inr room ↦
              Agrees-by _ added _ (with_item item priority s, took true)
                (ground (arith, opened, room)) (ground (arith, opened, open_, room, full))
                (refl, push_item-Shows q s item priority now w)
          | inl no_room ↦ elim (Bool-cases q.drop_oldest) [
            | inr keeps ↦
                Agrees-by _ (q, took false) _ (s, took false)
                  (ground (arith, opened, no_room, keeps))
                  (ground (arith, opened, open_, no_room, full, keeps, w.drops)) (refl, w)
            | inl drops ↦
                Agrees-by _ (push_item (drop_front q) item priority now, took true) _
                  (with_item item priority (without_highest s), took true)
                  (ground (arith, opened, no_room, drops))
                  (ground (arith, opened, open_, no_room, full, drops, w.drops))
                  (refl, push_item-Shows _ _ item priority now (drop_front-Shows q s w))
          ]
        ]
      ]

  dequeue-Agrees :
      (q : PriorityQueue A) (s : Waiting A) (start now : ℕ)
      → Shows q s
      → Agrees (observed q (dequeues start now)) (expected s (dequeues start now))
  unfolding dequeue take_front
  dequeue-Agrees q s start now w =
      let state = w.state in
      elim (Bool-cases (is_stopped q.status)) [
        | inl stops ↦
            Agrees-by _ (q, gave none) _ (s, gave none) (ground (arith, stops))
              (ground (arith, stops, ap is_stopped state)) (refl, w)
        | inr runs ↦ elim (Shows-Front q s w) [
          | inl (empty, nothing) ↦
              let answer : Answer A = if is_active q.status then waits else gave none in
              Agrees-by _ (q, answer) _ (s, answer) (ground (arith, runs, empty))
                (ground (arith, runs, nothing, ap is_stopped state, ap is_active state)) (refl, w)
          | inr f ↦
              Agrees-by _
                (take_front q f.first (heap_of f.others) start now, gave (some f.first.item)) _
                (record s { pending = seen_all f.others }, gave (some f.first.item))
                (ground (arith, runs, f.front)) (ground (arith, runs, f.best, ap is_stopped state))
                (
                  refl,
                  record {
                    entries = f.others;
                    queue = refl;
                    pending = refl;
                    decreasing = f.decreasing;
                    fresh = f.fresh;
                    limit = w.limit;
                    drops = w.drops;
                    state = w.state;
                  },
                )
        ]
      ]

  observed-Agrees :
      (q : PriorityQueue A) (s : Waiting A) (c : Call A)
      → Shows q s
      → Agrees (observed q c) (expected s c)
  unfolding clear set_status
  observed-Agrees q s (enqueues item priority now) w = enqueue-Agrees q s item priority now w
  observed-Agrees q s (dequeues start now) w = dequeue-Agrees q s start now w
  observed-Agrees q s clears w = (
    ap cleared (Shows-length q s w),
    record {
      entries = [];
      queue = refl;
      pending = refl;
      decreasing = tt;
      fresh = tt;
      limit = w.limit;
      drops = w.drops;
      state = w.state;
    },
  )
  observed-Agrees q s (sets_status state) w = (
    refl,
    record {
      entries = w.entries;
      queue = w.queue;
      pending = w.pending;
      decreasing = w.decreasing;
      fresh = w.fresh;
      limit = w.limit;
      drops = w.drops;
      state = refl;
    },
  )

  row_eq : (o p : Answer A × Option A × ℕ) → o.0 ≡ p.0 → o.1 ≡ p.1 → o.2 ≡ p.2 → o ≡ p
  row_eq o p e f g =
      ap (λ x. (x, o.1, o.2)) e ∙ ap (λ x. (p.0, x, o.2)) f ∙ ap (λ x. (p.0, p.1, x)) g

  all_observed_lem :
      (q : PriorityQueue A) (s : Waiting A) (cs : List (Call A))
      → Shows q s
      → all_observed q cs ≡ all_expected s cs
  unfolding size
  all_observed_lem q s [] w = refl
  all_observed_lem q s (c ∷ cs) w =
      let (answer, next) = observed-Agrees q s c w in
      let q' = (observed q c).0 in
      let s' = (expected s c).0 in
      let now_ = row_eq _ _ answer (Shows-peek q' s' next) (Shows-length q' s' next) in
      ap (λ x. x ∷ all_observed q' cs) now_
      ∙ ap (λ xs. ((expected s c).1, highest s', length s'.pending) ∷ xs)
          (all_observed_lem q' s' cs next)

  -- Through any history of calls on a new queue, `enqueue`, `dequeue`, `clear`, `peek` and `size`
  -- answer as a plain list of items that is searched for the highest priority and among those for the
  -- oldest: `dequeue` takes that item out and gives it, `peek` shows it, and a full queue that may
  -- drop takes it out to make room.
  pub run-create_refines :
      (capacity : Option ℕ) (drop_oldest : Bool) (cs : List (Call A))
      → all_observed (create capacity drop_oldest) cs
        ≡ all_expected
            (record { pending = []; limit = capacity; drops = drop_oldest; state = active })
            cs
  unfolding create
  run-create_refines capacity drop_oldest cs = all_observed_lem _ _ cs (record {
    entries = [];
    queue = refl;
    pending = refl;
    decreasing = tt;
    fresh = tt;
    limit = refl;
    drops = refl;
    state = refl;
  })
