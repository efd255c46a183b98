-- ===== src/TaskQueue/DeadLetter.antt =====
-- core/scheduler/queue.py: `DeadLetterQueue`. The identity of an item and its truth value are
-- parameters; the error notes in an item's metadata are left out.
use puffinfloww.Base.{
  ℕ, zero, suc, ◌+◌, ◌-◌, ◌*◌, ◌^◌, ◌≤◌, ◌<◌, ◌≡◌, refl, sym, ap, subst, All, Option-cases, ◌∙◌,
  inl, inr, Bool, true, false, ◌&&◌, Option, none, some, List, [], ◌∷◌, Name, Dict, arith,
  if◌then◌else◌, length, leb, ◌==◌, get_or, put, pos, Bool-cases, List-cases, ==→ne,
}
use puffinfloww.TaskQueue.{
  Entry, PriorityQueue, stopped, accepts, is_stopped, at_capacity, create, enqueue, push_item, got,
  blocks, dequeue, take_front,
}
use puffinfloww.TaskQueue.Heap.{length-heappush}
use puffinfloww.TaskQueue.Invariant.{WellFormed, Fits}

pub record DeadLetterQueue {ℓ} (A : Type ℓ) : Type ℓ where
  pub base : PriorityQueue A
  pub max_retries : ℕ
  pub retry_delay : ℕ
  pub retry_counts : Dict ℕ
  pub original_queue : Option (PriorityQueue A)

room_of_Fits : (c : Option ℕ) (n m : ℕ) → Fits c (n + suc m) → at_capacity c n ≡ false
room_of_Fits none n m f = refl
room_of_Fits (some c) n m f = elim (Bool-cases (c == 0)) [
  | inl zero_ ↦ rw zero_
  | inr above ↦ ground (arith, above, f (==→ne c 0 above))
]

Fits-less : (c : Option ℕ) (n m : ℕ) → n ≤ m → Fits c m → Fits c n
Fits-less none n m le f = tt
Fits-less (some c) n m le f = λ ne. let k = f ne in omega arith

runs_of_accepts {ℓ} :
    {A : Type ℓ} (q : PriorityQueue A) → accepts q.status ≡ true → is_stopped q.status ≡ false
runs_of_accepts q a = ground arith

module _ {ℓ} {A : Type ℓ} (identity : A → Name) where
  unfoldable pub create_dead : Option ℕ → ℕ → ℕ → DeadLetterQueue A
  create_dead capacity max_retries retry_delay = record {
    base = create capacity true;
    max_retries = max_retries;
    retry_delay = retry_delay;
    retry_counts = [];
    original_queue = none;
  }

  unfoldable pub set_original_queue : DeadLetterQueue A → PriorityQueue A → DeadLetterQueue A
  set_original_queue d q = record d { original_queue = some q }

  unfoldable pub enqueue_dead : DeadLetterQueue A → A → ℕ → DeadLetterQueue A × Bool
  enqueue_dead d item now =
      let (q, taken) = enqueue d.base item (pos 0) now in (record d { base = q }, taken)

  abbrev has_original : DeadLetterQueue A → Bool
  has_original d = elim d.original_queue [ none ↦ false | some q ↦ true ]

  -- The last component says whether a task was created that retries the item.
  unfoldable pub enqueue_failed : DeadLetterQueue A → A → Bool → ℕ → DeadLetterQueue A × Bool × Bool
  unfolding enqueue_dead
  enqueue_failed d item retry now =
      let n = get_or (identity item) d.retry_counts 0 + 1 in
      let d' = record d { retry_counts = put (identity item) n d.retry_counts } in
      if retry && (leb n d.max_retries && has_original d)
      then (d', true, true)
      else (let (d'', taken) = enqueue_dead d' item now in (d'', taken, false))

  -- `_schedule_retry` before its sleep, for a count above 0.
  unfoldable pub delay_of_retry : DeadLetterQueue A → A → ℕ
  delay_of_retry d item = d.retry_delay * 2 ^ (get_or (identity item) d.retry_counts 0 - 1)

  -- `_schedule_retry` after its sleep
  unfoldable pub retry_item : DeadLetterQueue A → A → ℕ → DeadLetterQueue A
  unfolding enqueue_dead
  retry_item d item now = elim d.original_queue [
    | none ↦ d
    | some q ↦
        let (q', taken) = enqueue q item (pos 0) now in
        let d' = record d { original_queue = some q' } in
        if taken then d' else (enqueue_dead d' item now).0
  ]

  -- The first loop of `reprocess_all`, on fuel: `none` where it runs out.
  unfoldable pub drain :
      (truthy : A → Bool) → ℕ → PriorityQueue A → ℕ → Option (List A × PriorityQueue A)
  drain truthy zero q now = none
  drain truthy (suc fuel) q now = elim q.queue [
    | [] ↦ some ([], q)
    | e ∷ rest ↦ elim (dequeue q now now) [
      | blocks ↦ none
      | got q' none ↦ drain truthy fuel q' now
      | got q' (some item) ↦ elim (drain truthy fuel q' now) [
        | none ↦ none
        | some (items, last) ↦ some (if truthy item then item ∷ items else items, last)
      ]
    ]
  ]

  -- The second loop, and the count that it adds up.
  unfoldable pub requeue :
      DeadLetterQueue A → PriorityQueue A → List A → ℕ → DeadLetterQueue A × PriorityQueue A × ℕ
  unfolding enqueue_dead
  requeue d q [] now = (d, q, 0)
  requeue d q (item ∷ items) now =
      let d' = record d { retry_counts = put (identity item) 0 d.retry_counts } in
      let (q', taken) = enqueue q item (pos 0) now in
      if taken
      then (let (d'', q'', n) = requeue d' q' items now in (d'', q'', n + 1))
      else requeue (enqueue_dead d' item now).0 q' items now

  -- The fuel for the first loop is one more than the number of items in the queue.
  unfoldable pub reprocess_all :
      (truthy : A → Bool) → DeadLetterQueue A → ℕ → Option (DeadLetterQueue A × ℕ)
  unfolding drain requeue
  reprocess_all truthy d now = elim d.original_queue [
    | none ↦ some (d, 0)
    | some q ↦ elim (drain truthy (suc (length d.base.queue)) d.base now) [
      | none ↦ none
      | some (items, last) ↦
          let (d', q', n) = requeue (record d { base = last }) q items now in
          some (record d' { original_queue = some q' }, n)
    ]
  ]

  -- On a stopped queue that holds an item the first loop does not end: no fuel is enough.
  pub drain_never_ends :
      (truthy : A → Bool) (fuel : ℕ) (q : PriorityQueue A) (now : ℕ) (e : Entry A)
      (rest : List (Entry A))
      → q.status ≡ stopped
      → q.queue ≡ e ∷ rest
      → drain truthy fuel q now ≡ none
  unfolding drain dequeue
  drain_never_ends truthy zero q now e rest s front = refl
  drain_never_ends truthy (suc fuel) q now e rest s front =
      ground (arith, s, front, drain_never_ends truthy fuel q now e rest s front)

  record Drained (truthy : A → Bool) (fuel : ℕ) (q : PriorityQueue A) (now : ℕ) : Type ℓ where
    items : List A
    last : PriorityQueue A
    ends : drain truthy fuel q now ≡ some (items, last)
    emptied : last.queue ≡ []
    status : last.status ≡ q.status
    capacity : last.capacity ≡ q.capacity
    all : length items ≡ length q.queue

  drain_step :
      (truthy : A → Bool) (fuel : ℕ) (q : PriorityQueue A) (now : ℕ) (e : Entry A)
      (rest : List (Entry A)) (items : List A) (last : PriorityQueue A)
      → is_stopped q.status ≡ false
      → q.queue ≡ e ∷ rest
      → drain truthy fuel (take_front q e rest now now) now ≡ some (items, last)
      → truthy e.item ≡ true
      → drain truthy (suc fuel) q now ≡ some (e.item ∷ items, last)
  unfolding drain dequeue
  drain_step truthy fuel q now e rest items last runs front ends t =
      ground (arith, runs, front, ends, t)

  drain-Drained :
      (truthy : A → Bool) (fuel : ℕ) (q : PriorityQueue A) (now : ℕ)
      → All (λ e. truthy e.item ≡ true) q.queue
      → is_stopped q.status ≡ false
      → length q.queue < fuel
      → Drained truthy fuel q now
  unfolding drain take_front
  drain-Drained truthy zero q now t runs enough = ground arith
  drain-Drained truthy (suc fuel) q now t runs enough = elim (List-cases q.queue) [
    | inl none_left ↦ record {
      items = [];
      last = q;
      ends = rw none_left;
      emptied = none_left;
      status = refl;
      capacity = refl;
      all = rw none_left;
    }
    | inr (e, rest, front) ↦
        let q' = take_front q e rest now now in
        let true_items = subst (All (λ x. truthy x.item ≡ true)) front t in
        let d =
          drain-Drained truthy fuel q' now true_items.1 (runs) (omega (arith, ap length front)) in
        record {
          items = e.item ∷ d.items;
          last = d.last;
          ends = drain_step truthy fuel q now e rest d.items d.last runs front d.ends true_items.0;
          emptied = d.emptied;
          status = d.status;
          capacity = d.capacity;
          all = ap suc d.all ∙ sym (ap length front);
        }
  ]

  requeue_keeps :
      (d : DeadLetterQueue A) (q : PriorityQueue A) (items : List A) (now : ℕ)
      → accepts d.base.status ≡ true
      → Fits d.base.capacity (length d.base.queue + length items)
      → (requeue d q items now).2 + length (requeue d q items now).0.base.queue
        ≡ length d.base.queue + length items
  unfolding requeue
  requeue_keeps d q [] now a f = omega arith
  requeue_keeps d q (item ∷ items) now a f =
      let d' = record d { retry_counts = put (identity item) 0 d.retry_counts } in
      let q' = (enqueue q item (pos 0) now).0 in
      elim (Bool-cases (enqueue q item (pos 0) now).1) [
        | inl taken ↦
            rw (requeue, taken, if◌then◌else◌)
              (omega (
                arith,
                requeue_keeps d' q' items now a (Fits-less d.base.capacity _ _ (omega arith) f),
              ))
        | inr refused ↦
            let b = push_item d.base item (pos 0) now in
            let full = room_of_Fits d.base.capacity (length d.base.queue) (length items) f in
            let kept : enqueue d.base item (pos 0) now ≡ (b, true) =
              unfold enqueue in ground (arith, a, full) in
            let grown : length b.queue ≡ suc (length d.base.queue) =
              unfold push_item in length-heappush _ d.base.queue in
            let rest =
              requeue_keeps (record d' { base = b }) q' items now (unfold push_item in a)
                (unfold push_item in Fits-less d.base.capacity _ _ (omega (arith, grown)) f) in
            rw (requeue, refused, if◌then◌else◌, enqueue_dead, kept) (omega (arith, rest, grown))
      ]

  reprocess_unset :
      (truthy : A → Bool) (d : DeadLetterQueue A) (now : ℕ)
      → d.original_queue ≡ none
      → reprocess_all truthy d now ≡ some (d, 0)
  unfolding reprocess_all
  reprocess_unset truthy d now unset = ground (arith, unset)

  reprocess_step :
      (truthy : A → Bool) (d : DeadLetterQueue A) (q : PriorityQueue A) (now : ℕ) (items : List A)
      (last : PriorityQueue A)
      → d.original_queue ≡ some q
      → drain truthy (suc (length d.base.queue)) d.base now ≡ some (items, last)
      → let r = requeue (record d { base = last }) q items now in
        reprocess_all truthy d now ≡ some (record (r.0) { original_queue = some r.1 }, r.2)
  unfolding reprocess_all
  reprocess_step truthy d q now items last original ends = ground (arith, original, ends)

  -- While the queue takes items (it is active or paused), is well-formed, as any history of calls
  -- leaves it, and no item in it counts as false, `reprocess_all` ends, with an original queue or
  -- without, and loses nothing: the number that it returns and what is left in the queue are together
  -- what was in the queue.
  pub reprocess_all_keeps :
      (truthy : A → Bool) (d : DeadLetterQueue A) (now : ℕ)
      → All (λ e. truthy e.item ≡ true) d.base.queue
      → accepts d.base.status ≡ true
      → WellFormed d.base
      → (d' : DeadLetterQueue A) × (n : ℕ) × (reprocess_all truthy d now ≡ some (d', n))
        × (n + length d'.base.queue ≡ length d.base.queue)
  reprocess_all_keeps truthy d now t a w = elim (Option-cases d.original_queue) [
    | inl unset ↦ (d, 0, reprocess_unset truthy d now unset, omega arith)
    | inr (q, original) ↦
        let r =
          drain-Drained truthy (suc (length d.base.queue)) d.base now t (runs_of_accepts d.base a)
            (omega arith) in
        let sum : length r.last.queue + length r.items ≡ length d.base.queue =
          omega (arith, r.all, ap length r.emptied) in
        let start = record d { base = r.last } in
        let end_ = requeue start q r.items now in
        (
          record (end_.0) { original_queue = some end_.1 },
          end_.2,
          reprocess_step truthy d q now r.items r.last original r.ends,
          requeue_keeps start q r.items now (rw r.status a) (rw (r.capacity, sum) w.fits) ∙ sum,
        )
  ]
