-- ===== src/TaskQueue/Waiting.antt =====
-- core/scheduler/queue.py: what is promised of `PriorityQueue`, as a plain list of items that is searched
-- for the highest priority.
use puffinfloww.Base.{
  ℕ, ◌≡◌, refl, inl, inr, Bool, true, false, Option, none, some, List, [], ◌∷◌, arith,
  if◌then◌else◌, length, All, Bool-cases, ℤ, ltb_ℤ,
}
use puffinfloww.TaskQueue.{QueueStatus, accepts, is_stopped, is_active, at_capacity}
use puffinfloww.TaskQueue.Invariant.{Call, enqueues, dequeues, clears, sets_status}

-- What a caller sees of a call.
pub data Answer {ℓ} (A : Type ℓ) : Type ℓ where
  took : Bool → Answer A
  gave : Option A → Answer A
  waits : Answer A
  cleared : ℕ → Answer A
  done : Answer A

-- The items that wait with their priorities, the newest first.
pub record Waiting {ℓ} (A : Type ℓ) : Type ℓ where
  pub pending : List (ℤ × A)
  pub limit : Option ℕ
  pub drops : Bool
  pub state : QueueStatus

module _ {ℓ} {A : Type ℓ} where
  -- The item of the highest priority, of these the oldest, and the others.
  abbrev pub take_highest : List (ℤ × A) → Option ((ℤ × A) × List (ℤ × A))
  take_highest [] = none
  take_highest (x ∷ xs) = elim (take_highest xs) [
    | none ↦ some (x, [])
    | some (best, rest) ↦ if ltb_ℤ best.0 x.0 then some (x, xs) else some (best, x ∷ rest)
  ]

  IsHighest-raise :
      (x best : ℤ × A) (ys : List (ℤ × A))
      → ltb_ℤ best.0 x.0 ≡ true
      → All (λ y. ltb_ℤ best.0 y.0 ≡ false) ys
      → All (λ y. ltb_ℤ x.0 y.0 ≡ false) ys
  IsHighest-raise x best [] h a = tt
  IsHighest-raise x best (y ∷ ys) h a =
      (let k = a.0 in ground (arith, h, k), IsHighest-raise x best ys h a.1)

  -- Of the items of a list one is taken, and none has a higher priority.
  take_highest-IsHighest :
      (x : ℤ × A) (xs : List (ℤ × A))
      → (best : ℤ × A) × (rest : List (ℤ × A)) × (take_highest (x ∷ xs) ≡ some (best, rest))
        × All (λ y. ltb_ℤ best.0 y.0 ≡ false) (x ∷ xs)
  take_highest-IsHighest x [] = (x, [], refl, (ground arith, tt))
  take_highest-IsHighest x (y ∷ ys) =
      let (b, r, e, a) = take_highest-IsHighest y ys in
      elim (Bool-cases (ltb_ℤ b.0 x.0)) [
        | inl higher ↦
            (x, y ∷ ys, rw (e, higher) refl, (ground arith, IsHighest-raise x b (y ∷ ys) higher a))
        | inr lower ↦ (b, x ∷ r, rw (e, lower) refl, (lower, a))
      ]

  abbrev pub without_highest : Waiting A → Waiting A
  without_highest s = elim (take_highest s.pending) [
    | none ↦ s
    | some (x, rest) ↦ record s { pending = rest }
  ]

  abbrev pub highest : Waiting A → Option A
  highest s = elim (take_highest s.pending) [ none ↦ none | some (x, rest) ↦ some x.1 ]

  abbrev pub with_item : A → ℤ → Waiting A → Waiting A
  with_item item priority s = record s { pending = (priority, item) ∷ s.pending }

  -- What a call is to do.
  abbrev pub expected : Waiting A → Call A → Waiting A × Answer A
  expected s (enqueues item priority now) =
      if accepts s.state
      then (if at_capacity s.limit (length s.pending)
          then (if s.drops
              then (with_item item priority (without_highest s), took true)
              else (s, took false))
          else (with_item item priority s, took true))
      else (s, took false)
  expected s (dequeues start now) =
      if is_stopped s.state then (s, gave none) else elim (take_highest s.pending) [
        | none ↦ (s, if is_active s.state then waits else gave none)
        | some (x, rest) ↦ (record s { pending = rest }, gave (some x.1))
      ]
  expected s clears = (record s { pending = [] }, cleared (length s.pending))
  expected s (sets_status state) = (record s { state = state }, done)

  -- The answers to a history of calls, and what `peek` and `size` are to answer after each.
  abbrev pub all_expected : Waiting A → List (Call A) → List (Answer A × Option A × ℕ)
  all_expected s [] = []
  all_expected s (c ∷ cs) =
      let (s', a) = expected s c in (a, highest s', length s'.pending) ∷ all_expected s' cs
