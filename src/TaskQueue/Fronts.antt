-- ===== src/TaskQueue/Fronts.antt =====
-- core/scheduler/queue.py: the front of a heap is the entry of the highest priority that was pushed first.
use puffinfloww.Base.{
  suc, ◌<◌, ◌≡◌, refl, sym, ap, ◌∙◌, inl, inr, some, List, [], ◌∷◌, arith, length, All, Bool-cases,
  ℤ, neg, ltb_ℤ, pos, negsuc, zero,
}
use puffinfloww.TaskQueue.{Entry, before, heappush}
use puffinfloww.TaskQueue.Heap.{length-heappush}
use puffinfloww.TaskQueue.Waiting.{take_highest}

ltb_ℤ-neg : (a b : ℤ) → ltb_ℤ (neg a) (neg b) ≡ ltb_ℤ b a
ltb_ℤ-neg (pos zero) (pos zero) = refl
ltb_ℤ-neg (pos zero) (pos (suc n)) = ground arith
ltb_ℤ-neg (pos zero) (negsuc n) = ground arith
ltb_ℤ-neg (pos (suc m)) (pos zero) = ground arith
ltb_ℤ-neg (pos (suc m)) (pos (suc n)) = ground arith
ltb_ℤ-neg (pos (suc m)) (negsuc n) = ground arith
ltb_ℤ-neg (negsuc m) (pos zero) = ground arith
ltb_ℤ-neg (negsuc m) (pos (suc n)) = ground arith
ltb_ℤ-neg (negsuc m) (negsuc n) = ground arith

module _ {ℓ} {A : Type ℓ} where
  abbrev pub heap_of : List (Entry A) → List (Entry A)
  heap_of [] = []
  heap_of (e ∷ es) = heappush e (heap_of es)

  abbrev pub seen : Entry A → ℤ × A
  seen e = (neg e.key, e.item)

  abbrev pub seen_all : List (Entry A) → List (ℤ × A)
  seen_all [] = []
  seen_all (e ∷ es) = seen e ∷ seen_all es

  abbrev pub Decreasing : List (Entry A) → Type 0
  Decreasing [] = Unit {0}
  Decreasing (e ∷ es) = All (λ f. f.counter < e.counter) es × Decreasing es

  pub length-heap_of : (es : List (Entry A)) → length (heap_of es) ≡ length (seen_all es)
  length-heap_of [] = refl
  length-heap_of (e ∷ es) = length-heappush e (heap_of es) ∙ ap suc (length-heap_of es)

  -- An entry goes before an older one exactly if its priority is higher.
  before_older :
      (e b : Entry A) → b.counter < e.counter → before e b ≡ ltb_ℤ (neg b.key) (neg e.key)
  before_older e b older = ground (arith, ltb_ℤ-neg b.key e.key)

  -- The entry `b` is the front of the heap of `es` and the highest of them, and `rest` is the others.
  pub record Taken (es : List (Entry A)) (b : Entry A) (rest : List (Entry A)) : Type (ℓ ⊔ 1) where
    pub front : heap_of es ≡ b ∷ heap_of rest
    pub best : take_highest (seen_all es) ≡ some (seen b, seen_all rest)
    pub decreasing : Decreasing rest
    pub split : (P : Entry A → Type 0) → All P es → P b × All P rest

  pub takes :
      (e : Entry A) (es : List (Entry A))
      → Decreasing (e ∷ es)
      → (b : Entry A) × (rest : List (Entry A)) × Taken (e ∷ es) b rest
  unfolding heappush
  takes e [] d =
      (e, [], record { front = refl; best = refl; decreasing = tt; split = λ P a. (a.0, tt) })
  takes e (f ∷ es) d =
      let (b, rest, t) = takes f es d.1 in
      let older = t.split (λ x. x.counter < e.counter) d.0 in
      let same = before_older e b older.0 in
      elim (Bool-cases (before e b)) [
        | inl first ↦ (
          e,
          f ∷ es,
          record {
            front = ap (heappush e) t.front ∙ rw first (ap (λ h. e ∷ h) (sym t.front));
            best = rw (t.best, sym same, first) refl;
            decreasing = d.1;
            split = λ P a. (a.0, a.1);
          },
        )
        | inr later ↦ (
          b,
          e ∷ rest,
          record {
            front = ap (heappush e) t.front ∙ rw later refl;
            best = rw (t.best, sym same, later) refl;
            decreasing = (older.1, t.decreasing);
            split = λ P a. let s = t.split P a.1 in (s.0, (a.0, s.1));
          },
        )
      ]
