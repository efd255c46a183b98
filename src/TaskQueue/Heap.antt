-- ===== src/TaskQueue/Heap.antt =====
-- core/scheduler/queue.py: the order of the heap's entries.
use puffinfloww.Base.{
  ℕ, suc, ◌≤◌, ◌<◌, ◌≡◌, ◌≢◌, refl, inl, inr, true, false, List, [], ◌∷◌, arith, ◌==◌,
  if◌then◌else◌, length, All, contains, Distinct, Bool-cases,
}
use puffinfloww.TaskQueue.{Entry, before, heappush}

module _ {ℓ} {A : Type ℓ} where
  abbrev pub IsSorted : List (Entry A) → Type 0
  IsSorted [] = Unit {0}
  IsSorted (e ∷ h) = All (λ f. before e f ≡ true) h × IsSorted h

  abbrev pub counters : List (Entry A) → List ℕ
  counters [] = []
  counters (e ∷ h) = e.counter ∷ counters h

  before_total : (e f : Entry A) → e.counter ≢ f.counter → before e f ≡ false → before f e ≡ true
  before_total e f n h = ground arith

  before_trans : (e f g : Entry A) → before e f ≡ true → before f g ≡ true → before e g ≡ true
  before_trans e f g h k = ground arith

  All-before :
      (e f : Entry A) (h : List (Entry A))
      → before e f ≡ true
      → All (λ g. before f g ≡ true) h
      → All (λ g. before e g ≡ true) h
  All-before e f [] b a = tt
  All-before e f (g ∷ h) b a = (before_trans e f g b a.0, All-before e f h b a.1)

  pub All-heappush {κ} :
      (P : Entry A → Type κ) (e : Entry A) (h : List (Entry A))
      → P e
      → All P h
      → All P (heappush e h)
  unfolding heappush
  All-heappush P e [] p a = (p, tt)
  All-heappush P e (f ∷ h) p a = elim (Bool-cases (before e f)) [
    | inl first ↦ rw first (p, a)
    | inr later ↦ rw later (a.0, All-heappush P e h p a.1)
  ]

  pub IsSorted-heappush :
      (e : Entry A) (h : List (Entry A))
      → All (λ f. f.counter < e.counter) h
      → IsSorted h
      → IsSorted (heappush e h)
  unfolding heappush
  IsSorted-heappush e [] n s = (tt, tt)
  IsSorted-heappush e (f ∷ h) n s = elim (Bool-cases (before e f)) [
    | inl first ↦ rw first ((first, All-before e f h first s.0), s)
    | inr later ↦ rw later (
      All-heappush (λ g. before f g ≡ true) e h (before_total e f (omega (arith, n.0)) later) s.0,
      IsSorted-heappush e h n.1 s.1,
    )
  ]

  pub length-heappush : (e : Entry A) (h : List (Entry A)) → length (heappush e h) ≡ suc (length h)
  unfolding heappush
  length-heappush e [] = refl
  length-heappush e (f ∷ h) = ground (arith, length-heappush e h)

  pub contains-counters-heappush :
      (n : ℕ) (e : Entry A) (h : List (Entry A))
      → contains n (counters (heappush e h))
        ≡ (if n == e.counter then true else contains n (counters h))
  unfolding heappush contains
  contains-counters-heappush n e [] = refl
  contains-counters-heappush n e (f ∷ h) = ground (arith, contains-counters-heappush n e h)

  pub contains-counters_above :
      (n m : ℕ) (h : List (Entry A))
      → All (λ f. f.counter < n) h
      → n ≤ m
      → contains m (counters h) ≡ false
  unfolding contains
  contains-counters_above n m [] a l = refl
  contains-counters_above n m (f ∷ h) a l =
      let below = a.0 in ground (arith, contains-counters_above n m h a.1 l)

  pub Distinct-heappush :
      (e : Entry A) (h : List (Entry A))
      → All (λ f. f.counter < e.counter) h
      → Distinct (counters h)
      → Distinct (counters (heappush e h))
  unfolding heappush
  Distinct-heappush e [] n d = (contains-counters_above e.counter e.counter [] n (omega arith), tt)
  Distinct-heappush e (f ∷ h) n d = elim (Bool-cases (before e f)) [
    | inl first ↦ rw first (contains-counters_above e.counter e.counter (f ∷ h) n (omega arith), d)
    | inr later ↦ rw later (
      (let less = n.0 in ground (arith, d.0, contains-counters-heappush f.counter e h)),
      Distinct-heappush e h n.1 d.1,
    )
  ]
