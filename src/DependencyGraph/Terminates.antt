-- ===== src/DependencyGraph/Terminates.antt =====
-- core/coordination/deadlock.py: the search ends. Every call of `dfs` marks a name that was not
-- marked, so a call needs no more fuel than there are names left to mark.
use puffinfloww.Base.{
  ℕ, zero, suc, ◌≤◌, ◌≡◌, refl, inl, inr, true, false, none, some, List, [], ◌∷◌, Name, arith,
  contains, Bool-cases, contains-add, unseen, unseen_mono, unseen-add,
}
use puffinfloww.Digraph.{Subset, Subset_trans}
use puffinfloww.DependencyGraph.{
  State, enter, leave, Visit, exhausted, found, finished, scan, dfs, search,
}

abbrev Ends : State → Visit State → Type 0
Ends st exhausted = ⊥
Ends st (found st') = Subset st.visited st'.visited
Ends st (finished st') = Subset st.visited st'.visited

Ends-after : (a b : State) (r : Visit State) → Subset a.visited b.visited → Ends b r → Ends a r
Ends-after a b (found c) s e = Subset_trans a.visited b.visited c.visited s e
Ends-after a b (finished c) s e = Subset_trans a.visited b.visited c.visited s e
Ends-after a b exhausted s e = e

-- `u` holds every name that the search can meet.
module _ (next : Name → List Name) (u : List Name) (closed : (x : Name) → Subset (next x) u) where
  abbrev EndsWithin : ℕ → (Name → State → Visit State) → Type 0
  EndsWithin k rec =
      (n : Name) (st : State)
      → contains n u ≡ true
      → contains n st.visited ≡ false
      → unseen u st.visited ≤ k
      → Ends st (rec n st)

  scan-Ends :
      (k : ℕ) (rec : Name → State → Visit State)
      → EndsWithin k rec
      → (ns : List Name) (st : State) → Subset ns u
      → unseen u st.visited ≤ k
      → Ends st (scan rec ns st)
  unfolding scan contains
  scan-Ends k rec h [] st s b = λ y m. m
  scan-Ends k rec h (n ∷ ns) st s b = elim (Bool-cases (contains n st.visited)) [
    | inl seen ↦ elim (Bool-cases (contains n st.rec_stack)) [
      | inl on ↦ rw (seen, on) (λ y m. m)
      | inr off ↦ rw (seen, off) (scan-Ends k rec h ns st tail b)
    ]
    | inr fresh ↦ rw fresh (
        step (rec n st) (h n st (s n (ground arith)) fresh b)
          (λ st' le. scan-Ends k rec h ns st' tail le))
  ]
    where
      tail : Subset ns u
      tail y m = s y (ground arith)

      step :
          (r : Visit State)
          → Ends st r
          → ((st' : State) → unseen u st'.visited ≤ k → Ends st' (scan rec ns st'))
          → Ends st (elim r [
            | exhausted ↦ exhausted
            | found st' ↦ found st'
            | finished st' ↦ scan rec ns st'
          ])
      step exhausted e rest = e
      step (found st') e rest = e
      step (finished st') e rest =
          let fewer = unseen_mono u st.visited st'.visited e in
          Ends-after st st' (scan rec ns st') e (rest st' (omega arith))

  dfs-Ends : (fuel : ℕ) → EndsWithin fuel (dfs next fuel)
  unfolding dfs
  dfs-Ends zero n st m fresh b =
      let fewer = unseen-add u st.visited n m fresh in absurd (omega arith)
  dfs-Ends (suc fuel) n st m fresh b =
      let fewer = unseen-add u st.visited n m fresh in
      step (scan (dfs next fuel) (next n) (enter st n)) (
        scan-Ends fuel (dfs next fuel) (dfs-Ends fuel) (next n) (enter st n) (closed n)
          (omega arith))
    where
      entered : Subset st.visited (enter st n).visited
      entered y h = ground (arith, contains-add y n st.visited)

      step :
          (r : Visit State)
          → Ends (enter st n) r
          → Ends st (elim r [
            | exhausted ↦ exhausted
            | found st' ↦ found st'
            | finished st' ↦ finished (leave st' n)
          ])
      step exhausted e = e
      step (found st') e = Ends-after st (enter st n) (found st') entered e
      step (finished st') e = Ends-after st (enter st n) (finished st') entered e

  -- With as much fuel as there are names to mark, the loop over the nodes returns.
  pub search_returns :
      (fuel : ℕ) (ns : List Name) (st : State)
      → Subset ns u
      → unseen u st.visited ≤ fuel
      → (st' : State) × (search next fuel ns st ≡ some st')
  unfolding search contains
  search_returns fuel [] st s b = (st, refl)
  search_returns fuel (n ∷ ns) st s b = elim (Bool-cases (contains n st.visited)) [
    | inl seen ↦ rw (seen, search) (search_returns fuel ns st tail b)
    | inr fresh ↦
        rw (fresh, search)
          (step (dfs next fuel n st) (dfs-Ends fuel n st (s n (ground arith)) fresh b)
            (λ st' le. search_returns fuel ns st' tail le))
  ]
    where
      tail : Subset ns u
      tail y m = s y (ground arith)

      step :
          (r : Visit State)
          → Ends st r
          → ((b : State)
              → unseen u b.visited ≤ fuel
              → (st' : State) × (search next fuel ns b ≡ some st'))
          → (st' : State) × (elim r [
            | exhausted ↦ none
            | found b ↦ search next fuel ns b
            | finished b ↦ search next fuel ns b
          ]
              ≡ some st')
      step exhausted e rest = absurd e
      step (found c) e rest =
          let fewer = unseen_mono u st.visited c.visited e in rest c (omega arith)
      step (finished c) e rest =
          let fewer = unseen_mono u st.visited c.visited e in rest c (omega arith)
