-- ===== src/DependencyGraph/Cycles.antt =====
-- core/coordination/deadlock.py: what `find_cycles` promises.
use puffinfloww.Base.{
  ℕ, ◌≡◌, refl, sym, ◌∙◌, ap, ◌⊎◌, inl, inr, true, false, none, some, List, [], ◌∷◌, ◌++◌, Name,
  Dict, arith, ◌==◌, if◌then◌else◌, contains, length, keys, get, contains-keys, All, is_empty,
  Bool-cases, Option-cases, unseen-le_length, subst, ==→eq,
}
use puffinfloww.Digraph.{
  Successors, Subset, Subset_trans, Walk, one, more, IsCycle, IsAcyclic, IsFinished,
  finished_acyclic,
}
use puffinfloww.DependencyGraph.{
  Graph, neighbors, names, State, blank, Visit, exhausted, found, finished, dfs, search,
  find_cycles, CycleDetectionResult, result_of,
}
use puffinfloww.DependencyGraph.Search.{Inv, Post, dfs-Post}
use puffinfloww.DependencyGraph.Extends.{search-Extends}
use puffinfloww.DependencyGraph.Terminates.{search_returns}

pub contains-append :
    (x : Name) (s t : List Name)
    → contains x (s ++ t) ≡ (if contains x s then true else contains x t)
unfolding contains
contains-append x [] t = refl
contains-append x (y ∷ s) t = ground (arith, contains-append x s t)

pub contains-names_of_get :
    (d : Dict (List Name)) (k y : Name) (s : List Name)
    → get k d ≡ some s
    → contains y s ≡ true
    → contains y (names d) ≡ true
unfolding get names contains
contains-names_of_get [] k y s e m = cc
contains-names_of_get ((j, t) ∷ d) k y s e m =
    ground (arith, contains-append y t (names d), contains-names_of_get d k y s)

contains-names_of_key :
    (d : Dict (List Name)) (k : Name) → contains k (keys d) ≡ true → contains k (names d) ≡ true
unfolding keys names contains
contains-names_of_key [] k m = cc
contains-names_of_key ((j, t) ∷ d) k m =
    ground (arith, contains-append k t (names d), contains-names_of_key d k)

pub neighbors-Subset : (g : Graph) (x : Name) → Subset (neighbors g x) (names g.nodes)
unfolding neighbors contains
neighbors-Subset g x y m = elim (Option-cases (get x g.nodes)) [
  | inl e ↦ ground arith
  | inr (s, e) ↦ contains-names_of_get g.nodes x y s e (ground arith)
]

search_ends :
    (g : Graph)
    → (st : State) × (search (neighbors g) (length (names g.nodes)) (keys g.nodes) blank ≡ some st)
search_ends g =
    search_returns (neighbors g) (names g.nodes) (neighbors-Subset g) (length (names g.nodes))
      (keys g.nodes) blank (contains-names_of_key g.nodes) (unseen-le_length (names g.nodes) [])

-- What a run of the loop over `ns` shows, from a state in which the names of `f` are finished and
-- nothing is open or reported.
abbrev pub Clean : Successors → List Name → List Name → State → Type 0
Clean next f ns st =
    (st.cycles ≡ []) × ((f' : List Name) × IsFinished next f' × Subset f f' × Subset ns f')

abbrev pub Cyclic : Successors → State → Type 0
Cyclic next st =
    (c : List Name) × (rest : List (List Name)) × (st.cycles ≡ c ∷ rest) × IsCycle next c

Clean-cons :
    (next : Successors) (f h : List Name) (n : Name) (ns : List Name) (st : State)
    → Subset f h
    → contains n h ≡ true
    → Clean next h ns st
    → Clean next f (n ∷ ns) st
unfolding contains
Clean-cons next f h n ns st s m (quiet, (f', fin, grows, all)) = (
  quiet,
  (
    f',
    fin,
    Subset_trans f h f' s grows,
    λ y i. elim (Bool-cases (y == n)) [
      | inl e ↦ rw (==→eq y n e) (grows n m)
      | inr e ↦ all y (ground arith)
    ],
  ),
)

module _ (next : Successors) (fuel : ℕ) where
  pub search-Outcome :
      (ns : List Name) (st st' : State) (f : List Name)
      → Inv next st f
      → st.rec_stack ≡ []
      → st.cycles ≡ []
      → search next fuel ns st ≡ some st'
      → Clean next f ns st' ⊎ Cyclic next st'
  unfolding search contains
  search-Outcome [] st st' f v stack quiet e =
      inl (ground arith, (f, v.ordered, λ y m. m, λ y m. cc))
  search-Outcome (n ∷ ns) st st' f v stack quiet e = elim (Bool-cases (contains n st.visited)) [
    | inl seen ↦
        wrap f (λ y m. m) (ground (arith, v.split n, ap (contains n) stack))
          (search-Outcome ns st st' f v stack quiet (rw (seen, search) at e))
    | inr fresh ↦
        step (dfs next fuel n st) (dfs-Post next fuel n st f v (fresh, rw (v.same ∙ stack) tt))
          (search-Outcome ns) (rw (fresh, search) at e)
  ]
    where
      wrap :
          (h : List Name)
          → Subset f h
          → contains n h ≡ true
          → Clean next h ns st' ⊎ Cyclic next st'
          → Clean next f (n ∷ ns) st' ⊎ Cyclic next st'
      wrap h s m (inl clean) = inl (Clean-cons next f h n ns st' s m clean)
      wrap h s m (inr cyclic) = inr cyclic

      step :
          (r : Visit State)
          → Post next st f (n ∷ []) r
          → ((b c : State) (h : List Name)
              → Inv next b h
              → b.rec_stack ≡ []
              → b.cycles ≡ []
              → search next fuel ns b ≡ some c
              → Clean next h ns c ⊎ Cyclic next c)
          → elim r [
            | exhausted ↦ none
            | found b ↦ search next fuel ns b
            | finished b ↦ search next fuel ns b
          ]
            ≡ some st'
          → Clean next f (n ∷ ns) st' ⊎ Cyclic next st'
      step exhausted p rest e' = cc
      step (found b) p rest e' =
          let (later, grown, _) = search-Extends next fuel ns b st' e' in
          inr (p.cycle, later, ground (arith, p.added, quiet, grown), p.real)
      step (finished b) (h, all) rest e' =
          wrap h.fin h.grows (all n (ground arith))
            (rest b st' h.fin h.inv (h.stack ∙ stack) (h.quiet ∙ quiet) e')

pub blank-Inv : (next : Successors) → Inv next blank []
unfolding contains
blank-Inv next = record {
  ordered = tt;
  split = λ y. refl;
  apart = λ y m. cc;
  same = refl;
  chained = tt;
}

walk_from_key : (g : Graph) (x y : Name) → Walk (neighbors g) x y → contains x (keys g.nodes) ≡ true
unfolding neighbors contains
walk_from_key g x y (one e) = ground (arith, contains-keys x g.nodes)
walk_from_key g x y (more {y = z} w e) = walk_from_key g x z w

-- `find_cycles` returns, with the fuel given; it says that there is a cycle exactly when some node
-- lies on one, and then the first cycle that it lists is one: consecutive edges, back to its start.
-- No listed cycle is empty.
pub find_cycles_decides :
    (g : Graph)
    → (r : CycleDetectionResult) × (find_cycles g ≡ some r)
      × All (λ c. is_empty c ≡ false) r.cycles
      × (((r.has_cycle ≡ false) × (r.cycles ≡ []) × IsAcyclic (neighbors g))
          ⊎ ((r.has_cycle ≡ true)
              × ((c : List Name) × (rest : List (List Name)) × (r.cycles ≡ c ∷ rest)
                  × IsCycle (neighbors g) c)))
unfolding find_cycles result_of
find_cycles_decides g =
    let (st, e) = search_ends g in (result_of g st, ground (arith, e), nonempty st e, answer st e)
  where
    nonempty :
        (st : State)
        → search (neighbors g) (length (names g.nodes)) (keys g.nodes) blank ≡ some st
        → All (λ c. is_empty c ≡ false) (result_of g st).cycles
    nonempty st e =
        let (listed, grown, all) =
          search-Extends (neighbors g) (length (names g.nodes)) (keys g.nodes) blank st e in
        subst (All (λ c. is_empty c ≡ false)) (sym grown) all

    answer :
        (st : State)
        → search (neighbors g) (length (names g.nodes)) (keys g.nodes) blank ≡ some st
        → (((result_of g st).has_cycle ≡ false)
            × ((result_of g st).cycles ≡ [])
            × IsAcyclic (neighbors g))
          ⊎ (((result_of g st).has_cycle ≡ true)
              × ((c : List Name) × (rest : List (List Name)) × ((result_of g st).cycles ≡ c ∷ rest)
                  × IsCycle (neighbors g) c))
    answer st e =
        elim (search-Outcome (neighbors g) (length (names g.nodes)) (keys g.nodes) blank st []
          (blank-Inv (neighbors g)) refl refl e) [
            | inl (quiet, (f, fin, _, all)) ↦ inl (
              ground arith,
              quiet,
              λ x w. finished_acyclic (neighbors g) f x fin (all x (walk_from_key g x x w)) w,
            )
            | inr (c, rest, listed, real) ↦ inr (ground arith, (c, rest, listed, real))
          ]
