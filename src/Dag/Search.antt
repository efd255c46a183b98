-- ===== src/Dag/Search.antt =====
-- core/dag/graph.py: `has_cycle` and `_find_cycle` against the search of the dependency graph.
use puffinfloww.Base.{
  ℕ, zero, suc, ◌≡◌, refl, sym, ◌∙◌, ap, inl, inr, true, none, some, List, [], ◌∷◌, ◌++◌, Name,
  arith, discard, not, if◌then◌else◌, contains, is_empty, Bool-cases,
}
use puffinfloww.Digraph.{from_first}
use puffinfloww.DependencyGraph
use puffinfloww.DependencyGraph.Search.{Inv, Post, dfs-Post}
use puffinfloww.DependencyGraph.Extends.{search-Extends}
use puffinfloww.Dag.{
  leave, State, Visit, exhausted, cycle, clear, scan, dfs, search, Marks, Check, out_of_fuel, yes,
  no, check_scan, check_dfs, check_all,
}

-- What is left of a state of the dependency graph's search without the cycles that it lists.
abbrev pub forget : DependencyGraph.State → State
forget st = record { visited = st.visited; rec_stack = st.rec_stack; path = st.path }

abbrev pub last : List (List Name) → List Name
last [] = []
last (c ∷ []) = c
last (c ∷ d ∷ cs) = last (d ∷ cs)

-- How that search's outcome reads here.
abbrev pub translated : DependencyGraph.Visit DependencyGraph.State → Visit
translated DependencyGraph.exhausted = exhausted
translated (DependencyGraph.found st) = cycle (last st.cycles)
translated (DependencyGraph.finished st) = clear (forget st)

last-append_one : (cs : List (List Name)) (c : List Name) → last (cs ++ c ∷ []) ≡ c
last-append_one [] c = refl
last-append_one (d ∷ []) c = refl
last-append_one (d ∷ e ∷ cs) c = last-append_one (e ∷ cs) c

scan-translated :
    (rec : Name → State → Visit)
    (rec' : Name → DependencyGraph.State → DependencyGraph.Visit DependencyGraph.State)
    → ((n : Name) (st : DependencyGraph.State) → rec n (forget st) ≡ translated (rec' n st))
    → (ns : List Name) (st : DependencyGraph.State)
    → scan rec ns (forget st) ≡ translated (DependencyGraph.scan rec' ns st)
unfolding scan DependencyGraph.scan
scan-translated rec rec' same [] st = refl
scan-translated rec rec' same (n ∷ ns) st = elim (Bool-cases (contains n st.visited)) [
  | inl seen ↦ elim (Bool-cases (contains n st.rec_stack)) [
    | inl open_ ↦ rw (seen, open_, last-append_one st.cycles (from_first n st.path ++ n ∷ []))
    | inr closed ↦ rw (seen, closed) (scan-translated rec rec' same ns st)
  ]
  | inr fresh ↦ rw (fresh, same n st) (step (rec' n st) (scan-translated rec rec' same ns))
]
  where
    step :
        (r : DependencyGraph.Visit DependencyGraph.State)
        → ((b : DependencyGraph.State)
            → scan rec ns (forget b) ≡ translated (DependencyGraph.scan rec' ns b))
        → elim (translated r) [
          | exhausted ↦ exhausted
          | cycle c ↦ cycle c
          | clear st' ↦ scan rec ns st'
        ]
          ≡ translated (elim r [
            | DependencyGraph.exhausted ↦ DependencyGraph.exhausted
            | DependencyGraph.found st' ↦ DependencyGraph.found st'
            | DependencyGraph.finished st' ↦ DependencyGraph.scan rec' ns st'
          ])
    step DependencyGraph.exhausted rest = refl
    step (DependencyGraph.found st') rest = refl
    step (DependencyGraph.finished st') rest = rest st'

dfs-translated :
    (next : Name → List Name) (fuel : ℕ) (n : Name) (st : DependencyGraph.State)
    → dfs next fuel n (forget st) ≡ translated (DependencyGraph.dfs next fuel n st)
unfolding dfs DependencyGraph.dfs
dfs-translated next zero n st = refl
dfs-translated next (suc fuel) n st =
    rw
      (
        dfs,
        scan-translated (dfs next fuel) (DependencyGraph.dfs next fuel) (dfs-translated next fuel)
            (next n) (DependencyGraph.enter st n),
      )
      (step (
        DependencyGraph.scan (DependencyGraph.dfs next fuel) (next n) (DependencyGraph.enter st n)))
  where
    step :
        (r : DependencyGraph.Visit DependencyGraph.State)
        → elim (translated r) [
          | exhausted ↦ exhausted
          | cycle c ↦ cycle c
          | clear st' ↦ clear (leave st' n)
        ]
          ≡ translated (elim r [
            | DependencyGraph.exhausted ↦ DependencyGraph.exhausted
            | DependencyGraph.found st' ↦ DependencyGraph.found st'
            | DependencyGraph.finished st' ↦ DependencyGraph.finished (DependencyGraph.leave st' n)
          ])
    step DependencyGraph.exhausted = refl
    step (DependencyGraph.found st') = refl
    step (DependencyGraph.finished st') = refl

-- The same for the search that only marks.
abbrev pub marks : DependencyGraph.State → Marks
marks st = record { visited = st.visited; rec_stack = st.rec_stack }

abbrev pub checked : DependencyGraph.Visit DependencyGraph.State → Check
checked DependencyGraph.exhausted = out_of_fuel
checked (DependencyGraph.found st) = yes
checked (DependencyGraph.finished st) = no (marks st)

check_scan-checked :
    (rec : Name → Marks → Check)
    (rec' : Name → DependencyGraph.State → DependencyGraph.Visit DependencyGraph.State)
    → ((n : Name) (st : DependencyGraph.State) → rec n (marks st) ≡ checked (rec' n st))
    → (ns : List Name) (st : DependencyGraph.State)
    → check_scan rec ns (marks st) ≡ checked (DependencyGraph.scan rec' ns st)
unfolding check_scan DependencyGraph.scan
check_scan-checked rec rec' same [] st = refl
check_scan-checked rec rec' same (n ∷ ns) st = elim (Bool-cases (contains n st.visited)) [
  | inl seen ↦ elim (Bool-cases (contains n st.rec_stack)) [
    | inl open_ ↦ rw (seen, open_)
    | inr closed ↦ rw (seen, closed) (check_scan-checked rec rec' same ns st)
  ]
  | inr fresh ↦ rw (fresh, same n st) (step (rec' n st) (check_scan-checked rec rec' same ns))
]
  where
    step :
        (r : DependencyGraph.Visit DependencyGraph.State)
        → ((b : DependencyGraph.State)
            → check_scan rec ns (marks b) ≡ checked (DependencyGraph.scan rec' ns b))
        → elim (checked r) [
          | out_of_fuel ↦ out_of_fuel
          | yes ↦ yes
          | no st' ↦ check_scan rec ns st'
        ]
          ≡ checked (elim r [
            | DependencyGraph.exhausted ↦ DependencyGraph.exhausted
            | DependencyGraph.found st' ↦ DependencyGraph.found st'
            | DependencyGraph.finished st' ↦ DependencyGraph.scan rec' ns st'
          ])
    step DependencyGraph.exhausted rest = refl
    step (DependencyGraph.found st') rest = refl
    step (DependencyGraph.finished st') rest = rest st'

check_dfs-checked :
    (next : Name → List Name) (fuel : ℕ) (n : Name) (st : DependencyGraph.State)
    → check_dfs next fuel n (marks st) ≡ checked (DependencyGraph.dfs next fuel n st)
unfolding check_dfs DependencyGraph.dfs
check_dfs-checked next zero n st = refl
check_dfs-checked next (suc fuel) n st =
    rw
      (
        check_dfs,
        check_scan-checked (check_dfs next fuel) (DependencyGraph.dfs next fuel)
            (check_dfs-checked next fuel) (next n) (DependencyGraph.enter st n),
      )
      (step (
        DependencyGraph.scan (DependencyGraph.dfs next fuel) (next n) (DependencyGraph.enter st n)))
  where
    step :
        (r : DependencyGraph.Visit DependencyGraph.State)
        → elim (checked r) [
          | out_of_fuel ↦ out_of_fuel
          | yes ↦ yes
          | no st' ↦ no (record st' { rec_stack = discard n st'.rec_stack })
        ]
          ≡ checked (elim r [
            | DependencyGraph.exhausted ↦ DependencyGraph.exhausted
            | DependencyGraph.found st' ↦ DependencyGraph.found st'
            | DependencyGraph.finished st' ↦ DependencyGraph.finished (DependencyGraph.leave st' n)
          ])
    step DependencyGraph.exhausted = refl
    step (DependencyGraph.found st') = refl
    step (DependencyGraph.finished st') = refl

abbrev pub head_or_nil : List (List Name) → List Name
head_or_nil [] = []
head_or_nil (c ∷ cs) = c

-- Both searches end with the first cycle that the search of the dependency graph lists.
pub search_first :
    (next : Name → List Name) (fuel : ℕ) (ns : List Name) (st st' : DependencyGraph.State)
    (f : List Name)
    → Inv next st f
    → st.rec_stack ≡ []
    → st.cycles ≡ []
    → DependencyGraph.search next fuel ns st ≡ some st'
    → (search next fuel ns (forget st) ≡ some (head_or_nil st'.cycles))
      × (check_all next fuel ns (marks st) ≡ some (not (is_empty st'.cycles)))
unfolding search check_all DependencyGraph.search
search_first next fuel [] st st' f v stack quiet e =
    let same : st.cycles ≡ st'.cycles = ground arith in
    let quiet' : st'.cycles ≡ [] = sym same ∙ quiet in (rw quiet' refl, rw quiet' refl)
search_first next fuel (n ∷ ns) st st' f v stack quiet e =
    elim (Bool-cases (contains n st.visited)) [
      | inl seen ↦
          let rest =
            search_first next fuel ns st st' f v stack quiet
              (rw (seen, DependencyGraph.search) at e) in
          rw (seen, if◌then◌else◌) rest
      | inr fresh ↦
          rw (fresh, dfs-translated next fuel n st, check_dfs-checked next fuel n st, if◌then◌else◌)
            (step (DependencyGraph.dfs next fuel n st)
              (dfs-Post next fuel n st f v (fresh, rw (v.same ∙ stack) tt))
              (search_first next fuel ns) (rw (fresh, DependencyGraph.search) at e))
    ]
  where
    step :
        (r : DependencyGraph.Visit DependencyGraph.State)
        → Post next st f (n ∷ []) r
        → ((b c : DependencyGraph.State) (h : List Name)
            → Inv next b h
            → b.rec_stack ≡ []
            → b.cycles ≡ []
            → DependencyGraph.search next fuel ns b ≡ some c
            → (search next fuel ns (forget b) ≡ some (head_or_nil c.cycles))
              × (check_all next fuel ns (marks b) ≡ some (not (is_empty c.cycles))))
        → elim r [
          | DependencyGraph.exhausted ↦ none
          | DependencyGraph.found b ↦ DependencyGraph.search next fuel ns b
          | DependencyGraph.finished b ↦ DependencyGraph.search next fuel ns b
        ]
          ≡ some st'
        → (elim (translated r) [
          | exhausted ↦ none
          | cycle c ↦ some c
          | clear b ↦ search next fuel ns b
        ]
            ≡ some (head_or_nil st'.cycles))
          × (elim (checked r) [
            | out_of_fuel ↦ none
            | yes ↦ some true
            | no b ↦ check_all next fuel ns b
          ]
              ≡ some (not (is_empty st'.cycles)))
    step DependencyGraph.exhausted p rest e' = cc
    step (DependencyGraph.found b) p rest e' =
        let (later, grown, _) = search-Extends next fuel ns b st' e' in
        let one : b.cycles ≡ p.cycle ∷ [] = p.added ∙ ap (λ cs. cs ++ p.cycle ∷ []) quiet in
        let all : st'.cycles ≡ p.cycle ∷ later = grown ∙ ap (λ cs. cs ++ later) one in
        (rw (one, all) refl, rw all refl)
    step (DependencyGraph.finished b) (h, all) rest e' =
        rest b st' h.fin h.inv (h.stack ∙ stack) (h.quiet ∙ quiet) e'
