-- ===== src/DependencyGraph/Extends.antt =====
-- core/coordination/deadlock.py: the search never takes back a cycle that it has reported, and never
-- reports an empty one.
use puffinfloww.Base.{
  ℕ, zero, suc, ◌≡◌, refl, sym, ◌∙◌, ap, inl, inr, false, none, some, List, [], ◌∷◌, ◌++◌, Name,
  arith, All, All-append, is_empty, contains, Bool-cases,
}
use mathlib.Core.List.{append-nil, append_assoc}
use puffinfloww.Digraph.{from_first}
use puffinfloww.DependencyGraph.{
  State, enter, leave, Visit, exhausted, found, finished, scan, dfs, search,
}

abbrev pub Extends : State → State → Type 0
Extends st st' =
    (more : List (List Name)) × (st'.cycles ≡ st.cycles ++ more)
    × All (λ c. is_empty c ≡ false) more

Extends-refl : (st : State) → Extends st st
Extends-refl st = ([], sym (append-nil st.cycles), tt)

Extends-trans : (a b c : State) → Extends a b → Extends b c → Extends a c
Extends-trans a b c (m, e, n) (m', e', n') = (
  m ++ m',
  e' ∙ ap (λ s. s ++ m') e ∙ append_assoc a.cycles m m',
  All-append (λ c. is_empty c ≡ false) m m' n n',
)

is_empty-snoc : (p : List Name) (x : Name) → is_empty (p ++ x ∷ []) ≡ false
is_empty-snoc [] x = refl
is_empty-snoc (y ∷ p) x = refl

abbrev AfterVisit : State → Visit State → Type 0
AfterVisit st exhausted = Unit {0}
AfterVisit st (found st') = Extends st st'
AfterVisit st (finished st') = Extends st st'

scan-Extends :
    (rec : Name → State → Visit State)
    → ((n : Name) (st : State) → AfterVisit st (rec n st))
    → (ns : List Name) (st : State) → AfterVisit st (scan rec ns st)
unfolding scan
scan-Extends rec h [] st = Extends-refl st
scan-Extends rec h (n ∷ ns) st = elim (Bool-cases (contains n st.visited)) [
  | inl seen ↦ elim (Bool-cases (contains n st.rec_stack)) [
    | inl on ↦
        rw (seen, on)
          (
            (from_first n st.path ++ n ∷ []) ∷ [],
            refl,
            (is_empty-snoc (from_first n st.path) n, tt),
          )
    | inr off ↦ rw (seen, off) (scan-Extends rec h ns st)
  ]
  | inr fresh ↦ rw fresh (step (rec n st) (h n st) (scan-Extends rec h ns))
]
  where
    trans : (a b : State) (r : Visit State) → Extends a b → AfterVisit b r → AfterVisit a r
    trans a b exhausted e p = tt
    trans a b (found c) e p = Extends-trans a b c e p
    trans a b (finished c) e p = Extends-trans a b c e p

    step :
        (r : Visit State)
        → AfterVisit st r
        → ((st' : State) → AfterVisit st' (scan rec ns st'))
        → AfterVisit st (elim r [
          | exhausted ↦ exhausted
          | found st' ↦ found st'
          | finished st' ↦ scan rec ns st'
        ])
    step exhausted p rest = tt
    step (found st') p rest = p
    step (finished st') p rest = trans st st' (scan rec ns st') p (rest st')

dfs-Extends :
    (next : Name → List Name) (fuel : ℕ) (n : Name) (st : State)
    → AfterVisit st (dfs next fuel n st)
unfolding dfs
dfs-Extends next zero n st = tt
dfs-Extends next (suc fuel) n st =
    step (scan (dfs next fuel) (next n) (enter st n))
      (scan-Extends (dfs next fuel) (dfs-Extends next fuel) (next n) (enter st n))
  where
    step :
        (r : Visit State)
        → AfterVisit (enter st n) r
        → AfterVisit st (elim r [
          | exhausted ↦ exhausted
          | found st' ↦ found st'
          | finished st' ↦ finished (leave st' n)
        ])
    step exhausted p = tt
    step (found st') p = p
    step (finished st') p = p

pub search-Extends :
    (next : Name → List Name) (fuel : ℕ) (ns : List Name) (st st' : State)
    → search next fuel ns st ≡ some st'
    → Extends st st'
unfolding search
search-Extends next fuel [] st st' e = ([], ground (arith, append-nil st.cycles), tt)
search-Extends next fuel (n ∷ ns) st st' e = elim (Bool-cases (contains n st.visited)) [
  | inl seen ↦ search-Extends next fuel ns st st' (ground arith)
  | inr fresh ↦
      step (dfs next fuel n st) (dfs-Extends next fuel n st) (search-Extends next fuel ns)
        (rw (fresh, search) at e)
]
  where
    step :
        (r : Visit State)
        → AfterVisit st r
        → ((b c : State) → search next fuel ns b ≡ some c → Extends b c)
        → elim r [
          | exhausted ↦ none
          | found b ↦ search next fuel ns b
          | finished b ↦ search next fuel ns b
        ]
          ≡ some st'
        → Extends st st'
    step exhausted p rest e' = cc
    step (found b) p rest e' = Extends-trans st b st' p (rest b st' e')
    step (finished b) p rest e' = Extends-trans st b st' p (rest b st' e')
