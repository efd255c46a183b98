-- ===== src/Dag/Kahn.antt =====
-- core/dag/graph.py: what the loop of `topological_sort` keeps, for any graph given by successors,
-- predecessors and nodes.
use puffinfloww.Base.{
  ℕ, ◌-◌, ◌≡◌, refl, sym, ◌∙◌, subst, ap, inl, inr, true, false, List, [], ◌∷◌, ◌++◌, Name, Dict,
  arith, ◌==◌, contains, add, add_of_absent, contains-add, Distinct, unseen, unseen_less,
  unseen_none, if◌then◌else◌, Bool-cases, ==→eq, ==_self,
}
use puffinfloww.Digraph.{Subset, IsFinished, finished_closed}
use puffinfloww.Dag.Sort.{degree, lower}
use puffinfloww.Dag.Degrees.{degree-lower, contains-lower, Distinct-lower}

true-false : ¬ (true ≡ false)
true-false e = cc

-- A list, backwards, before another.
unfoldable pub newest_first : List Name → List Name → List Name
newest_first [] old = old
newest_first (x ∷ r) old = newest_first r (x ∷ old)

newest_first-snoc :
    (r : List Name) (z : Name) (old : List Name)
    → newest_first (r ++ z ∷ []) old ≡ z ∷ newest_first r old
unfolding newest_first
newest_first-snoc [] z old = refl
newest_first-snoc (x ∷ r) z old = newest_first-snoc r z (x ∷ old)

pub contains-newest_first :
    (r old : List Name) (y : Name)
    → contains y (newest_first r old) ≡ (if contains y r then true else contains y old)
unfolding newest_first contains
contains-newest_first [] old y = refl
contains-newest_first (x ∷ r) old y = ground (arith, contains-newest_first r (x ∷ old) y)

module _ (next prev : Name → List Name) (nodes : List Name)
    (mirrored : (x y : Name) → contains y (next x) ≡ contains x (prev y))
    (next_distinct : (x : Name) → Distinct (next x))
    (prev_distinct : (y : Name) → Distinct (prev y))
    (known : (x y : Name)
      → contains y (next x) ≡ true
      → (contains x nodes ≡ true) × (contains y nodes ≡ true)) where
  -- What the loop keeps: the degrees count the predecessors that are not yet given out, the queue has
  -- the nodes of degree 0 that are not, and what is given out stands behind its predecessors.
  pub record Keeps (queue : List Name) (m : Dict ℕ) (r : List Name) : Type 0 where
    pub counts : (y : Name) → degree m y ≡ unseen (prev y) r
    pub ready :
        (y : Name)
        → contains y queue ≡ true
        → (contains y nodes ≡ true) × (contains y r ≡ false) × (degree m y ≡ 0)
    pub waiting :
        (y : Name)
        → contains y nodes ≡ true
        → degree m y ≡ 0
        → (if contains y r then true else contains y queue) ≡ true
    pub distinct : Distinct queue
    pub ordered : IsFinished prev (newest_first r [])
    pub within : Subset r nodes

  module _ (z : Name) (queue : List Name) (m : Dict ℕ) (r : List Name)
      (k : Keeps (z ∷ queue) m r) where
    abbrev m' : Dict ℕ
    m' = (lower (next z) m queue).0

    abbrev queue' : List Name
    queue' = (lower (next z) m queue).1

    pub z_ready : (contains z nodes ≡ true) × (contains z r ≡ false) × (degree m z ≡ 0)
    unfolding contains
    z_ready = k.ready z (ground (arith, ==_self z))

    tail_ready :
        (y : Name)
        → contains y queue ≡ true
        → (contains y nodes ≡ true) × (contains y r ≡ false) × (degree m y ≡ 0)
    unfolding contains
    tail_ready y h = k.ready y (ground (arith, h))

    pub given_out : r ++ z ∷ [] ≡ add z r
    given_out = sym (add_of_absent z r z_ready.1)

    contains-given : (y : Name) → contains y (r ++ z ∷ []) ≡ (if y == z then true else contains y r)
    contains-given y = ap (contains y) given_out ∙ contains-add y z r

    lowered :
        (y : Name) → degree m' y ≡ (if contains y (next z) then degree m y - 1 else degree m y)
    lowered y = degree-lower (next z) m queue y (next_distinct z)

    counts' : (y : Name) → degree m' y ≡ unseen (prev y) (r ++ z ∷ [])
    counts' y =
        let less = unseen_less (prev y) r z (prev_distinct y) z_ready.1 in
        let count = k.counts y in
        let low = lowered y in
        let mir = mirrored z y in
        subst (λ v. degree m' y ≡ unseen (prev y) v) (sym given_out)
          (ground (arith, low, less, count, mir))

    -- A name that is given out has all its predecessors given out before.
    behind : (y : Name) → contains y r ≡ true → contains z (prev y) ≡ true → contains z r ≡ true
    unfolding contains
    behind y h e =
        sym (contains-newest_first r [] z ∙ simplify z)
        ∙ finished_closed prev (newest_first r []) y z k.ordered
            (contains-newest_first r [] y ∙ simplify y ∙ h) e
      where
        simplify : (x : Name) → (if contains x r then true else contains x []) ≡ contains x r
        simplify x = ground arith

    ready' :
        (y : Name)
        → contains y queue' ≡ true
        → (contains y nodes ≡ true) × (contains y (r ++ z ∷ []) ≡ false) × (degree m' y ≡ 0)
    ready' y h = elim (Bool-cases (contains y queue)) [
      | inl queued ↦
          let t = tail_ready y queued in
          (
            t.0,
            ground (arith, contains-given y, t.1, queued, k.distinct.0, ==→eq y z),
            ground (arith, lowered y, t.2),
          )
      | inr not_queued ↦
          let c = contains-lower (next z) m queue y (next_distinct z) in
          let e : contains y (next z) ≡ true = ground (arith, c, h, not_queued) in
          let last : degree m y ≡ 1 = ground (arith, c, h, not_queued, e) in
          let new : contains y r ≡ false = (elim (Bool-cases (contains y r)) [
            | inl old ↦
                absurd (true-false (sym (behind y old (sym (mirrored z y) ∙ e)) ∙ z_ready.1))
            | inr new ↦ new
          ]) in
          (
            (known z y e).1,
            ground (arith, contains-given y, new, last, z_ready.2, ==→eq y z),
            ground (arith, lowered y, e, last),
          )
    ]

    waiting' :
        (y : Name)
        → contains y nodes ≡ true
        → degree m' y ≡ 0
        → (if contains y (r ++ z ∷ []) then true else contains y queue') ≡ true
    unfolding contains
    waiting' y h e =
        let c = contains-lower (next z) m queue y (next_distinct z) in
        let low = lowered y in
        let g = contains-given y in
        elim (Bool-cases (degree m y == 0)) [
          | inl free ↦ let w = k.waiting y h (==→eq (degree m y) 0 free) in ground (arith, w, g, c)
          | inr more ↦ ground (arith, low, e, g, c, more)
        ]

    none_before : (if contains z r then true else contains z []) ≡ false
    unfolding contains
    none_before = ground (arith, z_ready.1)

    pub Keeps-turn : Keeps queue' m' (r ++ z ∷ [])
    Keeps-turn = record {
      counts = counts';
      ready = ready';
      waiting = waiting';
      distinct = Distinct-lower (next z) m queue k.distinct.1 (λ y h. (tail_ready y h).2);
      ordered = rw (newest_first-snoc r z []) (
        λ y e.
            contains-newest_first r [] y
            ∙ ground (arith, unseen_none (prev z) r (sym (k.counts z) ∙ z_ready.2) y e),
        contains-newest_first r [] z ∙ none_before,
        k.ordered,
      );
      within = λ y h. elim (Bool-cases (y == z)) [
        | inl here ↦ subst (λ x. contains x nodes ≡ true) (sym (==→eq y z here)) z_ready.0
        | inr there ↦ k.within y (ground (arith, h, there, contains-given y))
      ];
    }
