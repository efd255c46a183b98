-- ===== src/Dag/Complete.antt =====
-- core/dag/graph.py: the loop of `topological_sort` ends, and on an acyclic graph it gives out every
-- node.
use puffinfloww.Base.{
  ℕ, zero, suc, ◌≤◌, ◌≡◌, refl, sym, ◌∙◌, subst, inl, inr, Bool, true, false, some, List, [], ◌∷◌,
  ◌++◌, Name, Dict, arith, ◌==◌, contains, add, contains-add, Distinct, unseen, unseen_some,
  unseen-add, if◌then◌else◌, Bool-cases, ==→eq, filter,
}
use puffinfloww.Digraph.{IsAcyclic, Walk, one, walk_cons}
use puffinfloww.Dag.Sort.{degree, in_degrees, lower, sort_loop}
use puffinfloww.Dag.Degrees.{degree_start}
use puffinfloww.Dag.Kahn.{newest_first, Keeps, Keeps-turn, given_out, z_ready}

contains-filter :
    (p : Name → Bool) (s : List Name) (y : Name)
    → contains y (filter p s) ≡ (if contains y s then p y else false)
unfolding contains filter
contains-filter p [] y = refl
contains-filter p (x ∷ s) y = elim (Bool-cases (y == x)) [
  | inl here ↦
      subst (λ z. contains y (filter p (z ∷ s)) ≡ (if contains y (z ∷ s) then p y else false))
        (==→eq y x here) (ground (arith, contains-filter p s y))
  | inr there ↦ ground (arith, there, contains-filter p s y)
]

Distinct-filter : (p : Name → Bool) (s : List Name) → Distinct s → Distinct (filter p s)
unfolding contains filter
Distinct-filter p [] d = tt
Distinct-filter p (x ∷ s) d = ground (arith, Distinct-filter p s d.1, contains-filter p s x, d.0)

module _ (next prev : Name → List Name) (nodes : List Name)
    (mirrored : (x y : Name) → contains y (next x) ≡ contains x (prev y))
    (next_distinct : (x : Name) → Distinct (next x))
    (prev_distinct : (y : Name) → Distinct (prev y))
    (known : (x y : Name)
      → contains y (next x) ≡ true
      → (contains x nodes ≡ true) × (contains y nodes ≡ true)) where
  abbrev pub Kept : List Name → Dict ℕ → List Name → Type 0
  Kept = Keeps next prev nodes mirrored next_distinct prev_distinct known

  pub sort_loop_ends :
      (fuel : ℕ) (queue : List Name) (m : Dict ℕ) (r : List Name)
      → unseen nodes r ≤ fuel
      → Kept queue m r
      → (t : List Name) × (m' : Dict ℕ) × (sort_loop next fuel queue m r ≡ some t) × Kept [] m' t
  unfolding sort_loop
  sort_loop_ends zero [] m r h k = (r, m, refl, k)
  sort_loop_ends (suc fuel) [] m r h k = (r, m, refl, k)
  sort_loop_ends zero (z ∷ queue) m r h k =
      let ready =
        z_ready next prev nodes mirrored next_distinct prev_distinct known z queue m r k in
      let less = unseen-add nodes r z ready.0 ready.1 in absurd (omega (arith, h, less))
  sort_loop_ends (suc fuel) (z ∷ queue) m r h k =
      let ready =
        z_ready next prev nodes mirrored next_distinct prev_distinct known z queue m r k in
      let less = unseen-add nodes r z ready.0 ready.1 in
      let same =
        given_out next prev nodes mirrored next_distinct prev_distinct known z queue m r k in
      sort_loop_ends fuel (lower (next z) m queue).1 (lower (next z) m queue).0 (r ++ z ∷ [])
        (subst (λ v. unseen nodes v ≤ fuel) (sym same) (omega (arith, h, less)))
        (Keeps-turn next prev nodes mirrored next_distinct prev_distinct known z queue m r k)

  abbrev pub start : Dict ℕ
  start = in_degrees next nodes []

  pub Kept-start : Distinct nodes → Kept (filter (λ y. degree start y == 0) nodes) start []
  unfolding contains newest_first
  Kept-start d =
      let in_filter = contains-filter (λ y. degree start y == 0) nodes in
      record {
        counts = λ y.
            degree_start next prev nodes y (λ x. mirrored x y) next_distinct (prev_distinct y) d
              (λ x e. (known x y (mirrored x y ∙ e)).0);
        ready = λ y h. (ground (arith, h, in_filter y), refl, ground (arith, h, in_filter y));
        waiting = λ y h e. ground (arith, h, e, in_filter y);
        distinct = Distinct-filter (λ y. degree start y == 0) nodes d;
        ordered = tt;
        within = λ y h. cc;
      }

  -- At the end, a walk backwards from a node that is not given out never meets its own path again
  -- and never ends.
  pub backwards_forever :
      (m : Dict ℕ) (r : List Name)
      → Kept [] m r
      → IsAcyclic next
      → (fuel : ℕ) (path : List Name) (y : Name) → unseen nodes path ≤ fuel
      → contains y nodes ≡ true
      → contains y r ≡ false
      → contains y path ≡ false
      → ((p : Name) → contains p path ≡ true → Walk next y p)
      → ⊥
  unfolding contains
  backwards_forever m r k acyclic zero path y h node missing new leads =
      let less = unseen-add nodes path y node new in omega (arith, h, less)
  backwards_forever m r k acyclic (suc fuel) path y h node missing new leads =
      elim (unseen_some (prev y) r) [
        | inl all ↦
            let given = k.waiting y node (k.counts y ∙ all) in
            absurd (ground (arith, given, missing))
        | inr (z, before, kept_back) ↦
            let edge : contains y (next z) ≡ true = mirrored z y ∙ before in
            let leads_z : (p : Name) → contains p (add y path) ≡ true → Walk next z p = λ p e.
              (elim (Bool-cases (p == y)) [
                | inl here ↦ subst (Walk next z) (sym (==→eq p y here)) (one edge)
                | inr there ↦
                    walk_cons next z y p edge
                      (leads p (ground (arith, e, there, contains-add p y path)))
              ]) in
            let less = unseen-add nodes path y node new in
            elim (Bool-cases (contains z (add y path))) [
              | inl again ↦ acyclic z (leads_z z again)
              | inr fresh ↦
                  backwards_forever m r k acyclic fuel (add y path) z (omega (arith, h, less))
                    (known z y edge).0 kept_back fresh leads_z
            ]
      ]
