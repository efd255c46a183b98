-- ===== src/Dag/Reach.antt =====
-- core/dag/graph.py: `get_ancestors` and `get_descendants` return, and give the names that a walk
-- joins to the node.
use puffinfloww.Base.{
  ℕ, zero, suc, ◌≤◌, ◌≡◌, refl, sym, subst, ap, ==_self, ◌∙◌, inl, inr, ◌↔◌, Bool, true, false,
  some, List, [], ◌∷◌, ◌++◌, Name, arith, Dict, get, get_or, ◌==◌, contains, add, length,
  if◌then◌else◌, Bool-cases, Option-cases, List-cases, ==→eq, contains-add, unseen, unseen-add,
  unseen-le_length,
}
use puffinfloww.Digraph.{Successors, Edge, Subset, Walk, one, more, walk_cons}
use puffinfloww.DependencyGraph.{names}
use puffinfloww.DependencyGraph.Cycles.{contains-append, contains-names_of_get}
use puffinfloww.Dag.{Dag, get_predecessors, get_successors}
use puffinfloww.Dag.Edits.{Wired}
use puffinfloww.Dag.Traversal.{skip_found, collect, get_ancestors, get_descendants}

-- In one of the two lists.
abbrev either : List Name → List Name → Name → Bool
either s t y = if contains y s then true else contains y t

either-skip_found :
    (found queue : List Name) (y : Name)
    → either found (skip_found found queue) y ≡ either found queue y
unfolding skip_found contains
either-skip_found found [] y = refl
either-skip_found found (z ∷ queue) y = elim (Bool-cases (contains z found)) [
  | inl old ↦ rw old (either-skip_found found queue y ∙ ground (arith, old, ==→eq y z))
  | inr new ↦ rw new
]

skip_found-Subset : (found queue : List Name) → Subset (skip_found found queue) queue
unfolding skip_found contains
skip_found-Subset found [] y m = m
skip_found-Subset found (z ∷ queue) y m = ground (arith, skip_found-Subset found queue y)

heads_equal : {y z : Name} {s t : List Name} → y ∷ s ≡ z ∷ t → y ≡ z
heads_equal e = cc

skip_found_new :
    (found queue : List Name) (z : Name) (rest : List Name)
    → skip_found found queue ≡ z ∷ rest
    → contains z found ≡ false
unfolding skip_found
skip_found_new found [] z rest e = cc
skip_found_new found (y ∷ queue) z rest e = elim (Bool-cases (contains y found)) [
  | inl old ↦ skip_found_new found queue z rest (rw (skip_found, old) at e)
  | inr new ↦ subst (λ x. contains x found ≡ false) (heads_equal (rw (skip_found, new) at e)) new
]

module _ (next : Successors) (u : List Name) (bounded : (x : Name) → Subset (next x) u)
    (x : Name) where
  -- What the loop keeps: all that is found or queued is reached, and what a found name or the start
  -- leads to is found or queued.
  record Spans (found queue : List Name) : Type 0 where
    reached : (y : Name) → either found queue y ≡ true → Walk next x y
    begun : (z : Name) → Edge next x z → either found queue z ≡ true
    closed : (y z : Name) → contains y found ≡ true → Edge next y z → either found queue z ≡ true

  Walk-bounded : (y : Name) → Walk next x y → contains y u ≡ true
  Walk-bounded y (one e) = bounded x y e
  Walk-bounded y (more {y = z} w e) = bounded z y e

  module _ (found queue : List Name) (z : Name) (rest : List Name)
      (e : skip_found found queue ≡ z ∷ rest) (s : Spans found queue) where
    same_names : (y : Name) → either found (z ∷ rest) y ≡ either found queue y
    same_names y = ap (λ q. either found q y) (sym e) ∙ either-skip_found found queue y

    z_reached : Walk next x z
    unfolding contains
    z_reached = s.reached z (sym (same_names z) ∙ ground (arith, ==_self z))

    kept : (y : Name) → either found queue y ≡ true → either (add z found) (rest ++ next z) y ≡ true
    unfolding contains
    kept y m =
        ground (arith, m, same_names y, contains-add y z found, contains-append y rest (next z))

    Spans-expand : Spans (add z found) (rest ++ next z)
    unfolding contains
    Spans-expand = record {
      reached = λ y m. elim (Bool-cases (contains y (next z))) [
        | inl edge ↦ more z_reached edge
        | inr none_ ↦ s.reached y (
            ground (
              arith,
              m,
              none_,
              same_names y,
              contains-add y z found,
              contains-append y rest (next z),
            ))
      ];
      begun = λ w edge. kept w (s.begun w edge);
      closed = λ y w m edge. elim (Bool-cases (y == z)) [
        | inl here ↦
            let from_z : Edge next z w = subst (λ v. Edge next v w) (==→eq y z here) edge in
            ground (arith, from_z, contains-append w rest (next z))
        | inr there ↦ kept w (s.closed y w (ground (arith, m, there, contains-add y z found)) edge)
      ];
    }

  Spans-end :
      (found queue : List Name) → skip_found found queue ≡ [] → Spans found queue → Spans found []
  Spans-end found queue e s =
      let same : (y : Name) → either found [] y ≡ either found queue y =
        λ y. ap (λ q. either found q y) (sym e) ∙ either-skip_found found queue y in
      record {
        reached = λ y m. s.reached y (sym (same y) ∙ m);
        begun = λ z edge. same z ∙ s.begun z edge;
        closed = λ y z m edge. same z ∙ s.closed y z m edge;
      }

  collect_lem :
      (fuel : ℕ) (found queue : List Name)
      → unseen u found ≤ fuel
      → Spans found queue
      → (t : List Name) × (collect next fuel queue found ≡ some t) × Spans t []
  unfolding collect
  collect_lem zero found queue h s = elim (List-cases (skip_found found queue)) [
    | inl e ↦ (found, rw (collect, e) refl, Spans-end found queue e s)
    | inr (z, rest, e) ↦
        let less =
          unseen-add u found z (Walk-bounded z (z_reached found queue z rest e s))
            (skip_found_new found queue z rest e) in
        absurd (omega (arith, h, less))
  ]
  collect_lem (suc fuel) found queue h s = elim (List-cases (skip_found found queue)) [
    | inl e ↦ (found, rw (collect, e) refl, Spans-end found queue e s)
    | inr (z, rest, e) ↦
        let less =
          unseen-add u found z (Walk-bounded z (z_reached found queue z rest e s))
            (skip_found_new found queue z rest e) in
        let (t, ends, spans) =
          collect_lem fuel (add z found) (rest ++ next z) (omega (arith, h, less))
            (Spans-expand found queue z rest e s) in
        (t, rw (collect, e) ends, spans)
  ]

  Spans-start : Spans [] (next x)
  unfolding contains
  Spans-start = record { reached = λ y m. one m; begun = λ z edge. edge; closed = λ y z m edge. cc }

  Spans-Walk : (t : List Name) → Spans t [] → (y : Name) → Walk next x y → contains y t ≡ true
  unfolding contains
  Spans-Walk t s y (one e) = let m = s.begun y e in ground (arith, m)
  Spans-Walk t s y (more {y = z} w e) =
      let m = s.closed z y (Spans-Walk t s z w) e in ground (arith, m)

  -- What the search returns is the set of the names that are reached.
  pub collect_reached :
      (t : List Name) × (collect next (length u) (next x) [] ≡ some t)
      × ((y : Name) → contains y t ≡ true → Walk next x y)
      × ((y : Name) → Walk next x y → contains y t ≡ true)
  collect_reached =
      let (t, ends, s) = collect_lem (length u) [] (next x) (unseen-le_length u []) Spans-start in
      (t, ends, λ y m. s.reached y (ground (arith, m)), Spans-Walk t s)

pub contains-names_of_default : (d : Dict (List Name)) (x : Name) → Subset (get_or x d []) (names d)
unfolding contains
contains-names_of_default d x y m = elim (Option-cases (get x d)) [
  | inl e ↦ ground arith
  | inr (s, e) ↦ contains-names_of_get d x y s e (ground arith)
]

module _ {ℓ} {T : Type ℓ} (d : Dag T) (wired : Wired d) where
  backwards : (x y : Name) → Walk (get_predecessors d) x y → Walk (get_successors d) y x
  backwards x y (one e) = one (wired.mirrored y x ∙ e)
  backwards x y (more {y = z} w e) =
      walk_cons (get_successors d) y z x (wired.mirrored y z ∙ e) (backwards x z w)

  forwards : (y x : Name) → Walk (get_successors d) y x → Walk (get_predecessors d) x y
  forwards y x (one e) = one (sym (wired.mirrored y x) ∙ e)
  forwards y x (more {y = z} w e) =
      walk_cons (get_predecessors d) x z y (sym (wired.mirrored z x) ∙ e) (forwards y z w)

  -- `get_descendants` and `get_ancestors` return on every graph, with cycles too, whose predecessors
  -- are its successors read backwards: the descendants of a node are the names that a walk leads to
  -- from it, and its ancestors those from which a walk leads to it.
  pub descendants_ancestors :
      (x : Name)
      → (below above : List Name) × (get_descendants d x ≡ some below)
        × (get_ancestors d x ≡ some above)
        × ((y : Name) → (contains y below ≡ true) ↔ Walk (get_successors d) x y)
        × ((y : Name) → (contains y above ≡ true) ↔ Walk (get_successors d) y x)
  unfolding get_descendants get_ancestors get_successors get_predecessors
  descendants_ancestors x =
      let down =
        collect_reached (get_successors d) (names d.adjacency)
          (contains-names_of_default d.adjacency) x in
      let up =
        collect_reached (get_predecessors d) (names d.reverse_adjacency)
          (contains-names_of_default d.reverse_adjacency) x in
      (
        down.0,
        up.0,
        down.1,
        up.1,
        λ y. (down.2 y, down.3 y),
        λ y. (λ m. backwards x y (up.2 y m), λ w. up.3 y (forwards y x w)),
      )
