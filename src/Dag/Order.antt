-- ===== src/Dag/Order.antt =====
-- core/dag/graph.py: the order that `topological_sort` gives.
use puffinfloww.Base.{
  ℕ, ltb, Option-cases, ◌≡◌, refl, sym, ◌∙◌, subst, ap, inl, inr, true, false, none, some, List, [],
  ◌∷◌, Name, Dict, ◌==◌, has, get, get_or, get-put, keys, add, contains, contains-keys, Distinct,
  Distinct-add, unseen-le_length, Bool-cases, length,
}
use puffinfloww.Digraph.{IsFinished, IsAcyclic}
use puffinfloww.DependencyGraph.{add_to}
use puffinfloww.Dag.{Dag, create, add_node, add_edge, get_predecessors, get_successors}
use puffinfloww.Dag.Edits.{Call, adds_node, adds_edge, step, run, Wired, run-create-Wired}
use puffinfloww.Dag.Replay.{run-create_nodes}
use puffinfloww.Dag.Components.{
  valid, cycle_detected, disconnected, undecided, validate, get_connected_components,
}
use puffinfloww.Dag.Sort.{kahn, topological_sort, sorted, sort_valid}
use puffinfloww.Dag.Cycles.{has_cycle-find_cycle}
use puffinfloww.Dag.Kahn.{newest_first}
use puffinfloww.Dag.Complete.{sort_loop_ends, Kept-start, backwards_forever}

-- The values of a dictionary of sets hold no name twice.
abbrev IsSets : Dict (List Name) → Type 0
IsSets m = (x : Name) → Distinct (get_or x m [])

add_to-IsSets : (k x : Name) (m : Dict (List Name)) → IsSets m → IsSets (add_to k x m)
unfolding add_to
add_to-IsSets k x m h j =
    subst Distinct
      (sym (ap (λ o. elim o [ none ↦ [] | some w ↦ w ]) (get-put j k (add x (get_or k m [])) m)))
      (elim (Bool-cases (j == k)) [
        | inl here ↦ rw here (Distinct-add x (get_or k m []) (h k))
        | inr there ↦ rw there (h j)
      ])

false-true : ¬ (false ≡ true)
false-true e = cc

cycle_not_valid {ℓ} : {T : Type ℓ} (c : List Name) (d : Dag T) → ¬ (cycle_detected c ≡ valid d)
cycle_not_valid c d e = cc

undecided_not_valid {ℓ} : {T : Type ℓ} (d : Dag T) → ¬ (undecided ≡ valid d)
undecided_not_valid d e = cc

disconnected_not_valid {ℓ} : {T : Type ℓ} (n : ℕ) (d : Dag T) → ¬ (disconnected n ≡ valid d)
disconnected_not_valid n d e = cc

valid_injective {ℓ} : {T : Type ℓ} {d d' : Dag T} → valid d ≡ valid d' → d' ≡ d
valid_injective e = cc

module _ {ℓ} {T : Type ℓ} where
  abbrev Sets : Dag T → Type 0
  Sets d = IsSets d.adjacency × IsSets d.reverse_adjacency

  step-Sets : (d : Dag T) (c : Call T) → Sets d → Sets (step d c)
  unfolding step add_node add_edge
  step-Sets d (adds_node id x) s = elim (Bool-cases (has id d.nodes)) [
    | inl old ↦ rw old s
    | inr new ↦ rw new s
  ]
  step-Sets d (adds_edge e) s = elim (Bool-cases (has e.source d.nodes)) [
    | inr missing ↦ rw missing s
    | inl source ↦ elim (Bool-cases (has e.target d.nodes)) [
      | inr missing ↦ rw (source, missing) s
      | inl target ↦
          rw (source, target)
            (
              add_to-IsSets e.source e.target d.adjacency s.0,
              add_to-IsSets e.target e.source d.reverse_adjacency s.1,
            )
    ]
  ]

  run-Sets : (d : Dag T) (cs : List (Call T)) → Sets d → Sets (run d cs)
  unfolding run
  run-Sets d [] s = s
  run-Sets d (c ∷ cs) s = run-Sets (step d c) cs (step-Sets d c s)

  step_unvalidated :
      (d : Dag T) (c : Call T) → d.is_validated ≡ false → (step d c).is_validated ≡ false
  unfolding step add_node add_edge
  step_unvalidated d (adds_node id x) h = elim (Bool-cases (has id d.nodes)) [
    | inl old ↦ rw old h
    | inr new ↦ rw new refl
  ]
  step_unvalidated d (adds_edge e) h = elim (Bool-cases (has e.source d.nodes)) [
    | inr missing ↦ rw missing h
    | inl source ↦ elim (Bool-cases (has e.target d.nodes)) [
      | inr missing ↦ rw (source, missing) h
      | inl target ↦ rw (source, target) refl
    ]
  ]

  pub run_unvalidated :
      (d : Dag T) (cs : List (Call T)) → d.is_validated ≡ false → (run d cs).is_validated ≡ false
  unfolding run
  run_unvalidated d [] h = h
  run_unvalidated d (c ∷ cs) h = run_unvalidated (step d c) cs (step_unvalidated d c h)

  -- The order has every node once, each behind all of its predecessors.
  abbrev pub Orders : Dag T → List Name → Type 0
  Orders d order =
      IsFinished (get_predecessors d) (newest_first order [])
      × ((x : Name) → contains x order ≡ has x d.nodes)

  module _ (cs : List (Call T)) where
    abbrev pub d : Dag T
    d = run create cs

    wired : Wired d
    wired = run-create-Wired cs

    pub kahn_sorts :
        IsAcyclic (get_successors d) → (order : List Name) × (kahn d ≡ some order) × Orders d order
    unfolding kahn get_successors get_predecessors contains
    kahn_sorts acyclic =
        let sets = run-Sets create cs (unfold create get in (λ x. tt, λ x. tt)) in
        let known : (x y : Name)
            → contains y (get_successors d x) ≡ true
            → (contains x (keys d.nodes) ≡ true) × (contains y (keys d.nodes) ≡ true) =
          λ x y e.
            (let w = wired.known x y e in
              (contains-keys x d.nodes ∙ w.0, contains-keys y d.nodes ∙ w.1)) in
        let (order, m, ends, kept) =
          sort_loop_ends (get_successors d) (get_predecessors d) (keys d.nodes) wired.mirrored
            sets.0 sets.1 known (length (keys d.nodes)) _ _ [] (unseen-le_length (keys d.nodes) [])
            (Kept-start (get_successors d) (get_predecessors d) (keys d.nodes) wired.mirrored sets.0
              sets.1 known (run-create_nodes cs)) in
        let complete : (x : Name) → contains x order ≡ has x d.nodes = λ x.
          (elim (Bool-cases (contains x order)) [
            | inl given ↦ given ∙ sym (sym (contains-keys x d.nodes) ∙ kept.within x given)
            | inr missing ↦ elim (Bool-cases (has x d.nodes)) [
              | inr foreign ↦ missing ∙ sym foreign
              | inl node ↦ absurd (
                  backwards_forever (get_successors d) (get_predecessors d) (keys d.nodes)
                    wired.mirrored sets.0 sets.1 known m order kept acyclic (length (keys d.nodes))
                    [] x (unseen-le_length (keys d.nodes) []) (contains-keys x d.nodes ∙ node)
                    missing refl (λ p h. absurd (false-true h)))
            ]
          ]) in
        (order, ends, (kept.ordered, complete))

    -- A graph that `validate` accepts is acyclic, and is accepted as it is.
    pub valid_facts :
        (d' : Dag T)
        → validate d ≡ valid d'
        → IsAcyclic (get_successors d) × (d' ≡ record d { is_validated = true })
    unfolding validate
    valid_facts d' h = elim (has_cycle-find_cycle d wired) [
      | inr (cyclic, (c, found, is)) ↦
          absurd (cycle_not_valid c d' (rw (validate, cyclic, found) at h))
      | inl (no_cycle, found, acyclic) ↦ elim (Option-cases (get_connected_components d)) [
        | inl out ↦ absurd (undecided_not_valid d' (rw (validate, no_cycle, out) at h))
        | inr (cs', parts) ↦ elim (Bool-cases (ltb 1 (length cs'))) [
          | inl many ↦
              absurd
                (disconnected_not_valid (length cs') d' (rw (validate, no_cycle, parts, many) at h))
          | inr whole ↦ (acyclic, valid_injective (rw (validate, no_cycle, parts, whole) at h))
        ]
      ]
    ]

    kahn_validated : kahn (record d { is_validated = true }) ≡ kahn d
    unfolding kahn get_successors
    kahn_validated = refl

    pub sorted_of_kahn :
        (d' : Dag T) (order : List Name)
        → validate d ≡ valid d'
        → kahn d ≡ some order
        → topological_sort d ≡ sorted d' order
    unfolding topological_sort sort_valid
    sorted_of_kahn d' order h ends =
        let same : kahn d' ≡ kahn d = ap kahn (valid_facts d' h).1 ∙ kahn_validated in
        rw
          (
            topological_sort,
            run_unvalidated create cs (unfold create in refl),
            h,
            sort_valid,
            same,
            ends,
          )
          refl

    -- For a graph that was made by any history of added nodes and edges, refused ones included, and
    -- that `validate` accepts: `topological_sort` returns every node once, each behind all of its
    -- predecessors.
    pub topological_sort-Orders :
        (d' : Dag T)
        → validate d ≡ valid d'
        → (order : List Name) × (topological_sort d ≡ sorted d' order) × Orders d order
    topological_sort-Orders d' h =
        let (order, ends, orders) = kahn_sorts (valid_facts d' h).0 in
        (order, sorted_of_kahn d' order h ends, orders)
