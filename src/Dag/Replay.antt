-- ===== src/Dag/Replay.antt =====
-- core/dag/graph.py: `from_dict` gives back what `to_dict` was given.
use puffinfloww.Base.{
  ◌≡◌, refl, ap, sym, ◌∙◌, subst, inl, inr, ◌⊎◌, true, false, Option, none, some, List, [], ◌∷◌,
  ◌++◌, Name, Dict, arith, ◌==◌, All, All-append, contains, add, add_of_contains, get, put, has,
  keys, Distinct, keys-put-Distinct, get-put, Bool-cases, Option-cases, ==→eq,
}
use mathlib.Core.List.{append-nil, append_assoc}
use puffinfloww.DependencyGraph.{add_to}
use puffinfloww.DependencyGraph.Edits.{at, at-add_to}
use puffinfloww.Dag.{Edge, Dag, same_edge, same_condition, add_to_edges, create, add_node, add_edge}
use puffinfloww.Dag.Edits.{Call, adds_node, adds_edge, step, run}
use puffinfloww.Dag.Serialized.{to_dict, from_dict, add_nodes, add_edges}

-- Writing what is there changes nothing.
put_same {ℓ} : {V : Type ℓ} (k : Name) (v : V) (d : Dict V) → get k d ≡ some v → put k v d ≡ d
unfolding get put
put_same k v [] h = cc
put_same k v ((j, w) ∷ d) h = elim (Bool-cases (k == j)) [
  | inl here ↦ ground (arith, here, h)
  | inr there ↦ ground (arith, there, put_same k v d (ground arith))
]

-- A new key goes to the end.
put_new {ℓ} :
    {V : Type ℓ} (k : Name) (v : V) (d : Dict V) → has k d ≡ false → put k v d ≡ d ++ (k, v) ∷ []
unfolding get put
put_new k v [] h = refl
put_new k v ((j, w) ∷ d) h = ground (arith, put_new k v d)

add_to_same : (k x : Name) (d : Dict (List Name)) → at d k x ≡ true → add_to k x d ≡ d
unfolding add_to contains
add_to_same k x d h = elim (Option-cases (get k d)) [
  | inl absent ↦ ground (arith, absent)
  | inr (s, present) ↦
      ap (λ o. put k (add x (elim o [ none ↦ [] | some w ↦ w ])) d) present
      ∙ ap (λ t. put k t d) (add_of_contains x s (ground arith))
      ∙ put_same k s d present
]

same_condition_eq : (a b : Option Name) → same_condition a b ≡ true → a ≡ b
same_condition_eq none none h = refl
same_condition_eq none (some b) h = cc
same_condition_eq (some a) none h = cc
same_condition_eq (some a) (some b) h = ap some (==→eq a b h)

same_edge_eq : (e f : Edge) → same_edge e f ≡ true → e ≡ f
same_edge_eq e f h =
    ap (λ a. record e { source = a }) (==→eq e.source f.source (ground arith))
    ∙ ap (λ b. record f { target = b; metadata = e.metadata; condition = e.condition })
        (==→eq e.target f.target (ground arith))
    ∙ ap (λ n. record f { metadata = n; condition = e.condition })
        (==→eq e.metadata f.metadata (ground arith))
    ∙ ap (λ c. record f { condition = c })
        (same_condition_eq e.condition f.condition (ground arith))

-- An edge is in the list, or it is added at the end.
edge_known :
    (P : Edge → Type 0) (e : Edge) (es : List Edge)
    → All P es
    → ((add_to_edges e es ≡ es) × P e) ⊎ (add_to_edges e es ≡ es ++ e ∷ [])
unfolding add_to_edges
edge_known P e [] a = inr refl
edge_known P e (f ∷ es) a = elim (Bool-cases (same_edge e f)) [
  | inl same ↦ inl (ground (arith, same), subst P (sym (same_edge_eq e f same)) a.0)
  | inr other ↦ elim (edge_known P e es a.1) [
    | inl (known, p) ↦ inl (ground (arith, other, known), p)
    | inr new ↦ inr (ground (arith, other, new))
  ]
]

All_map : (P Q : Edge → Type 0) (es : List Edge) → ((e : Edge) → P e → Q e) → All P es → All Q es
All_map P Q [] f a = tt
All_map P Q (e ∷ es) f a = (f e a.0, All_map P Q es f a.1)

module _ {ℓ} {T : Type ℓ} where
  -- What `add_edge` does for an edge between known nodes.
  abbrev link : Dag T → Edge → Dag T
  link d e = record d {
    edges = add_to_edges e d.edges;
    adjacency = add_to e.source e.target d.adjacency;
    reverse_adjacency = add_to e.target e.source d.reverse_adjacency;
    is_validated = false;
  }

  link_all : Dag T → List Edge → Dag T
  link_all d [] = d
  link_all d (e ∷ es) = link_all (link d e) es

  link_all-snoc :
      (d : Dag T) (es : List Edge) (e : Edge) → link_all d (es ++ e ∷ []) ≡ link (link_all d es) e
  unfolding link_all
  link_all-snoc d [] e = refl
  link_all-snoc d (f ∷ es) e = link_all-snoc (link d f) es e

  link_all-nodes :
      (d : Dag T) (n : Dict T) (es : List Edge)
      → link_all (record d { nodes = n }) es ≡ record (link_all d es) { nodes = n }
  unfolding link_all
  link_all-nodes d n [] = refl
  link_all-nodes d n (e ∷ es) = link_all-nodes (link d e) n es

  link_all-validated :
      (d : Dag T) (es : List Edge) → d.is_validated ≡ false → (link_all d es).is_validated ≡ false
  unfolding link_all
  link_all-validated d [] h = h
  link_all-validated d (e ∷ es) h = link_all-validated (link d e) es refl

  abbrev bare : Dict T → Dag T
  bare n = record {
    nodes = n;
    edges = [];
    adjacency = [];
    reverse_adjacency = [];
    is_validated = false;
  }

  abbrev Joins : Dict T → Edge → Type 0
  Joins n e = (has e.source n ≡ true) × (has e.target n ≡ true)

  abbrev Entered : Dag T → Edge → Type 0
  Entered d e =
      (at d.adjacency e.source e.target ≡ true) × (at d.reverse_adjacency e.target e.source ≡ true)

  -- The graph is what its nodes and its edges, added one by one, make.
  record Replayed (d : Dag T) : Type ℓ where
    distinct : Distinct (keys d.nodes)
    joined : All (Joins d.nodes) d.edges
    entered : All (Entered d) d.edges
    replay : link_all (bare d.nodes) d.edges ≡ record d { is_validated = false }

  link-Replayed : (d : Dag T) (e : Edge) → Joins d.nodes e → Replayed d → Replayed (link d e)
  link-Replayed d e j r = elim (edge_known (Entered d) e d.edges r.entered) [
    | inl (known, there) ↦
        let same : link d e ≡ record d { is_validated = false } =
          rw
            (
              known,
              add_to_same e.source e.target d.adjacency there.0,
              add_to_same e.target e.source d.reverse_adjacency there.1,
            )
            refl in
        subst Replayed (sym same) (record {
          distinct = r.distinct;
          joined = r.joined;
          entered = r.entered;
          replay = r.replay;
        })
    | inr new ↦ record {
      distinct = r.distinct;
      joined = rw new (All-append (Joins d.nodes) d.edges (e ∷ []) r.joined (j, tt));
      entered = rw new (
          All-append (Entered (link d e)) d.edges (e ∷ [])
            (All_map (Entered d) (Entered (link d e)) d.edges (λ f h. still_entered f h) r.entered)
            (now_entered, tt));
      replay =
          ap (link_all (bare d.nodes)) new
          ∙ link_all-snoc (bare d.nodes) d.edges e
          ∙ ap (λ x. link x e) r.replay;
    }
  ]
    where
      still_entered : (f : Edge) → Entered d f → Entered (link d e) f
      still_entered f h = (
        ground (arith, at-add_to d.adjacency e.source e.target f.source f.target, h.0),
        ground (arith, at-add_to d.reverse_adjacency e.target e.source f.target f.source, h.1),
      )

      now_entered : Entered (link d e) e
      now_entered = (
        ground (arith, at-add_to d.adjacency e.source e.target e.source e.target),
        ground (arith, at-add_to d.reverse_adjacency e.target e.source e.target e.source),
      )

  has-put : (j k : Name) (v : T) (n : Dict T) → has j n ≡ true → has j (put k v n) ≡ true
  has-put j k v n h = ground (arith, get-put j k v n)

  put-Replayed :
      (d : Dag T) (id : Name) (x : T)
      → Replayed d
      → Replayed (record d { nodes = put id x d.nodes; is_validated = false })
  put-Replayed d id x r = record {
    distinct = keys-put-Distinct id x d.nodes r.distinct;
    joined =
        All_map (Joins d.nodes) (Joins (put id x d.nodes)) d.edges
          (λ e j. (has-put e.source id x d.nodes j.0, has-put e.target id x d.nodes j.1)) r.joined;
    entered = r.entered;
    replay =
        link_all-nodes (bare d.nodes) (put id x d.nodes) d.edges
        ∙ ap (λ (y : Dag T). record y { nodes = put id x d.nodes }) r.replay;
  }

  step-Replayed : (d : Dag T) (c : Call T) → Replayed d → Replayed (step d c)
  unfolding step add_node add_edge
  step-Replayed d (adds_node id x) r = elim (Bool-cases (has id d.nodes)) [
    | inl old ↦ rw old r
    | inr new ↦ rw new (put-Replayed d id x r)
  ]
  step-Replayed d (adds_edge e) r = elim (Bool-cases (has e.source d.nodes)) [
    | inr missing ↦ rw missing r
    | inl source ↦ elim (Bool-cases (has e.target d.nodes)) [
      | inr missing ↦ rw (source, missing) r
      | inl target ↦ rw (source, target) (link-Replayed d e (source, target) r)
    ]
  ]

  run-Replayed : (d : Dag T) (cs : List (Call T)) → Replayed d → Replayed (run d cs)
  unfolding run
  run-Replayed d [] r = r
  run-Replayed d (c ∷ cs) r = run-Replayed (step d c) cs (step-Replayed d c r)

  create-Replayed : Replayed create
  unfolding create keys link_all
  create-Replayed = record { distinct = tt; joined = tt; entered = tt; replay = refl }

  add_edges_all :
      (d : Dag T) (es : List Edge) → All (Joins d.nodes) es → add_edges d es ≡ some (link_all d es)
  unfolding add_edges add_edge link_all
  add_edges_all d [] a = refl
  add_edges_all d (e ∷ es) a =
      rw (add_edges, add_edge, a.0.0, a.0.1) (add_edges_all (link d e) es a.1)

  add_nodes_all :
      (n more : Dict T)
      → Distinct (keys more)
      → ((k : Name) → contains k (keys more) ≡ true → has k n ≡ false)
      → add_nodes (bare n) more ≡ some (bare (n ++ more))
  unfolding add_nodes add_node keys contains
  add_nodes_all n [] u f = ap (λ x. some (bare x)) (sym (append-nil n))
  add_nodes_all n ((id, x) ∷ more) u f =
      let new : has id n ≡ false = f id (ground arith) in
      rw (add_nodes, add_node, new)
        (rw (put_new id x n new) (
          add_nodes_all (n ++ (id, x) ∷ []) more u.1 (later new)
          ∙ ap (λ y. some (bare y)) (append_assoc n ((id, x) ∷ []) more)))
    where
      later :
          has id n ≡ false
          → (k : Name) → contains k (keys more) ≡ true
          → has k (n ++ (id, x) ∷ []) ≡ false
      later new k m =
          subst (λ y. has k y ≡ false) (put_new id x n new)
            (elim (Bool-cases (k == id)) [
              | inl same ↦ ground (arith, m, u.0, ==→eq k id same)
              | inr other ↦ ground (arith, get-put k id x n, f k, m, other)
            ])

  -- The dictionary of a graph that was made by any history of added nodes and edges, refused ones
  -- included, is read back as the same graph, but not validated: nodes, edges and both adjacency
  -- dictionaries are as they were.
  pub from_dict-to_dict :
      (cs : List (Call T))
      → from_dict (to_dict (run create cs)) ≡ some (record (run create cs) { is_validated = false })
  unfolding from_dict to_dict
  from_dict-to_dict cs =
      let d = run create cs in
      let r = run-Replayed create cs create-Replayed in
      let nodes_back : add_nodes create d.nodes ≡ some (bare d.nodes) =
        unfold create get in add_nodes_all [] d.nodes r.distinct (λ k m. refl) in
      rw (from_dict, nodes_back) (add_edges_all (bare d.nodes) d.edges r.joined ∙ ap some r.replay)

  -- The nodes of a graph stand in its dictionary once.
  pub run-create_nodes : (cs : List (Call T)) → Distinct (keys (run create cs).nodes)
  run-create_nodes cs = (run-Replayed create cs create-Replayed).distinct
