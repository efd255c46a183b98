-- ===== src/DependencyGraph/Edits.antt =====
-- core/coordination/deadlock.py: the edits of `DependencyGraph` as changes of its set of edges. The
-- two dictionaries stay mirror images of one another.
use puffinfloww.Base.{
  ◌≡◌, refl, ap, ◌∙◌, fun_ext, Bool, true, false, ◌&&◌, ◌||◌, Option, none, some, List, [], ◌∷◌,
  Name, Dict, arith, ◌==◌, if◌then◌else◌, contains, add, discard, get, get_or, put, pop, is_empty,
  contains-add, contains-discard, get-put, get-pop,
}
use puffinfloww.DependencyGraph.{
  Graph, empty, add_to, drop_from, discard_from, discard_from_all, add_dependency,
  remove_dependency, remove_outgoing, remove_incoming, remove_node,
}

-- `x` is in the set at `k`.
abbrev pub at : Dict (List Name) → Name → Name → Bool
at d k x = contains x (get_or k d [])

pub at-add_to :
    (d : Dict (List Name)) (k x j y : Name)
    → at (add_to k x d) j y ≡ (if (j == k) && (y == x) then true else at d j y)
unfolding add_to
at-add_to d k x j y =
    ground (arith, get-put j k (add x (get_or k d [])) d, contains-add y x (get_or k d []))

contains_of_empty : (y : Name) (s : List Name) → is_empty s ≡ true → contains y s ≡ false
unfolding contains
contains_of_empty y [] h = refl
contains_of_empty y (x ∷ s) h = cc

at-drop_from :
    (d : Dict (List Name)) (k x j y : Name)
    → at (drop_from k x d) j y ≡ (if (j == k) && (y == x) then false else at d j y)
unfolding drop_from contains
at-drop_from d k x j y = go (get k d) refl
  where
    go :
        (o : Option (List Name))
        → get k d ≡ o
        → at
            (elim o [
              | none ↦ d
              | some s ↦ if is_empty (discard x s) then pop k d else put k (discard x s) d
            ])
            j
            y
          ≡ (if (j == k) && (y == x) then false else at d j y)
    go none e = ground (arith, e)
    go (some s) e = ground (
      arith,
      e,
      get-pop j k d,
      get-put j k (discard x s) d,
      contains-discard y x s,
      contains_of_empty y (discard x s),
    )

at-discard_from :
    (d : Dict (List Name)) (k x j y : Name)
    → at (discard_from k x d) j y ≡ (if (j == k) && (y == x) then false else at d j y)
unfolding discard_from contains
at-discard_from d k x j y = go (get k d) refl
  where
    go :
        (o : Option (List Name))
        → get k d ≡ o
        → at (elim o [ none ↦ d | some s ↦ put k (discard x s) d ]) j y
          ≡ (if (j == k) && (y == x) then false else at d j y)
    go none e = ground (arith, e)
    go (some s) e = ground (arith, e, get-put j k (discard x s) d, contains-discard y x s)

at-discard_from_all :
    (d : Dict (List Name)) (ks : List Name) (x j y : Name)
    → at (discard_from_all ks x d) j y ≡ (if contains j ks && (y == x) then false else at d j y)
unfolding discard_from_all contains
at-discard_from_all d [] x j y = refl
at-discard_from_all d (k ∷ ks) x j y =
    ground (arith, at-discard_from_all (discard_from k x d) ks x j y, at-discard_from d k x j y)

at-pop :
    (d : Dict (List Name)) (k j y : Name) → at (pop k d) j y ≡ (if j == k then false else at d j y)
unfolding contains
at-pop d k j y = ground (arith, get-pop j k d)

-- The edge from `x` to `y`, as `nodes` holds it.
abbrev pub edge : Graph → Name → Name → Bool
edge g x y = at g.nodes x y

-- `reverse_edges` holds the same edges, the other way round.
pub Mirrored : Graph → Type 0
Mirrored g = (x y : Name) → at g.reverse_edges y x ≡ edge g x y

pub add_dependency_edges :
    (g : Graph) (a b : Name)
    → Mirrored g
    → ((x y : Name)
        → edge (add_dependency g a b) x y ≡ (if (x == a) && (y == b) then true else edge g x y))
      × Mirrored (add_dependency g a b)
unfolding add_dependency Mirrored
add_dependency_edges g a b m = (
  λ x y. at-add_to g.nodes a b x y,
  λ x y. ground (arith, at-add_to g.nodes a b x y, at-add_to g.reverse_edges b a y x, m x y),
)

remove_dependency_edges :
    (g : Graph) (a b : Name)
    → Mirrored g
    → ((x y : Name)
        → edge (remove_dependency g a b) x y ≡ (if (x == a) && (y == b) then false else edge g x y))
      × Mirrored (remove_dependency g a b)
unfolding remove_dependency Mirrored
remove_dependency_edges g a b m = (
  λ x y. at-drop_from g.nodes a b x y,
  λ x y. ground (arith, at-drop_from g.nodes a b x y, at-drop_from g.reverse_edges b a y x, m x y),
)

outgoing_edges :
    (g : Graph) (n x y : Name)
    → (edge (remove_outgoing g n) x y ≡ (if x == n then false else edge g x y))
      × (at (remove_outgoing g n).reverse_edges y x
          ≡ (if edge g n y && (x == n) then false else at g.reverse_edges y x))
unfolding remove_outgoing contains
outgoing_edges g n x y = go (get n g.nodes) refl
  where
    go :
        (o : Option (List Name))
        → get n g.nodes ≡ o
        → let h : Graph = elim o [
          | none ↦ g
          | some deps ↦ record {
            nodes = pop n g.nodes;
            reverse_edges = discard_from_all deps n g.reverse_edges;
          }
        ] in
          (edge h x y ≡ (if x == n then false else edge g x y))
          × (at h.reverse_edges y x
              ≡ (if edge g n y && (x == n) then false else at g.reverse_edges y x))
    go none e = (ground (arith, e), ground (arith, e))
    go (some s) e =
        (at-pop g.nodes n x y, ground (arith, e, at-discard_from_all g.reverse_edges s n y x))

incoming_edges :
    (g : Graph) (n x y : Name)
    → (edge (remove_incoming g n) x y
        ≡ (if at g.reverse_edges n x && (y == n) then false else edge g x y))
      × (at (remove_incoming g n).reverse_edges y x
          ≡ (if y == n then false else at g.reverse_edges y x))
unfolding remove_incoming contains
incoming_edges g n x y = go (get n g.reverse_edges) refl
  where
    go :
        (o : Option (List Name))
        → get n g.reverse_edges ≡ o
        → let h : Graph = elim o [
          | none ↦ g
          | some dependents ↦ record {
            nodes = discard_from_all dependents n g.nodes;
            reverse_edges = pop n g.reverse_edges;
          }
        ] in
          (edge h x y ≡ (if at g.reverse_edges n x && (y == n) then false else edge g x y))
          × (at h.reverse_edges y x ≡ (if y == n then false else at g.reverse_edges y x))
    go none e = (ground (arith, e), ground (arith, e))
    go (some s) e =
        (ground (arith, e, at-discard_from_all g.nodes s n x y), at-pop g.reverse_edges n y x)

remove_node_edges :
    (g : Graph) (n : Name)
    → Mirrored g
    → ((x y : Name)
        → edge (remove_node g n) x y ≡ (if (x == n) || (y == n) then false else edge g x y))
      × Mirrored (remove_node g n)
unfolding remove_node Mirrored
remove_node_edges g n m = (edges, λ x y. mirrored x y)
  where
    out : Graph
    out = remove_outgoing g n

    edges :
        (x y : Name)
        → edge (remove_incoming out n) x y ≡ (if (x == n) || (y == n) then false else edge g x y)
    edges x y = ground (
      arith,
      (incoming_edges out n x y).0,
      (outgoing_edges g n x y).0,
      (outgoing_edges g n x n).1,
      m x n,
    )

    mirrored :
        (x y : Name)
        → at (remove_incoming out n).reverse_edges y x ≡ edge (remove_incoming out n) x y
    mirrored x y =
        ground (arith, edges x y, (incoming_edges out n x y).1, (outgoing_edges g n x y).1, m x y)

pub empty-Mirrored : Mirrored empty
unfolding Mirrored get contains
empty-Mirrored x y = refl

pub data Edit : Type 0 where
  adds : (from to : Name) → Edit
  removes : (from to : Name) → Edit
  deletes : (node : Name) → Edit

unfoldable pub edit : Graph → Edit → Graph
unfolding add_dependency remove_dependency remove_node
edit g (adds a b) = add_dependency g a b
edit g (removes a b) = remove_dependency g a b
edit g (deletes n) = remove_node g n

unfoldable pub edit_all : Graph → List Edit → Graph
unfolding edit
edit_all g [] = g
edit_all g (e ∷ es) = edit_all (edit g e) es

-- The set of edges after an edit.
abbrev after : (Name → Name → Bool) → Edit → Name → Name → Bool
after old (adds a b) x y = if (x == a) && (y == b) then true else old x y
after old (removes a b) x y = if (x == a) && (y == b) then false else old x y
after old (deletes n) x y = if (x == n) || (y == n) then false else old x y

-- The set of edges after some edits, one by one.
unfoldable pub edges_after : (Name → Name → Bool) → List Edit → Name → Name → Bool
edges_after old [] = old
edges_after old (e ∷ es) = edges_after (after old e) es

edit_edges :
    (g : Graph) (e : Edit)
    → Mirrored g
    → ((x y : Name) → edge (edit g e) x y ≡ after (edge g) e x y) × Mirrored (edit g e)
unfolding edit
edit_edges g (adds a b) m = add_dependency_edges g a b m
edit_edges g (removes a b) m = remove_dependency_edges g a b m
edit_edges g (deletes n) m = remove_node_edges g n m

-- After any dependencies are added and removed and any nodes are removed, in any order, the graph has
-- the edges of the abstract set on which each call adds its edge, or removes it, or removes the
-- edges from the node and to it, and no other; and the two dictionaries hold the same edges, the other
-- way round.
pub edit_all_refines :
    (g : Graph) (es : List Edit)
    → Mirrored g
    → ((x y : Name) → edge (edit_all g es) x y ≡ edges_after (edge g) es x y)
      × Mirrored (edit_all g es)
unfolding edit_all edges_after
edit_all_refines g [] m = (λ x y. refl, m)
edit_all_refines g (e ∷ es) m =
    let now = edit_edges g e m in
    let later = edit_all_refines (edit g e) es now.1 in
    (
      λ x y. later.0 x y ∙ ap (λ f. edges_after f es x y) (fun_ext (λ u. fun_ext (λ v. now.0 u v))),
      later.1,
    )
