-- ===== src/Dag/Linked.antt =====
-- core/dag/graph.py: names that edges join, in either direction, and what the search of
-- `get_connected_components` colours.
use puffinfloww.Base.{
  ◌≡◌, sym, subst, inl, inr, Bool-cases, true, false, Name, arith, contains, add, contains-add,
  ◌==◌, ==→eq,
}
use puffinfloww.Digraph.{Successors, Subset, Edge}
use puffinfloww.Dag.Components.{Colouring}

-- A path of edges leads from one name to the other, whichever way each of them points.
pub data Linked (next : Successors) (x : Name) : Name → Type 0 where
  here : Linked next x x
  along : {y z : Name} → Linked next x y → Edge next y z → Linked next x z
  against : {y z : Name} → Linked next x y → Edge next z y → Linked next x z

pub Linked-trans :
    (next : Successors) (x y z : Name) → Linked next x y → Linked next y z → Linked next x z
Linked-trans next x y z l here = l
Linked-trans next x y z l (along {y = v} k e) = along (Linked-trans next x y v l k) e
Linked-trans next x y z l (against {y = v} k e) = against (Linked-trans next x y v l k) e

module _ (succ pred : Successors) where
  -- All that was coloured from the root on is linked to it, is in its component, and has all its
  -- neighbors coloured.
  pub record Grown (root : Name) (c c' : Colouring) : Type 0 where
    pub more : Subset c.visited c'.visited
    pub kept : Subset c.component c'.component
    pub came :
        (y : Name)
        → contains y c'.component ≡ true
        → contains y c.component ≡ false
        → (contains y c'.visited ≡ true) × (contains y c.visited ≡ false)
    pub went :
        (y : Name)
        → contains y c'.visited ≡ true
        → contains y c.visited ≡ false
        → contains y c'.component ≡ true
    pub linked :
        (y : Name)
        → contains y c'.visited ≡ true
        → contains y c.visited ≡ false
        → Linked succ root y
    pub below :
        (y : Name)
        → contains y c'.visited ≡ true
        → contains y c.visited ≡ false
        → Subset (succ y) c'.visited
    pub above :
        (y : Name)
        → contains y c'.visited ≡ true
        → contains y c.visited ≡ false
        → Subset (pred y) c'.visited

  pub Grown-refl : (root : Name) (c : Colouring) → Grown root c c
  Grown-refl root c = record {
    more = λ y m. m;
    kept = λ y m. m;
    came = λ y m n. cc;
    went = λ y m n. cc;
    linked = λ y m n. cc;
    below = λ y m n. cc;
    above = λ y m n. cc;
  }

  pub Grown-trans :
      (root : Name) (a b c : Colouring) → Grown root a b → Grown root b c → Grown root a c
  Grown-trans root a b c g h = record {
    more = λ y m. h.more y (g.more y m);
    kept = λ y m. h.kept y (g.kept y m);
    came = λ y m n. elim (Bool-cases (contains y b.component)) [
      | inl early ↦ let (in_, out) = g.came y early n in (h.more y in_, out)
      | inr late ↦ let (in_, out) = h.came y m late in (in_, ground (arith, g.more y, out))
    ];
    went = λ y m n. elim (Bool-cases (contains y b.visited)) [
      | inl early ↦ h.kept y (g.went y early n)
      | inr late ↦ h.went y m late
    ];
    linked = λ y m n. elim (Bool-cases (contains y b.visited)) [
      | inl early ↦ g.linked y early n
      | inr late ↦ h.linked y m late
    ];
    below = λ y m n. elim (Bool-cases (contains y b.visited)) [
      | inl early ↦ λ z e. h.more z (g.below y early n z e)
      | inr late ↦ h.below y m late
    ];
    above = λ y m n. elim (Bool-cases (contains y b.visited)) [
      | inl early ↦ λ z e. h.more z (g.above y early n z e)
      | inr late ↦ h.above y m late
    ];
  }

  -- The same from another root that is linked to this one.
  pub Grown-from :
      (root node : Name) (c c' : Colouring)
      → Linked succ root node
      → Grown node c c'
      → Grown root c c'
  Grown-from root node c c' l g = record {
    more = g.more;
    kept = g.kept;
    came = g.came;
    went = g.went;
    linked = λ y m n. Linked-trans succ root node y l (g.linked y m n);
    below = g.below;
    above = g.above;
  }

  abbrev pub entered : Name → Colouring → Colouring
  entered node c = record { visited = add node c.visited; component = add node c.component }

  -- A call for a new name, whose neighbors are all coloured after it.
  pub Grown-enter :
      (node : Name) (c c' : Colouring)
      → contains node c.visited ≡ false
      → Subset (succ node) c'.visited
      → Subset (pred node) c'.visited
      → Grown node (entered node c) c'
      → Grown node c c'
  Grown-enter node c c' new down up g =
      let in_visited = λ (y : Name). contains-add y node c.visited in
      let in_component = λ (y : Name). contains-add y node c.component in
      let self_in : contains node c'.visited ≡ true =
        g.more node (ground (arith, in_visited node)) in
      let self_of : contains node c'.component ≡ true =
        g.kept node (ground (arith, in_component node)) in
      record {
        more = λ y m. g.more y (ground (arith, m, in_visited y));
        kept = λ y m. g.kept y (ground (arith, m, in_component y));
        came = λ y m n. elim (Bool-cases (y == node)) [
          | inl it ↦
              subst (λ z. (contains z c'.visited ≡ true) × (contains z c.visited ≡ false))
                (sym (==→eq y node it)) (self_in, new)
          | inr other ↦
              let (in_, out) = g.came y m (ground (arith, n, other, in_component y)) in
              (in_, ground (arith, out, in_visited y))
        ];
        went = λ y m n. elim (Bool-cases (y == node)) [
          | inl it ↦ subst (λ z. contains z c'.component ≡ true) (sym (==→eq y node it)) self_of
          | inr other ↦ g.went y m (ground (arith, n, other, in_visited y))
        ];
        linked = λ y m n. elim (Bool-cases (y == node)) [
          | inl it ↦ subst (Linked succ node) (sym (==→eq y node it)) here
          | inr other ↦ g.linked y m (ground (arith, n, other, in_visited y))
        ];
        below = λ y m n. elim (Bool-cases (y == node)) [
          | inl it ↦ subst (λ z. Subset (succ z) c'.visited) (sym (==→eq y node it)) down
          | inr other ↦ g.below y m (ground (arith, n, other, in_visited y))
        ];
        above = λ y m n. elim (Bool-cases (y == node)) [
          | inl it ↦ subst (λ z. Subset (pred z) c'.visited) (sym (==→eq y node it)) up
          | inr other ↦ g.above y m (ground (arith, n, other, in_visited y))
        ];
      }
