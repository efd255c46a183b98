-- ===== src/Dag/Partition.antt =====
-- core/dag/graph.py: the loop of `get_connected_components` makes the connected components.
use mathlib.Core.List.{append-nil, append_assoc}
use puffinfloww.Dag.Linked.{Linked, here, along, against, Grown}
use puffinfloww.Base.{
  All, Bool, sym, subst, ap, ◌∙◌, ◌↔◌, ◌||◌, ◌==◌, ==→eq, ◌≡◌, refl, inl, inr, Bool-cases, true,
  false, some, List, [], ◌∷◌, ◌++◌, Name, arith, contains, unseen-le_length, length,
}
use puffinfloww.Digraph.{Successors, Subset}
use puffinfloww.Dag.Components.{Colouring, colour, components_from}
use puffinfloww.Dag.Coloured.{colour-Returns}

-- The component of a node: the names that are linked to it.
abbrev pub IsComponentOf : Successors → Name → List Name → Type 0
IsComponentOf next x part = (y : Name) → (contains y part ≡ true) ↔ Linked next x y

abbrev pub in_some : Name → List (List Name) → Bool
in_some x [] = false
in_some x (part ∷ parts) = contains x part || in_some x parts

-- No name is in two of the parts.
abbrev pub Apart : List (List Name) → Type 0
Apart [] = Unit {0}
Apart (part ∷ parts) = ((y : Name) → contains y part ≡ true → in_some y parts ≡ false) × Apart parts

-- The parts are the connected components of the nodes, each once.
pub record IsComponents (next : Successors) (nodes : List Name) (parts : List (List Name))
    : Type 0 where
  pub each : All (λ part. (x : Name) × (contains x nodes ≡ true) × IsComponentOf next x part) parts
  pub apart : Apart parts
  pub covers : (x : Name) → contains x nodes ≡ true → in_some x parts ≡ true

module _ (succ pred : Name → List Name) (u : List Name) (succ_in : (x : Name) → Subset (succ x) u)
    (pred_in : (x : Name) → Subset (pred x) u)
    (mirrored : (x y : Name) → contains y (succ x) ≡ contains x (pred y)) where
  -- A set of names with all their neighbors.
  abbrev Closed : List Name → Type 0
  Closed v = (y : Name) → contains y v ≡ true → Subset (succ y) v × Subset (pred y) v

  Linked-outside :
      (v : List Name) (x y : Name)
      → Closed v
      → contains x v ≡ false
      → Linked succ x y
      → contains y v ≡ false
  Linked-outside v x y closed out here = out
  Linked-outside v x y closed out (along {y = z} l e) = elim (Bool-cases (contains y v)) [
    | inr outside ↦ outside
    | inl inside ↦
        let z_out = Linked-outside v x z closed out l in
        let z_in = (closed y inside).1 z (sym (mirrored z y) ∙ e) in cc
  ]
  Linked-outside v x y closed out (against {y = z} l e) = elim (Bool-cases (contains y v)) [
    | inr outside ↦ outside
    | inl inside ↦
        let z_out = Linked-outside v x z closed out l in let z_in = (closed y inside).0 z e in cc
  ]

  -- What the search from a new name colours is the component of the name.
  coloured-IsComponentOf :
      (v : List Name) (x : Name) (c : Colouring)
      → Closed v
      → contains x v ≡ false
      → contains x c.visited ≡ true
      → Grown succ pred x (record { visited = v; component = [] }) c
      → IsComponentOf succ x c.component
  unfolding contains
  coloured-IsComponentOf v x c closed new found g y = (
    λ m. let (in_, out) = g.came y m refl in g.linked y in_ out,
    λ l. g.went y (visited_of y l) (Linked-outside v x y closed new l),
  )
    where
      visited_of : (z : Name) → Linked succ x z → contains z c.visited ≡ true
      visited_of z here = found
      visited_of z (along {y = w} l e) =
          g.below w (visited_of w l) (Linked-outside v x w closed new l) z e
      visited_of z (against {y = w} l e) =
          g.above w (visited_of w l) (Linked-outside v x w closed new l) z (sym (mirrored z w) ∙ e)

  coloured-Closed :
      (v : List Name) (x : Name) (c : Colouring)
      → Closed v
      → Grown succ pred x (record { visited = v; component = [] }) c
      → Closed c.visited
  coloured-Closed v x c closed g y m = elim (Bool-cases (contains y v)) [
    | inl old ↦ (λ z e. g.more z ((closed y old).0 z e), λ z e. g.more z ((closed y old).1 z e))
    | inr new ↦ (g.below y m new, g.above y m new)
  ]

  -- The components that the loop adds, of names that were not visited before.
  pub record Adds (nodes ns visited : List Name) (new : List (List Name)) : Type 0 where
    pub each : All (λ part. (x : Name) × (contains x nodes ≡ true) × IsComponentOf succ x part) new
    pub apart : Apart new
    pub fresh : (y : Name) → contains y visited ≡ true → in_some y new ≡ false
    pub covers : (x : Name) → contains x ns ≡ true → (contains x visited || in_some x new) ≡ true

  Adds-old :
      (nodes ns visited : List Name) (new : List (List Name)) (n : Name)
      → contains n visited ≡ true
      → Adds nodes ns visited new
      → Adds nodes (n ∷ ns) visited new
  unfolding contains
  Adds-old nodes ns visited new n old a = record {
    each = a.each;
    apart = a.apart;
    fresh = a.fresh;
    covers = λ x m. elim (Bool-cases (x == n)) [
      | inl it ↦
          subst (λ z. (contains z visited || in_some z new) ≡ true) (sym (==→eq x n it))
            (ground (arith, old))
      | inr other ↦ a.covers x (ground (arith, m, other))
    ];
  }

  Adds-new :
      (nodes ns visited : List Name) (more : List (List Name)) (n : Name) (c : Colouring)
      → contains n nodes ≡ true
      → contains n visited ≡ false
      → contains n c.visited ≡ true
      → Closed visited
      → Grown succ pred n (record { visited = visited; component = [] }) c
      → Adds nodes ns c.visited more
      → Adds nodes (n ∷ ns) visited (c.component ∷ more)
  unfolding contains
  Adds-new nodes ns visited more n c known new found closed g a = record {
    each = ((n, known, coloured-IsComponentOf visited n c closed new found g), a.each);
    apart = (λ y m. a.fresh y (g.came y m refl).0, a.apart);
    fresh = λ y m. elim (Bool-cases (contains y c.component)) [
      | inl in_ ↦ let (_, out) = g.came y in_ refl in cc
      | inr out ↦ let others = a.fresh y (g.more y m) in ground (arith, out, others)
    ];
    covers = λ x m. elim (Bool-cases (contains x visited)) [
      | inl old ↦ ground (arith, old)
      | inr fresh_ ↦ elim (Bool-cases (contains x c.visited)) [
        | inl now ↦ let own = g.went x now fresh_ in ground (arith, own, fresh_)
        | inr later ↦
            let not_n : (x == n) ≡ false = not_same x later in
            let others = a.covers x (ground (arith, m, not_n)) in
            ground (arith, others, later, fresh_)
      ]
    ];
  }
    where
      not_same : (x : Name) → contains x c.visited ≡ false → (x == n) ≡ false
      not_same x out = elim (Bool-cases (x == n)) [
        | inr other ↦ other
        | inl it ↦
            let in_ = subst (λ z. contains z c.visited ≡ true) (sym (==→eq x n it)) found in cc
      ]

  pub components_lem :
      (nodes ns visited : List Name) (found : List (List Name))
      → Subset nodes u
      → Subset ns nodes
      → Closed visited
      → (new : List (List Name)) × (components_from (colour succ pred (length u)) ns visited found
          ≡ some (found ++ new))
        × Adds nodes ns visited new
  unfolding components_from contains
  components_lem nodes [] visited found k s closed = (
    [],
    ap some (sym (append-nil found)),
    record { each = tt; apart = tt; fresh = λ y m. refl; covers = λ x m. cc },
  )
  components_lem nodes (n ∷ ns) visited found k s closed = elim (Bool-cases (contains n visited)) [
    | inl old ↦
        let (new, ends, a) =
          components_lem nodes ns visited found k (λ y m. s y (ground (arith, m))) closed in
        (new, rw (components_from, old) ends, Adds-old nodes ns visited new n old a)
    | inr new ↦
        let n_in = s n (ground arith) in
        let (c, done, g, has_n) =
          colour-Returns succ pred u succ_in pred_in mirrored (length u) n
            (record { visited = visited; component = [] }) (k n n_in) new
            (unseen-le_length u visited) in
        let (more, ends, a) =
          components_lem nodes ns c.visited (found ++ c.component ∷ []) k
            (λ y m. s y (ground (arith, m))) (coloured-Closed visited n c closed g) in
        let n_found = has_n n (ground arith) in
        (
          c.component ∷ more,
          rw (components_from, new, done) ends
              ∙ ap some (append_assoc found (c.component ∷ []) more),
          Adds-new nodes ns visited more n c n_in new n_found closed g a,
        )
  ]
