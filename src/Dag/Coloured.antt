-- ===== src/Dag/Coloured.antt =====
-- core/dag/graph.py: the nested search of `get_connected_components` returns, and what it colours.
use puffinfloww.Dag.Linked.{
  Linked, here, along, against, Grown, Grown-refl, Grown-trans, Grown-from, Grown-enter, entered,
}
use puffinfloww.Base.{
  sym, subst, ◌∙◌, ◌==◌, ==→eq, ℕ, zero, suc, ◌≤◌, ◌≡◌, refl, inl, inr, Bool-cases, true, false,
  Option, some, List, [], ◌∷◌, Name, arith, contains, add, contains-add, unseen, unseen-add,
  unseen_mono,
}
use puffinfloww.Digraph.{Subset}
use puffinfloww.Dag.Components.{Colouring, colour, colour_all}

module _ (succ pred : Name → List Name) (u : List Name) (succ_in : (x : Name) → Subset (succ x) u)
    (pred_in : (x : Name) → Subset (pred x) u)
    (mirrored : (x y : Name) → contains y (succ x) ≡ contains x (pred y)) where
  -- A call that returns, with these names coloured.
  abbrev pub Returns : Name → List Name → Option Colouring → Colouring → Type 0
  Returns root ns o c =
      (c' : Colouring) × (o ≡ some c') × Grown succ pred root c c' × Subset ns c'.visited

  abbrev pub Calls : ℕ → Type 0
  Calls fuel =
      (node : Name) (c : Colouring)
      → contains node u ≡ true
      → contains node c.visited ≡ false
      → unseen u c.visited ≤ fuel
      → Returns node (node ∷ []) (colour succ pred fuel node c) c

  colour_all-Returns :
      (fuel : ℕ)
      → Calls fuel
      → (root : Name) (ns : List Name) (c : Colouring) → Subset ns u
      → ((n : Name) → contains n ns ≡ true → Linked succ root n)
      → unseen u c.visited ≤ fuel
      → Returns root ns (colour_all (colour succ pred fuel) ns c) c
  unfolding colour_all contains
  colour_all-Returns fuel call root [] c s l h = (c, refl, Grown-refl succ pred root c, λ y m. cc)
  colour_all-Returns fuel call root (n ∷ ns) c s l h = elim (Bool-cases (contains n c.visited)) [
    | inl old ↦
        let (c', done, g, all) =
          colour_all-Returns fuel call root ns c (λ y m. s y (ground (arith, m)))
            (λ y m. l y (ground (arith, m))) h in
        (c', rw (colour_all, old) done, g, with_first n ns c' (g.more n old) all)
    | inr new ↦
        let (c', done, g, has_n) = call n c (s n (ground arith)) new h in
        let (c2, all_done, g', all) =
          colour_all-Returns fuel call root ns c' (λ y m. s y (ground (arith, m)))
            (λ y m. l y (ground (arith, m)))
            (omega (arith, h, unseen_mono u c.visited c'.visited g.more)) in
        (
          c2,
          rw (colour_all, new, done) all_done,
          Grown-trans succ pred root c c' c2
              (Grown-from succ pred root n c c' (l n (ground arith)) g) g',
          with_first n ns c2 (g'.more n (has_n n (ground arith))) all,
        )
  ]
    where
      with_first :
          (n : Name) (ns : List Name) (c' : Colouring)
          → contains n c'.visited ≡ true
          → Subset ns c'.visited
          → Subset (n ∷ ns) c'.visited
      with_first n ns c' first others y m = elim (Bool-cases (y == n)) [
        | inl it ↦ subst (λ z. contains z c'.visited ≡ true) (sym (==→eq y n it)) first
        | inr other ↦ others y (ground (arith, m, other))
      ]

  pub colour-Returns : (fuel : ℕ) → Calls fuel
  unfolding colour contains
  colour-Returns zero node c m new h =
      let less = unseen-add u c.visited node m new in absurd (omega (arith, h, less))
  colour-Returns (suc fuel) node c m new h =
      let less = unseen-add u c.visited node m new in
      let start = entered succ pred node c in
      let (c1, done1, g1, down) =
        colour_all-Returns fuel (colour-Returns fuel) node (succ node) start (succ_in node)
          (λ n e. along here e) (omega (arith, h, less)) in
      let (c2, done2, g2, up) =
        colour_all-Returns fuel (colour-Returns fuel) node (pred node) c1 (pred_in node)
          (λ n e. against here (mirrored n node ∙ e))
          (omega (arith, h, less, unseen_mono u (add node c.visited) c1.visited g1.more)) in
      let g = Grown-trans succ pred node start c1 c2 g1 g2 in
      (
        c2,
        rw (colour, done1) done2,
        Grown-enter succ pred node c c2 new (λ y e. g2.more y (down y e)) up g,
        λ y e.
            subst (λ z. contains z c2.visited ≡ true) (sym (==→eq y node (ground (arith, e))))
              (g.more node (ground (arith, contains-add node node c.visited))),
      )
