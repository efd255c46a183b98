-- ===== src/Dag/Degrees.antt =====
-- core/dag/graph.py: what the counts of `topological_sort` count.
use puffinfloww.Base.{
  ℕ, ◌+◌, ◌-◌, ◌≡◌, refl, ◌∙◌, ap, inl, inr, true, false, List, [], ◌∷◌, ◌++◌, Name, Dict, arith,
  ◌==◌, get, put, get-put, contains, add, contains-add, Distinct, unseen, unseen_less, unseen_all,
  one_if, if◌then◌else◌, Bool-cases, ==→eq,
}
use puffinfloww.Digraph.{Subset}
use puffinfloww.DependencyGraph.Cycles.{contains-append}
use puffinfloww.Dag.Sort.{degree, count_successors, in_degrees, lower}

degree-put :
    (y z : Name) (n : ℕ) (m : Dict ℕ) → degree (put z n m) y ≡ (if y == z then n else degree m y)
degree-put y z n m = ground (arith, get-put y z n m)

degree-count_successors :
    (ys : List Name) (m : Dict ℕ) (y : Name)
    → Distinct ys
    → degree (count_successors ys m) y ≡ degree m y + one_if (contains y ys)
unfolding count_successors contains
degree-count_successors [] m y d = omega arith
degree-count_successors (z ∷ ys) m y d =
    degree-count_successors ys (put z (degree m z + 1) m) y d.1 ∙ (elim (Bool-cases (y == z)) [
      | inl here ↦ ground (arith, here, ==→eq y z, d.0, degree-put y z (degree m z + 1) m)
      | inr there ↦ ground (arith, there, degree-put y z (degree m z + 1) m)
    ])

-- How many of the nodes have `y` for a successor.
sources : (Name → List Name) → List Name → Name → ℕ
sources next [] y = 0
sources next (x ∷ xs) y = one_if (contains y (next x)) + sources next xs y

degree-in_degrees :
    (next : Name → List Name) (xs : List Name) (m : Dict ℕ) (y : Name)
    → ((x : Name) → Distinct (next x))
    → degree (in_degrees next xs m) y ≡ degree m y + sources next xs y
unfolding in_degrees sources
degree-in_degrees next [] m y d = omega arith
degree-in_degrees next (x ∷ xs) m y d = omega (
  arith,
  degree-in_degrees next xs (count_successors (next x) m) y d,
  degree-count_successors (next x) m y (d x),
)

add_all : List Name → List Name → List Name
add_all [] v = v
add_all (x ∷ xs) v = add_all xs (add x v)

contains-add_all :
    (xs v : List Name) (y : Name)
    → contains y (add_all xs v) ≡ (if contains y xs then true else contains y v)
unfolding add_all contains
contains-add_all [] v y = refl
contains-add_all (x ∷ xs) v y = contains-add_all xs (add x v) y ∙ ground (arith, contains-add y x v)

sources-unseen :
    (next : Name → List Name) (u xs v : List Name) (y : Name)
    → ((x : Name) → contains y (next x) ≡ contains x u)
    → Distinct u
    → Distinct xs
    → ((x : Name) → contains x xs ≡ true → contains x v ≡ false)
    → sources next xs y + unseen u (add_all xs v) ≡ unseen u v
unfolding sources add_all contains
sources-unseen next u [] v y mir d dx f = omega arith
sources-unseen next u (x ∷ xs) v y mir d dx f =
    let new : contains x v ≡ false = f x (ground arith) in
    omega (
      arith,
      sources-unseen next u xs (add x v) y mir d dx.1
          (λ z m. ground (arith, m, f z, contains-add z x v, dx.0, ==→eq z x)),
      unseen_less u v x d new,
      ap one_if (mir x),
    )

-- The degrees at the start are the numbers of predecessors.
pub degree_start :
    (next prev : Name → List Name) (nodes : List Name) (y : Name)
    → ((x : Name) → contains y (next x) ≡ contains x (prev y))
    → ((x : Name) → Distinct (next x))
    → Distinct (prev y)
    → Distinct nodes
    → Subset (prev y) nodes
    → degree (in_degrees next nodes []) y ≡ unseen (prev y) []
unfolding contains get
degree_start next prev nodes y mir dn dp d sub = omega (
  arith,
  degree-in_degrees next nodes [] y dn,
  sources-unseen next (prev y) nodes [] y mir dp d (λ x m. refl),
  unseen_all (prev y) (add_all nodes [])
      (λ x m. ground (arith, contains-add_all nodes [] x, sub x m)),
)

pub degree-lower :
    (ys : List Name) (m : Dict ℕ) (q : List Name) (y : Name)
    → Distinct ys
    → degree (lower ys m q).0 y ≡ (if contains y ys then degree m y - 1 else degree m y)
unfolding lower contains
degree-lower [] m q y d = refl
degree-lower (z ∷ ys) m q y d =
    degree-lower ys (put z (degree m z - 1) m) _ y d.1 ∙ (elim (Bool-cases (y == z)) [
      | inl here ↦ ground (arith, here, ==→eq y z, d.0, degree-put y z (degree m z - 1) m)
      | inr there ↦ ground (arith, there, degree-put y z (degree m z - 1) m)
    ])

pub contains-lower :
    (ys : List Name) (m : Dict ℕ) (q : List Name) (y : Name)
    → Distinct ys
    → contains y (lower ys m q).1
      ≡ (if contains y q then true else (if contains y ys then degree m y == 1 else false))
unfolding lower contains
contains-lower [] m q y d = ground arith
contains-lower (z ∷ ys) m q y d =
    contains-lower ys (put z (degree m z - 1) m) _ y d.1 ∙ (elim (Bool-cases (degree m z == 1)) [
      | inl last ↦ ground (
        arith,
        last,
        ==→eq y z,
        d.0,
        degree-put y z (degree m z - 1) m,
        contains-append y q (z ∷ []),
      )
      | inr other ↦ ground (arith, other, ==→eq y z, d.0, degree-put y z (degree m z - 1) m)
    ])

Distinct-snoc :
    (q : List Name) (z : Name) → Distinct q → contains z q ≡ false → Distinct (q ++ z ∷ [])
unfolding contains
Distinct-snoc [] z d f = (refl, tt)
Distinct-snoc (y ∷ q) z d f = (
  ground (arith, d.0, f, contains-append y q (z ∷ []), ==→eq y z),
  Distinct-snoc q z d.1 (ground (arith, f)),
)

pub Distinct-lower :
    (ys : List Name) (m : Dict ℕ) (q : List Name)
    → Distinct q
    → ((y : Name) → contains y q ≡ true → degree m y ≡ 0)
    → Distinct (lower ys m q).1
unfolding lower contains
Distinct-lower [] m q d f = d
Distinct-lower (z ∷ ys) m q d f = elim (Bool-cases (degree m z == 1)) [
  | inl last ↦
      rw (lower, last)
        (Distinct-lower ys (put z (degree m z - 1) m) (q ++ z ∷ [])
          (Distinct-snoc q z d (ground (arith, last, f z)))
          (λ y m'. ground (
            arith,
            m',
            last,
            f y,
            ==→eq y z,
            degree-put y z (degree m z - 1) m,
            contains-append y q (z ∷ []),
          )))
  | inr other ↦
      rw (lower, other)
        (Distinct-lower ys (put z (degree m z - 1) m) q d
          (λ y m'. ground (arith, m', f y, ==→eq y z, degree-put y z (degree m z - 1) m)))
]
