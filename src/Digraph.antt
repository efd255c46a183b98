-- ===== src/Digraph.antt =====
-- Directed graphs given by the successors of each name: walks, chains, cycles, and orders in which
-- every name stands before all of its successors. Both graph components are proved against these.
use puffinfloww.Base.{
  ◌≡◌, refl, inl, inr, true, false, List, [], ◌∷◌, ◌++◌, Name, arith, contains, ◌==◌, if◌then◌else◌,
  Bool-cases, ==→eq, subst, ap, discard,
}

abbrev pub Successors : Type 0
Successors = Name → List Name

abbrev pub Edge : Successors → Name → Name → Type 0
Edge next x y = contains y (next x) ≡ true

abbrev pub Subset : List Name → List Name → Type 0
Subset s t = (y : Name) → contains y s ≡ true → contains y t ≡ true

-- A walk of at least one edge.
pub data Walk (next : Successors) (x : Name) : Name → Type 0 where
  one : {y : Name} → Edge next x y → Walk next x y
  more : {y z : Name} → Walk next x y → Edge next y z → Walk next x z

-- Each element has an edge to the one behind it.
abbrev pub Chain : Successors → List Name → Type 0
Chain next [] = Unit {0}
Chain next (x ∷ []) = Unit {0}
Chain next (x ∷ y ∷ p) = Edge next x y × Chain next (y ∷ p)

-- A closed chain: it has an edge, and ends where it begins.
pub record IsCycle (next : Successors) (c : List Name) : Type 0 where
  pub start : Name
  pub inner : List Name
  pub shape : c ≡ start ∷ inner ++ start ∷ []
  pub chained : Chain next c

abbrev pub IsAcyclic : Successors → Type 0
IsAcyclic next = (x : Name) → ¬ Walk next x x

-- Newest first: all successors of an element stand behind it, and no element stands twice.
abbrev pub IsFinished : Successors → List Name → Type 0
IsFinished next [] = Unit {0}
IsFinished next (x ∷ f) = Subset (next x) f × (contains x f ≡ false) × IsFinished next f

module _ (next : Successors) where
  pub finished_closed :
      (f : List Name) (x y : Name)
      → IsFinished next f
      → contains x f ≡ true
      → Edge next x y
      → contains y f ≡ true
  unfolding contains
  finished_closed [] x y h m e = cc
  finished_closed (z ∷ f) x y h m e = elim (Bool-cases (x == z)) [
    | inl here ↦ let behind : contains y f ≡ true = h.0 y (rw (==→eq x z here) at e) in ground arith
    | inr there ↦ let behind = finished_closed f x y h.2 (ground arith) e in ground arith
  ]

  walk_closed :
      (f : List Name) (x y : Name)
      → IsFinished next f
      → contains x f ≡ true
      → Walk next x y
      → contains y f ≡ true
  walk_closed f x y h m (one e) = finished_closed f x y h m e
  walk_closed f x y h m (more {y = z} w e) = finished_closed f z y h (walk_closed f x z h m w) e

  walk_first :
      (f : List Name) (x y : Name)
      → IsFinished next f
      → Subset (next x) f
      → Walk next x y
      → contains y f ≡ true
  walk_first f x y h s (one e) = s y e
  walk_first f x y h s (more {y = z} w e) = finished_closed f z y h (walk_first f x z h s w) e

  -- Nothing that is finished lies on a cycle.
  pub finished_acyclic :
      (f : List Name) (x : Name) → IsFinished next f → contains x f ≡ true → ¬ Walk next x x
  unfolding contains
  finished_acyclic [] x h m w = cc
  finished_acyclic (z ∷ f) x h m w = elim (Bool-cases (x == z)) [
    | inl here ↦
        let again : contains z f ≡ true = walk_first f z z h.2 h.0 (rw (==→eq x z here) at w) in cc
    | inr there ↦ finished_acyclic f x h.2 (ground arith) w
  ]

  pub Chain-snoc :
      (p : List Name) (x y : Name)
      → Chain next (p ++ x ∷ [])
      → Edge next x y
      → Chain next ((p ++ x ∷ []) ++ y ∷ [])
  Chain-snoc [] x y c e = (e, tt)
  Chain-snoc (a ∷ []) x y c e = (c.0, (e, tt))
  Chain-snoc (a ∷ b ∷ p) x y c e = (c.0, Chain-snoc (b ∷ p) x y c.1 e)

  pub walk_cons : (x y z : Name) → Edge next x y → Walk next y z → Walk next x z
  walk_cons x y z e (one e') = more (one e) e'
  walk_cons x y z e (more {y = u} w e') = more (walk_cons x y u e w) e'

  chain_walk : (x : Name) (p : List Name) (y : Name) → Chain next (x ∷ p ++ y ∷ []) → Walk next x y
  chain_walk x [] y c = one c.0
  chain_walk x (z ∷ p) y c = walk_cons x z y c.0 (chain_walk z p y c.1)

  pub cycle_walk : (c : List Name) (h : IsCycle next c) → Walk next h.start h.start
  cycle_walk c h = chain_walk h.start h.inner h.start (subst (Chain next) h.shape h.chained)

-- `path[path.index(n):]`, for a path that holds `n`
unfoldable pub from_first : Name → List Name → List Name
from_first n [] = []
from_first n (x ∷ p) = if n == x then x ∷ p else from_first n p

-- `path.pop()`
unfoldable pub drop_last : List Name → List Name
drop_last [] = []
drop_last (x ∷ []) = []
drop_last (x ∷ y ∷ p) = x ∷ drop_last (y ∷ p)

pub drop_last-snoc : (p : List Name) (x : Name) → drop_last (p ++ x ∷ []) ≡ p
unfolding drop_last
drop_last-snoc [] x = refl
drop_last-snoc (a ∷ []) x = refl
drop_last-snoc (a ∷ b ∷ p) x = ap (◌∷◌ a) (drop_last-snoc (b ∷ p) x)

pub discard-snoc : (s : List Name) (x : Name) → contains x s ≡ false → discard x (s ++ x ∷ []) ≡ s
unfolding discard contains
discard-snoc [] x h = ground arith
discard-snoc (y ∷ s) x h = ground (arith, discard-snoc s x)

from_first_head :
    (n : Name) (p : List Name)
    → contains n p ≡ true
    → (inner : List Name) × (from_first n p ≡ n ∷ inner)
unfolding contains from_first
from_first_head n [] m = cc
from_first_head n (x ∷ p) m = elim (Bool-cases (n == x)) [
  | inl here ↦ (p, ground arith)
  | inr there ↦ let (inner, e) = from_first_head n p (ground arith) in (inner, ground arith)
]

Chain-from_first :
    (next : Successors) (n m : Name) (p : List Name)
    → Chain next (p ++ m ∷ [])
    → Chain next (from_first n p ++ m ∷ [])
unfolding from_first
Chain-from_first next n m [] c = c
Chain-from_first next n m (x ∷ []) c = ground arith
Chain-from_first next n m (x ∷ y ∷ p) c = elim (Bool-cases (n == x)) [
  | inl here ↦ rw (here, from_first) c
  | inr there ↦ rw (there, from_first) (Chain-from_first next n m (y ∷ p) c.1)
]

-- What the search reports when it meets a name that is on its path.
pub IsCycle-from_first :
    (next : Successors) (n : Name) (p : List Name)
    → contains n p ≡ true
    → Chain next (p ++ n ∷ [])
    → IsCycle next (from_first n p ++ n ∷ [])
IsCycle-from_first next n p m c =
    let (inner, e) = from_first_head n p m in
    record {
      start = n;
      inner = inner;
      shape = ap (λ s. s ++ n ∷ []) e;
      chained = Chain-from_first next n n p c;
    }

-- The subset order, for the names that a search has finished.
pub Subset_trans : (a b c : List Name) → Subset a b → Subset b c → Subset a c
Subset_trans a b c f g = λ y m. g y (f y m)
