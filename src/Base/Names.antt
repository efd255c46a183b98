-- ===== src/Base/Names.antt =====
-- Python's sets of names. A name is a string that the program only compares for equality, so a
-- number stands for it. A set is the list of its elements in the order of iteration.
use Prim.Native.Nat.{ℕ, suc, ◌+◌, ◌≤◌, ◌<◌}
use mathlib.Core.Path.{◌≡◌, refl}
use mathlib.Core.Bool.{Bool, true, false}
use mathlib.Core.List.{List, [], ◌∷◌, ◌++◌}
use native.Mathlib.Omega.{arith}
use mathlib.Core.Logic.{inl, inr, ◌⊎◌}
use puffinfloww.Base.Tests.{◌==◌, if◌then◌else◌, Bool-cases, ==→eq}
use puffinfloww.Base.Lists.{length}

abbrev pub Name : Type 0
Name = ℕ

-- `x in s`
unfoldable pub contains : Name → List Name → Bool
contains x [] = false
contains x (y ∷ s) = if x == y then true else contains x s

-- `s.add(x)`
unfoldable pub add : Name → List Name → List Name
add x [] = x ∷ []
add x (y ∷ s) = if x == y then y ∷ s else y ∷ add x s

-- `s.discard(x)`
unfoldable pub discard : Name → List Name → List Name
discard x [] = []
discard x (y ∷ s) = if x == y then discard x s else y ∷ discard x s

-- No element stands twice.
abbrev pub Distinct : List Name → Type 0
Distinct [] = Unit {0}
Distinct (x ∷ s) = (contains x s ≡ false) × Distinct s

pub contains-add :
    (y x : Name) (s : List Name) → contains y (add x s) ≡ (if y == x then true else contains y s)
unfolding contains add
contains-add y x [] = refl
contains-add y x (z ∷ s) = ground (arith, contains-add y x s)

pub contains-discard :
    (y x : Name) (s : List Name)
    → contains y (discard x s) ≡ (if y == x then false else contains y s)
unfolding contains discard
contains-discard y x [] = ground arith
contains-discard y x (z ∷ s) = ground (arith, contains-discard y x s)

pub length-add :
    (x : Name) (s : List Name)
    → length (add x s) ≡ (if contains x s then length s else suc (length s))
unfolding contains add
length-add x [] = refl
length-add x (y ∷ s) = ground (arith, length-add x s)

pub add_of_contains : (x : Name) (s : List Name) → contains x s ≡ true → add x s ≡ s
unfolding contains add
add_of_contains x [] h = ground arith
add_of_contains x (y ∷ s) h = ground (arith, add_of_contains x s)

pub add_of_absent : (x : Name) (s : List Name) → contains x s ≡ false → add x s ≡ s ++ x ∷ []
unfolding contains add
add_of_absent x [] h = refl
add_of_absent x (y ∷ s) h = ground (arith, add_of_absent x s)

pub discard_of_absent : (x : Name) (s : List Name) → contains x s ≡ false → discard x s ≡ s
unfolding contains discard
discard_of_absent x [] h = refl
discard_of_absent x (y ∷ s) h = ground (arith, discard_of_absent x s)

pub length-discard-le : (x : Name) (s : List Name) → length (discard x s) ≤ length s
unfolding discard
length-discard-le x [] = omega arith
length-discard-le x (y ∷ s) = ground (arith, length-discard-le x s)

pub length-discard :
    (x : Name) (s : List Name)
    → Distinct s
    → contains x s ≡ true
    → suc (length (discard x s)) ≡ length s
unfolding contains discard
length-discard x [] d h = ground arith
length-discard x (y ∷ s) d h = ground (arith, length-discard x s d.1, discard_of_absent x s)

pub Distinct-add : (x : Name) (s : List Name) → Distinct s → Distinct (add x s)
unfolding contains add
Distinct-add x [] d = (refl, tt)
Distinct-add x (y ∷ s) d = ground (arith, Distinct-add x s d.1, contains-add y x s)

pub Distinct-discard : (x : Name) (s : List Name) → Distinct s → Distinct (discard x s)
unfolding contains discard
Distinct-discard x [] d = tt
Distinct-discard x (y ∷ s) d = ground (arith, Distinct-discard x s d.1, contains-discard y x s)

pub nil_of_absent : (s : List Name) → ((x : Name) → contains x s ≡ false) → s ≡ []
unfolding contains
nil_of_absent [] h = refl
nil_of_absent (y ∷ s) h = ground (arith, h y)

pub singleton_of_contains :
    (x : Name) (s : List Name) → length s ≤ 1 → contains x s ≡ true → s ≡ x ∷ []
unfolding contains
singleton_of_contains x [] h c = ground arith
singleton_of_contains x (y ∷ []) h c = ground arith
singleton_of_contains x (y ∷ z ∷ s) h c = absurd (omega arith)

-- How many names of `u` are not in `v`: what is left to a search that has seen `v`.
pub unseen : List Name → List Name → ℕ
unseen [] v = 0
unseen (x ∷ u) v = (if contains x v then 0 else 1) + unseen u v

pub unseen-le_length : (u v : List Name) → unseen u v ≤ length u
unfolding unseen
unseen-le_length [] v = omega arith
unseen-le_length (x ∷ u) v = ground (arith, unseen-le_length u v)

pub unseen_mono :
    (u v w : List Name)
    → ((y : Name) → contains y v ≡ true → contains y w ≡ true)
    → unseen u w ≤ unseen u v
unfolding unseen
unseen_mono [] v w s = omega arith
unseen_mono (x ∷ u) v w s = ground (arith, unseen_mono u v w s, s x)

pub unseen-add :
    (u v : List Name) (x : Name)
    → contains x u ≡ true
    → contains x v ≡ false
    → unseen u (add x v) < unseen u v
unfolding unseen contains
unseen-add [] v x m f = cc
unseen-add (z ∷ u) v x m f = ground (
  arith,
  unseen-add u v x,
  unseen_mono u v (add x v) (λ y h. ground (arith, contains-add y x v)),
  contains-add z x v,
)

abbrev pub one_if : Bool → ℕ
one_if b = if b then 1 else 0

-- One name more is seen.
pub unseen_less :
    (u v : List Name) (x : Name)
    → Distinct u
    → contains x v ≡ false
    → unseen u (add x v) + one_if (contains x u) ≡ unseen u v
unfolding unseen contains
unseen_less [] v x d f = refl
unseen_less (z ∷ u) v x d f = elim (Bool-cases (x == z)) [
  | inl here ↦ ground (arith, here, f, d.0, unseen_less u v x d.1 f, contains-add z x v, ==→eq x z)
  | inr there ↦ ground (arith, there, f, unseen_less u v x d.1 f, contains-add z x v)
]

pub unseen_all :
    (u v : List Name) → ((y : Name) → contains y u ≡ true → contains y v ≡ true) → unseen u v ≡ 0
unfolding unseen contains
unseen_all [] v s = refl
unseen_all (x ∷ u) v s = ground (arith, s x, unseen_all u v (λ y m. s y (ground (arith, m))))

pub unseen_none :
    (u v : List Name) → unseen u v ≡ 0 → (y : Name) → contains y u ≡ true → contains y v ≡ true
unfolding unseen contains
unseen_none [] v e y m = cc
unseen_none (x ∷ u) v e y m = elim (Bool-cases (y == x)) [
  | inl here ↦ ground (arith, here, ==→eq y x, e)
  | inr there ↦ unseen_none u v (ground (arith, e)) y (ground (arith, m, there))
]

-- If not all of `u` is seen, a name of it can be given that is not.
pub unseen_some :
    (u v : List Name)
    → ((unseen u v ≡ 0) ⊎ ((z : Name) × (contains z u ≡ true) × (contains z v ≡ false)))
unfolding unseen contains
unseen_some [] v = inl refl
unseen_some (x ∷ u) v = elim (Bool-cases (contains x v)) [
  | inr new ↦ inr (x, ground arith, new)
  | inl old ↦ elim (unseen_some u v) [
    | inl all ↦ inl (ground (arith, old, all))
    | inr (z, m, new) ↦ inr (z, ground (arith, m), new)
  ]
]
