-- ===== src/Base/Sorting.antt =====
-- A stable sort by a test, as Python's `sorted` is: elements that the test does not tell apart keep
-- their order.
use mathlib.Core.Bool.{Bool, true, false}
use mathlib.Core.Path.{◌≡◌, refl, ap, ◌∙◌}
use mathlib.Core.Logic.{inl, inr}
use mathlib.Core.List.{
  List, [], ◌∷◌, Perm, Mem, not-mem-nil, mem-cons_self, mem-cons_of_mem, eq-or-mem_of_mem-cons,
}
use mathlib.Core.List.Perm
use mathlib.Core.Logic.Or
use native.Mathlib.Omega.{arith}
use mathlib.Core.Nat as M
use mathlib.Core.List.{length as length_of}
use Prim.Native.Nat.{suc}
use puffinfloww.Base.Tests.{if◌then◌else◌, Bool-cases}
use puffinfloww.Base.Lists.{All, filter, length}

module _ {ℓ} {A : Type ℓ} (leq : A → A → Bool) where
  -- Puts `x`, which came before all of the list, in its place.
  unfoldable pub insert_sorted : A → List A → List A
  insert_sorted x [] = x ∷ []
  insert_sorted x (y ∷ ys) = if leq x y then x ∷ y ∷ ys else y ∷ insert_sorted x ys

  unfoldable pub sort_by : List A → List A
  unfolding insert_sorted
  sort_by [] = []
  sort_by (x ∷ xs) = insert_sorted x (sort_by xs)

  abbrev pub IsSortedBy : List A → Type 0
  IsSortedBy [] = Unit {0}
  IsSortedBy (x ∷ xs) = All (λ y. leq x y ≡ true) xs × IsSortedBy xs

  pub insert_sorted-Perm : (x : A) (ys : List A) → Perm (insert_sorted x ys) (x ∷ ys)
  unfolding insert_sorted
  insert_sorted-Perm x [] = Perm.refl (x ∷ [])
  insert_sorted-Perm x (y ∷ ys) = elim (Bool-cases (leq x y)) [
    | inl here ↦ rw here (Perm.refl (x ∷ y ∷ ys))
    | inr there ↦ rw there (Perm.trans (Perm.cons _ (insert_sorted-Perm x ys)) (Perm.swap _ _ _))
  ]

  pub sort_by-Perm : (xs : List A) → Perm (sort_by xs) xs
  unfolding sort_by
  sort_by-Perm [] = Perm.refl []
  sort_by-Perm (x ∷ xs) =
      Perm.trans (insert_sorted-Perm x (sort_by xs)) (Perm.cons _ (sort_by-Perm xs))

  All-insert_sorted :
      (P : A → Type 0) (x : A) (ys : List A) → P x → All P ys → All P (insert_sorted x ys)
  unfolding insert_sorted
  All-insert_sorted P x [] p a = (p, tt)
  All-insert_sorted P x (y ∷ ys) p a = elim (Bool-cases (leq x y)) [
    | inl here ↦ rw here (p, (a.0, a.1))
    | inr there ↦ rw there (a.0, All-insert_sorted P x ys p a.1)
  ]

  module _ (total_ : (x y : A) → leq x y ≡ false → leq y x ≡ true)
      (trans : (x y z : A) → leq x y ≡ true → leq y z ≡ true → leq x z ≡ true) where
    All_below :
        (x y : A) (ys : List A)
        → leq x y ≡ true
        → All (λ z. leq y z ≡ true) ys
        → All (λ z. leq x z ≡ true) ys
    All_below x y [] h a = tt
    All_below x y (z ∷ zs) h a = (trans x y z h a.0, All_below x y zs h a.1)

    pub insert_sorted-IsSortedBy :
        (x : A) (ys : List A) → IsSortedBy ys → IsSortedBy (insert_sorted x ys)
    unfolding insert_sorted
    insert_sorted-IsSortedBy x [] s = (tt, tt)
    insert_sorted-IsSortedBy x (y ∷ ys) s = elim (Bool-cases (leq x y)) [
      | inl here ↦ rw here ((here, All_below x y ys here s.0), s)
      | inr there ↦ rw there (
        All-insert_sorted (λ z. leq y z ≡ true) x ys (total_ x y there) s.0,
        insert_sorted-IsSortedBy x ys s.1,
      )
    ]

    pub sort_by-IsSortedBy : (xs : List A) → IsSortedBy (sort_by xs)
    unfolding sort_by
    sort_by-IsSortedBy [] = tt
    sort_by-IsSortedBy (x ∷ xs) = insert_sorted-IsSortedBy x (sort_by xs) (sort_by-IsSortedBy xs)

  -- The elements that pass a test keep their order if the test tells apart no two that the sort
  -- may exchange.
  insert_sorted-filter :
      (test : A → Bool) (x : A) (ys : List A)
      → ((y : A) → test x ≡ true → test y ≡ true → leq x y ≡ true)
      → filter test (insert_sorted x ys) ≡ filter test (x ∷ ys)
  unfolding insert_sorted filter
  insert_sorted-filter test x [] h = refl
  insert_sorted-filter test x (y ∷ ys) h = elim (Bool-cases (leq x y)) [
    | inl here ↦ rw here
    | inr there ↦
        let rest = insert_sorted-filter test x ys h in
        elim (Bool-cases (test x)) [
          | inr out ↦ ground (arith, there, out, rest)
          | inl in_ ↦ elim (Bool-cases (test y)) [
            | inl both ↦ let no_ = h y in_ both in cc
            | inr y_out ↦ ground (arith, there, in_, y_out, rest)
          ]
        ]
  ]

  pub sort_by-filter :
      (test : A → Bool) (xs : List A)
      → ((x y : A) → test x ≡ true → test y ≡ true → leq x y ≡ true)
      → filter test (sort_by xs) ≡ filter test xs
  unfolding sort_by filter
  sort_by-filter test [] h = refl
  sort_by-filter test (x ∷ xs) h =
      let rest = sort_by-filter test xs h in
      insert_sorted-filter test x (sort_by xs) (λ y. h x y) ∙ ground (arith, rest)

successors_injective : {m n : M.ℕ} → M.suc m ≡ M.suc n → m ≡ n
successors_injective e = cc

-- As many elements, counted by the native numbers.
length_same {ℓ} :
    {A : Type ℓ} (xs ys : List A) → length_of xs ≡ length_of ys → length xs ≡ length ys
length_same [] [] e = refl
length_same [] (y ∷ ys) e = cc
length_same (x ∷ xs) [] e = cc
length_same (x ∷ xs) (y ∷ ys) e = ap suc (length_same xs ys (successors_injective e))

pub length-Perm {ℓ} : {A : Type ℓ} {xs ys : List A} → Perm xs ys → length xs ≡ length ys
length-Perm {xs} {ys} p = length_same xs ys (Perm.length-eq p)

module _ {ℓ} {A : Type ℓ} (test : A → Bool) where
  All-Mem : (xs : List A) → All (λ x. test x ≡ true) xs → (y : A) → Mem y xs → test y ≡ true
  All-Mem [] a y m = absurd (not-mem-nil m)
  All-Mem (x ∷ xs) a y m =
      let one_proof : IsProp (test y ≡ true) = hlevel in
      Or.elim one_proof (eq-or-mem_of_mem-cons m) (λ here. ap test here ∙ a.0) (All-Mem xs a.1 y)

  All-of_Mem : (xs : List A) → ((y : A) → Mem y xs → test y ≡ true) → All (λ x. test x ≡ true) xs
  All-of_Mem [] h = tt
  All-of_Mem (x ∷ xs) h = (h x mem-cons_self, All-of_Mem xs (λ y m. h y (mem-cons_of_mem x m)))

  -- A test that all pass they pass in any order.
  pub All-Perm :
      (xs ys : List A) → Perm xs ys → All (λ x. test x ≡ true) xs → All (λ x. test x ≡ true) ys
  All-Perm xs ys p a = All-of_Mem ys (λ y m. All-Mem xs a y (Perm.subset (Perm.symm p) y m))
