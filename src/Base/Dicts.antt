-- ===== src/Base/Dicts.antt =====
-- Python's dictionaries from names, as association lists in the order of insertion.
use Prim.Native.Nat.{ℕ, ◌+◌, ◌≤◌}
use mathlib.Core.Path.{◌≡◌, refl}
use mathlib.Core.Bool.{Bool, true, false}
use mathlib.Core.Option.{Option, none, some}
use mathlib.Core.List.{List, [], ◌∷◌}
use native.Mathlib.Omega.{arith}
use puffinfloww.Base.Tests.{◌==◌, if◌then◌else◌}
use puffinfloww.Base.Lists.{sum}
use puffinfloww.Base.Names.{Name, contains, Distinct}

abbrev pub Dict {ℓ} : Type ℓ → Type ℓ
Dict V = List (Name × V)

module _ {ℓ} {V : Type ℓ} where
  -- `d.get(k)`
  unfoldable pub get : Name → Dict V → Option V
  get k [] = none
  get k ((j, v) ∷ d) = if k == j then some v else get k d

  -- `d.get(k, default)`
  abbrev pub get_or : Name → Dict V → V → V
  get_or k d v = elim (get k d) [ none ↦ v | some w ↦ w ]

  -- `d[k] = v`
  unfoldable pub put : Name → V → Dict V → Dict V
  put k v [] = (k, v) ∷ []
  put k v ((j, w) ∷ d) = if k == j then (j, v) ∷ d else (j, w) ∷ put k v d

  -- `d.pop(k, None)`, and `del d[k]` where `k` is a key
  unfoldable pub pop : Name → Dict V → Dict V
  pop k [] = []
  pop k ((j, w) ∷ d) = if k == j then pop k d else (j, w) ∷ pop k d

  unfoldable pub keys : Dict V → List Name
  keys [] = []
  keys ((j, w) ∷ d) = j ∷ keys d

  unfoldable pub values : Dict V → List V
  values [] = []
  values ((j, w) ∷ d) = w ∷ values d

  -- `k in d`
  abbrev pub has : Name → Dict V → Bool
  has k d = elim (get k d) [ none ↦ false | some w ↦ true ]

  pub get-put :
      (j k : Name) (v : V) (d : Dict V) → get j (put k v d) ≡ (if j == k then some v else get j d)
  unfolding get put
  get-put j k v [] = refl
  get-put j k v ((i, w) ∷ d) = ground (arith, get-put j k v d)

  pub get-pop : (j k : Name) (d : Dict V) → get j (pop k d) ≡ (if j == k then none else get j d)
  unfolding get pop
  get-pop j k [] = ground arith
  get-pop j k ((i, w) ∷ d) = ground (arith, get-pop j k d)

  pub contains-keys : (k : Name) (d : Dict V) → contains k (keys d) ≡ has k d
  unfolding contains keys get
  contains-keys k [] = refl
  contains-keys k ((j, w) ∷ d) = ground (arith, contains-keys k d)

  pub keys-put-Distinct :
      (k : Name) (v : V) (d : Dict V) → Distinct (keys d) → Distinct (keys (put k v d))
  unfolding keys put get
  keys-put-Distinct k v [] h = ground (arith, contains-keys k [])
  keys-put-Distinct k v ((j, w) ∷ d) h = ground (
    arith,
    keys-put-Distinct k v d h.1,
    contains-keys j (put k v d),
    contains-keys j d,
    get-put j k v d,
  )

  pub keys-pop-Distinct : (k : Name) (d : Dict V) → Distinct (keys d) → Distinct (keys (pop k d))
  unfolding keys pop get
  keys-pop-Distinct k [] h = h
  keys-pop-Distinct k ((j, w) ∷ d) h = ground (
    arith,
    keys-pop-Distinct k d h.1,
    contains-keys j (pop k d),
    contains-keys j d,
    get-pop j k d,
  )

  pub pop_of_absent : (k : Name) (d : Dict V) → get k d ≡ none → pop k d ≡ d
  unfolding get pop
  pop_of_absent k [] h = refl
  pop_of_absent k ((j, w) ∷ d) h = ground (arith, pop_of_absent k d)

-- The sum of a dictionary of numbers, and how a write and a removal change it.
abbrev pub total : Dict ℕ → ℕ
total d = sum (values d)

pub total-put_le : (k : Name) (v : ℕ) (d : Dict ℕ) → total (put k v d) ≤ total d + v
unfolding sum values put
total-put_le k v [] = omega arith
total-put_le k v ((j, w) ∷ d) = ground (arith, total-put_le k v d)

pub total-put : (k : Name) (v : ℕ) (d : Dict ℕ) → total (put k v d) + get_or k d 0 ≡ total d + v
unfolding sum values put get
total-put k v [] = omega arith
total-put k v ((j, w) ∷ d) = ground (arith, total-put k v d)

pub total-pop_le : (k : Name) (d : Dict ℕ) → total (pop k d) ≤ total d
unfolding sum values pop
total-pop_le k [] = omega arith
total-pop_le k ((j, w) ∷ d) = ground (arith, total-pop_le k d)
