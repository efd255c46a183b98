-- ===== src/ResourcePool/Ledger.antt =====
-- core/resources/pool.py: what is available and what is held, through any history of calls.
use puffinfloww.Base.{
  ℕ, ◌+◌, ◌≤◌, ◌≡◌, refl, ap, ◌∙◌, ◌⊎◌, inl, inr, Bool, true, false, none, some, List, [], ◌∷◌,
  Name, Dict, arith, ◌==◌, leb, is_empty, Distinct, get, get_or, put, pop, keys, contains-keys,
  keys-pop-Distinct, leb→le, Bool-cases, Option-cases,
}
use puffinfloww.ResourcePool.{
  ResourceType, cpu, memory, io, network, gpu, all_types, Requirements, required, Allocation,
  amount_of, allocation_for, Pool, Error, overflow, quota_exceeded, for_all, check_quota,
  validate_requirements, can_allocate, allocate, held, update_stats, give_back, preempt_state,
  candidates, preempt_all, try_preemption, raises, granted, retries, waits, await_event, attempt,
  release,
}

pub for_all_elim :
    (req : Requirements) (test : ResourceType → Bool) (t : ResourceType)
    → for_all all_types req test ≡ true
    → req.resource_types t ≡ true
    → test t ≡ true
unfolding for_all
for_all_elim req test cpu h w = ground arith
for_all_elim req test memory h w = ground arith
for_all_elim req test io h w = ground arith
for_all_elim req test network h w = ground arith
for_all_elim req test gpu h w = ground arith

abbrev no_allocation : Allocation
no_allocation t = none

held-put :
    (t : ResourceType) (k : Name) (a : Allocation) (d : Dict Allocation)
    → held t (put k a d) + amount_of (get_or k d no_allocation) t ≡ held t d + amount_of a t
unfolding held put get
held-put t k a [] = omega arith
held-put t k a ((j, b) ∷ d) = ground (arith, held-put t k a d)

held-pop_absent :
    (t : ResourceType) (k : Name) (d : Dict Allocation)
    → get k d ≡ none
    → held t (pop k d) ≡ held t d
unfolding held pop get
held-pop_absent t k [] h = refl
held-pop_absent t k ((j, b) ∷ d) h = ground (arith, held-pop_absent t k d)

held-pop :
    (t : ResourceType) (k : Name) (a : Allocation) (d : Dict Allocation)
    → Distinct (keys d)
    → get k d ≡ some a
    → held t (pop k d) + amount_of a t ≡ held t d
unfolding held pop get keys
held-pop t k a [] u h = cc
held-pop t k a ((j, b) ∷ d) u h = elim (Bool-cases (k == j)) [
  | inl here ↦
      ground
        (arith, held-pop_absent t k d, contains-keys j d, u.0, ap (λ x. amount_of x t) (same here))
  | inr there ↦ ground (arith, held-pop t k a d u.1)
]
  where
    same : (k == j) ≡ true → b ≡ a
    same here = ground arith

allocation_named :
    (req : Requirements) (t : ResourceType)
    → req.resource_types t ≡ true
    → allocation_for req t ≡ some (required req t)
unfolding allocation_for
allocation_named req t w = rw w

allocation_unnamed :
    (req : Requirements) (t : ResourceType)
    → req.resource_types t ≡ false
    → allocation_for req t ≡ none
unfolding allocation_for
allocation_unnamed req t w = rw w

fits_available :
    (p : Pool) (req : Requirements) (t : ResourceType)
    → can_allocate p req ≡ true
    → amount_of (allocation_for req) t ≤ p.available t
unfolding can_allocate
fits_available p req t h = elim (Bool-cases (req.resource_types t)) [
  | inl named ↦
      rw (allocation_named req t named, amount_of)
        (leb→le _ _ (for_all_elim req (λ u. leb (required req u) (p.available u)) t h named))
  | inr unnamed ↦ rw (allocation_unnamed req t unnamed, amount_of) (omega arith)
]

-- What `state` has on record before a call.
abbrev pub holding : Pool → Name → ResourceType → ℕ
holding p state t = amount_of (get_or state p.allocations no_allocation) t

-- Everything that the pool accounts for.
abbrev pub accounted : Pool → ResourceType → ℕ
accounted p t = p.available t + held t p.allocations

pub allocate_ledger :
    (p : Pool) (state : Name) (req : Requirements) (now : ℕ) (t : ResourceType)
    → can_allocate p req ≡ true
    → accounted (allocate p state req now) t + holding p state t ≡ accounted p t
unfolding allocate
allocate_ledger p state req now t h =
    omega (arith, held-put t state (allocation_for req) p.allocations, fits_available p req t h)

-- No type has more in use or available than there is; no state is on record twice.
pub record Sound (p : Pool) : Type 0 where
  pub unique : Distinct (keys p.allocations)
  pub covered : (t : ResourceType) → accounted p t ≤ p.resources t

-- Nothing is lost either.
pub record Balanced (p : Pool) : Type 0 where
  pub unique : Distinct (keys p.allocations)
  pub exact : (t : ResourceType) → accounted p t ≡ p.resources t

give_back_ledger :
    (p : Pool) (state : Name) (a : Allocation) (t : ResourceType)
    → Distinct (keys p.allocations)
    → get state p.allocations ≡ some a
    → accounted (give_back p state a) t ≡ accounted p t
unfolding give_back
give_back_ledger p state a t u e = omega (arith, held-pop t state a p.allocations u e)

-- Taking back what one state holds changes no account.
pub record Returns (p q : Pool) : Type 0 where
  pub unique : Distinct (keys q.allocations)
  pub exact : (t : ResourceType) → accounted q t ≡ accounted p t
  pub same : q.resources ≡ p.resources

Returns-refl : (p : Pool) → Distinct (keys p.allocations) → Returns p p
Returns-refl p u = record { unique = u; exact = λ t. refl; same = refl }

Returns-trans : (p q r : Pool) → Returns p q → Returns q r → Returns p r
Returns-trans p q r a b = record {
  unique = b.unique;
  exact = λ t. b.exact t ∙ a.exact t;
  same = b.same ∙ a.same;
}

pub preempt_state-Returns :
    (p : Pool) (state : Name) → Distinct (keys p.allocations) → Returns p (preempt_state p state)
unfolding preempt_state
preempt_state-Returns p state u = elim (Option-cases (get state p.allocations)) [
  | inl absent ↦ rw (absent, preempt_state) (Returns-refl p u)
  | inr (a, known) ↦
      rw (known, preempt_state)
        (unfold give_back in
          record {
            unique = keys-pop-Distinct state p.allocations u;
            exact = λ t. give_back_ledger p state a t u known;
            same = refl;
          })
]

pub preempt_all-Returns :
    (p : Pool) (states : List Name)
    → Distinct (keys p.allocations)
    → Returns p (preempt_all p states)
unfolding preempt_all
preempt_all-Returns p [] u = Returns-refl p u
preempt_all-Returns p (s ∷ ss) u =
    let first = preempt_state-Returns p s u in
    Returns-trans p (preempt_state p s) (preempt_all (preempt_state p s) ss) first
      (preempt_all-Returns (preempt_state p s) ss first.unique)

pub release-Returns :
    (p : Pool) (state : Name) → Distinct (keys p.allocations) → Returns p (release p state)
unfolding release
release-Returns p state u = elim (Option-cases (get state p.allocations)) [
  | inl absent ↦ rw (absent, release) (Returns-refl p u)
  | inr (a, known) ↦
      rw (known, release)
        (unfold give_back in
          record {
            unique = keys-pop-Distinct state p.allocations u;
            exact = λ t. give_back_ledger p state a t u known;
            same = refl;
          })
]

pub try_preemption-Returns :
    (p : Pool) (state : Name) (req : Requirements)
    → Distinct (keys p.allocations)
    → Returns p (try_preemption p state req).0
unfolding try_preemption
try_preemption-Returns p state req u = elim (Bool-cases p.enable_preemption) [
  | inr off ↦ ground (arith, Returns-refl p u)
  | inl on ↦ elim (Bool-cases (is_empty (candidates p state req p.allocations))) [
    | inl nobody ↦ ground (arith, Returns-refl p u)
    | inr some_state ↦
        ground (arith, preempt_all-Returns p (candidates p state req p.allocations) u)
  ]
]

-- How one round of the loop in `acquire` ends: it grants the resources, with the requirements
-- checked, or it changes no account.
pub attempt_cases :
    (p : Pool) (state : Name) (req : Requirements) (allow : Bool) (start now : ℕ)
    → ((can_allocate p req ≡ true)
        × (validate_requirements p req ≡ true)
        × (check_quota p state req ≡ true)
        × (attempt p state req allow start now
            ≡ granted (update_stats (allocate p state req now) req start now)))
      ⊎ ((e : Error) × (attempt p state req allow start now ≡ raises p e))
      ⊎ (attempt p state req allow start now ≡ retries (try_preemption p state req).0)
      ⊎ (attempt p state req allow start now ≡ waits (await_event p state))
      ⊎ (attempt p state req allow start now
          ≡ waits (await_event (try_preemption p state req).0 state))
unfolding attempt
attempt_cases p state req allow start now = elim (Bool-cases (validate_requirements p req)) [
  | inr bad ↦ inr (inl (overflow, ground arith))
  | inl ok ↦ elim (Bool-cases (check_quota p state req)) [
    | inr over ↦ inr (inl (quota_exceeded, ground arith))
    | inl under ↦ elim (Bool-cases (can_allocate p req)) [
      | inl fits ↦ inl (fits, ok, under, ground arith)
      | inr short ↦ ground arith
    ]
  ]
]
