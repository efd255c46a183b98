-- ===== src/Primitives/Lock.antt =====
-- core/coordination/primitives.py: `Lock`, the reentrant lock, refines a lock with one holder and
-- a depth.
use puffinfloww.Base.{
  ℕ, ◌+◌, ◌-◌, ◌<◌, ◌≡◌, refl, Bool, true, false, Option, none, some, List, [], ◌∷◌, Name, Dict,
  arith, ◌==◌, if◌then◌else◌, is_empty, contains, add, discard, get, get_or, put, pop, get-put,
}
use puffinfloww.Primitives.{Primitive, acquire_for, remove_owner}
use puffinfloww.Primitives.Kinds.{create_lock}

pub record Lock : Type 0 where
  pub base : Primitive
  pub lock_count : Dict ℕ

unfoldable pub create : Name → ℕ → Lock
unfolding create_lock
create name ttl = record { base = create_lock name ttl; lock_count = [] }

unfoldable pub acquire : Lock → Name → ℕ → Lock × Bool
acquire l caller now =
    if contains caller l.base.owners
    then (
      record l { lock_count = put caller (get_or caller l.lock_count 1 + 1) l.lock_count },
      true,
    )
    else if is_empty l.base.owners
    then (
      record { base = acquire_for l.base caller now; lock_count = put caller 1 l.lock_count },
      true,
    )
    else (l, false)

-- `count <= 0` after `count = get(caller_id, 1) - 1` is `count == 0` for the difference that stops
-- at 0.
unfoldable pub release : Lock → Name → Lock × Bool
release l caller =
    if contains caller l.base.owners
    then (let count = get_or caller l.lock_count 1 - 1 in
        if count == 0
        then (
          record { base = remove_owner l.base caller; lock_count = pop caller l.lock_count },
          true,
        )
        else (record l { lock_count = put caller count l.lock_count }, true))
    else (l, false)

-- The specification: nobody holds the lock, or one caller holds it at a depth.
abbrev pub Holder : Type 0
Holder = Option (Name × ℕ)

abbrev pub spec_acquire : Holder → Name → Holder × Bool
spec_acquire none caller = (some (caller, 1), true)
spec_acquire (some (owner, depth)) caller =
    if caller == owner then (some (owner, depth + 1), true) else (some (owner, depth), false)

abbrev pub spec_release : Holder → Name → Holder × Bool
spec_release none caller = (none, false)
spec_release (some (owner, depth)) caller =
    if caller == owner
    then (if depth == 1 then (none, true) else (some (owner, depth - 1), true))
    else (some (owner, depth), false)

pub data Call : Type 0 where
  acquires : (caller : Name) (now : ℕ) → Call
  releases : (caller : Name) → Call

unfoldable pub step : Lock → Call → Lock × Bool
step l (acquires caller now) = acquire l caller now
step l (releases caller) = release l caller

abbrev pub spec_step : Holder → Call → Holder × Bool
spec_step h (acquires caller now) = spec_acquire h caller
spec_step h (releases caller) = spec_release h caller

-- The answers to a history of calls.
unfoldable pub answers : Lock → List Call → List Bool
answers l [] = []
answers l (c ∷ cs) = (step l c).1 ∷ answers (step l c).0 cs

unfoldable pub spec_answers : Holder → List Call → List Bool
spec_answers h [] = []
spec_answers h (c ∷ cs) = (spec_step h c).1 ∷ spec_answers (spec_step h c).0 cs

-- When a lock stands for a holder.
pub Represents : Lock → Holder → Type 0
Represents l none = l.base.owners ≡ []
Represents l (some (owner, depth)) =
    (l.base.owners ≡ owner ∷ []) × (get owner l.lock_count ≡ some depth) × (0 < depth)

acquire-Represents :
    (l : Lock) (h : Holder) (c : Name) (now : ℕ)
    → Represents l h
    → Represents (acquire l c now).0 (spec_acquire h c).0
      × ((acquire l c now).1 ≡ (spec_acquire h c).1)
unfolding Represents acquire acquire_for contains add
acquire-Represents l none c now r = ground (arith, r, get-put c c 1 l.lock_count)
acquire-Represents l (some (o, n)) c now r = ground (arith, r, get-put o c (n + 1) l.lock_count)

release-Represents :
    (l : Lock) (h : Holder) (c : Name)
    → Represents l h
    → Represents (release l c).0 (spec_release h c).0 × ((release l c).1 ≡ (spec_release h c).1)
unfolding Represents release remove_owner contains discard
release-Represents l none c r = ground (arith, r)
release-Represents l (some (o, n)) c r = ground (arith, r, get-put o c (n - 1) l.lock_count)

step-Represents :
    (l : Lock) (h : Holder) (c : Call)
    → Represents l h
    → Represents (step l c).0 (spec_step h c).0 × ((step l c).1 ≡ (spec_step h c).1)
unfolding step
step-Represents l h (acquires c now) r = acquire-Represents l h c now r
step-Represents l h (releases c) r = release-Represents l h c r

answers-eq :
    (l : Lock) (h : Holder) (cs : List Call) → Represents l h → answers l cs ≡ spec_answers h cs
unfolding answers spec_answers
answers-eq l h [] r = refl
answers-eq l h (c ∷ cs) r =
    let (r', same) = step-Represents l h c r in
    rw (same, answers-eq (step l c).0 (spec_step h c).0 cs r')

-- A new `Lock` answers every history of calls as the specification does: one holder at a time, who
-- may acquire again, and who frees the lock by as many releases as acquisitions.
pub lock_refines :
    (name : Name) (ttl : ℕ) (cs : List Call) → answers (create name ttl) cs ≡ spec_answers none cs
unfolding create Represents
lock_refines name ttl cs = answers-eq (create name ttl) none cs refl
