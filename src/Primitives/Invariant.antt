-- ===== src/Primitives/Invariant.antt =====
-- core/coordination/primitives.py: what every primitive keeps through any history of calls.
use puffinfloww.Base.{
  keys, keys-put-Distinct, keys-pop-Distinct, ℕ, suc, ◌+◌, ◌-◌, leb→le, sum, values, ◌≤◌, ◌≡◌, refl,
  inl, inr, true, Option, none, some, List, [], ◌∷◌, Name, arith, ltb, leb, length, is_empty,
  contains, Distinct, get, put, has, total, contains-add, contains-discard, length-add,
  length-discard-le, Distinct-add, Distinct-discard, get-put, get-pop, total-put_le, total-pop_le,
  is_empty→nil, Bool-cases, ap, ◌∙◌, ◌⊎◌,
}
use puffinfloww.Primitives.{
  Primitive, PrimitiveType, mutex, semaphore, barrier, lease, lock, quota, create, acquire_for,
  remove_owner, expired_owners, remove_owners, cleanup_expired, acquire, acquire_quota, acquire_new,
  acquire_barrier, is_quota, limit_or_zero, barrier_woken, barrier_timed_out, release,
}
use puffinfloww.Primitives.Calls.{after, Call, acquires, releases, wakes, times_out, step, run}

-- The most owners that a type allows; a barrier lets every party in, and a `LOCK` or a `QUOTA`
-- of the base class nobody.
unfoldable pub owner_bound : Primitive → Option ℕ
owner_bound p = elim p.type [
  | mutex ↦ some 1
  | semaphore ↦ some p.max_count
  | barrier ↦ none
  | lease ↦ some 1
  | lock ↦ some 0
  | quota ↦ some 0
]

abbrev pub Within : ℕ → Option ℕ → Type 0
Within n none = Unit {0}
Within n (some m) = n ≤ m

pub record WellFormed (p : Primitive) : Type 0 where
  pub distinct : Distinct p.owners
  pub bounded : Within (length p.owners) (owner_bound p)
  pub keyed : Distinct (keys p.acquired_times)
  pub timed : (c : Name) → has c p.acquired_times ≡ contains c p.owners
  pub quota_kept : total p.quota_usage ≤ limit_or_zero p.quota_limit

pub remove_owner-WellFormed :
    (p : Primitive) (c : Name) → WellFormed p → WellFormed (remove_owner p c)
unfolding remove_owner owner_bound
remove_owner-WellFormed p c w = record {
  distinct = Distinct-discard c p.owners w.distinct;
  keyed = keys-pop-Distinct c p.acquired_times w.keyed;
  bounded = ground (arith, w.bounded, length-discard-le c p.owners);
  timed =
      λ y. ground (arith, w.timed y, get-pop y c p.acquired_times, contains-discard y c p.owners);
  quota_kept = omega (arith, w.quota_kept, total-pop_le c p.quota_usage);
}

pub remove_owners-WellFormed :
    (p : Primitive) (cs : List Name) → WellFormed p → WellFormed (remove_owners p cs)
unfolding remove_owners
remove_owners-WellFormed p [] w = w
remove_owners-WellFormed p (c ∷ cs) w =
    remove_owners-WellFormed (remove_owner p c) cs (remove_owner-WellFormed p c w)

pub remove_owners-type :
    (p : Primitive) (cs : List Name)
    → ((remove_owners p cs).type ≡ p.type) × ((remove_owners p cs).ttl ≡ p.ttl)
unfolding remove_owners remove_owner
remove_owners-type p [] = (refl, refl)
remove_owners-type p (c ∷ cs) = remove_owners-type (remove_owner p c) cs

acquire_for-WellFormed :
    (p : Primitive) (c : Name) (now : ℕ)
    → Within (suc (length p.owners)) (owner_bound p)
    → WellFormed p
    → WellFormed (acquire_for p c now)
unfolding acquire_for owner_bound
acquire_for-WellFormed p c now room w = record {
  distinct = Distinct-add c p.owners w.distinct;
  keyed = keys-put-Distinct c now p.acquired_times w.keyed;
  bounded = ground (arith, room, w.bounded, length-add c p.owners);
  timed =
      λ y. ground (arith, w.timed y, get-put y c now p.acquired_times, contains-add y c p.owners);
  quota_kept = w.quota_kept;
}

touch-WellFormed :
    (p : Primitive) (c : Name) (now : ℕ)
    → contains c p.owners ≡ true
    → WellFormed p
    → WellFormed (record p { acquired_times = put c now p.acquired_times })
unfolding owner_bound
touch-WellFormed p c now held w = record {
  distinct = w.distinct;
  bounded = w.bounded;
  keyed = keys-put-Distinct c now p.acquired_times w.keyed;
  timed = λ y. ground (arith, w.timed y, w.timed c, get-put y c now p.acquired_times);
  quota_kept = w.quota_kept;
}

room_of_empty :
    (p : Primitive)
    → (p.type ≡ mutex) ⊎ (p.type ≡ lease)
    → p.owners ≡ []
    → Within (suc (length p.owners)) (owner_bound p)
unfolding owner_bound
room_of_empty p t e = ground (arith, ap length e)

room_of_permit :
    (p : Primitive)
    → p.type ≡ semaphore
    → ltb (length p.owners) p.max_count ≡ true
    → Within (suc (length p.owners)) (owner_bound p)
unfolding owner_bound
room_of_permit p t e = ground arith

room_of_barrier :
    (p : Primitive) → p.type ≡ barrier → Within (suc (length p.owners)) (owner_bound p)
unfolding owner_bound
room_of_barrier p t = ground arith

waits-WellFormed : (p : Primitive) (n : ℕ) → WellFormed p → WellFormed (record p { wait_count = n })
unfolding owner_bound
waits-WellFormed p n w = record {
  distinct = w.distinct;
  bounded = w.bounded;
  keyed = w.keyed;
  timed = w.timed;
  quota_kept = w.quota_kept;
}

cleanup_expired-WellFormed :
    (p : Primitive) (now : ℕ) → WellFormed p → WellFormed (cleanup_expired p now)
unfolding cleanup_expired
cleanup_expired-WellFormed p now w =
    remove_owners-WellFormed p (expired_owners now p.ttl p.acquired_times) w

acquire_new-WellFormed :
    (t : PrimitiveType) (p : Primitive) (c : Name) (now : ℕ) (timeout : Option ℕ)
    → p.type ≡ t
    → WellFormed p
    → WellFormed (after (acquire_new t p c now timeout))
unfolding acquire_new acquire_barrier after
acquire_new-WellFormed mutex p c now timeout e w = elim (Bool-cases (is_empty p.owners)) [
  | inl free ↦
      rw free (acquire_for-WellFormed p c now (room_of_empty p (inl e) (is_empty→nil _ free)) w)
  | inr held ↦ rw held w
]
acquire_new-WellFormed semaphore p c now timeout e w =
    elim (Bool-cases (ltb (length p.owners) p.max_count)) [
      | inl free ↦ rw free (acquire_for-WellFormed p c now (room_of_permit p e free) w)
      | inr full ↦ rw full w
    ]
acquire_new-WellFormed barrier p c now timeout e w =
    let q = acquire_for p c now in
    let w' = acquire_for-WellFormed p c now (room_of_barrier p e) w in
    elim (Bool-cases (leb q.max_count (length q.owners))) [
      | inl full ↦ rw full w'
      | inr early ↦ rw early (waits-WellFormed q (q.wait_count + 1) w')
    ]
acquire_new-WellFormed lease p c now timeout e w =
    let q = cleanup_expired p now in
    let w' = cleanup_expired-WellFormed p now w in
    let e' = (remove_owners-type p (expired_owners now p.ttl p.acquired_times)).0 ∙ e in
    elim (Bool-cases (is_empty q.owners)) [
      | inl free ↦
          rw free
            (acquire_for-WellFormed q c now (room_of_empty q (inr e') (is_empty→nil _ free)) w')
      | inr held ↦ rw held w'
    ]
acquire_new-WellFormed lock p c now timeout e w = w
acquire_new-WellFormed quota p c now timeout e w = w

acquire_quota-WellFormed :
    (p : Primitive) (c : Name) (amount : Option ℕ)
    → WellFormed p
    → WellFormed (after (acquire_quota p c amount))
unfolding acquire_quota after owner_bound
acquire_quota-WellFormed p c none w = record {
  distinct = w.distinct;
  bounded = w.bounded;
  keyed = w.keyed;
  timed = w.timed;
  quota_kept = w.quota_kept;
}
acquire_quota-WellFormed p c (some a) w =
    elim (Bool-cases (leb (total p.quota_usage + a) (limit_or_zero p.quota_limit))) [
      | inl fits ↦ rw fits (record {
        distinct = w.distinct;
        bounded = w.bounded;
        keyed = w.keyed;
        timed = w.timed;
        quota_kept = omega (arith, total-put_le c a p.quota_usage, leb→le _ _ fits);
      })
      | inr over ↦ rw over w
    ]

acquire-WellFormed :
    (p : Primitive) (c : Name) (now : ℕ) (timeout amount : Option ℕ)
    → WellFormed p
    → WellFormed (after (acquire p c now timeout amount))
unfolding acquire after
acquire-WellFormed p c now timeout amount w = elim (Bool-cases (is_quota p.type)) [
  | inl q ↦ rw q (acquire_quota-WellFormed p c amount w)
  | inr other ↦ elim (Bool-cases (contains c p.owners)) [
    | inl held ↦ rw (other, held) (touch-WellFormed p c now held w)
    | inr fresh ↦ rw (other, fresh) (acquire_new-WellFormed p.type p c now timeout refl w)
  ]
]

pub step-WellFormed : (p : Primitive) (c : Call) → WellFormed p → WellFormed (step p c)
unfolding step barrier_woken barrier_timed_out release
step-WellFormed p (acquires c now timeout amount) w = acquire-WellFormed p c now timeout amount w
step-WellFormed p (releases c) w = elim (Bool-cases (contains c p.owners)) [
  | inl held ↦ rw (held, step, release) (remove_owner-WellFormed p c w)
  | inr absent ↦ rw (absent, step, release) w
]
step-WellFormed p wakes w = waits-WellFormed p (p.wait_count - 1) w
step-WellFormed p (times_out c) w =
    let q = remove_owner p c in
    waits-WellFormed q (q.wait_count - 1) (remove_owner-WellFormed p c w)

create-WellFormed :
    (name : Name) (t : PrimitiveType) (ttl max_count : ℕ) (wait_timeout limit : Option ℕ)
    → WellFormed (create name t ttl max_count wait_timeout limit)
unfolding create owner_bound keys get contains sum values
create-WellFormed name t ttl max_count wait_timeout limit = record {
  distinct = tt;
  bounded =
      elim t as (λ t. Within 0 (owner_bound (create name t ttl max_count wait_timeout limit))) [
        | mutex ↦ omega arith
        | semaphore ↦ omega arith
        | barrier ↦ tt
        | lease ↦ omega arith
        | lock ↦ omega arith
        | quota ↦ omega arith
      ];
  keyed = tt;
  timed = λ c. refl;
  quota_kept = omega arith;
}

run-WellFormed : (p : Primitive) (cs : List Call) → WellFormed p → WellFormed (run p cs)
unfolding run
run-WellFormed p [] w = w
run-WellFormed p (c ∷ cs) w = run-WellFormed (step p c) cs (step-WellFormed p c w)

-- After any history of calls on a new primitive the owners are distinct and within the bound of
-- the type (one for a mutex or a lease, `max_count` for a semaphore), exactly the owners have an
-- acquisition time, and the recorded quota usage is within the limit.
pub run-create-WellFormed :
    (name : Name) (t : PrimitiveType) (ttl max_count : ℕ) (wait_timeout limit : Option ℕ)
    (cs : List Call)
    → WellFormed (run (create name t ttl max_count wait_timeout limit) cs)
run-create-WellFormed name t ttl max_count wait_timeout limit cs =
    run-WellFormed _ cs (create-WellFormed name t ttl max_count wait_timeout limit)
