-- ===== src/Primitives/Ownership.antt =====
-- core/coordination/primitives.py: who holds a mutex or a lease, and until when.
use puffinfloww.Base.{
  ℕ, ◌-◌, ◌≤◌, ◌<◌, ◌≡◌, refl, ◌∙◌, ap, ◌≢◌, ◌⊎◌, inl, inr, true, false, Option, none, some, List,
  [], ◌∷◌, Name, Dict, arith, ltb, leb, ◌==◌, if◌then◌else◌, is_empty, contains, add, discard, get,
  keys, Distinct, contains-keys, get-put, contains-add, contains-discard, nil_of_absent,
  singleton_of_contains, leb→le, leb→gt, leb, ◌<◌, ◌⊎◌, Bool-cases, ==→eq, ==→ne,
}
use puffinfloww.Primitives.{
  Primitive, PrimitiveType, mutex, semaphore, barrier, lease, lock, quota, acquire_for,
  remove_owner, expired_owners, remove_owners, cleanup_expired, returns, acquire, acquire_new,
  acquire_barrier, is_quota, release,
}
use puffinfloww.Primitives.Calls.{after, acquires, step}
use puffinfloww.Primitives.Invariant.{WellFormed, owner_bound, remove_owners-type, step-WellFormed}

pub contains-remove_owners :
    (p : Primitive) (cs : List Name) (y : Name)
    → contains y (remove_owners p cs).owners
      ≡ (if contains y cs then false else contains y p.owners)
unfolding remove_owners remove_owner contains
contains-remove_owners p [] y = refl
contains-remove_owners p (c ∷ cs) y =
    ground (arith, contains-remove_owners (remove_owner p c) cs y, contains-discard y c p.owners)

contains-expired_owners :
    (now ttl : ℕ) (times : Dict ℕ) (y : Name)
    → Distinct (keys times)
    → contains y (expired_owners now ttl times)
      ≡ elim (get y times) [ none ↦ false | some t ↦ ltb ttl (now - t) ]
unfolding expired_owners contains get keys
contains-expired_owners now ttl [] y d = refl
contains-expired_owners now ttl ((k, t) ∷ times) y d =
    ground (arith, contains-expired_owners now ttl times y d.1, contains-keys k times)

-- A clean-up keeps exactly the owners whose time is not past the ttl.
pub contains-cleanup_expired :
    (p : Primitive) (now : ℕ) (y : Name)
    → WellFormed p
    → contains y (cleanup_expired p now).owners
      ≡ elim (get y p.acquired_times) [ none ↦ false | some t ↦ leb (now - t) p.ttl ]
unfolding cleanup_expired
contains-cleanup_expired p now y w = ground (
  arith,
  contains-remove_owners p (expired_owners now p.ttl p.acquired_times) y,
  contains-expired_owners now p.ttl p.acquired_times y w.keyed,
  w.timed y,
)

owner_only :
    (p : Primitive) (c : Name)
    → ((p.type ≡ mutex) ⊎ (p.type ≡ lease))
    → WellFormed p
    → contains c p.owners ≡ true
    → p.owners ≡ c ∷ []
unfolding owner_bound
owner_only p c t w h = singleton_of_contains c p.owners (ground (arith, w.bounded)) h

-- What a granted call leaves, for the types that have owners.
record Granted (p q : Primitive) (c : Name) (now : ℕ) : Type 0 where
  owns : contains c q.owners ≡ true
  stamped : get c q.acquired_times ≡ some now
  same_type : q.type ≡ p.type
  same_ttl : q.ttl ≡ p.ttl

acquire_for-Granted : (p : Primitive) (c : Name) (now : ℕ) → Granted p (acquire_for p c now) c now
unfolding acquire_for
acquire_for-Granted p c now = record {
  owns = ground (arith, contains-add c c p.owners);
  stamped = ground (arith, get-put c c now p.acquired_times);
  same_type = refl;
  same_ttl = refl;
}

acquire_new-Granted :
    (t : PrimitiveType) (p : Primitive) (c : Name) (now : ℕ) (timeout : Option ℕ) (q : Primitive)
    → acquire_new t p c now timeout ≡ returns q true
    → Granted p q c now
unfolding acquire_new
acquire_new-Granted mutex p c now timeout q e = ground (arith, acquire_for-Granted p c now)
acquire_new-Granted semaphore p c now timeout q e = ground (arith, acquire_for-Granted p c now)
acquire_new-Granted barrier p c now timeout q e = unfold acquire_barrier in ground arith
acquire_new-Granted lease p c now timeout q e =
    let r = cleanup_expired p now in
    unfold cleanup_expired in
    ground (
      arith,
      acquire_for-Granted r c now,
      remove_owners-type p (expired_owners now p.ttl p.acquired_times),
    )
acquire_new-Granted lock p c now timeout q e = cc
acquire_new-Granted quota p c now timeout q e = cc

acquire-Granted :
    (p : Primitive) (c : Name) (now : ℕ) (timeout amount : Option ℕ) (q : Primitive)
    → is_quota p.type ≡ false
    → acquire p c now timeout amount ≡ returns q true
    → Granted p q c now
unfolding acquire
acquire-Granted p c now timeout amount q t e =
    ground (arith, acquire_new-Granted p.type p c now timeout q, get-put c c now p.acquired_times)

granted-WellFormed :
    (p : Primitive) (c : Name) (now : ℕ) (timeout amount : Option ℕ) (q : Primitive)
    → WellFormed p
    → acquire p c now timeout amount ≡ returns q true
    → WellFormed q
unfolding step after
granted-WellFormed p c now timeout amount q w e =
    rw e at (step-WellFormed p (acquires c now timeout amount) w)

absent_of_singleton : (c d : Name) (s : List Name) → s ≡ c ∷ [] → d ≢ c → contains d s ≡ false
unfolding contains
absent_of_singleton c d s e n = rw e (ground arith)

not_empty : (c : Name) (s : List Name) → contains c s ≡ true → is_empty s ≡ false
unfolding contains
not_empty c [] h = cc
not_empty c (x ∷ s) h = refl

-- Once a mutex has let `c` in, `c` is its only owner and every other caller is refused without a
-- change, at any time, however old the acquisition is; after `c` releases it the next caller gets
-- it.
pub mutex_excludes :
    (p q : Primitive) (c d : Name) (now later : ℕ) (timeout amount : Option ℕ)
    → p.type ≡ mutex
    → WellFormed p
    → acquire p c now timeout amount ≡ returns q true
    → d ≢ c
    → (q.owners ≡ c ∷ [])
      × (acquire q d later timeout amount ≡ returns q false)
      × (acquire (release q c).0 d later timeout amount
          ≡ returns (acquire_for (release q c).0 d later) true)
unfolding is_quota
mutex_excludes p q c d now later timeout amount t w e n = (
  only,
  unfold acquire acquire_new in ground (arith, same, only, absent_of_singleton c d q.owners only n),
  unfold acquire acquire_new release remove_owner contains discard in
      ground (arith, same, only, g.owns),
)
  where
    g : Granted p q c now
    g = acquire-Granted p c now timeout amount q (rw t) e

    same : q.type ≡ mutex
    same = g.same_type ∙ t

    only : q.owners ≡ c ∷ []
    only = owner_only q c (inl same) (granted-WellFormed p c now timeout amount q w e) g.owns

acquire_lease :
    (q : Primitive) (d : Name) (later : ℕ) (timeout amount : Option ℕ)
    → q.type ≡ lease
    → contains d q.owners ≡ false
    → acquire q d later timeout amount ≡ (
        if is_empty (cleanup_expired q later).owners
        then returns (acquire_for (cleanup_expired q later) d later) true
        else returns (cleanup_expired q later) false)
unfolding acquire acquire_new
acquire_lease q d later timeout amount t f = ground arith

module _ (p q : Primitive) (c d : Name) (now later : ℕ) (timeout amount : Option ℕ)
    (is_lease : p.type ≡ lease) (w : WellFormed p)
    (granted : acquire p c now timeout amount ≡ returns q true) (other : d ≢ c) where
  lease-Granted : Granted p q c now
  unfolding is_quota
  lease-Granted = acquire-Granted p c now timeout amount q (rw is_lease) granted

  lease_kept : WellFormed q
  lease_kept = granted-WellFormed p c now timeout amount q w granted

  lease_only : q.owners ≡ c ∷ []
  lease_only =
      owner_only q c (inr (lease-Granted.same_type ∙ is_lease)) lease_kept lease-Granted.owns

  lease_step : acquire q d later timeout amount ≡ (
      if is_empty (cleanup_expired q later).owners
      then returns (acquire_for (cleanup_expired q later) d later) true
      else returns (cleanup_expired q later) false)
  lease_step =
      acquire_lease q d later timeout amount (lease-Granted.same_type ∙ is_lease)
        (absent_of_singleton c d q.owners lease_only other)

  pub lease_excludes :
      later - now ≤ p.ttl
      → (r : Primitive) × (acquire q d later timeout amount ≡ returns r false)
        × (contains c r.owners ≡ true)
  lease_excludes fresh =
      let r = cleanup_expired q later in
      let stays : contains c r.owners ≡ true = ground (
        arith,
        contains-cleanup_expired q later c lease_kept,
        lease-Granted.stamped,
        lease-Granted.same_ttl,
      ) in
      (r, lease_step ∙ rw (not_empty c r.owners stays), stays)

  lease_taken_over :
      p.ttl < later - now
      → (r : Primitive) × (acquire q d later timeout amount ≡ returns r true) × (r.owners ≡ d ∷ [])
  lease_taken_over late =
      let r = cleanup_expired q later in
      let gone : r.owners ≡ [] = nil_of_absent r.owners lease_gone in
      (acquire_for r d later, lease_step ∙ rw (ap is_empty gone), unfold acquire_for add in rw gone)
    where
      lease_gone : (y : Name) → contains y (cleanup_expired q later).owners ≡ false
      lease_gone y = elim (Bool-cases (y == c)) [
        | inl mine ↦ rw (==→eq y c mine) (
            ground (
              arith,
              contains-cleanup_expired q later c lease_kept,
              lease-Granted.stamped,
              lease-Granted.same_ttl,
            ))
        | inr foreign ↦ ground (
          arith,
          contains-cleanup_expired q later y lease_kept,
          lease_kept.timed y,
          absent_of_singleton c y q.owners lease_only (==→ne y c foreign),
        )
      ]

  -- After a lease was granted to `c`: while no more than `ttl` has passed, another caller is refused
  -- and `c` stays an owner; and once more has passed, the next caller takes the lease over and is its
  -- only owner, with no release by `c`.
  pub lease_by_time :
      ((later - now ≤ p.ttl)
        × ((r : Primitive) × (acquire q d later timeout amount ≡ returns r false)
            × (contains c r.owners ≡ true)))
      ⊎ ((p.ttl < later - now)
          × ((r : Primitive) × (acquire q d later timeout amount ≡ returns r true)
              × (r.owners ≡ d ∷ [])))
  lease_by_time = elim (Bool-cases (leb (later - now) p.ttl)) [
    | inl h ↦ inl (leb→le _ _ h, lease_excludes (leb→le _ _ h))
    | inr h ↦ inr (leb→gt _ _ h, lease_taken_over (leb→gt _ _ h))
  ]
