-- ===== src/Primitives/Samples.antt =====
-- core/coordination/primitives.py: small runs of the primitives.
use puffinfloww.Base.{
  ◌+◌, ◌≤◌, ◌≡◌, ◌<◌, ◌≢◌, refl, ◌⊎◌, true, false, none, some, [], ◌∷◌, Name, arith, contains, add,
  discard, get, get_or, put, pop, values, sum, All,
}
use puffinfloww.Primitives.{
  Primitive, mutex, lease, quota, create, acquire, acquire_for, acquire_new, acquire_quota,
  is_quota, returns, release, remove_owner, cleanup_expired, expired_owners, remove_owners,
  limit_or_zero,
}
use puffinfloww.Primitives.Calls.{acquires, releases, run, step, after}
use puffinfloww.Primitives.Invariant.{WellFormed, run-create-WellFormed}
use puffinfloww.Primitives.Ownership.{mutex_excludes, lease_by_time}
use puffinfloww.Primitives.Kinds.{
  create_mutex, create_lease, create_quota, consume, available_quota, release_quota,
  consume_available,
}
use puffinfloww.Primitives.Lock.{lock_refines, answers, spec_answers}
use puffinfloww.Primitives.Lock
use puffinfloww.Primitives.Barrier.{barrier_never_passes, barrier_wedges, new_barrier}
use puffinfloww.Primitives.Barrier
use puffinfloww.Primitives.Lease.{renew_excludes, release_stops_renewal}
use puffinfloww.Primitives.Lease

program : Unit {0}
unfolding create create_mutex create_lease create_quota acquire acquire_for acquire_new
    acquire_quota is_quota contains add discard get put pop release remove_owner cleanup_expired
    expired_owners remove_owners limit_or_zero run step after consume available_quota release_quota
    values sum
program = tt

abbrev door : Primitive
door = create 7 mutex 100 1 none none

abbrev door_taken : Primitive
door_taken = acquire_for door 1 5

abbrev lent : Primitive
lent = create 8 lease 100 1 none none

abbrev lent_taken : Primitive
lent_taken = acquire_for lent 1 5

abbrev budget : Primitive
budget = record (create 9 quota 100 1 none (some 10)) { quota_usage = (1, 6) ∷ [] }

door-WellFormed : WellFormed door
unfolding run
door-WellFormed = run-create-WellFormed 7 mutex 100 1 none none []

lent-WellFormed : WellFormed lent
unfolding run
lent-WellFormed = run-create-WellFormed 8 lease 100 1 none none []

lent_taken-WellFormed : WellFormed lent_taken
unfolding program
lent_taken-WellFormed = run-create-WellFormed 8 lease 100 1 none none (acquires 1 5 none none ∷ [])

budget-WellFormed : WellFormed budget
unfolding program
budget-WellFormed =
    run-create-WellFormed 9 quota 100 1 none (some 10) (acquires 1 5 none (some 6) ∷ [])

abbrev the_first : Name
the_first = 1

abbrev the_second : Name
the_second = 2

other_caller : the_second ≢ the_first
other_caller h = omega arith

run-create-WellFormed_example :
    WellFormed (run (create 7 mutex 100 1 none none) (acquires 1 5 none none ∷ releases 1 ∷ []))
run-create-WellFormed_example =
    run-create-WellFormed 7 mutex 100 1 none none (acquires 1 5 none none ∷ releases 1 ∷ [])

mutex_excludes_example :
    (door_taken.owners ≡ 1 ∷ [])
    × (acquire door_taken 2 900 none none ≡ returns door_taken false)
    × (acquire (release door_taken 1).0 2 900 none none
        ≡ returns (acquire_for (release door_taken 1).0 2 900) true)
unfolding program
mutex_excludes_example =
    mutex_excludes door door_taken 1 2 5 900 none none refl door-WellFormed refl other_caller

lease_by_time_example :
    ((45 ≤ lent.ttl)
      × ((r : Primitive) × (acquire lent_taken 2 50 none none ≡ returns r false)
          × (contains 1 r.owners ≡ true)))
    ⊎ ((lent.ttl < 45)
        × ((r : Primitive) × (acquire lent_taken 2 50 none none ≡ returns r true)
            × (r.owners ≡ 2 ∷ [])))
unfolding program
lease_by_time_example =
    lease_by_time lent lent_taken 1 2 5 50 none none refl lent-WellFormed refl other_caller

consume_available_example :
    ((4 ≤ available_quota budget)
      × ((q : Primitive) × (consume budget 1 20 4 ≡ returns q true)
          × (get 1 q.quota_usage ≡ some 4)
          × (available_quota q + 4 ≡ available_quota budget + get_or 1 budget.quota_usage 0)))
    ⊎ ((available_quota budget + 1 ≤ 4) × (consume budget 1 20 4 ≡ returns budget false))
unfolding program
consume_available_example = consume_available budget 1 20 4 refl budget-WellFormed

lock_refines_example :
    answers
      (Lock.create 3 100)
      (Lock.acquires 1 0 ∷ Lock.acquires 1 1 ∷ Lock.acquires 2 2 ∷ Lock.releases 1 ∷ [])
    ≡ spec_answers none
        (Lock.acquires 1 0 ∷ Lock.acquires 1 1 ∷ Lock.acquires 2 2 ∷ Lock.releases 1 ∷ [])
lock_refines_example =
    lock_refines 3 100
      (Lock.acquires 1 0 ∷ Lock.acquires 1 1 ∷ Lock.acquires 2 2 ∷ Lock.releases 1 ∷ [])

barrier_never_passes_example :
    All
      (λ a. a ≢ some true)
      (Barrier.answers
        (new_barrier 4 2 (some 50))
        (Barrier.arrives 1 0 none ∷ Barrier.arrives 2 1 none ∷ Barrier.times_out ∷ []))
barrier_never_passes_example =
    barrier_never_passes 4 2 (some 50)
      (Barrier.arrives 1 0 none ∷ Barrier.arrives 2 1 none ∷ Barrier.times_out ∷ []) (omega arith)

abbrev renewed : Lease.Lease
renewed = record {
  base = lent_taken;
  auto_renew = true;
  renew_interval = 40;
  renew_task = some (1, true);
}

renew_excludes_example :
    ((Lease.acquire (Lease.renew renewed 90) 2 150 none none).1 ≡ some false)
    × (contains 1 (Lease.acquire (Lease.renew renewed 90) 2 150 none none).0.base.owners ≡ true)
unfolding program
renew_excludes_example =
    renew_excludes renewed 1 2 90 150 none none refl lent_taken-WellFormed refl refl other_caller
      (omega arith)
