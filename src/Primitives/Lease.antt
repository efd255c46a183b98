-- ===== src/Primitives/Lease.antt =====
-- core/coordination/primitives.py: `Lease`, with the task that renews it.
use puffinfloww.Base.{
  ℕ, ◌-◌, ◌≤◌, ◌≡◌, ◌≢◌, Bool, true, false, Option, none, some, Name, arith, if◌then◌else◌,
  contains, put,
}
use puffinfloww.Primitives.{
  Primitive, lease, Outcome, returns, notifies, raises, waits, acquire as acquire_base,
  release as release_base, is_quota,
}
use puffinfloww.Primitives.Kinds.{create_lease}
use puffinfloww.Primitives.Invariant.{WellFormed}
use puffinfloww.Primitives.Ownership.{lease_excludes}

-- `renew_task` holds the caller that the task renews for and whether its loop still runs: the
-- attribute keeps a task whose loop has ended.
pub record Lease : Type 0 where
  pub base : Primitive
  pub auto_renew : Bool
  pub renew_interval : ℕ
  pub renew_task : Option (Name × Bool)

unfoldable pub create : Name → ℕ → Bool → ℕ → Lease
unfolding create_lease
create name ttl auto_renew renew_interval = record {
  base = create_lease name ttl;
  auto_renew = auto_renew;
  renew_interval = renew_interval;
  renew_task = none;
}

unfoldable pub start_renewal : Lease → Name → Lease
start_renewal l caller = elim l.renew_task [
  | none ↦ if l.auto_renew then record l { renew_task = some (caller, true) } else l
  | some task ↦ l
]

unfoldable pub finish : Lease → Name → Outcome → Lease × Option Bool
unfolding start_renewal
finish l caller (returns p true) = (start_renewal (record l { base = p }) caller, some true)
finish l caller (returns p false) = (record l { base = p }, some false)
finish l caller (notifies p) = (start_renewal (record l { base = p }) caller, some true)
finish l caller (raises p e) = (record l { base = p }, none)
finish l caller (waits p t) = (record l { base = p }, none)

unfoldable pub acquire : Lease → Name → ℕ → Option ℕ → Option ℕ → Lease × Option Bool
unfolding finish
acquire l caller now timeout amount =
    finish l caller (acquire_base l.base caller now timeout amount)

unfoldable pub release : Lease → Name → Lease × Bool
release l caller =
    let (p, done, _) = release_base l.base caller in
    (record l { base = p; renew_task = none }, done)

-- One round of `_auto_renew_loop`, after its sleep.
unfoldable pub renew : Lease → ℕ → Lease
renew l now = elim l.renew_task [
  | some (caller, true) ↦
      if contains caller l.base.owners
      then record l {
        base = record (l.base) { acquired_times = put caller now l.base.acquired_times };
      }
      else record l { renew_task = some (caller, false) }
  | _ ↦ l
]

-- While the task of an owner of the lease runs, a round of it at `now` keeps every other caller out
-- until `ttl` has passed since that round, however long ago the lease was granted.
pub renew_excludes :
    (l : Lease) (c d : Name) (now later : ℕ) (timeout amount : Option ℕ)
    → l.base.type ≡ lease
    → WellFormed l.base
    → l.renew_task ≡ some (c, true)
    → contains c l.base.owners ≡ true
    → d ≢ c
    → later - now ≤ l.base.ttl
    → ((acquire (renew l now) d later timeout amount).1 ≡ some false)
      × (contains c (acquire (renew l now) d later timeout amount).0.base.owners ≡ true)
unfolding renew acquire
renew_excludes l c d now later timeout amount t w task held other fresh =
    let q : Primitive = record (l.base) { acquired_times = put c now l.base.acquired_times } in
    let (r, denied, kept) =
      lease_excludes l.base q c d now later timeout amount t w again other fresh in
    ground (arith, task, held, denied, kept)
  where
    again :
        acquire_base l.base c now timeout amount
        ≡ returns (record (l.base) { acquired_times = put c now l.base.acquired_times }) true
    again = unfold acquire_base is_quota in ground (arith, t, held)

-- A `release` by a caller that does not hold the lease is refused and leaves the owners, but it
-- cancels the renewal: no later round of the task renews the lease of its owner.
pub release_stops_renewal :
    (l : Lease) (d : Name) (now : ℕ)
    → contains d l.base.owners ≡ false
    → ((release l d).1 ≡ false)
      × ((release l d).0 ≡ record l { renew_task = none })
      × (renew (release l d).0 now ≡ (release l d).0)
unfolding release release_base renew
release_stops_renewal l d now absent = ground arith
