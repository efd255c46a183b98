-- ===== src/Primitives/Kinds.antt =====
-- core/coordination/primitives.py: the constructors of the subclasses, and `Quota`.
-- Times are in milliseconds, so the default `ttl` of 30.0 seconds is 30000.
use puffinfloww.Base.{
  ℕ, ◌+◌, ◌-◌, ◌≤◌, ◌≡◌, true, false, Option, none, some, [], Name, arith, leb, get, get_or, put,
  total, total-put, leb→le, leb→gt, get-put, total-put_le, Bool-cases, Option-cases, min, inl, inr,
  ◌⊎◌,
}
use puffinfloww.Primitives.{
  Primitive, mutex, semaphore, barrier, lease, lock, quota, create, Outcome, returns, acquire,
  limit_or_zero,
}
use puffinfloww.Primitives.Invariant.{WellFormed}

abbrev default_ttl : ℕ
default_ttl = 30000

unfoldable pub create_mutex : Name → ℕ → Primitive
unfolding create
create_mutex name ttl = create name mutex ttl 1 none none

unfoldable pub create_semaphore : Name → ℕ → ℕ → Primitive
unfolding create
create_semaphore name max_count ttl = create name semaphore ttl max_count none none

unfoldable pub create_barrier : Name → ℕ → Option ℕ → Primitive
unfolding create
create_barrier name parties timeout = create name barrier default_ttl parties timeout none

unfoldable pub create_lease : Name → ℕ → Primitive
unfolding create
create_lease name ttl = create name lease ttl 1 none none

unfoldable pub create_lock : Name → ℕ → Primitive
unfolding create
create_lock name ttl = create name lock ttl 1 none none

unfoldable pub create_quota : Name → ℕ → Primitive
unfolding create
create_quota name limit = create name quota default_ttl 1 none (some limit)

-- `Quota.consume`, `release_quota`, `available` and `reset`
unfoldable pub consume : Primitive → Name → ℕ → ℕ → Outcome
consume p caller now amount = acquire p caller now none (some amount)

-- `max(0, usage - amount)` is the difference that stops at 0.
unfoldable pub release_quota : Primitive → Name → ℕ → Primitive
release_quota p caller amount = elim (get caller p.quota_usage) [
  | none ↦ p
  | some used ↦ record p { quota_usage = put caller (used - amount) p.quota_usage }
]

unfoldable pub available_quota : Primitive → ℕ
unfolding limit_or_zero
available_quota p = limit_or_zero p.quota_limit - total p.quota_usage

unfoldable pub reset : Primitive → Primitive
reset p = record p { quota_usage = [] }

-- The outcome of `consume` is a grant exactly when the amount fits into what is available, and a
-- grant sets the caller's record to the amount: what the caller had consumed before is available
-- again.
pub consume_available :
    (p : Primitive) (caller : Name) (now amount : ℕ)
    → p.type ≡ quota
    → WellFormed p
    → ((amount ≤ available_quota p)
        × ((q : Primitive) × (consume p caller now amount ≡ returns q true)
            × (get caller q.quota_usage ≡ some amount)
            × (available_quota q + amount ≡ available_quota p + get_or caller p.quota_usage 0)))
      ⊎ ((available_quota p + 1 ≤ amount) × (consume p caller now amount ≡ returns p false))
unfolding consume acquire available_quota
consume_available p caller now amount t w =
    elim (Bool-cases (leb (total p.quota_usage + amount) (limit_or_zero p.quota_limit))) [
      | inl fits ↦
          let fact = leb→le _ _ fits in
          inl (
            omega arith,
            (
              record p { quota_usage = put caller amount p.quota_usage },
              ground arith,
              ground (arith, get-put caller caller amount p.quota_usage),
              omega (
                arith,
                total-put caller amount p.quota_usage,
                total-put_le caller amount p.quota_usage,
              ),
            ),
          )
      | inr over ↦ inr (omega (arith, leb→gt _ _ over, w.quota_kept), ground arith)
    ]

-- Giving back an amount makes that much available again, but no more than the caller has on
-- record, and nothing for a caller with no record.
pub release_quota_available :
    (p : Primitive) (caller : Name) (amount : ℕ)
    → WellFormed p
    → available_quota (release_quota p caller amount)
      ≡ available_quota p + min amount (get_or caller p.quota_usage 0)
unfolding release_quota available_quota
release_quota_available p caller amount w = elim (Option-cases (get caller p.quota_usage)) [
  | inl missing ↦ ground (arith, missing)
  | inr (used, known) ↦
      ground (arith, known, w.quota_kept, total-put caller (used - amount) p.quota_usage)
]
