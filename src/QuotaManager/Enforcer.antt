-- ===== src/QuotaManager/Enforcer.antt =====
-- core/resources/quotas.py: `QuotaEnforcer`.
use puffinfloww.Base.{ℕ, ◌≡◌, refl, Bool, true, false, List, [], ◌∷◌, if◌then◌else◌, is_empty}
use puffinfloww.RateLimiter.{Scale}
use puffinfloww.QuotaManager.{
  Key, QuotaManager, check_quota, returns, quota_exceeded, allocate, release,
}

abbrev pub Request : Type 0
Request = Key × ℕ

-- The requests that the checks refuse.
unfoldable pub check_all : Scale → QuotaManager → List Request → ℕ → QuotaManager × List Request
check_all s m [] now = (m, [])
check_all s m ((k, amount) ∷ rs) now =
    let (m', allowed) = check_quota s m k amount now in
    let (m'', violations) = check_all s m' rs now in
    if allowed then (m'', violations) else (m'', (k, amount) ∷ violations)

unfoldable pub check_all_quotas :
    Scale → QuotaManager → List Request → ℕ → QuotaManager × Bool × List Request
unfolding check_all
check_all_quotas s m rs now =
    let (m', violations) = check_all s m rs now in (m', is_empty violations, violations)

-- The loop of allocations, up to the first that raises: what is on the list then, and whether the
-- loop came to its end. A refusal that does not raise goes on the list too.
unfoldable pub allocate_all :
    Scale → QuotaManager → List Request → ℕ → QuotaManager × List Request × Bool
allocate_all s m [] now = (m, [], true)
allocate_all s m ((k, amount) ∷ rs) now =
    let m' = (allocate s m k amount now).0 in
    let (m'', allocated, ended) = allocate_all s m' rs now in
    elim (allocate s m k amount now).1 [
      | quota_exceeded r ↦ (m', [], false)
      | returns b ↦ (m'', (k, amount) ∷ allocated, ended)
    ]

unfoldable pub rollback : QuotaManager → List Request → QuotaManager
rollback m [] = m
rollback m ((k, amount) ∷ rs) = rollback (release m k amount) rs

unfoldable pub allocate_with_quotas :
    Scale → QuotaManager → List Request → ℕ → QuotaManager × Bool × List Request
unfolding check_all_quotas allocate_all rollback
allocate_with_quotas s m rs now =
    let (m', allowed, violations) = check_all_quotas s m rs now in
    if allowed
    then (let (m'', allocated, ended) = allocate_all s m' rs now in
        if ended then (m'', true, allocated) else (rollback m'' allocated, false, []))
    else (m', false, [])

pub allocate_all_returned :
    (s : Scale) (m : QuotaManager) (k : Key) (amount : ℕ) (rs : List Request) (now : ℕ) (b : Bool)
    → (allocate s m k amount now).1 ≡ returns b
    → allocate_all s m ((k, amount) ∷ rs) now ≡ (
        let (m'', allocated, ended) = allocate_all s (allocate s m k amount now).0 rs now in
        (m'', (k, amount) ∷ allocated, ended))
unfolding allocate_all
allocate_all_returned s m k amount rs now b e = rw (allocate_all, e) refl

pub allocate_all_raised :
    (s : Scale) (m : QuotaManager) (k : Key) (amount : ℕ) (rs : List Request) (now r : ℕ)
    → (allocate s m k amount now).1 ≡ quota_exceeded r
    → allocate_all s m ((k, amount) ∷ rs) now ≡ ((allocate s m k amount now).0, [], false)
unfolding allocate_all
allocate_all_raised s m k amount rs now r e = rw (allocate_all, e) refl
