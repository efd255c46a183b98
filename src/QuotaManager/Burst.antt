-- ===== src/QuotaManager/Burst.antt =====
-- core/resources/quotas.py: `QuotaEnforcer` under a burst limit.
use puffinfloww.Base.{
  ℕ, ◌+◌, ◌≤◌, ◌<◌, ◌≡◌, refl, sym, ap, ◌∙◌, inl, inr, true, false, some, [], ◌∷◌, arith,
}
use puffinfloww.RateLimiter.{Scale}
use puffinfloww.QuotaManager.{
  QuotaLimit, burst, Key, QuotaManager, usage_of, trimmed, below_limit, check_quota, returns,
  allocate,
}
use puffinfloww.QuotaManager.Keys.{same_key_self}
use puffinfloww.QuotaManager.Limits.{
  in_use, Checked, lets, check_quota-Checked, check_limited, trimmed-current, usage_of-current,
  some_injective, Granted, allocate_cases,
}
use puffinfloww.QuotaManager.Capped.{below_cap}
use puffinfloww.QuotaManager.Enforcer.{
  check_all, check_all_quotas, allocate_with_quotas, allocate_all_returned,
}

lets-current :
    (m : QuotaManager) (k : Key) (now : ℕ) (l : QuotaLimit)
    → (trimmed l (usage_of m k now) now).current ≡ in_use m k
lets-current m k now l = trimmed-current l (usage_of m k now) now ∙ usage_of-current m k now

module _ (s : Scale) (k : Key) (l : QuotaLimit) (b now : ℕ) (policy : l.policy ≡ burst)
    (limit : l.burst_limit ≡ some b) where
  lets_burst : (m : QuotaManager) (n : ℕ) → in_use m k + n ≤ b → lets s m k l n now ≡ true
  unfolding below_limit
  lets_burst m n h = ground (arith, policy, limit, lets-current m k now l, h)

  burst_checked :
      (m : QuotaManager) (n : ℕ)
      → m.limits k ≡ some l
      → in_use m k + n ≤ b
      → (check_quota s m k n now).1 ≡ true
  burst_checked m n limited h =
      ap (λ x. x.1) (check_limited s m k n now l limited) ∙ lets_burst m n h

  burst-Granted :
      (m : QuotaManager) (n : ℕ) → m.limits k ≡ some l → in_use m k + n ≤ b → Granted s m k n now
  burst-Granted m n limited h = elim (allocate_cases s m k n now) [
    | inl g ↦ g
    | inr r ↦
        let same : r.limit ≡ l = some_injective (sym r.limited ∙ limited) in
        let yes_ = lets_burst m n h in
        let no_ : lets s m k l n now ≡ false = ap (λ x. lets s m k x n now) (sym same) ∙ r.denied in
        cc
  ]

  burst_refused :
      (m : QuotaManager) (n : ℕ)
      → m.limits k ≡ some l
      → b < in_use m k + n
      → Checked m (allocate s m k n now).0 × ((allocate s m k n now).1 ≡ returns false)
  burst_refused m n limited h = elim (allocate_cases s m k n now) [
    | inl g ↦
        let fits =
          below_cap s l (trimmed l (usage_of m k now) now) n b (g.allowed l limited)
            (ground (arith, policy, limit)) in
        absurd (omega (arith, fits, h, lets-current m k now l))
    | inr r ↦
        let same : r.limit ≡ l = some_injective (sym r.limited ∙ limited) in
        (r.same, r.result ∙ ground (arith, policy, same))
  ]

-- Two requests on a key with a burst limit, each of which fits and which do not fit together: the
-- enforcer reports success and lists both, but only the first is recorded as used.
pub burst_refusal_unnoticed :
    (s : Scale) (m : QuotaManager) (k : Key) (l : QuotaLimit) (b first second now : ℕ)
    → m.limits k ≡ some l
    → l.policy ≡ burst
    → l.burst_limit ≡ some b
    → in_use m k + first ≤ b
    → in_use m k + second ≤ b
    → b < in_use m k + first + second
    → let out = allocate_with_quotas s m ((k, first) ∷ (k, second) ∷ []) now in
      (out.1 ≡ true)
      × (out.2 ≡ (k, first) ∷ (k, second) ∷ [])
      × (in_use out.0 k ≡ in_use m k + first)
unfolding allocate_with_quotas check_all_quotas check_all
burst_refusal_unnoticed s m k l b first second now limited policy limit h1 h2 h3 =
    let m1 = (check_quota s m k first now).0 in
    let c1 = check_quota-Checked s m k first now in
    let limited1 = ap (λ t. t k) c1.same_limits ∙ limited in
    let ok1 = burst_checked s k l b now policy limit m first limited h1 in
    let ok2 =
      burst_checked s k l b now policy limit m1 second limited1 (omega (arith, c1.same_use k)) in
    let m2 = (check_quota s m1 k second now).0 in
    let c2 = check_quota-Checked s m1 k second now in
    let limited2 = ap (λ t. t k) c2.same_limits ∙ limited1 in
    let g =
      burst-Granted s k l b now policy limit m2 first limited2
        (omega (arith, c1.same_use k, c2.same_use k)) in
    let m3 = (allocate s m2 k first now).0 in
    let used : in_use m3 k ≡ in_use m k + first =
      ground (arith, g.uses k, same_key_self k, c1.same_use k, c2.same_use k) in
    let limited3 = ap (λ t. t k) g.same_limits ∙ limited2 in
    let (kept, refused) =
      burst_refused s k l b now policy limit m3 second limited3 (omega (arith, used, h3)) in
    let e2 = allocate_all_returned s m3 k second [] now false refused in
    let e1 = allocate_all_returned s m2 k first ((k, second) ∷ []) now true g.result in
    let e : allocate_with_quotas s m ((k, first) ∷ (k, second) ∷ []) now
        ≡ ((allocate s m3 k second now).0, true, (k, first) ∷ (k, second) ∷ []) =
      rw (allocate_with_quotas, check_all_quotas, check_all, ok1, ok2, e1, e2) refl in
    rw e (refl, refl, kept.same_use k ∙ used)
