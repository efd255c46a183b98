-- ===== src/QuotaManager/Samples.antt =====
-- core/resources/quotas.py: small runs of the quota manager.
use puffinfloww.Base.{
  ◌+◌, ◌≡◌, refl, ap, sym, inl, ◌⊎◌, true, false, none, some, List, [], ◌∷◌, arith,
}
use puffinfloww.RateLimiter.{Scale}
use puffinfloww.ResourcePool.{cpu, memory, same_type}
use puffinfloww.QuotaManager.{
  QuotaLimit, agent, hard, soft, burst, Key, QuotaManager, create, set_quota, same_key, same_id,
  same_scope, post_init,
}
use puffinfloww.QuotaManager.Limits.{
  some_injective, in_use, allocates, releases, run, Granted, Refused, allocate_cases,
}
use puffinfloww.QuotaManager.Capped.{Capped, run-Capped}
use puffinfloww.QuotaManager.Enforcer.{Request, allocate_with_quotas}
use puffinfloww.QuotaManager.Atomic.{asked, Strict, allocate_with_quotas_atomic}
use puffinfloww.QuotaManager.Burst.{burst_refusal_unnoticed}

abbrev plain : Scale
plain = record { parts = 1; ticks = 1 }

abbrev cores : Key
cores = (agent, 1, cpu)

abbrev bytes : Key
bytes = (agent, 1, memory)

abbrev limit : QuotaLimit
limit = record { limit = 8; policy = hard; burst_limit = none; max_rate = none; window_size = 60 }

abbrev bursting : QuotaLimit
bursting = record limit { policy = burst; burst_limit = some 12 }

abbrev managed : QuotaManager
managed = set_quota create cores limit

abbrev bursty : QuotaManager
bursty = set_quota create cores bursting

program : Unit {0}
unfolding create set_quota same_key same_id same_scope same_type post_init
program = tt

post_init-limit : post_init (record limit { policy = burst }) ≡ bursting
unfolding program
post_init-limit = refl

managed-Capped : Capped managed
unfolding program
managed-Capped k l c e f = omega arith

run-Capped_example :
    Capped (run plain managed (allocates cores 5 0 ∷ allocates cores 5 1 ∷ releases cores 2 ∷ []))
run-Capped_example =
    run-Capped plain managed (allocates cores 5 0 ∷ allocates cores 5 1 ∷ releases cores 2 ∷ [])
      managed-Capped

allocate_cases_example : Granted plain managed cores 9 0 ⊎ Refused plain managed cores 9 0
allocate_cases_example = allocate_cases plain managed cores 9 0

abbrev both : List Request
both = (cores, 5) ∷ (bytes, 100) ∷ (cores, 5) ∷ []

allocate_with_quotas_atomic_example :
    let out = allocate_with_quotas plain managed both 0 in
    ((out.1 ≡ true)
      × (out.2 ≡ both)
      × ((j : Key) → in_use out.0 j ≡ in_use managed j + asked j both))
    ⊎ ((out.1 ≡ false) × (out.2 ≡ []) × ((j : Key) → in_use out.0 j ≡ in_use managed j))
unfolding program
allocate_with_quotas_atomic_example = allocate_with_quotas_atomic plain managed both 0 strict
  where
    raises :
        (l : QuotaLimit) → managed.limits cores ≡ some l → (l.policy ≡ hard) ⊎ (l.policy ≡ soft)
    raises l h = inl (ap (λ (x : QuotaLimit). x.policy) (sym (some_injective h)))

    strict : Strict managed both
    strict = (raises, (λ l h. cc, (raises, tt)))

burst_refusal_unnoticed_example :
    let out = allocate_with_quotas plain bursty ((cores, 7) ∷ (cores, 7) ∷ []) 0 in
    (out.1 ≡ true)
    × (out.2 ≡ (cores, 7) ∷ (cores, 7) ∷ [])
    × (in_use out.0 cores ≡ in_use bursty cores + 7)
unfolding program
burst_refusal_unnoticed_example =
    burst_refusal_unnoticed plain bursty cores bursting 12 7 7 0 refl refl refl (omega arith)
      (omega arith) (omega arith)
