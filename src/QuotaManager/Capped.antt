-- ===== src/QuotaManager/Capped.antt =====
-- core/resources/quotas.py: usage never goes above a hard limit or a burst limit.
use puffinfloww.Base.{
  ℕ, ◌+◌, ◌≤◌, ◌≡◌, refl, sym, ap, ◌∙◌, inl, inr, true, some, List, [], ◌∷◌, arith, Bool-cases,
  Option-cases,
}
use puffinfloww.RateLimiter.{Scale}
use puffinfloww.QuotaManager.{
  QuotaLimit, QuotaUsage, reset, remove_allocation, Key, same_key, QuotaManager, usage_of,
  set_usage, trimmed, below_limit, allocate, release, reset_usage, cleanup, map_usage,
}
use puffinfloww.QuotaManager.Keys.{same_key→eq}
use puffinfloww.QuotaManager.Limits.{
  in_use, cap, Call, checks, allocates, releases, resets, cleans, step, run, Checked,
  check_quota-Checked, trimmed-current, usage_of-current, allocate_cases,
}

-- Usage never goes above the number that a policy holds it to.
abbrev pub Capped : QuotaManager → Type 0
Capped m =
    (k : Key) (l : QuotaLimit) (c : ℕ) → m.limits k ≡ some l → cap l ≡ some c → in_use m k ≤ c

pub below_cap :
    (s : Scale) (l : QuotaLimit) (u : QuotaUsage) (requested c : ℕ)
    → below_limit s l u requested ≡ true
    → cap l ≡ some c
    → u.current + requested ≤ c
unfolding below_limit
below_cap s l u requested c b e = ground arith

-- No more in use anywhere, under the same limits.
record Shrinks (m m' : QuotaManager) : Type 0 where
  same_limits : m'.limits ≡ m.limits
  less : (j : Key) → in_use m' j ≤ in_use m j

Shrinks-Capped : (m m' : QuotaManager) → Shrinks m m' → Capped m → Capped m'
Shrinks-Capped m m' s w k l c e f =
    omega (arith, s.less k, w k l c (ap (λ t. t k) (sym s.same_limits) ∙ e) f)

Checked-Capped : (m m' : QuotaManager) → Checked m m' → Capped m → Capped m'
Checked-Capped m m' c =
    Shrinks-Capped m m'
      (record { same_limits = c.same_limits; less = λ j. omega (arith, c.same_use j) })

allocate-Capped :
    (s : Scale) (m : QuotaManager) (k : Key) (amount now : ℕ)
    → Capped m
    → Capped (allocate s m k amount now).0
allocate-Capped s m k amount now w = elim (allocate_cases s m k amount now) [
  | inr r ↦ Checked-Capped m _ r.same w
  | inl g ↦ λ j l c e f.
      let limited : m.limits j ≡ some l = ap (λ t. t j) (sym g.same_limits) ∙ e in
      elim (Bool-cases (same_key j k)) [
        | inr other ↦ ground (arith, g.uses j, other, w j l c limited f)
        | inl same ↦
            let here = same_key→eq j k same in
            let fits =
              below_cap s l (trimmed l (usage_of m k now) now) amount c
                (g.allowed l (rw here at limited)) f in
            ground (
              arith,
              g.uses j,
              same,
              ap (in_use m) here,
              fits,
              trimmed-current l (usage_of m k now) now,
              usage_of-current m k now,
            )
      ]
]

released_use :
    (m : QuotaManager) (k j : Key) (u : QuotaUsage) (amount : ℕ)
    → in_use m k ≡ u.current
    → in_use (set_usage m k (remove_allocation u amount)) j ≤ in_use m j
unfolding remove_allocation
released_use m k j u amount here = elim (Bool-cases (same_key j k)) [
  | inl same ↦ ground (arith, same, here, ap (in_use m) (same_key→eq j k same))
  | inr other ↦ ground (arith, other)
]

release-Shrinks : (m : QuotaManager) (k : Key) (amount : ℕ) → Shrinks m (release m k amount)
unfolding release
release-Shrinks m k amount = elim (Bool-cases (m.locks k)) [
  | inr never ↦ rw (release, never) (record { same_limits = refl; less = λ j. omega arith })
  | inl locked ↦ elim (Option-cases (m.usage k)) [
    | inl absent ↦
        rw (release, locked, absent) (record { same_limits = refl; less = λ j. omega arith })
    | inr (u, present) ↦
        let here : in_use m k ≡ u.current = ground (arith, present) in
        rw (release, locked, present)
          (record { same_limits = refl; less = λ j. released_use m k j u amount here })
  ]
]

map_usage-Shrinks :
    (m : QuotaManager) (f : Key → QuotaUsage → QuotaUsage)
    → ((j : Key) (u : QuotaUsage) → (f j u).current ≤ u.current)
    → Shrinks m (map_usage m f)
map_usage-Shrinks m f less = record {
  same_limits = refl;
  less = λ j. elim (Option-cases (m.usage j)) [
    | inl absent ↦ ground (arith, absent)
    | inr (u, present) ↦ ground (arith, present, less j u)
  ];
}

step-Capped : (s : Scale) (m : QuotaManager) (c : Call) → Capped m → Capped (step s m c)
unfolding step reset_usage cleanup reset
step-Capped s m (checks k requested now) w =
    Checked-Capped m _ (check_quota-Checked s m k requested now) w
step-Capped s m (allocates k amount now) w = allocate-Capped s m k amount now w
step-Capped s m (releases k amount) w = Shrinks-Capped m _ (release-Shrinks m k amount) w
step-Capped s m (resets k whole now) w =
    Shrinks-Capped m _ (map_usage-Shrinks m _ (λ j u. ground arith)) w
step-Capped s m (cleans hour now) w =
    Shrinks-Capped m _ (map_usage-Shrinks m _ (λ j u. omega arith)) w

-- Whatever checks, allocations, releases, resets and passes of the clean-up follow on limits under
-- which no usage is above a hard or a burst limit: no usage ever is.
pub run-Capped : (s : Scale) (m : QuotaManager) (cs : List Call) → Capped m → Capped (run s m cs)
unfolding run
run-Capped s m [] w = w
run-Capped s m (c ∷ cs) w = run-Capped s (step s m c) cs (step-Capped s m c w)
