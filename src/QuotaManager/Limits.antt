-- ===== src/QuotaManager/Limits.antt =====
-- core/resources/quotas.py: what the limits keep, through any history of calls.
use puffinfloww.Base.{
  ℕ, ◌+◌, ◌≡◌, refl, sym, ap, ◌∙◌, inl, inr, ◌⊎◌, Bool, true, false, Option, none, some, List, [],
  ◌∷◌, arith, if◌then◌else◌, Bool-cases, Option-cases,
}
use puffinfloww.RateLimiter.{Scale}
use puffinfloww.QuotaManager.{
  QuotaLimit, QuotaUsage, hard, burst, add_allocation, record_violation, Key, same_key,
  QuotaManager, usage_of, set_usage, with_lock, trimmed, below_limit, check_quota, returns,
  quota_exceeded, is_hard, refuse, allocate, release, reset_usage, cleanup,
}
use puffinfloww.QuotaManager.Keys.{same_key→eq}

-- The amount in use on record for a key.
abbrev pub in_use : QuotaManager → Key → ℕ
in_use m k = elim (m.usage k) [ none ↦ 0 | some u ↦ u.current ]

-- The number that the policy of a limit holds the usage to, where it does.
abbrev pub cap : QuotaLimit → Option ℕ
cap l = elim l.policy [ hard ↦ some l.limit | burst ↦ l.burst_limit | _ ↦ none ]

pub data Call : Type 0 where
  checks : (k : Key) (requested now : ℕ) → Call
  allocates : (k : Key) (amount now : ℕ) → Call
  releases : (k : Key) (amount : ℕ) → Call
  resets : (k : Key) (whole : Bool) (now : ℕ) → Call
  cleans : (hour now : ℕ) → Call

unfoldable pub step : Scale → QuotaManager → Call → QuotaManager
step s m (checks k requested now) = (check_quota s m k requested now).0
step s m (allocates k amount now) = (allocate s m k amount now).0
step s m (releases k amount) = release m k amount
step s m (resets k whole now) = reset_usage m k whole now
step s m (cleans hour now) = cleanup m hour now

unfoldable pub run : Scale → QuotaManager → List Call → QuotaManager
run s m [] = m
run s m (c ∷ cs) = run s (step s m c) cs

-- What a check leaves: the limits, and of the usage the amounts.
pub record Checked (m m' : QuotaManager) : Type 0 where
  pub same_limits : m'.limits ≡ m.limits
  pub same_use : (j : Key) → in_use m' j ≡ in_use m j

pub trimmed-current :
    (l : QuotaLimit) (u : QuotaUsage) (now : ℕ) → (trimmed l u now).current ≡ u.current
unfolding trimmed
trimmed-current l u now = ground arith

pub usage_of-current :
    (m : QuotaManager) (k : Key) (now : ℕ) → (usage_of m k now).current ≡ in_use m k
usage_of-current m k now = ground arith

-- Writing a usage record changes the amount of its key only.
pub in_use-set_usage :
    (m : QuotaManager) (k j : Key) (u : QuotaUsage)
    → in_use (set_usage m k u) j ≡ (if same_key j k then u.current else in_use m j)
in_use-set_usage m k j u = ground arith

set_usage-Checked :
    (m : QuotaManager) (k : Key) (u : QuotaUsage)
    → u.current ≡ in_use m k
    → Checked m (set_usage m k u)
set_usage-Checked m k u e = record {
  same_limits = refl;
  same_use = λ j. elim (Bool-cases (same_key j k)) [
    | inl same ↦ ground (arith, in_use-set_usage m k j u, ap (in_use m) (same_key→eq j k same))
    | inr other ↦ ground (arith, in_use-set_usage m k j u)
  ];
}

pub some_injective {ℓ} : {A : Type ℓ} {a b : A} → some a ≡ some b → a ≡ b
some_injective e = cc

-- Whether a limit lets a request through, as `check_quota` computes it.
abbrev pub lets : Scale → QuotaManager → Key → QuotaLimit → ℕ → ℕ → Bool
lets s m k l requested now = below_limit s l (trimmed l (usage_of m k now) now) requested

pub check_unlimited :
    (s : Scale) (m : QuotaManager) (k : Key) (requested now : ℕ)
    → m.limits k ≡ none
    → check_quota s m k requested now ≡ (with_lock m k, true)
unfolding check_quota
check_unlimited s m k requested now e = rw (check_quota, e)

pub check_limited :
    (s : Scale) (m : QuotaManager) (k : Key) (requested now : ℕ) (l : QuotaLimit)
    → m.limits k ≡ some l
    → check_quota s m k requested now
      ≡ (set_usage (with_lock m k) k (trimmed l (usage_of m k now) now), lets s m k l requested now)
unfolding check_quota
check_limited s m k requested now l e = rw (check_quota, e)

limited-Checked :
    (m : QuotaManager) (k : Key) (now : ℕ) (l : QuotaLimit)
    → Checked m (set_usage (with_lock m k) k (trimmed l (usage_of m k now) now))
limited-Checked m k now l =
    let u = trimmed l (usage_of m k now) now in
    let c =
      set_usage-Checked (with_lock m k) k u
        (trimmed-current l (usage_of m k now) now ∙ usage_of-current m k now) in
    record { same_limits = refl; same_use = c.same_use }

pub check_quota-Checked :
    (s : Scale) (m : QuotaManager) (k : Key) (requested now : ℕ)
    → Checked m (check_quota s m k requested now).0
check_quota-Checked s m k requested now = elim (Option-cases (m.limits k)) [
  | inl unlimited ↦
      rw (check_unlimited s m k requested now unlimited)
        (record { same_limits = refl; same_use = λ j. refl })
  | inr (l, limited) ↦ rw (check_limited s m k requested now l limited) (limited-Checked m k now l)
]

-- An allocation that is recorded.
pub record Granted (s : Scale) (m : QuotaManager) (k : Key) (amount now : ℕ) : Type 0 where
  pub result : (allocate s m k amount now).1 ≡ returns true
  pub same_limits : (allocate s m k amount now).0.limits ≡ m.limits
  pub uses :
      (j : Key)
      → in_use (allocate s m k amount now).0 j ≡ in_use m j + (if same_key j k then amount else 0)
  pub allowed : (l : QuotaLimit) → m.limits k ≡ some l → lets s m k l amount now ≡ true

-- An allocation that is not: it raises for a hard limit, and returns false for any other.
pub record Refused (s : Scale) (m : QuotaManager) (k : Key) (amount now : ℕ) : Type 0 where
  pub same : Checked m (allocate s m k amount now).0
  pub limit : QuotaLimit
  pub limited : m.limits k ≡ some limit
  pub denied : lets s m k limit amount now ≡ false
  pub result :
      (allocate s m k amount now).1
      ≡ (if is_hard limit.policy then quota_exceeded amount else returns false)

recorded_use :
    (m m' : QuotaManager) (k : Key) (amount now : ℕ)
    → Checked m m'
    → (j : Key)
    → in_use (set_usage m' k (add_allocation (usage_of m' k now) amount now)) j
      ≡ in_use m j + (if same_key j k then amount else 0)
unfolding add_allocation
recorded_use m m' k amount now c j = elim (Bool-cases (same_key j k)) [
  | inl same ↦
      ground (
        arith,
        same,
        usage_of-current m' k now,
        ap (in_use m') (same_key→eq j k same),
        c.same_use j,
      )
  | inr other ↦ ground (arith, other, c.same_use j)
]

pub allocate_granted :
    (s : Scale) (m m' : QuotaManager) (k : Key) (amount now : ℕ)
    → check_quota s m k amount now ≡ (m', true)
    → allocate s m k amount now
      ≡ (set_usage m' k (add_allocation (usage_of m' k now) amount now), returns true)
unfolding allocate
allocate_granted s m m' k amount now e = rw (e, allocate) refl

pub allocate_refused :
    (s : Scale) (m m' : QuotaManager) (k : Key) (amount now : ℕ)
    → check_quota s m k amount now ≡ (m', false)
    → allocate s m k amount now ≡ refuse m' k amount now
unfolding allocate
allocate_refused s m m' k amount now e = rw (e, allocate) refl

refuse_limited :
    (m : QuotaManager) (k : Key) (amount now : ℕ) (l : QuotaLimit)
    → m.limits k ≡ some l
    → Checked m (refuse m k amount now).0
      × ((refuse m k amount now).1
          ≡ (if is_hard l.policy then quota_exceeded amount else returns false))
unfolding refuse
refuse_limited m k amount now l e = elim (Bool-cases (is_hard l.policy)) [
  | inl h ↦
      rw (e, refuse, h, if◌then◌else◌)
        (set_usage-Checked m k (usage_of m k now) (usage_of-current m k now), refl)
  | inr h ↦
      rw (e, refuse, h, if◌then◌else◌)
        (
          set_usage-Checked m k (record_violation (usage_of m k now) now)
              (unfold record_violation in usage_of-current m k now),
          refl,
        )
]

Checked-trans : (a b c : QuotaManager) → Checked a b → Checked b c → Checked a c
Checked-trans a b c p q = record {
  same_limits = q.same_limits ∙ p.same_limits;
  same_use = λ j. q.same_use j ∙ p.same_use j;
}

-- `allocate` grants a request if there is no limit on its key or the policy lets it through: it returns
-- true and the usage of that key alone grows by the amount. Otherwise there is a limit that does not
-- let it through, no usage changes, and it raises for a hard limit and returns false for any other.
pub allocate_cases :
    (s : Scale) (m : QuotaManager) (k : Key) (amount now : ℕ)
    → Granted s m k amount now ⊎ Refused s m k amount now
allocate_cases s m k amount now = elim (Option-cases (m.limits k)) [
  | inl unlimited ↦
      let m' = with_lock m k in
      let c : Checked m m' = record { same_limits = refl; same_use = λ j. refl } in
      let e = allocate_granted s m m' k amount now (check_unlimited s m k amount now unlimited) in
      inl (record {
        result = ap (λ x. x.1) e;
        same_limits = ap (λ x. x.0.limits) e;
        uses = λ j. ap (λ x. in_use x.0 j) e ∙ recorded_use m m' k amount now c j;
        allowed = λ l h. cc;
      })
  | inr (l, limited) ↦
      let m' = set_usage (with_lock m k) k (trimmed l (usage_of m k now) now) in
      let c : Checked m m' = limited-Checked m k now l in
      let checked = check_limited s m k amount now l limited in
      elim (Bool-cases (lets s m k l amount now)) [
        | inl fits ↦
            let e = allocate_granted s m m' k amount now (checked ∙ ap (λ b. (m', b)) fits) in
            inl (record {
              result = ap (λ x. x.1) e;
              same_limits = ap (λ x. x.0.limits) e;
              uses = λ j. ap (λ x. in_use x.0 j) e ∙ recorded_use m m' k amount now c j;
              allowed = λ l' h.
                  let same : l ≡ l' = some_injective (sym limited ∙ h) in
                  ap (λ x. lets s m k x amount now) (sym same) ∙ fits;
            })
        | inr over ↦
            let e = allocate_refused s m m' k amount now (checked ∙ ap (λ b. (m', b)) over) in
            let (kept, out) = refuse_limited m' k amount now l limited in
            inr (record {
              same = rw e (Checked-trans m m' (refuse m' k amount now).0 c kept);
              limit = l;
              limited = limited;
              denied = over;
              result = ap (λ x. x.1) e ∙ out;
            })
      ]
]
