-- ===== src/QuotaManager/Atomic.antt =====
-- core/resources/quotas.py: `QuotaEnforcer` under limits that raise.
use puffinfloww.Base.{
  ℕ, ◌+◌, ◌-◌, ◌≡◌, refl, sym, ap, subst, ◌∙◌, inl, inr, ◌⊎◌, Bool, true, false, some, List, [],
  ◌∷◌, arith, if◌then◌else◌, is_empty, Bool-cases, Option-cases, All,
}
use puffinfloww.RateLimiter.{Scale}
use puffinfloww.QuotaManager.{
  QuotaLimit, hard, soft, Key, same_key, same_id, QuotaManager, remove_allocation, below_limit,
  check_quota, quota_exceeded, refuse, is_hard, allocate, release,
}
use puffinfloww.QuotaManager.Keys.{same_key→eq, same_id_self}
use puffinfloww.QuotaManager.Limits.{in_use, Checked, check_quota-Checked, Refused, allocate_cases}
use puffinfloww.QuotaManager.Enforcer.{
  Request, check_all, check_all_quotas, allocate_all, rollback, allocate_with_quotas,
  allocate_all_returned, allocate_all_raised,
}

-- What a list of requests asks for under a key.
abbrev pub asked : Key → List Request → ℕ
asked j [] = 0
asked j ((k, amount) ∷ rs) = (if same_key j k then amount else 0) + asked j rs

-- The limit of a request, where there is one, raises when it refuses, or never refuses.
abbrev pub Strict : QuotaManager → List Request → Type 0
Strict m rs =
    All (λ r. (l : QuotaLimit) → m.limits r.0 ≡ some l → (l.policy ≡ hard) ⊎ (l.policy ≡ soft)) rs

abbrev Locked : QuotaManager → List Request → Type 0
Locked m rs = All (λ r. m.locks r.0 ≡ true) rs

release_use :
    (m : QuotaManager) (k j : Key) (amount : ℕ)
    → m.locks k ≡ true
    → in_use (release m k amount) j ≡ in_use m j - (if same_key j k then amount else 0)
unfolding release remove_allocation
release_use m k j amount locked = elim (Option-cases (m.usage k)) [
  | inl absent ↦ elim (Bool-cases (same_key j k)) [
    | inl same ↦ ground (arith, locked, absent, same, ap (in_use m) (same_key→eq j k same))
    | inr other ↦ ground (arith, locked, absent, other)
  ]
  | inr (u, present) ↦ elim (Bool-cases (same_key j k)) [
    | inl same ↦ ground (arith, locked, present, same, ap (in_use m) (same_key→eq j k same))
    | inr other ↦ ground (arith, locked, present, other)
  ]
]

release-locks : (m : QuotaManager) (k : Key) (amount : ℕ) → (release m k amount).locks ≡ m.locks
unfolding release
release-locks m k amount = ground arith

check_quota-locks :
    (s : Scale) (m : QuotaManager) (k j : Key) (amount now : ℕ)
    → (check_quota s m k amount now).0.locks j ≡ (if same_id j k then true else m.locks j)
unfolding check_quota
check_quota-locks s m k j amount now = ground arith

allocate-locks :
    (s : Scale) (m : QuotaManager) (k j : Key) (amount now : ℕ)
    → (allocate s m k amount now).0.locks j ≡ (if same_id j k then true else m.locks j)
unfolding allocate refuse
allocate-locks s m k j amount now = ground (arith, check_quota-locks s m k j amount now)

rollback_use :
    (m : QuotaManager) (rs : List Request) (j : Key)
    → Locked m rs
    → in_use (rollback m rs) j ≡ in_use m j - asked j rs
unfolding rollback
rollback_use m [] j l = omega arith
rollback_use m ((k, amount) ∷ rs) j l = omega (
  arith,
  release_use m k j amount l.0,
  rollback_use (release m k amount) rs j
      (subst (λ t. All (λ r. t r.0 ≡ true) rs) (sym (release-locks m k amount)) l.1),
)

-- The outcome of the loop of allocations: what is on the list is recorded and can be rolled back.
record Allocates (m : QuotaManager) (rs : List Request) (out : QuotaManager × List Request × Bool)
    : Type 0 where
  uses : (j : Key) → in_use out.0 j ≡ in_use m j + asked j out.1
  locked : Locked out.0 out.1
  grows : (j : Key) → m.locks j ≡ true → out.0.locks j ≡ true
  whole : out.2 ≡ true → out.1 ≡ rs

-- Under a strict limit a refusal raises.
strict_raises :
    (s : Scale) (m : QuotaManager) (k : Key) (amount now : ℕ)
    → ((l : QuotaLimit) → m.limits k ≡ some l → (l.policy ≡ hard) ⊎ (l.policy ≡ soft))
    → Refused s m k amount now
    → (allocate s m k amount now).1 ≡ quota_exceeded amount
unfolding below_limit
strict_raises s m k amount now st r = elim (st r.limit r.limited) [
  | inl h ↦ r.result ∙ rw (h, is_hard, if◌then◌else◌) refl
  | inr soft_ ↦ let no : true ≡ false = rw (soft_, below_limit) at r.denied in cc
]

allocate_all-Allocates :
    (s : Scale) (m : QuotaManager) (rs : List Request) (now : ℕ)
    → Strict m rs
    → Allocates m rs (allocate_all s m rs now)
unfolding allocate_all
allocate_all-Allocates s m [] now st = record {
  uses = λ j. omega arith;
  locked = tt;
  grows = λ j h. h;
  whole = λ h. refl;
}
allocate_all-Allocates s m ((k, amount) ∷ rs) now st =
    let m' = (allocate s m k amount now).0 in
    elim (allocate_cases s m k amount now) [
      | inr r ↦
          rw
            (allocate_all_raised s m k amount rs now amount (strict_raises s m k amount now st.0 r))
            (record {
              uses = λ j. omega (arith, r.same.same_use j);
              locked = tt;
              grows = λ j h. ground (arith, allocate-locks s m k j amount now, h);
              whole = λ h. cc;
            })
      | inl g ↦
          let rest = allocate_all-Allocates s m' rs now (
            subst
              (λ t.
                All (λ r. (l : QuotaLimit) → t r.0 ≡ some l → (l.policy ≡ hard) ⊎ (l.policy ≡ soft))
                  rs)
              (sym g.same_limits) st.1) in
          rw (allocate_all_returned s m k amount rs now true g.result) (record {
            uses = λ j. omega (arith, rest.uses j, g.uses j);
            locked = (
              rest.grows k (ground (arith, allocate-locks s m k k amount now, same_id_self k)),
              rest.locked,
            );
            grows = λ j h. rest.grows j (ground (arith, allocate-locks s m k j amount now, h));
            whole = λ h. ap (λ x. (k, amount) ∷ x) (rest.whole h);
          })
    ]

check_all-Checked :
    (s : Scale) (m : QuotaManager) (rs : List Request) (now : ℕ)
    → Checked m (check_all s m rs now).0
unfolding check_all
check_all-Checked s m [] now = record { same_limits = refl; same_use = λ j. refl }
check_all-Checked s m ((k, amount) ∷ rs) now =
    let first = check_quota-Checked s m k amount now in
    let rest = check_all-Checked s (check_quota s m k amount now).0 rs now in
    let both : Checked m (check_all s (check_quota s m k amount now).0 rs now).0 = record {
      same_limits = rest.same_limits ∙ first.same_limits;
      same_use = λ j. rest.same_use j ∙ first.same_use j;
    } in
    elim (Bool-cases (check_quota s m k amount now).1) [
      | inl fits ↦ rw (check_all, fits, if◌then◌else◌) both
      | inr over ↦ rw (check_all, over, if◌then◌else◌) both
    ]

-- Requests whose limits are hard or soft are allocated together or not at all: on success all are
-- on the list and each key has grown by what they ask for it, and otherwise, also where a request
-- in the middle raises, nothing is on the list and no key has changed.
pub allocate_with_quotas_atomic :
    (s : Scale) (m : QuotaManager) (rs : List Request) (now : ℕ)
    → Strict m rs
    → let out = allocate_with_quotas s m rs now in
      ((out.1 ≡ true) × (out.2 ≡ rs) × ((j : Key) → in_use out.0 j ≡ in_use m j + asked j rs))
      ⊎ ((out.1 ≡ false) × (out.2 ≡ []) × ((j : Key) → in_use out.0 j ≡ in_use m j))
unfolding allocate_with_quotas check_all_quotas
allocate_with_quotas_atomic s m rs now st =
    let (m', violations) = check_all s m rs now in
    let c = check_all-Checked s m rs now in
    let a = allocate_all-Allocates s m' rs now (
      subst
        (λ t.
          All (λ r. (l : QuotaLimit) → t r.0 ≡ some l → (l.policy ≡ hard) ⊎ (l.policy ≡ soft)) rs)
        (sym c.same_limits) st) in
    elim (Bool-cases (is_empty violations)) [
      | inr refused ↦
          rw (allocate_with_quotas, check_all_quotas, refused, if◌then◌else◌)
            (inr (refl, refl, c.same_use))
      | inl allowed ↦ elim (Bool-cases (allocate_all s m' rs now).2) [
        | inl ended ↦
            rw
              (allocate_with_quotas, check_all_quotas, allowed, if◌then◌else◌, ended, if◌then◌else◌)
              (inl (
                refl,
                a.whole ended,
                λ j. omega (arith, a.uses j, c.same_use j, ap (asked j) (a.whole ended)),
              ))
        | inr raised ↦
            rw
              (
                allocate_with_quotas, check_all_quotas, allowed, if◌then◌else◌, raised,
                if◌then◌else◌,
              )
              (inr (
                refl,
                refl,
                λ j. omega (
                  arith,
                  rollback_use (allocate_all s m' rs now).0 (allocate_all s m' rs now).1 j a.locked,
                  a.uses j,
                  c.same_use j,
                ),
              ))
      ]
    ]
