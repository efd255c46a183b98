-- ===== src/QuotaManager.antt =====
-- core/resources/quotas.py: `QuotaManager` and `QuotaEnforcer`. Amounts, like rates, are numbers of
-- the parts of a `Scale`, and never negative. No method suspends while a lock is taken, so a call is
-- one function of the state. An entry of a nested dictionary is looked up by its whole key: no test
-- of the source tells a missing inner dictionary from an empty one.
pub mod Keys
pub mod Limits
pub mod Capped
pub mod Enforcer
pub mod Atomic
pub mod Burst
pub mod Samples
use puffinfloww.Base.{
  ℕ, suc, ◌+◌, ◌-◌, ◌*◌, ◌/◌, Bool, true, false, ◌&&◌, not, Option, none, some, List, [], ◌∷◌, ◌++◌,
  Name, ltb, leb, ◌==◌, if◌then◌else◌, length, max, is_empty,
}
use puffinfloww.RateLimiter.{Scale}
use puffinfloww.RateLimiter.Windows.{has_room}
use puffinfloww.ResourcePool.{ResourceType, same_type}

pub data QuotaScope : Type 0 where
  agent workflow state user global : QuotaScope

pub data QuotaPolicy : Type 0 where
  hard soft burst rate_limit : QuotaPolicy

pub record QuotaLimit : Type 0 where
  pub limit : ℕ
  pub policy : QuotaPolicy
  pub burst_limit : Option ℕ
  pub max_rate : Option ℕ
  pub window_size : ℕ

-- `__post_init__`: one and a half times the limit, and the limit.
unfoldable pub post_init : QuotaLimit → QuotaLimit
post_init l = elim l.policy [
  | burst ↦ elim l.burst_limit [
    | none ↦ record l { burst_limit = some (l.limit * 3 / 2) }
    | some b ↦ l
  ]
  | rate_limit ↦ elim l.max_rate [ none ↦ record l { max_rate = some l.limit } | some r ↦ l ]
  | _ ↦ l
]

pub record QuotaUsage : Type 0 where
  pub current : ℕ
  pub peak : ℕ
  pub total_allocated : ℕ
  pub total_released : ℕ
  pub allocations : ℕ
  pub violations : ℕ
  pub last_violation : Option ℕ
  pub last_reset : ℕ
  pub request_times : List ℕ

abbrev pub new_usage : ℕ → QuotaUsage
new_usage now = record {
  current = 0;
  peak = 0;
  total_allocated = 0;
  total_released = 0;
  allocations = 0;
  violations = 0;
  last_violation = none;
  last_reset = now;
  request_times = [];
}

unfoldable pub reset : QuotaUsage → ℕ → QuotaUsage
reset u now = record u { current = 0; allocations = 0; last_reset = now; request_times = [] }

unfoldable pub add_allocation : QuotaUsage → ℕ → ℕ → QuotaUsage
add_allocation u amount now = record u {
  current = u.current + amount;
  total_allocated = u.total_allocated + amount;
  peak = max u.peak (u.current + amount);
  allocations = u.allocations + 1;
  request_times = u.request_times ++ now ∷ [];
}

-- `max(0, current - amount)` is the difference that stops at 0.
unfoldable pub remove_allocation : QuotaUsage → ℕ → QuotaUsage
remove_allocation u amount = record u {
  current = u.current - amount;
  total_released = u.total_released + amount;
}

unfoldable pub record_violation : QuotaUsage → ℕ → QuotaUsage
record_violation u now = record u { violations = u.violations + 1; last_violation = some now }

abbrev pub Key : Type 0
Key = QuotaScope × Name × ResourceType

unfoldable pub same_scope : QuotaScope → QuotaScope → Bool
same_scope agent agent = true
same_scope workflow workflow = true
same_scope state state = true
same_scope user user = true
same_scope global global = true
same_scope _ _ = false

-- The scope and its identifier, which the locks go by.
unfoldable pub same_id : Key → Key → Bool
unfolding same_scope
same_id (s, i, t) (s', i', t') = if same_scope s s' then i == i' else false

unfoldable pub same_key : Key → Key → Bool
unfolding same_id same_type
same_key (s, i, t) (s', i', t') = if same_id (s, i, t) (s', i', t') then same_type t t' else false

pub record QuotaManager : Type 0 where
  pub limits : Key → Option QuotaLimit
  pub usage : Key → Option QuotaUsage
  pub locks : Key → Bool

unfoldable pub create : QuotaManager
create = record { limits = λ k. none; usage = λ k. none; locks = λ k. false }

-- `defaultdict(QuotaUsage)`
abbrev pub usage_of : QuotaManager → Key → ℕ → QuotaUsage
usage_of m k now = elim (m.usage k) [ none ↦ new_usage now | some u ↦ u ]

abbrev pub set_usage : QuotaManager → Key → QuotaUsage → QuotaManager
set_usage m k u = record m { usage = λ j. if same_key j k then some u else m.usage j }

unfoldable pub set_quota : QuotaManager → Key → QuotaLimit → QuotaManager
unfolding same_key
set_quota m k l = record m { limits = λ j. if same_key j k then some l else m.limits j }

-- With no resource type everything of the identifier goes.
unfoldable pub remove_quota : QuotaManager → Key → (whole : Bool) → QuotaManager
unfolding same_key same_id
remove_quota m k whole =
    let gone : Key → Bool = λ j. if whole then same_id j k else same_key j k in
    record m {
      limits = λ j. if gone j then none else m.limits j;
      usage = λ j. if gone j then none else m.usage j;
    }

-- `[t for t in usage.request_times if t > window_start]`
unfoldable pub recent_requests : (now window : ℕ) → List ℕ → List ℕ
recent_requests now window [] = []
recent_requests now window (t ∷ ts) =
    if ltb now (t + window)
    then t ∷ recent_requests now window ts
    else recent_requests now window ts

-- A limit that `post_init` made has the number that its policy reads.
unfoldable pub below_limit : Scale → QuotaLimit → QuotaUsage → ℕ → Bool
below_limit s l u requested = elim l.policy [
  | hard ↦ leb (u.current + requested) l.limit
  | soft ↦ true
  | burst ↦ elim l.burst_limit [ none ↦ false | some b ↦ leb (u.current + requested) b ]
  | rate_limit ↦ elim l.max_rate [
    | none ↦ false
    | some r ↦ has_room s r l.window_size (length u.request_times)
  ]
]

-- What a check makes of the usage: a rate limit forgets old requests.
unfoldable pub trimmed : QuotaLimit → QuotaUsage → ℕ → QuotaUsage
unfolding recent_requests
trimmed l u now = elim l.policy [
  | rate_limit ↦ record u { request_times = recent_requests now l.window_size u.request_times }
  | _ ↦ u
]

abbrev pub with_lock : QuotaManager → Key → QuotaManager
with_lock m k = record m { locks = λ j. if same_id j k then true else m.locks j }

unfoldable pub check_quota : Scale → QuotaManager → Key → ℕ → ℕ → QuotaManager × Bool
unfolding below_limit trimmed same_key same_id
check_quota s m k requested now = elim (m.limits k) [
  | none ↦ (with_lock m k, true)
  | some l ↦
      let u = trimmed l (usage_of m k now) now in
      (set_usage (with_lock m k) k u, below_limit s l u requested)
]

pub data Allocated : Type 0 where
  returns : Bool → Allocated
  quota_exceeded : (requested : ℕ) → Allocated

abbrev pub is_hard : QuotaPolicy → Bool
is_hard hard = true
is_hard _ = false

-- What `allocate` does when the check says no, which it does only where there is a limit.
unfoldable pub refuse : QuotaManager → Key → ℕ → ℕ → QuotaManager × Allocated
unfolding record_violation same_key
refuse m k amount now = elim (m.limits k) [
  | none ↦ (m, returns false)
  | some l ↦
      if is_hard l.policy
      then (set_usage m k (usage_of m k now), quota_exceeded amount)
      else (set_usage m k (record_violation (usage_of m k now) now), returns false)
]

unfoldable pub allocate : Scale → QuotaManager → Key → ℕ → ℕ → QuotaManager × Allocated
unfolding check_quota refuse add_allocation same_key
allocate s m k amount now =
    let (m', allowed) = check_quota s m k amount now in
    if allowed
    then (set_usage m' k (add_allocation (usage_of m' k now) amount now), returns true)
    else refuse m' k amount now

unfoldable pub release : QuotaManager → Key → ℕ → QuotaManager
unfolding remove_allocation same_key
release m k amount =
    if m.locks k
    then elim (m.usage k) [ none ↦ m | some u ↦ set_usage m k (remove_allocation u amount) ]
    else m

abbrev pub map_usage : QuotaManager → (Key → QuotaUsage → QuotaUsage) → QuotaManager
map_usage m f = record m { usage = λ j. elim (m.usage j) [ none ↦ none | some u ↦ some (f j u) ] }

unfoldable pub reset_usage : QuotaManager → Key → (whole : Bool) → ℕ → QuotaManager
unfolding reset same_key same_id
reset_usage m k whole now =
    map_usage m (λ j u. if (if whole then same_id j k else same_key j k) then reset u now else u)

-- A pass of `_cleanup_loop`, which keeps the requests of an hour.
unfoldable pub cleanup : QuotaManager → (hour now : ℕ) → QuotaManager
unfolding recent_requests
cleanup m hour now =
    map_usage m (λ j u. record u { request_times = recent_requests now hour u.request_times })

-- `get_usage` of one resource type
unfoldable pub get_usage : QuotaManager → Key → ℕ → QuotaUsage
get_usage m k now = usage_of m k now

-- `QuotaMetrics.is_exceeded`
unfoldable pub is_exceeded : QuotaLimit → QuotaUsage → Bool
is_exceeded l u = ltb l.limit u.current
