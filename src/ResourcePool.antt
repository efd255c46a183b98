-- ===== src/ResourcePool.antt =====
-- core/resources/requirements.py and core/resources/pool.py: the pool of machine resources. Amounts
-- are numbers of a fixed unit and never negative. Everything between two suspensions runs under the
-- global lock, so it is one function here; the wait for an event is an outcome.
pub mod Ledger
pub mod History
pub mod Preemption
pub mod Samples
use puffinfloww.Base.{
  ℕ, suc, ◌+◌, ◌-◌, Bool, true, false, ◌&&◌, ◌||◌, not, Option, none, some, List, [], ◌∷◌, ◌++◌,
  Name, Dict, ◌==◌, ltb, leb, if◌then◌else◌, is_empty, contains, add, discard, get, get_or, put,
  pop, has, max,
}

pub data ResourceType : Type 0 where
  cpu memory io network gpu : ResourceType

pub record Requirements : Type 0 where
  pub cpu_units : ℕ
  pub memory_mb : ℕ
  pub io_weight : ℕ
  pub network_weight : ℕ
  pub gpu_units : ℕ
  pub resource_types : ResourceType → Bool

-- `for resource_type in ResourceType` goes over the single flags in the order of definition.
abbrev pub all_types : List ResourceType
all_types = cpu ∷ memory ∷ io ∷ network ∷ gpu ∷ []

-- `getattr(requirements, f"{resource_type.name.lower()}_units", 0.0)`: the fields of that name are
-- `cpu_units` and `gpu_units`, and the other types get the default.
unfoldable pub required : Requirements → ResourceType → ℕ
required req cpu = req.cpu_units
required req memory = 0
required req io = 0
required req network = 0
required req gpu = req.gpu_units

-- An allocation: the amount for each type that the requirements name.
abbrev pub Allocation : Type 0
Allocation = ResourceType → Option ℕ

abbrev pub amount_of : Allocation → ResourceType → ℕ
amount_of a t = elim (a t) [ none ↦ 0 | some n ↦ n ]

unfoldable pub allocation_for : Requirements → Allocation
allocation_for req t = if req.resource_types t then some (required req t) else none

pub record UsageStats : Type 0 where
  pub peak_usage : ℕ
  pub current_usage : ℕ
  pub total_allocations : ℕ
  pub failed_allocations : ℕ
  pub last_allocation_time : Option ℕ
  pub total_wait_time : ℕ

pub record Pool : Type 0 where
  pub resources : ResourceType → ℕ
  pub available : ResourceType → ℕ
  pub allocation_events : Dict Bool
  pub allocations : Dict Allocation
  pub allocation_times : Dict ℕ
  pub waiting_states : List Name
  pub usage_stats : ResourceType → UsageStats
  pub enable_quotas : Bool
  pub quotas : Dict (ResourceType → Option ℕ)
  pub enable_preemption : Bool
  pub preempted_states : List Name
  pub usage_history : List (ℕ × (ResourceType → ℕ))
  pub history_retention : ℕ

pub data Error : Type 0 where
  quotas_disabled overflow quota_exceeded : Error

abbrev no_stats : UsageStats
no_stats = record {
  peak_usage = 0;
  current_usage = 0;
  total_allocations = 0;
  failed_allocations = 0;
  last_allocation_time = none;
  total_wait_time = 0;
}

unfoldable pub create : (ResourceType → ℕ) → (preempts quotas : Bool) → ℕ → Pool
create totals preempts quotas retention = record {
  resources = totals;
  available = totals;
  allocation_events = [];
  allocations = [];
  allocation_times = [];
  waiting_states = [];
  usage_stats = λ t. no_stats;
  enable_quotas = quotas;
  quotas = [];
  enable_preemption = preempts;
  preempted_states = [];
  usage_history = [];
  history_retention = retention;
}

-- A test for all types that the requirements name.
unfoldable pub for_all : List ResourceType → Requirements → (ResourceType → Bool) → Bool
for_all [] req test = true
for_all (t ∷ ts) req test =
    if req.resource_types t
    then (if test t then for_all ts req test else false)
    else for_all ts req test

unfoldable pub same_type : ResourceType → ResourceType → Bool
same_type cpu cpu = true
same_type memory memory = true
same_type io io = true
same_type network network = true
same_type gpu gpu = true
same_type _ _ = false

unfoldable pub set_quota : Pool → Name → ResourceType → ℕ → Option Pool
unfolding same_type
set_quota p state t limit =
    if p.enable_quotas
    then some (record p {
      quotas =
          put state (λ u. if same_type u t then some limit else get_or state p.quotas (λ v. none) u)
            p.quotas;
    })
    else none

abbrev quota_allows : Pool → Name → Requirements → ResourceType → Bool
quota_allows p state req t = elim (get_or state p.quotas (λ v. none) t) [
  | none ↦ true
  | some quota ↦ leb (amount_of (get_or state p.allocations (λ v. none)) t + required req t) quota
]

unfoldable pub check_quota : Pool → Name → Requirements → Bool
unfolding for_all
check_quota p state req =
    if p.enable_quotas then for_all all_types req (quota_allows p state req) else true

-- `_validate_requirements` passes: no requirement is above the total.
unfoldable pub validate_requirements : Pool → Requirements → Bool
unfolding for_all
validate_requirements p req = for_all all_types req (λ t. leb (required req t) (p.resources t))

unfoldable pub can_allocate : Pool → Requirements → Bool
unfolding for_all
can_allocate p req = for_all all_types req (λ t. leb (required req t) (p.available t))

unfoldable pub allocate : Pool → Name → Requirements → ℕ → Pool
unfolding allocation_for
allocate p state req now = record p {
  allocations = put state (allocation_for req) p.allocations;
  allocation_times = put state now p.allocation_times;
  available = λ t. p.available t - amount_of (allocation_for req) t;
}

-- `sum(alloc.get(resource_type, 0.0) for alloc in self._allocations.values())`
unfoldable pub held : ResourceType → Dict Allocation → ℕ
held t [] = 0
held t ((state, a) ∷ d) = amount_of a t + held t d

-- `while history and history[0][0] < cutoff: history.pop(0)`
unfoldable pub drop_older : ℕ → List (ℕ × (ResourceType → ℕ)) → List (ℕ × (ResourceType → ℕ))
drop_older cutoff [] = []
drop_older cutoff ((time, free) ∷ h) =
    let rest = drop_older cutoff h in if ltb time cutoff then rest else (time, free) ∷ h

unfoldable pub update_stats : Pool → Requirements → (start now : ℕ) → Pool
unfolding held drop_older
update_stats p req start now = record p {
  usage_stats = λ t.
      (let s = p.usage_stats t in
        let usage = held t p.allocations in
        if req.resource_types t
        then record s {
          current_usage = usage;
          peak_usage = max s.peak_usage usage;
          total_allocations = s.total_allocations + 1;
          last_allocation_time = some now;
          total_wait_time = s.total_wait_time + (now - start);
        }
        else s);
  usage_history =
      drop_older (now - p.history_retention) (p.usage_history ++ (now, p.available) ∷ []);
}

-- Gives back what `state` holds, and forgets it.
unfoldable pub give_back : Pool → Name → Allocation → Pool
give_back p state a = record p {
  available = λ t. p.available t + amount_of a t;
  allocations = pop state p.allocations;
  allocation_times = pop state p.allocation_times;
}

unfoldable pub preempt_state : Pool → Name → Pool
unfolding give_back
preempt_state p state = elim (get state p.allocations) [
  | none ↦ p
  | some a ↦ give_back (record p { preempted_states = add state p.preempted_states }) state a
]

-- Taking this allocation back would free enough.
unfoldable pub could_satisfy : Pool → Requirements → Allocation → Bool
unfolding for_all
could_satisfy p req a =
    for_all all_types req (λ t. leb (required req t) (p.available t + amount_of a t))

unfoldable pub candidates : Pool → Name → Requirements → Dict Allocation → List Name
unfolding could_satisfy
candidates p state req [] = []
candidates p state req ((other, a) ∷ d) =
    if other == state
    then candidates p state req d
    else if could_satisfy p req a
    then other ∷ candidates p state req d
    else candidates p state req d

unfoldable pub preempt_all : Pool → List Name → Pool
unfolding preempt_state
preempt_all p [] = p
preempt_all p (other ∷ others) = preempt_all (preempt_state p other) others

unfoldable pub try_preemption : Pool → Name → Requirements → Pool × Bool
unfolding candidates preempt_all
try_preemption p state req =
    if p.enable_preemption
    then (let others = candidates p state req p.allocations in
        if is_empty others then (p, false) else (preempt_all p others, true))
    else (p, false)

-- One round of the loop in `acquire`. `retries` goes round again at once; `waits` does so when the
-- event of the state is set.
pub data Attempt : Type 0 where
  raises : Pool → Error → Attempt
  granted : Pool → Attempt
  retries : Pool → Attempt
  waits : Pool → Attempt

unfoldable pub await_event : Pool → Name → Pool
await_event p state =
    if has state p.allocation_events
    then p
    else record p { allocation_events = put state false p.allocation_events }

unfoldable pub attempt : Pool → Name → Requirements → Bool → (start now : ℕ) → Attempt
unfolding validate_requirements check_quota can_allocate allocate update_stats try_preemption
    await_event
attempt p state req allow_preemption start now =
    if validate_requirements p req
    then (if check_quota p state req
        then (if can_allocate p req
            then granted (update_stats (allocate p state req now) req start now)
            else (let (q, freed) = try_preemption p state req in
                if p.enable_preemption && allow_preemption
                then (if freed then retries q else waits (await_event q state))
                else waits (await_event p state)))
        else raises p quota_exceeded)
    else raises p overflow

-- The start of `acquire`, and its `finally` and `except TimeoutError` clauses.
unfoldable pub enlist : Pool → Name → Pool
enlist p state = record p { waiting_states = add state p.waiting_states }

unfoldable pub delist : Pool → Name → Pool
delist p state = record p { waiting_states = discard state p.waiting_states }

unfoldable pub timed_out : Pool → Name → Pool
unfolding delist
timed_out p state =
    delist
      (record p {
        usage_stats = λ t.
            (let s = p.usage_stats t in
              elim t [ cpu ↦ record s { failed_allocations = s.failed_allocations + 1 } | _ ↦ s ]);
      })
      state

unfoldable pub set_events : List Name → Dict Bool → Dict Bool
set_events [] events = events
set_events (state ∷ states) events =
    set_events states (if has state events then put state true events else events)

unfoldable pub release : Pool → Name → Pool
unfolding give_back set_events
release p state = elim (get state p.allocations) [
  | none ↦ p
  | some a ↦
      let q = give_back p state a in
      record q { allocation_events = set_events q.waiting_states q.allocation_events }
]
