-- ===== src/Primitives.antt =====
-- core/coordination/primitives.py: `CoordinationPrimitive`, the state that all primitives share,
-- and its operations. The asyncio lock and condition are modelled in `Primitives/Barrier`; here
-- stands what runs between two suspensions. Times and amounts are numbers of a fixed unit.
pub mod Calls
pub mod Invariant
pub mod Ownership
pub mod Kinds
pub mod Lock
pub mod Barrier
pub mod Lease
pub mod Samples
use puffinfloww.Base.{
  ℕ, suc, ◌+◌, ◌-◌, Bool, true, false, ◌&&◌, Option, none, some, List, [], ◌∷◌, Name, Dict, ltb,
  leb, ◌==◌, if◌then◌else◌, length, is_empty, contains, add, discard, get, put, pop, values, total,
}

pub data PrimitiveType : Type 0 where
  mutex semaphore barrier lease lock quota : PrimitiveType

pub data ResourceState : Type 0 where
  available acquired locked expired error : ResourceState

pub data Error : Type 0 where
  quota_amount_required : Error

pub record Primitive : Type 0 where
  pub name : Name
  pub type : PrimitiveType
  pub ttl : ℕ
  pub max_count : ℕ
  pub wait_timeout : Option ℕ
  pub quota_limit : Option ℕ
  pub owners : List Name
  pub acquired_times : Dict ℕ
  pub quota_usage : Dict ℕ
  pub wait_count : ℕ
  pub state : ResourceState
  pub last_error : Option Error

-- The dataclass's constructor, with the fields that have defaults as their defaults.
unfoldable pub create : Name → PrimitiveType → ℕ → ℕ → Option ℕ → Option ℕ → Primitive
create name type ttl max_count wait_timeout quota_limit = record {
  name = name;
  type = type;
  ttl = ttl;
  max_count = max_count;
  wait_timeout = wait_timeout;
  quota_limit = quota_limit;
  owners = [];
  acquired_times = [];
  quota_usage = [];
  wait_count = 0;
  state = available;
  last_error = none;
}

unfoldable pub acquire_for : Primitive → Name → ℕ → Primitive
acquire_for p caller now = record p {
  owners = add caller p.owners;
  acquired_times = put caller now p.acquired_times;
  state = acquired;
}

unfoldable pub remove_owner : Primitive → Name → Primitive
remove_owner p caller =
    let owners' = discard caller p.owners in
    record p {
      owners = owners';
      acquired_times = pop caller p.acquired_times;
      quota_usage = pop caller p.quota_usage;
      state = if is_empty owners' then available else p.state;
    }

-- `[owner for owner, acquired in self._acquired_times.items() if now - acquired > self.ttl]`. The
-- difference stops at 0 here; in the source it may be negative, and then it is not above `ttl`.
unfoldable pub expired_owners : ℕ → ℕ → Dict ℕ → List Name
expired_owners now ttl [] = []
expired_owners now ttl ((owner, time) ∷ times) =
    if ltb ttl (now - time)
    then owner ∷ expired_owners now ttl times
    else expired_owners now ttl times

unfoldable pub remove_owners : Primitive → List Name → Primitive
remove_owners p [] = p
remove_owners p (owner ∷ owners) = remove_owners (remove_owner p owner) owners

unfoldable pub cleanup_expired : Primitive → ℕ → Primitive
unfolding expired_owners remove_owners
cleanup_expired p now = remove_owners p (expired_owners now p.ttl p.acquired_times)

-- How a call of `acquire` leaves the lock's body: it returns a Boolean, with or without a
-- `notify_all` before, it raises, or it waits on the condition for a time.
pub data Outcome : Type 0 where
  returns : Primitive → Bool → Outcome
  notifies : Primitive → Outcome
  raises : Primitive → Error → Outcome
  waits : Primitive → (timeout : Option ℕ) → Outcome

-- `timeout or self.wait_timeout`, and `self.quota_limit or 0`
unfoldable pub timeout_or : Option ℕ → Option ℕ → Option ℕ
timeout_or none w = w
timeout_or (some t) w = if t == 0 then w else some t

unfoldable pub limit_or_zero : Option ℕ → ℕ
limit_or_zero none = 0
limit_or_zero (some l) = l

unfoldable pub acquire_quota : Primitive → Name → Option ℕ → Outcome
unfolding limit_or_zero
acquire_quota p caller none =
    raises (record p { state = error; last_error = some quota_amount_required })
      quota_amount_required
acquire_quota p caller (some amount) =
    if leb (total p.quota_usage + amount) (limit_or_zero p.quota_limit)
    then returns (record p { quota_usage = put caller amount p.quota_usage }) true
    else returns p false

unfoldable pub acquire_barrier : Primitive → Name → ℕ → Option ℕ → Outcome
unfolding acquire_for timeout_or
acquire_barrier p caller now timeout =
    let q = acquire_for p caller now in
    if leb q.max_count (length q.owners)
    then notifies q
    else waits (record q { wait_count = q.wait_count + 1 }) (timeout_or timeout q.wait_timeout)

-- The branches for a caller that is no owner yet.
unfoldable pub acquire_new : PrimitiveType → Primitive → Name → ℕ → Option ℕ → Outcome
unfolding acquire_for acquire_barrier cleanup_expired
acquire_new mutex p caller now timeout =
    if is_empty p.owners then returns (acquire_for p caller now) true else returns p false
acquire_new semaphore p caller now timeout =
    if ltb (length p.owners) p.max_count
    then returns (acquire_for p caller now) true
    else returns p false
acquire_new barrier p caller now timeout = acquire_barrier p caller now timeout
acquire_new lease p caller now timeout =
    let q = cleanup_expired p now in
    if is_empty q.owners then returns (acquire_for q caller now) true else returns q false
acquire_new lock p caller now timeout = returns p false
acquire_new quota p caller now timeout = returns p false

unfoldable pub is_quota : PrimitiveType → Bool
is_quota quota = true
is_quota _ = false

unfoldable pub is_barrier : PrimitiveType → Bool
is_barrier barrier = true
is_barrier _ = false

unfoldable pub acquire : Primitive → Name → ℕ → Option ℕ → Option ℕ → Outcome
unfolding is_quota acquire_quota acquire_new
acquire p caller now timeout quota_amount =
    if is_quota p.type
    then acquire_quota p caller quota_amount
    else if contains caller p.owners
    then returns (record p { acquired_times = put caller now p.acquired_times }) true
    else acquire_new p.type p caller now timeout

-- What follows the wait: the condition was notified, or the time ran out.
unfoldable pub barrier_woken : Primitive → Primitive
barrier_woken p = record p { wait_count = p.wait_count - 1 }

unfoldable pub barrier_timed_out : Primitive → Name → Primitive
unfolding remove_owner
barrier_timed_out p caller =
    let q = remove_owner p caller in record q { wait_count = q.wait_count - 1 }

-- The primitive after `release`, its result, and whether it called `notify_all`.
unfoldable pub release : Primitive → Name → Primitive × Bool × Bool
unfolding remove_owner is_barrier
release p caller =
    if contains caller p.owners
    then (remove_owner p caller, true, is_barrier p.type && ltb 0 p.wait_count)
    else (p, false, false)

-- `Semaphore.available_permits`
unfoldable pub available_permits : Primitive → ℕ
available_permits p = p.max_count - length p.owners
