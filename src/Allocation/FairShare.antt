-- ===== src/Allocation/FairShare.antt =====
-- core/resources/allocation.py: FairShareAllocator. `_usage_history` is a defaultdict: to read the
-- usage of a requester enters it, in an order too.
use puffinfloww.Base.{
  ℕ, ◌+◌, ◌*◌, Bool, some, List, [], ◌∷◌, Name, Dict, get_or, put, has, leb, ltb, max, length,
  sort_by, if◌then◌else◌,
}
use puffinfloww.ResourcePool.{ResourceType, all_types, Requirements, required, Pool}
use puffinfloww.Allocation.{
  AllocationRequest, insufficient_resources, exceeds_fair_share, succeeded, refused, acquire,
  acquired, denied, blocked, failed, Allocator, Outcome, returned, raised, suspended,
  ResourceAllocator,
}

pub record History : Type 0 where
  pub usage_history : Dict ℕ
  pub allocation_counts : Dict ℕ

-- `len(self._usage_history) or 1`
unfoldable pub total_requesters : History → ℕ
total_requesters h = max 1 (length h.usage_history)

unfoldable pub sum_over : (ResourceType → ℕ) → List ResourceType → ℕ
sum_over f [] = 0
sum_over f (t ∷ ts) = f t + sum_over f ts

unfoldable pub total_resources : Pool → ℕ
unfolding sum_over
total_resources p = sum_over p.resources all_types

unfoldable pub calculate_resource_total : Requirements → ℕ
unfolding sum_over
calculate_resource_total req =
    sum_over (λ t. if req.resource_types t then required req t else 0) all_types

abbrev pub usage_of : Name → History → ℕ
usage_of requester h = get_or requester h.usage_history 0

unfoldable pub touch : Name → History → History
touch requester h =
    if has requester h.usage_history
    then h
    else record h { usage_history = put requester 0 h.usage_history }

unfoldable pub charge : Name → ℕ → History → History
charge requester amount h = record {
  usage_history = put requester (usage_of requester h + amount) h.usage_history;
  allocation_counts =
      put requester (get_or requester h.allocation_counts 0 + 1) h.allocation_counts;
}

-- `current_usage + requested_total > fair_share`, where the fair share is the quotient of
-- `total_resources` and `total_requesters`, without its rounding.
unfoldable pub exceeds : Pool → History → Name → ℕ → Bool
unfolding total_resources total_requesters
exceeds p h requester amount =
    ltb (total_resources p) ((usage_of requester h + amount) * total_requesters h)

unfoldable pub allocate_fairly :
    Allocator History → AllocationRequest → (start now : ℕ) → Outcome History
unfolding exceeds touch charge acquire succeeded refused calculate_resource_total
allocate_fairly a request start now =
    let requester = request.requester_id in
    let requested_total = calculate_resource_total request.requirements in
    let seen = touch requester a.own in
    if exceeds a.resource_pool a.own requester requested_total
    then returned (record a { own = seen })
        (refused request
          (exceeds_fair_share (usage_of requester a.own) (total_resources a.resource_pool)
            (total_requesters a.own))
          start now)
    else elim (acquire a.resource_pool request.request_id request.requirements (some 0) start now) [
      | acquired p ↦
          returned (record a { resource_pool = p; own = charge requester requested_total seen })
            (succeeded request start now)
      | denied p ↦
          returned (record a { resource_pool = p; own = seen })
            (refused request insufficient_resources start now)
      | blocked p ↦ suspended (record a { resource_pool = p; own = seen })
      | failed p e ↦ raised (record a { resource_pool = p; own = seen }) e
    ]

unfoldable pub touch_all : List AllocationRequest → History → History
unfolding touch
touch_all [] h = h
touch_all (r ∷ rs) h = touch_all rs (touch r.requester_id h)

abbrev pub used_less : History → AllocationRequest → AllocationRequest → Bool
used_less h r s = leb (usage_of r.requester_id h) (usage_of s.requester_id h)

unfoldable pub fair_share : ResourceAllocator History
unfolding allocate_fairly touch_all sort_by
fair_share = record {
  allocate = allocate_fairly;
  get_allocation_order = λ a requests.
      (sort_by (used_less a.own) requests, record a { own = touch_all requests a.own });
}

unfoldable pub reset_usage_history : Allocator History → Allocator History
reset_usage_history a = record a { own = record { usage_history = []; allocation_counts = [] } }
