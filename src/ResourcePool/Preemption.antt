-- ===== src/ResourcePool/Preemption.antt =====
-- core/resources/pool.py: the requirements that the pool does not look at.
use puffinfloww.Base.{
  ℕ, ◌+◌, ◌-◌, ◌≡◌, refl, ap, Bool, true, none, some, [], ◌∷◌, Name, Dict, if◌then◌else◌, put,
  get_or, fun_ext, leb,
}
use puffinfloww.ResourcePool.{
  ResourceType, cpu, memory, io, network, gpu, all_types, Requirements, required, Allocation,
  amount_of, Pool, can_allocate, check_quota, validate_requirements, allocate, update_stats,
  try_preemption, attempt, for_all, could_satisfy, candidates, allocation_for,
}

-- The requirements with other amounts of memory, input and output, and network.
abbrev pub with_others : Requirements → ℕ → ℕ → ℕ → Requirements
with_others req m i n = record req { memory_mb = m; io_weight = i; network_weight = n }

required_same :
    (req : Requirements) (m i n : ℕ) (t : ResourceType)
    → required (with_others req m i n) t ≡ required req t
unfolding required
required_same req m i n cpu = refl
required_same req m i n memory = refl
required_same req m i n io = refl
required_same req m i n network = refl
required_same req m i n gpu = refl

module _ (p : Pool) (req : Requirements) (m i n : ℕ) where
  required_all : required (with_others req m i n) ≡ required req
  required_all = fun_ext (required_same req m i n)

  validate_requirements_same :
      validate_requirements p (with_others req m i n) ≡ validate_requirements p req
  unfolding validate_requirements for_all
  validate_requirements_same =
      ap (λ f. for_all all_types req (λ t. leb (f t) (p.resources t))) required_all

  can_allocate_same : can_allocate p (with_others req m i n) ≡ can_allocate p req
  unfolding can_allocate for_all
  can_allocate_same = ap (λ f. for_all all_types req (λ t. leb (f t) (p.available t))) required_all

  check_quota_same :
      (state : Name) → check_quota p state (with_others req m i n) ≡ check_quota p state req
  unfolding check_quota for_all
  check_quota_same state =
      ap
        (λ f.
          if p.enable_quotas
          then for_all all_types req (λ t. elim (get_or state p.quotas (λ v. none) t) [
            | none ↦ true
            | some quota ↦ leb (amount_of (get_or state p.allocations (λ v. none)) t + f t) quota
          ])
          else true)
        required_all

  could_satisfy_same :
      (a : Allocation) → could_satisfy p (with_others req m i n) a ≡ could_satisfy p req a
  unfolding could_satisfy for_all
  could_satisfy_same a =
      ap (λ f. for_all all_types req (λ t. leb (f t) (p.available t + amount_of a t))) required_all

  candidates_same :
      (state : Name) (d : Dict Allocation)
      → candidates p state (with_others req m i n) d ≡ candidates p state req d
  unfolding candidates
  candidates_same state [] = refl
  candidates_same state ((other, a) ∷ d) = rw (could_satisfy_same a, candidates_same state d)

  try_preemption_same :
      (state : Name) → try_preemption p state (with_others req m i n) ≡ try_preemption p state req
  unfolding try_preemption
  try_preemption_same state = rw (candidates_same state p.allocations)

  allocate_same :
      (state : Name) (now : ℕ)
      → allocate p state (with_others req m i n) now ≡ allocate p state req now
  unfolding allocate allocation_for
  allocate_same state now =
      ap
        (λ f.
          let a : Allocation = (λ t. if req.resource_types t then some (f t) else none) in
          record p {
            allocations = put state a p.allocations;
            allocation_times = put state now p.allocation_times;
            available = λ t. p.available t - amount_of a t;
          })
        required_all

  grant_same :
      (state : Name) (start now : ℕ)
      → update_stats
          (allocate p state (with_others req m i n) now)
          (with_others req m i n)
          start
          now
        ≡ update_stats (allocate p state req now) req start now
  unfolding update_stats
  grant_same state start now = ap (λ q. update_stats q req start now) (allocate_same state now)

-- A round of `acquire` is the same for every amount of memory, input and output weight, and network
-- weight that the requirements ask for, also where it is above the total of the pool.
pub attempt_ignores :
    (p : Pool) (state : Name) (req : Requirements) (allow : Bool) (start now m i n : ℕ)
    → attempt p state (with_others req m i n) allow start now ≡ attempt p state req allow start now
unfolding attempt
attempt_ignores p state req allow start now m i n = rw (
  validate_requirements_same p req m i n,
  check_quota_same p req m i n state,
  can_allocate_same p req m i n,
  try_preemption_same p req m i n state,
  grant_same p req m i n state start now,
)
