-- ===== src/Allocation/Shares.antt =====
-- core/resources/allocation.py: what FairShareAllocator lets a requester use.
use puffinfloww.Base.{
  ℕ, ◌+◌, ◌*◌, ◌≤◌, ◌<◌, ◌≡◌, refl, ◌∙◌, subst, sym, Bool-cases, Option-cases, inl, inr, ◌⊎◌, true,
  false, ltb, ltb→lt, ltb→ge, ◌==◌, if◌then◌else◌, Name, get, get-put, arith,
}
use puffinfloww.ResourcePool.{validate_requirements, check_quota, can_allocate}
use puffinfloww.Allocation.{
  AllocationRequest, Allocator, Outcome, returned, returned_none, raised, suspended,
}
use puffinfloww.Allocation.Acquiring.{answer, acquire_now}
use puffinfloww.Allocation.FairShare.{
  History, usage_of, total_requesters, total_resources, calculate_resource_total, touch, charge,
  exceeds, allocate_fairly,
}

usage_of-touch : (k q : Name) (h : History) → usage_of k (touch q h) ≡ usage_of k h
unfolding touch
usage_of-touch k q h = elim (Option-cases (get q h.usage_history)) [
  | inl absent ↦ ground (arith, absent, get-put k q 0 h.usage_history)
  | inr (v, present) ↦ ground (arith, present)
]

usage_of-charge :
    (k q : Name) (amount : ℕ) (h : History)
    → usage_of k (charge q amount h) ≡ (if k == q then usage_of q h + amount else usage_of k h)
unfolding charge
usage_of-charge k q amount h = ground (arith, get-put k q (usage_of q h + amount) h.usage_history)

module _ (a : Allocator History) (request : AllocationRequest) (start now : ℕ) where
  abbrev pub requested : ℕ
  requested = calculate_resource_total request.requirements

  -- The usage of every requester is as it was.
  abbrev pub Unused : History → Type 0
  Unused h = (k : Name) → usage_of k h ≡ usage_of k a.own

  -- The usage of the requester has grown by what is requested, to no more than its share of the
  -- resources, and that of the others is as it was.
  abbrev pub Shared : History → Type 0
  Shared h =
      (usage_of request.requester_id h * total_requesters a.own ≤ total_resources a.resource_pool)
      × ((k : Name)
          → usage_of k h ≡ (
              if k == request.requester_id then usage_of k a.own + requested else usage_of k a.own))

  -- How a call ends.
  abbrev pub Fair : Outcome History → Type 0
  Fair (returned b result) =
      ((result.success ≡ true) × Shared b.own)
      ⊎ ((result.success ≡ false)
          × (b.resource_pool ≡ a.resource_pool)
          × (total_resources a.resource_pool
              < (usage_of request.requester_id a.own + requested) * total_requesters a.own)
          × Unused b.own)
  Fair (returned_none b) = ⊥
  Fair (raised b e) = Unused b.own
  Fair (suspended b) = Unused b.own

  abbrev seen : History
  seen = touch request.requester_id a.own

  touched : Unused seen
  touched k = usage_of-touch k request.requester_id a.own

  charged_usage :
      (k : Name)
      → usage_of k (charge request.requester_id requested seen)
        ≡ (if k == request.requester_id then usage_of k a.own + requested else usage_of k a.own)
  charged_usage k =
      usage_of-charge k request.requester_id requested seen
      ∙ (elim (Bool-cases (k == request.requester_id)) [
        | inl here ↦ ground (arith, here, touched request.requester_id)
        | inr there ↦ rw there (touched k)
      ])

  charged_own :
      usage_of request.requester_id (charge request.requester_id requested seen)
      ≡ usage_of request.requester_id a.own + requested
  charged_own = charged_usage request.requester_id ∙ ground arith

  charged :
      exceeds a.resource_pool a.own request.requester_id requested ≡ false
      → Shared (charge request.requester_id requested seen)
  unfolding exceeds
  charged within = (
    subst (λ n. n * total_requesters a.own ≤ total_resources a.resource_pool) (sym charged_own)
        (ltb→ge (total_resources a.resource_pool) _ within),
    charged_usage,
  )

  above_share :
      exceeds a.resource_pool a.own request.requester_id requested ≡ true
      → ltb
          (total_resources a.resource_pool)
          ((usage_of request.requester_id a.own + requested) * total_requesters a.own)
        ≡ true
  unfolding exceeds
  above_share above = above

  -- `allocate` of FairShareAllocator returns a failure, with the pool and every usage as they were,
  -- only if the usage of the requester and the request together are above the share. It returns
  -- a success only with the usage of the requester, the request included, within the share, and charges
  -- nobody else. If it raises or waits, no usage has changed.
  pub allocate_fairly-Fair : Fair (allocate_fairly a request start now)
  unfolding allocate_fairly answer
  allocate_fairly-Fair =
      elim (Bool-cases (exceeds a.resource_pool a.own request.requester_id requested)) [
        | inl above ↦
            rw (allocate_fairly, above) (inr (refl, refl, ltb→lt _ _ (above_share above), touched))
        | inr within ↦
            rw
              (
                allocate_fairly,
                within,
                acquire_now a.resource_pool request.request_id request.requirements start now,
              )
              (elim (Bool-cases (validate_requirements a.resource_pool request.requirements)) [
                | inr bad ↦ rw (answer, bad) touched
                | inl valid ↦
                    elim (Bool-cases
                      (check_quota a.resource_pool request.request_id request.requirements)) [
                        | inr over ↦ rw (answer, valid, over) touched
                        | inl allowed ↦
                            elim (Bool-cases (can_allocate a.resource_pool request.requirements)) [
                              | inl free ↦
                                  rw (answer, valid, allowed, free) (inl (refl, charged within))
                              | inr short ↦ rw (answer, valid, allowed, short) touched
                            ]
                      ]
              ])
      ]
