-- ===== src/Allocation/Acquiring.antt =====
-- core/resources/allocation.py: what the pool answers to an acquisition without a deadline.
use puffinfloww.Base.{Bool-cases, inl, inr, ℕ, ◌≡◌, refl, false, some, Name, if◌then◌else◌}
use puffinfloww.ResourcePool.{
  Pool, Requirements, overflow, quota_exceeded, validate_requirements, check_quota, allocate,
  update_stats, enlist, Attempt, granted, waits, raises, delist, attempt, await_event, can_allocate,
}
use puffinfloww.Allocation.{Acquired, acquired, blocked, failed, acquire}

-- The pool after a grant, and after a call that raises.
abbrev pub given : Pool → Name → Requirements → (start now : ℕ) → Pool
given p id req start now =
    delist (update_stats (allocate (enlist p id) id req now) req start now) id

abbrev pub untaken : Pool → Name → Pool
untaken p id = delist (enlist p id) id

-- The pool while the request waits for its event.
abbrev pub waited_for : Pool → Name → Pool
waited_for p id = await_event (enlist p id) id

module _ (p : Pool) (id : Name) (req : Requirements) (start now : ℕ) where
  -- What `attempt` does without preemption.
  abbrev one_round : Attempt
  one_round =
      if validate_requirements p req
      then (if check_quota p id req
          then (if can_allocate p req
              then granted (update_stats (allocate p id req now) req start now)
              else waits (await_event p id))
          else raises p quota_exceeded)
      else raises p overflow

  attempt_once : attempt p id req false start now ≡ one_round
  unfolding attempt
  attempt_once = elim (Bool-cases p.enable_preemption) [
    | inl on ↦ rw (attempt, on) refl
    | inr off ↦ rw (attempt, off) refl
  ]

-- The answer, by the three tests.
unfoldable pub answer : Pool → Name → Requirements → (start now : ℕ) → Acquired
answer p id req start now =
    if validate_requirements p req
    then (if check_quota p id req
        then (if can_allocate p req
            then acquired (given p id req start now)
            else blocked (waited_for p id))
        else failed (untaken p id) quota_exceeded)
    else failed (untaken p id) overflow

module _ (p : Pool) (id : Name) (req : Requirements) (start now : ℕ) where
  validate_enlist : validate_requirements (enlist p id) req ≡ validate_requirements p req
  unfolding validate_requirements enlist
  validate_enlist = refl

  check_enlist : check_quota (enlist p id) id req ≡ check_quota p id req
  unfolding check_quota enlist
  check_enlist = refl

  can_enlist : can_allocate (enlist p id) req ≡ can_allocate p req
  unfolding can_allocate enlist
  can_enlist = refl

  pub acquire_now : acquire p id req (some 0) start now ≡ answer p id req start now
  unfolding acquire answer
  acquire_now =
      rw
        (
          acquire,
          attempt_once (enlist p id) id req start now,
          validate_enlist,
          check_enlist,
          can_enlist,
        )
        (elim (Bool-cases (validate_requirements p req)) [
          | inr bad ↦ rw (answer, bad) refl
          | inl valid ↦ elim (Bool-cases (check_quota p id req)) [
            | inr over ↦ rw (answer, valid, over) refl
            | inl within ↦ elim (Bool-cases (can_allocate p req)) [
              | inl free ↦ rw (answer, valid, within, free) refl
              | inr short ↦ rw (answer, valid, within, short) refl
            ]
          ]
        ])
