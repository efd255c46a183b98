-- ===== src/ResourcePool/History.antt =====
-- core/resources/pool.py: histories of acquisitions, releases and time-outs.
use puffinfloww.Base.{
  ℕ, ◌≡◌, ap, inl, inr, Bool, true, List, [], ◌∷◌, Name, arith, keys, has, keys-put-Distinct,
  Bool-cases,
}
use puffinfloww.ResourcePool.{
  ResourceType, Requirements, allocation_for, Pool, create, can_allocate, allocate, held,
  update_stats, try_preemption, Attempt, raises, granted, retries, waits, await_event, attempt,
  enlist, delist, timed_out, release,
}
use puffinfloww.ResourcePool.Ledger.{
  Sound, Returns, allocate_ledger, attempt_cases, try_preemption-Returns, release-Returns,
}

pub data Call : Type 0 where
  acquires : (state : Name) (req : Requirements) (allow : Bool) (start now : ℕ) → Call
  releases : (state : Name) → Call
  times_out : (state : Name) → Call

-- A call of `acquire` that ends takes its state off the waiting list.
unfoldable pub settle : Name → Attempt → Pool
settle state (raises p e) = delist p state
settle state (granted p) = delist p state
settle state (retries p) = p
settle state (waits p) = p

-- An `acquires` is one round of the loop.
unfoldable pub step : Pool → Call → Pool
unfolding settle
step p (acquires state req allow start now) =
    settle state (attempt (enlist p state) state req allow start now)
step p (releases state) = release p state
step p (times_out state) = timed_out p state

unfoldable pub run : Pool → List Call → Pool
run p [] = p
run p (c ∷ cs) = run (step p c) cs

Sound-of_Returns : (p q : Pool) → Returns p q → Sound p → Sound q
Sound-of_Returns p q r s = record {
  unique = r.unique;
  covered = λ t. let same = ap (λ f. f t) r.same in omega (arith, r.exact t, s.covered t);
}

allocate-Sound :
    (p : Pool) (state : Name) (req : Requirements) (now : ℕ)
    → can_allocate p req ≡ true
    → Sound p
    → Sound (allocate p state req now)
unfolding allocate
allocate-Sound p state req now fits s = record {
  unique = keys-put-Distinct state (allocation_for req) p.allocations s.unique;
  covered = λ t. omega (arith, allocate_ledger p state req now t fits, s.covered t);
}

await_event-Sound : (p : Pool) (state : Name) → Sound p → Sound (await_event p state)
unfolding await_event
await_event-Sound p state s = elim (Bool-cases (has state p.allocation_events)) [
  | inl known ↦ rw (known, await_event) s
  | inr fresh ↦ rw (fresh, await_event) (record { unique = s.unique; covered = s.covered })
]

attempt-Sound :
    (p : Pool) (state : Name) (req : Requirements) (allow : Bool) (start now : ℕ)
    → Sound p
    → Sound (settle state (attempt p state req allow start now))
unfolding settle allocate
attempt-Sound p state req allow start now s = elim (attempt_cases p state req allow start now) [
  | inl (fits, _, _, e) ↦
      let s' = allocate-Sound p state req now fits s in
      rw (e, settle)
        (unfold delist update_stats in record { unique = s'.unique; covered = s'.covered })
  | inr (inl (x, e)) ↦
      rw (e, settle) (unfold delist in record { unique = s.unique; covered = s.covered })
  | inr (inr (inl e)) ↦
      rw (e, settle) (Sound-of_Returns p _ (try_preemption-Returns p state req s.unique) s)
  | inr (inr (inr (inl e))) ↦ rw (e, settle) (await_event-Sound p state s)
  | inr (inr (inr (inr e))) ↦
      rw (e, settle)
        (await_event-Sound (try_preemption p state req).0 state
          (Sound-of_Returns p _ (try_preemption-Returns p state req s.unique) s))
]

step-Sound : (p : Pool) (c : Call) → Sound p → Sound (step p c)
unfolding step enlist timed_out
step-Sound p (acquires state req allow start now) s =
    attempt-Sound (enlist p state) state req allow start now
      (record { unique = s.unique; covered = s.covered })
step-Sound p (releases state) s =
    Sound-of_Returns p (release p state) (release-Returns p state s.unique) s
step-Sound p (times_out state) s = record { unique = s.unique; covered = s.covered }

run-Sound : (p : Pool) (cs : List Call) → Sound p → Sound (run p cs)
unfolding run
run-Sound p [] s = s
run-Sound p (c ∷ cs) s = run-Sound (step p c) cs (step-Sound p c s)

-- After any history of rounds of `acquire`, with preemption or without, releases and time-outs on a
-- new pool, what is available and what is held of a resource never exceed its total together, and
-- no state is on record twice.
pub run-create-Sound :
    (totals : ResourceType → ℕ) (preempts quotas : Bool) (retention : ℕ) (cs : List Call)
    → Sound (run (create totals preempts quotas retention) cs)
unfolding create held keys
run-create-Sound totals preempts quotas retention cs =
    run-Sound (create totals preempts quotas retention) cs
      (record { unique = tt; covered = λ t. omega arith })
