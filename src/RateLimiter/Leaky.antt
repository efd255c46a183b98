-- ===== src/RateLimiter/Leaky.antt =====
-- core/coordination/rate_limiter.py: `LeakyBucket`, and the strategy of the same name in
-- `RateLimiter.acquire`.
use puffinfloww.Base.{
  ℕ, zero, suc, ◌+◌, ◌-◌, ◌*◌, ◌/◌, ◌≤◌, ◌≡◌, refl, ap, sym, ◌∙◌, inl, inr, Bool, true, false, List,
  [], ◌∷◌, ◌++◌, arith, ltb, if◌then◌else◌, min, length, length-append, Bool-cases, All, Dict, put,
}
use native.Mathlib.Nat.{div-mul-le_self, mul-le-mul_right}
use puffinfloww.RateLimiter.{
  Scale, one, RateLimiter, leaky_bucket, acquire, acquire_leaky, after_cutoff, poll_answers,
}

-- The fields that `acquire` and `_leak` use; the burst size is a number of requests here.
pub record LeakyBucket : Type 0 where
  pub max_rate : ℕ
  pub burst_size : ℕ
  pub bucket : List ℕ
  pub last_leak : ℕ

unfoldable pub create_leaky : ℕ → ℕ → ℕ → LeakyBucket
create_leaky rate capacity now = record {
  max_rate = rate;
  burst_size = capacity;
  bucket = [];
  last_leak = now;
}

-- `popleft`, so many times
unfoldable pub pop_left : ℕ → List ℕ → List ℕ
pop_left zero b = b
pop_left (suc n) [] = []
pop_left (suc n) (x ∷ b) = pop_left n b

-- `int(time_passed * self.max_rate)`
unfoldable pub leak_count : Scale → LeakyBucket → ℕ → ℕ
leak_count s b now = (now - b.last_leak) * b.max_rate / one s

unfoldable pub leak : Scale → LeakyBucket → ℕ → LeakyBucket
unfolding pop_left leak_count
leak s b now =
    let n = leak_count s b now in
    if ltb 0 n
    then record b { bucket = pop_left (min n (length b.bucket)) b.bucket; last_leak = now }
    else b

unfoldable pub acquire_bucket : Scale → LeakyBucket → ℕ → LeakyBucket × Bool
unfolding leak
acquire_bucket s b now =
    let l = leak s b now in
    if ltb (length l.bucket) l.burst_size
    then (record l { bucket = l.bucket ++ now ∷ [] }, true)
    else (l, false)

-- The number of requests that a history of calls admits, each some ticks after the one before.
unfoldable pub admitted : Scale → LeakyBucket → ℕ → List ℕ → ℕ
unfolding acquire_bucket
admitted s b now [] = 0
admitted s b now (delay ∷ delays) =
    let (b', ok) = acquire_bucket s b (now + delay) in
    (if ok then 1 else 0) + admitted s b' (now + delay) delays

unfoldable pub elapsed : List ℕ → ℕ
elapsed [] = 0
elapsed (delay ∷ delays) = delay + elapsed delays

length-pop_left : (n : ℕ) (b : List ℕ) → n ≤ length b → length (pop_left n b) + n ≡ length b
unfolding pop_left
length-pop_left zero b h = omega arith
length-pop_left (suc n) [] h = omega arith
length-pop_left (suc n) (x ∷ b) h = omega (arith, length-pop_left n b (omega arith))

-- What is in the bucket goes down by at most what the rate lets out in the time accounted for.
record Leaks (s : Scale) (b l : LeakyBucket) (now : ℕ) : Type 0 where
  bucket : List ℕ
  last : ℕ
  same : l ≡ record b { bucket = bucket; last_leak = last }
  kept :
      length b.bucket * one s + b.last_leak * b.max_rate ≤ length bucket * one s + last * b.max_rate
  early : last ≤ now
  shrunk : length bucket ≤ length b.bucket

leak_bound :
    (s : Scale) (b : LeakyBucket) (now : ℕ)
    → b.last_leak ≤ now
    → min (leak_count s b now) (length b.bucket) * one s + b.last_leak * b.max_rate
      ≤ now * b.max_rate
unfolding leak_count
leak_bound s b now h =
    let at_most : min (leak_count s b now) (length b.bucket) ≤ leak_count s b now = omega arith in
    let whole : now - b.last_leak + b.last_leak ≡ now = omega arith in
    omega (
      arith,
      div-mul-le_self ((now - b.last_leak) * b.max_rate) (one s),
      mul-le-mul_right (one s) at_most,
      ap (λ k. k * b.max_rate) whole,
    )

leak-Leaks :
    (s : Scale) (b : LeakyBucket) (now : ℕ) → b.last_leak ≤ now → Leaks s b (leak s b now) now
unfolding leak
leak-Leaks s b now h = elim (Bool-cases (ltb 0 (leak_count s b now))) [
  | inr none_leaks ↦ record {
    bucket = b.bucket;
    last = b.last_leak;
    same = rw none_leaks;
    kept = omega arith;
    early = h;
    shrunk = omega arith;
  }
  | inl some_leak ↦
      let n = min (leak_count s b now) (length b.bucket) in
      let out = length-pop_left n b.bucket (omega arith) in
      record {
        bucket = pop_left n b.bucket;
        last = now;
        same = rw some_leak;
        kept = omega (arith, ap (λ k. k * one s) out, leak_bound s b now h);
        early = omega arith;
        shrunk = omega (arith, out);
      }
]

admitted_le :
    (s : Scale) (b : LeakyBucket) (now : ℕ) (delays : List ℕ)
    → b.last_leak ≤ now
    → length b.bucket ≤ b.burst_size
    → admitted s b now delays * one s + length b.bucket * one s + b.last_leak * b.max_rate
      ≤ b.burst_size * one s + (now + elapsed delays) * b.max_rate
unfolding admitted elapsed acquire_bucket
admitted_le s b now [] h room =
    omega (arith, mul-le-mul_right (one s) room, mul-le-mul_right b.max_rate h)
admitted_le s b now (delay ∷ delays) h room =
    let t = now + delay in
    let leaks = leak-Leaks s b t (omega arith) in
    let l = record b { bucket = leaks.bucket; last_leak = leaks.last } in
    elim (Bool-cases (ltb (length leaks.bucket) b.burst_size)) [
      | inl free ↦
          let more = length-append leaks.bucket (t ∷ []) in
          let rest =
            admitted_le s (record l { bucket = leaks.bucket ++ t ∷ [] }) t delays leaks.early
              (ground arith) in
          rw (leaks.same, free, if◌then◌else◌)
            (omega (arith, rest, leaks.kept, ap (λ k. k * one s) more))
      | inr full ↦
          let rest = admitted_le s l t delays leaks.early (omega (arith, leaks.shrunk)) in
          rw (leaks.same, full, if◌then◌else◌) (omega (arith, rest, leaks.kept))
    ]

-- Whatever calls of `acquire` come, and when: the requests that a new leaky bucket admits are at
-- most its capacity and what its rate lets out in the time that they take.
pub admitted_bounded :
    (s : Scale) (rate capacity now : ℕ) (delays : List ℕ)
    → admitted s (create_leaky rate capacity now) now delays * one s
      ≤ capacity * one s + elapsed delays * rate
unfolding create_leaky
admitted_bounded s rate capacity now delays =
    let b = create_leaky rate capacity now in
    omega (arith, admitted_le s b now delays (omega arith) (omega arith))

after_cutoff-after_cutoff :
    (now window : ℕ) (d : Dict ℕ)
    → after_cutoff now window (after_cutoff now window d) ≡ after_cutoff now window d
unfolding after_cutoff
after_cutoff-after_cutoff now window [] = refl
after_cutoff-after_cutoff now window ((ts, count) ∷ d) =
    ground (arith, after_cutoff-after_cutoff now window d)

put-put : (k v w : ℕ) (d : Dict ℕ) → put k v (put k w d) ≡ put k v d
unfolding put
put-put k v w [] = ground arith
put-put k v w ((j, x) ∷ d) = ground (arith, put-put k v w d)

after_cutoff-put :
    (now window v : ℕ) (d : Dict ℕ)
    → after_cutoff now window (put now v d)
      ≡ (if ltb 0 window then put now v (after_cutoff now window d) else after_cutoff now window d)
unfolding after_cutoff put
after_cutoff-put now window v [] = ground arith
after_cutoff-put now window v ((j, x) ∷ d) = ground (arith, after_cutoff-put now window v d)

-- The requests on record after a grant.
abbrev noted : ℕ → ℕ → Dict ℕ → Dict ℕ
noted now window d = put now 1 (after_cutoff now window d)

noted-noted :
    (now window : ℕ) (d : Dict ℕ) → noted now window (noted now window d) ≡ noted now window d
noted-noted now window d =
    rw
      (
        after_cutoff-put now window 1 (after_cutoff now window d),
        after_cutoff-after_cutoff now window d,
      )
      (elim (Bool-cases (ltb 0 window)) [
        | inl wide ↦ rw (wide, if◌then◌else◌) (put-put now 1 1 (after_cutoff now window d))
        | inr narrow ↦ rw (narrow, if◌then◌else◌) refl
      ])

grant_leaky :
    (s : Scale) (l : RateLimiter) (now : ℕ)
    → l.strategy ≡ leaky_bucket
    → (acquire s l now).1 ≡ true
    → acquire s l now
      ≡ (record l { window_requests = noted now l.window_size l.window_requests }, true)
unfolding acquire acquire_leaky
grant_leaky s l now kind granted = ground (arith, kind)

all_granted :
    (s : Scale) (l : RateLimiter) (now n : ℕ)
    → acquire s l now ≡ (l, true)
    → All (λ a. a ≡ true) (poll_answers s n l now)
unfolding poll_answers
all_granted s l now zero h = tt
all_granted s l now (suc n) h = rw h (refl, all_granted s l now n h)

-- The strategy counts the requests by their instants: `_window_requests[now] = 1` is set anew. So
-- a leaky limiter that grants a second request at one instant grants any number of them there.
pub instant_unlimited :
    (s : Scale) (l : RateLimiter) (now n : ℕ)
    → l.strategy ≡ leaky_bucket
    → (acquire s l now).1 ≡ true
    → (acquire s (acquire s l now).0 now).1 ≡ true
    → All (λ a. a ≡ true) (poll_answers s n l now)
unfolding poll_answers
instant_unlimited s l now zero kind first second = tt
instant_unlimited s l now (suc n) kind first second =
    let l' = record l { window_requests = noted now l.window_size l.window_requests } in
    let once = grant_leaky s l now kind first in
    let twice = grant_leaky s l' now kind (ap (λ x. (acquire s x.0 now).1) (sym once) ∙ second) in
    let same : acquire s l' now ≡ (l', true) =
      twice
      ∙ ap (λ d. (record l { window_requests = d }, true))
          (noted-noted now l.window_size l.window_requests) in
    (first, rw once (all_granted s l' now n same))
