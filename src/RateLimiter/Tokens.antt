-- ===== src/RateLimiter/Tokens.antt =====
-- core/coordination/rate_limiter.py: the token bucket, in `RateLimiter.acquire` and in
-- `TokenBucket.consume`.
use puffinfloww.Base.{
  ℕ, zero, suc, ◌+◌, ◌-◌, ◌*◌, ◌≤◌, ◌<◌, ◌≡◌, refl, inl, inr, Bool, true, false, Option, none, some,
  List, [], ◌∷◌, arith, ap, ◌∙◌, leb, if◌then◌else◌, leb→le, Bool-cases,
}
use puffinfloww.RateLimiter.{
  Scale, one, RateLimiter, token_bucket, create, refill, acquire, acquire_token, poll,
}

-- `TokenBucket.__init__`: the initial tokens, where they are given, are not capped by the capacity.
unfoldable pub create_bucket : Scale → ℕ → ℕ → Option ℕ → ℕ → RateLimiter
unfolding create
create_bucket s rate capacity initial now =
    let l = create s rate capacity token_bucket s.ticks now in
    elim initial [ none ↦ l | some n ↦ record l { tokens = n * one s } ]

-- `TokenBucket.consume`: the refill counts also where the tokens do not suffice.
unfoldable pub consume : Scale → RateLimiter → ℕ → ℕ → RateLimiter × Bool
unfolding refill
consume s l n now =
    let filled = refill l now in
    if leb (n * one s) filled
    then (record l { tokens = filled - n * one s; last_update = now }, true)
    else (record l { tokens = filled; last_update = now }, false)

-- What a history of calls of `consume` grants in all; a call comes some ticks after the one before.
unfoldable pub consumed : Scale → RateLimiter → ℕ → List (ℕ × ℕ) → ℕ
unfolding consume
consumed s l now [] = 0
consumed s l now ((delay, n) ∷ calls) =
    let (l', granted) = consume s l n (now + delay) in
    (if granted then n * one s else 0) + consumed s l' (now + delay) calls

unfoldable pub elapsed : List (ℕ × ℕ) → ℕ
elapsed [] = 0
elapsed ((delay, n) ∷ calls) = delay + elapsed calls

mul_split : (a b c : ℕ) → (a + b) * c ≡ a * c + b * c
mul_split a b c = omega arith

refill_le :
    (l : RateLimiter) (now delay : ℕ)
    → l.last_update ≡ now
    → refill l (now + delay) ≤ l.tokens + delay * l.max_rate
unfolding refill
refill_le l now delay h =
    let same : now + delay - l.last_update ≡ delay = omega arith in rw (same, refill) (ground arith)

consumed_le :
    (s : Scale) (l : RateLimiter) (now : ℕ) (calls : List (ℕ × ℕ))
    → l.last_update ≡ now
    → consumed s l now calls ≤ l.tokens + elapsed calls * l.max_rate
unfolding consumed elapsed consume refill
consumed_le s l now [] h = omega arith
consumed_le s l now ((delay, n) ∷ calls) h =
    let gain : refill l (now + delay) ≤ l.tokens + delay * l.max_rate = refill_le l now delay h in
    let filled = refill l (now + delay) in
    elim (Bool-cases (leb (n * one s) filled)) [
      | inl enough ↦
          let l' = record l { tokens = filled - n * one s; last_update = now + delay } in
          let rest = consumed_le s l' (now + delay) calls refl in
          rw (enough, if◌then◌else◌) (omega (arith, rest, gain, leb→le _ _ enough))
      | inr short ↦
          let l' = record l { tokens = filled; last_update = now + delay } in
          let rest = consumed_le s l' (now + delay) calls refl in
          rw (short, if◌then◌else◌) (omega (arith, rest, gain))
    ]

-- Whatever calls of `consume` come, and when: the tokens that a new bucket grants are at most its
-- capacity and what its rate makes in the time that they take.
pub consume_bounded :
    (s : Scale) (rate capacity now : ℕ) (calls : List (ℕ × ℕ))
    → consumed s (create_bucket s rate capacity none now) now calls
      ≤ capacity * one s + elapsed calls * rate
unfolding create_bucket create
consume_bounded s rate capacity now calls =
    consumed_le s (create_bucket s rate capacity none now) now calls refl

denied_poll :
    (s : Scale) (l : RateLimiter) (now : ℕ)
    → l.strategy ≡ token_bucket
    → refill l now < one s
    → acquire s l now ≡ (record l { tokens = refill l now }, false)
unfolding acquire acquire_token
denied_poll s l now kind low = ground (arith, kind, low)

first_refill :
    (s : Scale) (l : RateLimiter) (now n : ℕ)
    → one s ≤ l.burst_size
    → l.tokens + suc n * ((now - l.last_update) * l.max_rate) < one s
    → refill l now ≡ l.tokens + (now - l.last_update) * l.max_rate
unfolding refill
first_refill s l now n room low = omega arith

-- Polling a token bucket counts the time since its last grant anew at each call: calls at one
-- instant that are denied add the same refill each, and once these make a token together the next
-- call at that instant is granted.
pub poll_refills :
    (s : Scale) (l : RateLimiter) (now n : ℕ)
    → l.strategy ≡ token_bucket
    → one s ≤ l.burst_size
    → l.tokens + n * ((now - l.last_update) * l.max_rate) < one s
    → one s ≤ l.tokens + (n + 1) * ((now - l.last_update) * l.max_rate)
    → (poll s n l now ≡ record l { tokens = l.tokens + n * ((now - l.last_update) * l.max_rate) })
      × ((acquire s (poll s n l now) now).1 ≡ true)
unfolding poll
poll_refills s l now zero kind room low high =
    (ground arith, unfold acquire acquire_token refill in ground (arith, kind))
poll_refills s l now (suc n) kind room low high =
    let gain = (now - l.last_update) * l.max_rate in
    let filled = first_refill s l now n room low in
    let step = denied_poll s l now kind (omega (arith, filled)) in
    let (run, next) =
      poll_refills s (record l { tokens = l.tokens + gain }) now n kind room (omega arith)
        (omega arith) in
    rw (step, filled) (run ∙ ap (λ t. record l { tokens = t }) (omega arith), next)
