-- ===== src/RateLimiter/Waiting.antt =====
-- core/coordination/rate_limiter.py: `RateLimiter.wait_for_token`. A round of its loop reads the
-- clock three times; the readings are given, and so is their number.
use puffinfloww.Base.{
  ℕ, ◌-◌, ◌<◌, ◌≡◌, refl, ◌⊎◌, inl, inr, Bool, true, false, ◌||◌, Option, none, some, List, [], ◌∷◌,
  arith, ltb, leb, ◌==◌, if◌then◌else◌, Bool-cases,
}
use puffinfloww.RateLimiter.{
  Scale, one, Strategy, token_bucket, leaky_bucket, fixed_window, sliding_window, RateLimiter,
  acquire,
}

pub record Round : Type 0 where
  pub asked : ℕ
  pub checked : ℕ
  pub capped : ℕ

-- The end of a round: the call returns, it divides by the rate 0, or it sleeps and goes round again.
pub data Waited : Type 0 where
  returns : RateLimiter → Bool → Waited
  divides_by_zero : RateLimiter → Waited
  sleeps : RateLimiter → Waited

-- `_calculate_wait_time`, as a fraction: its numerator, in ticks, and its denominator.
unfoldable pub wait_time : Scale → RateLimiter → ℕ × ℕ
wait_time s l = elim l.strategy [
  | token_bucket ↦ if ltb l.tokens (one s) then (one s - l.tokens, l.max_rate) else (s.ticks, 10)
  | _ ↦ (s.ticks, 10)
]

-- A timeout of 0 counts as none.
abbrev pub has_passed : Option ℕ → ℕ → Bool
has_passed none elapsed = false
has_passed (some t) elapsed = if t == 0 then false else leb t elapsed

-- `wait_time <= 0` after `min(wait_time, timeout - elapsed)`: one of the two is not positive.
unfoldable pub wait_round : Scale → RateLimiter → Option ℕ → ℕ → Round → Waited
unfolding wait_time
wait_round s l timeout start r =
    let (l', granted) = acquire s l r.asked in
    if granted
    then returns l' true
    else if has_passed timeout (r.checked - start)
    then returns l' false
    else (let (ticks, rate) = wait_time s l' in
        if rate == 0
        then divides_by_zero l'
        else if has_passed timeout (r.capped - start) || (ticks == 0)
        then returns l' false
        else sleeps l')

-- `none` while the call sleeps after the last round given.
unfoldable pub wait_for_token : Scale → RateLimiter → Option ℕ → ℕ → List Round → Option Waited
unfolding wait_round
wait_for_token s l timeout start [] = none
wait_for_token s l timeout start (r ∷ rs) = elim (wait_round s l timeout start r) [
  | returns l' b ↦ some (returns l' b)
  | divides_by_zero l' ↦ some (divides_by_zero l')
  | sleeps l' ↦ wait_for_token s l' timeout start rs
]

-- The first grant of calls of `acquire` at the times of the rounds, and nothing else.
unfoldable pub first_grant : Scale → RateLimiter → List Round → Option Waited
first_grant s l [] = none
first_grant s l (r ∷ rs) =
    let rest = first_grant s (acquire s l r.asked).0 rs in
    if (acquire s l r.asked).1 then some (returns (acquire s l r.asked).0 true) else rest

acquire_rate : (s : Scale) (l : RateLimiter) (now : ℕ) → (acquire s l now).0.max_rate ≡ l.max_rate
unfolding acquire puffinfloww.RateLimiter.acquire_token puffinfloww.RateLimiter.acquire_leaky
    puffinfloww.RateLimiter.acquire_window
acquire_rate s l now = ground arith

wait_time_positive :
    (s : Scale) (l : RateLimiter)
    → 0 < l.max_rate
    → 0 < s.ticks
    → (0 < (wait_time s l).0) × (0 < (wait_time s l).1)
unfolding wait_time
wait_time_positive s l rate ticks = ground arith

round_without :
    (s : Scale) (l : RateLimiter) (timeout : Option ℕ) (start : ℕ) (r : Round)
    → (timeout ≡ none) ⊎ (timeout ≡ some 0)
    → 0 < l.max_rate
    → 0 < s.ticks
    → wait_round s l timeout start r ≡ (
        if (acquire s l r.asked).1
        then returns (acquire s l r.asked).0 true
        else sleeps (acquire s l r.asked).0)
unfolding wait_round
round_without s l timeout start r without rate ticks =
    let more =
      wait_time_positive s (acquire s l r.asked).0 (rw (acquire_rate s l r.asked) rate) ticks in
    ground (arith, more, without)

-- With no timeout, or a timeout of 0, and a rate above 0, the call does no more than to ask again
-- and again: it never returns false, and it returns true at the first grant.
pub wait_without_timeout :
    (s : Scale) (l : RateLimiter) (timeout : Option ℕ) (start : ℕ) (rs : List Round)
    → (timeout ≡ none) ⊎ (timeout ≡ some 0)
    → 0 < l.max_rate
    → 0 < s.ticks
    → wait_for_token s l timeout start rs ≡ first_grant s l rs
unfolding wait_for_token first_grant
wait_without_timeout s l timeout start [] without rate ticks = refl
wait_without_timeout s l timeout start (r ∷ rs) without rate ticks =
    let rest =
      wait_without_timeout s (acquire s l r.asked).0 timeout start rs without
        (rw (acquire_rate s l r.asked) rate) ticks in
    elim (Bool-cases (acquire s l r.asked).1) [
      | inl granted ↦ rw (
        wait_for_token,
        first_grant,
        round_without s l timeout start r without rate ticks,
        granted,
      )
      | inr denied ↦
          rw
            (
              wait_for_token,
              first_grant,
              round_without s l timeout start r without rate ticks,
              denied,
            )
            rest
    ]
