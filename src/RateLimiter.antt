-- ===== src/RateLimiter.antt =====
-- core/coordination/rate_limiter.py: `RateLimiter`, its four strategies and the loop that waits for
-- a token. A time is a number of ticks and a rate a fraction with a fixed denominator, so that every
-- comparison of the source is one of whole numbers. The clock, which the source reads, is an
-- argument, and it never goes back: a difference of two readings that stops at 0 is the difference.
pub mod Tokens
pub mod Leaky
pub mod Windows
pub mod Sliding
pub mod Fixed
pub mod Waiting
pub mod Composite
pub mod Samples
use puffinfloww.Base.{
  ℕ, suc, ◌+◌, ◌-◌, ◌*◌, ◌/◌, Bool, true, false, Option, none, some, List, [], ◌∷◌, Dict, ltb, leb,
  ◌==◌, if◌then◌else◌, put, total, min,
}

-- How numbers stand for the source's: a second has `ticks` ticks, and a rate or a number of
-- requests is that many parts of which `parts` make 1. An amount of tokens is rate times time.
pub record Scale : Type 0 where
  pub parts : ℕ
  pub ticks : ℕ

-- One token.
abbrev pub one : Scale → ℕ
one s = s.parts * s.ticks

pub data Strategy : Type 0 where
  token_bucket leaky_bucket fixed_window sliding_window : Strategy

pub record RateLimiter : Type 0 where
  pub max_rate : ℕ
  pub burst_size : ℕ
  pub strategy : Strategy
  pub window_size : ℕ
  pub tokens : ℕ
  pub last_update : ℕ
  pub window_requests : Dict ℕ

-- The dataclass's constructor and `__post_init__`; the burst is a number of tokens.
unfoldable pub create : Scale → ℕ → ℕ → Strategy → ℕ → ℕ → RateLimiter
create s max_rate burst strategy window_size now = record {
  max_rate = max_rate;
  burst_size = burst * one s;
  strategy = strategy;
  window_size = window_size;
  tokens = burst * one s;
  last_update = now;
  window_requests = [];
}

-- `min(self.burst_size, self._tokens + time_passed * self.max_rate)`
unfoldable pub refill : RateLimiter → ℕ → ℕ
refill l now = min l.burst_size (l.tokens + (now - l.last_update) * l.max_rate)

unfoldable pub acquire_token : Scale → RateLimiter → ℕ → RateLimiter × Bool
unfolding refill
acquire_token s l now =
    let filled = refill l now in
    if leb (one s) filled
    then (record l { tokens = filled - one s; last_update = now }, true)
    else (record l { tokens = filled }, false)

-- `{ts: count ... if ts > cutoff}`, for the cutoff `now - window`
unfoldable pub after_cutoff : (now window : ℕ) → Dict ℕ → Dict ℕ
after_cutoff now window [] = []
after_cutoff now window ((ts, count) ∷ d) =
    if ltb now (ts + window)
    then (ts, count) ∷ after_cutoff now window d
    else after_cutoff now window d

unfoldable pub acquire_leaky : Scale → RateLimiter → ℕ → RateLimiter × Bool
unfolding after_cutoff
acquire_leaky s l now =
    let kept = after_cutoff now l.window_size l.window_requests in
    if ltb (total kept * s.parts) l.max_rate
    then (record l { window_requests = put now 1 kept }, true)
    else (record l { window_requests = kept }, false)

-- The sum of the counts of the entries that pass a test.
unfoldable pub count_where : (ℕ → Bool) → Dict ℕ → ℕ
count_where test [] = 0
count_where test ((ts, count) ∷ d) =
    if test ts then count + count_where test d else count_where test d

-- `ts >= window_start`: the start of a fixed window is a multiple of its size, and that of a
-- sliding window is `now - window_size`.
abbrev pub in_window : RateLimiter → ℕ → ℕ → Bool
in_window l now ts = elim l.strategy [
  | sliding_window ↦ leb now (ts + l.window_size)
  | _ ↦ leb (now / l.window_size * l.window_size) ts
]

unfoldable pub acquire_window : Scale → RateLimiter → ℕ → RateLimiter × Bool
unfolding count_where
acquire_window s l now =
    if ltb (count_where (in_window l now) l.window_requests * s.parts) l.max_rate
    then (record l { window_requests = put now 1 l.window_requests }, true)
    else (l, false)

unfoldable pub acquire : Scale → RateLimiter → ℕ → RateLimiter × Bool
unfolding acquire_token acquire_leaky acquire_window
acquire s l now = elim l.strategy [
  | token_bucket ↦ acquire_token s l now
  | leaky_bucket ↦ acquire_leaky s l now
  | fixed_window ↦ acquire_window s l now
  | sliding_window ↦ acquire_window s l now
]

-- A number of calls of `acquire` at one instant.
unfoldable pub poll : Scale → ℕ → RateLimiter → ℕ → RateLimiter
unfolding acquire
poll s ℕ.zero l now = l
poll s (suc n) l now = poll s n (acquire s l now).0 now

unfoldable pub poll_answers : Scale → ℕ → RateLimiter → ℕ → List Bool
unfolding acquire
poll_answers s ℕ.zero l now = []
poll_answers s (suc n) l now = (acquire s l now).1 ∷ poll_answers s n (acquire s l now).0 now
