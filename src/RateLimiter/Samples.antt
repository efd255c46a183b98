-- ===== src/RateLimiter/Samples.antt =====
-- core/coordination/rate_limiter.py: small runs of the limiters.
use puffinfloww.Base.{ℕ, ◌+◌, ◌*◌, ◌≤◌, ◌≡◌, refl, none, [], ◌∷◌, arith, put, values, sum}
use puffinfloww.RateLimiter.{
  Scale, one, RateLimiter, token_bucket, leaky_bucket, create, refill, acquire, acquire_token,
  acquire_leaky, after_cutoff, poll, poll_answers,
}
use puffinfloww.RateLimiter.Tokens.{create_bucket, consume, consumed, elapsed, consume_bounded}
use puffinfloww.RateLimiter.Leaky.{create_leaky, admitted, admitted_bounded, instant_unlimited}
use puffinfloww.RateLimiter.Leaky
use puffinfloww.RateLimiter.Windows.{promised}
use puffinfloww.RateLimiter.Sliding.{sliding_answers, create_sliding, in_last, sliding_refines}
use puffinfloww.RateLimiter.Fixed.{fixed_answers, create_fixed, in_same, fixed_refines}
use puffinfloww.RateLimiter.Waiting.{Round}

-- Whole requests per second, and times in seconds.
abbrev plain : Scale
plain = record { parts = 1; ticks = 1 }

-- Times in tenths of a second.
abbrev tenths : Scale
tenths = record { parts = 1; ticks = 10 }

program : Unit {0}
unfolding create refill acquire acquire_token acquire_leaky after_cutoff poll poll_answers
    create_bucket consume consumed elapsed put values sum
program = tt

consumed_run : consumed plain (create_bucket plain 2 5 none 0) 0 ((0, 4) ∷ (1, 4) ∷ (1, 4) ∷ []) ≡ 8
unfolding program
consumed_run = refl

consume_bounded_example :
    consumed plain (create_bucket plain 2 5 none 0) 0 ((0, 4) ∷ (1, 4) ∷ (1, 4) ∷ [])
    ≤ 5 * one plain + elapsed ((0, 4) ∷ (1, 4) ∷ (1, 4) ∷ []) * 2
consume_bounded_example = consume_bounded plain 2 5 0 ((0, 4) ∷ (1, 4) ∷ (1, 4) ∷ [])

-- One request per second; the token was spent at 0, and three tenths have passed.
abbrev drained : RateLimiter
drained = record {
  max_rate = 1;
  burst_size = 10;
  strategy = token_bucket;
  window_size = 10;
  tokens = 0;
  last_update = 0;
  window_requests = [];
}

admitted_bounded_example :
    admitted plain (create_leaky 2 3 0) 0 (0 ∷ 0 ∷ 0 ∷ 0 ∷ 1 ∷ []) * one plain
    ≤ 3 * one plain + Leaky.elapsed (0 ∷ 0 ∷ 0 ∷ 0 ∷ 1 ∷ []) * 2
admitted_bounded_example = admitted_bounded plain 2 3 0 (0 ∷ 0 ∷ 0 ∷ 0 ∷ 1 ∷ [])

abbrev per_second : RateLimiter
per_second = record drained { strategy = leaky_bucket; max_rate = 2 }

sliding_refines_example :
    sliding_answers plain (create_sliding 1 2) 0 (0 ∷ 1 ∷ 0 ∷ 1 ∷ 1 ∷ [])
    ≡ promised plain (in_last 2) 1 2 [] 0 (0 ∷ 1 ∷ 0 ∷ 1 ∷ 1 ∷ [])
sliding_refines_example = sliding_refines plain 1 2 0 (0 ∷ 1 ∷ 0 ∷ 1 ∷ 1 ∷ [])

fixed_refines_example :
    fixed_answers plain (create_fixed 1 2) 0 (0 ∷ 1 ∷ 0 ∷ 1 ∷ 1 ∷ [])
    ≡ promised plain (in_same 2) 1 2 [] 0 (0 ∷ 1 ∷ 0 ∷ 1 ∷ 1 ∷ [])
fixed_refines_example = fixed_refines plain 1 2 0 (0 ∷ 1 ∷ 0 ∷ 1 ∷ 1 ∷ []) (omega arith)

abbrev single : RateLimiter
single = create plain 1 1 token_bucket 1 0

abbrev spent : RateLimiter
spent = record single { tokens = 0 }

abbrev round : ℕ → Round
round t = record { asked = t; checked = t; capped = t }
