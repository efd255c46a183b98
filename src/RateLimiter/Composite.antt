-- ===== src/RateLimiter/Composite.antt =====
-- core/coordination/rate_limiter.py: `CompositeRateLimiter`, over limiters of the class
-- `RateLimiter`.
use puffinfloww.Base.{
  ℕ, ◌≡◌, Bool, true, false, List, [], ◌∷◌, ◌++◌, arith, if◌then◌else◌, map, All,
}
use puffinfloww.RateLimiter.{Scale, RateLimiter, acquire}

-- `for limiter in self.limiters: if not await limiter.acquire(): return False`, at one reading of
-- the clock.
unfoldable pub acquire_all : Scale → List RateLimiter → ℕ → List RateLimiter × Bool
unfolding acquire
acquire_all s [] now = ([], true)
acquire_all s (l ∷ ls) now =
    let (l', granted) = acquire s l now in
    let (ls', all_granted) = acquire_all s ls now in
    if granted then (l' ∷ ls', all_granted) else (l' ∷ ls, false)

-- Every limiter would grant a request.
abbrev pub AllGrant : Scale → List RateLimiter → ℕ → Type 0
AllGrant s ls now = All (λ l. (acquire s l now).1 ≡ true) ls

-- Limiters of which the first `n` grant and the next one refuses: the request is refused, but the
-- `n` limiters have each spent a grant on it, and those after the refusing one are not asked.
pub acquire_all_spends :
    (s : Scale) (ls : List RateLimiter) (l : RateLimiter) (rest : List RateLimiter) (now : ℕ)
    → AllGrant s ls now
    → (acquire s l now).1 ≡ false
    → acquire_all s (ls ++ l ∷ rest) now
      ≡ (map (λ k. (acquire s k now).0) ls ++ (acquire s l now).0 ∷ rest, false)
unfolding acquire_all
acquire_all_spends s [] l rest now all refused = ground arith
acquire_all_spends s (k ∷ ls) l rest now all refused =
    rw (all.0, acquire_all_spends s ls l rest now all.1 refused, if◌then◌else◌)
