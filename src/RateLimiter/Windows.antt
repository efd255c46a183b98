-- ===== src/RateLimiter/Windows.antt =====
-- core/coordination/rate_limiter.py: what `SlidingWindow` and `FixedWindow` promise. The promise
-- counts the grants so far that a test places in the window of the present time.
use puffinfloww.Base.{
  ℕ, suc, ◌+◌, ◌*◌, Bool, true, false, List, [], ◌∷◌, ◌++◌, ltb, if◌then◌else◌, All, ◌≤◌, arith,
  ◌≡◌, refl,
}
use puffinfloww.RateLimiter.{Scale, one}

unfoldable pub count : (ℕ → Bool) → List ℕ → ℕ
count test [] = 0
count test (t ∷ ts) = if test t then suc (count test ts) else count test ts

-- `len(...) < self.max_rate * self.window_size`
abbrev pub has_room : Scale → (rate window number : ℕ) → Bool
has_room s rate window number = ltb (number * one s) (rate * window)

-- The answers that the promise gives to calls, each some ticks after the one before: a request is
-- granted as long as there is room in the window, and every grant ever made is remembered.
unfoldable pub promised :
    Scale → (within : ℕ → ℕ → Bool) → (rate window : ℕ) → List ℕ → ℕ → List ℕ → List Bool
unfolding count
promised s within rate window h now [] = []
promised s within rate window h now (delay ∷ delays) =
    let t = now + delay in
    if has_room s rate window (count (within t) h)
    then true ∷ promised s within rate window (h ++ t ∷ []) t delays
    else false ∷ promised s within rate window h t delays

-- Times in order.
abbrev pub IsOrdered : List ℕ → Type 0
IsOrdered [] = Unit {0}
IsOrdered (t ∷ h) = All (λ u. t ≤ u) h × IsOrdered h

pub All-append_one : (P : ℕ → Type 0) (h : List ℕ) (x : ℕ) → All P h → P x → All P (h ++ x ∷ [])
All-append_one P [] x a p = (p, tt)
All-append_one P (t ∷ h) x a p = (a.0, All-append_one P h x a.1 p)

pub All_later :
    (h : List ℕ) (now later : ℕ) → now ≤ later → All (λ u. u ≤ now) h → All (λ u. u ≤ later) h
All_later [] now later le a = tt
All_later (t ∷ h) now later le a = (omega (arith, a.0), All_later h now later le a.1)

pub IsOrdered-append_one :
    (h : List ℕ) (x : ℕ) → IsOrdered h → All (λ u. u ≤ x) h → IsOrdered (h ++ x ∷ [])
IsOrdered-append_one [] x o a = (tt, tt)
IsOrdered-append_one (t ∷ h) x o a =
    (All-append_one (λ u. t ≤ u) h x o.0 a.0, IsOrdered-append_one h x o.1 a.1)

pub count-append_one :
    (test : ℕ → Bool) (h : List ℕ) (x : ℕ)
    → count test (h ++ x ∷ []) ≡ (if test x then suc (count test h) else count test h)
unfolding count
count-append_one test [] x = refl
count-append_one test (t ∷ h) x = ground (arith, count-append_one test h x)
