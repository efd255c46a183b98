-- ===== src/RateLimiter/Sliding.antt =====
-- core/coordination/rate_limiter.py: `SlidingWindow`.
use puffinfloww.Base.{
  ℕ, ◌+◌, ◌≤◌, ◌≡◌, refl, sym, ap, inl, inr, Bool, true, false, List, [], ◌∷◌, ◌++◌, arith, ltb,
  leb, if◌then◌else◌, length, Bool-cases, All,
}
use puffinfloww.RateLimiter.{Scale}
use puffinfloww.RateLimiter.Windows.{
  count, has_room, promised, IsOrdered, All-append_one, All_later, IsOrdered-append_one,
}

pub record SlidingWindow : Type 0 where
  pub max_rate : ℕ
  pub window_size : ℕ
  pub request_log : List ℕ

unfoldable pub create_sliding : ℕ → ℕ → SlidingWindow
create_sliding rate window = record { max_rate = rate; window_size = window; request_log = [] }

-- `while log and log[0] < now - window: log.popleft()`
unfoldable pub drop_expired : (window now : ℕ) → List ℕ → List ℕ
drop_expired window now [] = []
drop_expired window now (t ∷ log) =
    let rest = drop_expired window now log in if ltb (t + window) now then rest else t ∷ log

unfoldable pub acquire_sliding : Scale → SlidingWindow → ℕ → SlidingWindow × Bool
unfolding drop_expired
acquire_sliding s l now =
    let log = drop_expired l.window_size now l.request_log in
    if has_room s l.max_rate l.window_size (length log)
    then (record l { request_log = log ++ now ∷ [] }, true)
    else (record l { request_log = log }, false)

unfoldable pub sliding_answers : Scale → SlidingWindow → ℕ → List ℕ → List Bool
unfolding acquire_sliding
sliding_answers s l now [] = []
sliding_answers s l now (delay ∷ delays) =
    (acquire_sliding s l (now + delay)).1
    ∷ sliding_answers s (acquire_sliding s l (now + delay)).0 (now + delay) delays

-- The grant at `t` is no older than the window at `now`.
abbrev pub in_last : ℕ → ℕ → ℕ → Bool
in_last window now t = leb now (t + window)

-- The grants that are no older.
recent : ℕ → ℕ → List ℕ → List ℕ
recent window now [] = []
recent window now (t ∷ h) =
    if in_last window now t then t ∷ recent window now h else recent window now h

length-recent :
    (window now : ℕ) (h : List ℕ) → length (recent window now h) ≡ count (in_last window now) h
unfolding recent count
length-recent window now [] = refl
length-recent window now (t ∷ h) = ground (arith, length-recent window now h)

recent-append_now :
    (window now : ℕ) (h : List ℕ)
    → recent window now (h ++ now ∷ []) ≡ recent window now h ++ now ∷ []
unfolding recent
recent-append_now window now [] = ground arith
recent-append_now window now (t ∷ h) = ground (arith, recent-append_now window now h)

recent_all :
    (window now t : ℕ) (h : List ℕ)
    → now ≤ t + window
    → All (λ u. t ≤ u) h
    → recent window now h ≡ h
unfolding recent
recent_all window now t [] le a = refl
recent_all window now t (u ∷ h) le a = ground (arith, recent_all window now t h le a.1)

drop_expired-recent :
    (window now later : ℕ) (h : List ℕ)
    → now ≤ later
    → IsOrdered h
    → drop_expired window later (recent window now h) ≡ recent window later h
unfolding drop_expired recent
drop_expired-recent window now later [] le o = refl
drop_expired-recent window now later (t ∷ h) le o =
    let rest = drop_expired-recent window now later h le o.1 in
    elim (Bool-cases (in_last window later t)) [
      | inr old ↦ ground (arith, rest)
      | inl young ↦ ground (
        arith,
        recent_all window now t h (ground arith) o.0,
        recent_all window later t h (ground arith) o.0,
      )
    ]

answers_promised :
    (s : Scale) (l : SlidingWindow) (h : List ℕ) (now : ℕ) (delays : List ℕ)
    → l.request_log ≡ recent l.window_size now h
    → IsOrdered h
    → All (λ u. u ≤ now) h
    → sliding_answers s l now delays
      ≡ promised s (in_last l.window_size) l.max_rate l.window_size h now delays
unfolding sliding_answers promised acquire_sliding
answers_promised s l h now [] e o a = refl
answers_promised s l h now (delay ∷ delays) e o a =
    let t = now + delay in
    let w = l.window_size in
    let a' = All_later h now t (omega arith) a in
    let cut : drop_expired w t l.request_log ≡ recent w t h =
      rw e (drop_expired-recent w now t h (omega arith) o) in
    elim (Bool-cases (has_room s l.max_rate w (count (in_last w t) h))) [
      | inl room ↦
          let rest =
            answers_promised s (record l { request_log = recent w t h ++ t ∷ [] }) (h ++ t ∷ []) t
              delays (sym (recent-append_now w t h)) (IsOrdered-append_one h t o a')
              (All-append_one (λ u. u ≤ t) h t a' (omega arith)) in
          rw (cut, length-recent w t h, room, if◌then◌else◌) (ap (λ bs. true ∷ bs) rest)
      | inr full ↦
          let rest =
            answers_promised s (record l { request_log = recent w t h }) h t delays refl o a' in
          rw (cut, length-recent w t h, full, if◌then◌else◌) (ap (λ bs. false ∷ bs) rest)
    ]

-- A new sliding window answers every history of calls as promised: the log that it cuts off at the
-- front counts what the whole history of grants has in the last window.
pub sliding_refines :
    (s : Scale) (rate window now : ℕ) (delays : List ℕ)
    → sliding_answers s (create_sliding rate window) now delays
      ≡ promised s (in_last window) rate window [] now delays
unfolding create_sliding recent
sliding_refines s rate window now delays =
    answers_promised s (create_sliding rate window) [] now delays refl tt tt
