-- ===== src/RateLimiter/Fixed.antt =====
-- core/coordination/rate_limiter.py: `FixedWindow`. Its window size is not 0, where the source
-- divides by it.
use puffinfloww.Base.{
  ℕ, ◌+◌, ◌/◌, ◌≤◌, ◌<◌, ◌≡◌, refl, ap, inl, inr, Bool, true, false, List, [], ◌∷◌, ◌++◌, arith,
  ltb, if◌then◌else◌, Bool-cases, Dict, get, get_or, put, get-put, ◌==◌, ==→eq,
}
use native.Mathlib.Nat.{div-mul-le_self, le-div_iff_mul-le}
use puffinfloww.RateLimiter.{Scale}
use puffinfloww.RateLimiter.Windows.{count, has_room, promised, count-append_one}

pub record FixedWindow : Type 0 where
  pub max_rate : ℕ
  pub window_size : ℕ
  pub window_counts : Dict ℕ

unfoldable pub create_fixed : ℕ → ℕ → FixedWindow
create_fixed rate window = record { max_rate = rate; window_size = window; window_counts = [] }

-- `{w: c ... if w > window_id - 2}`
unfoldable pub clean_windows : ℕ → Dict ℕ → Dict ℕ
clean_windows window_id [] = []
clean_windows window_id ((w, c) ∷ d) =
    if ltb window_id (w + 2) then (w, c) ∷ clean_windows window_id d else clean_windows window_id d

unfoldable pub acquire_fixed : Scale → FixedWindow → ℕ → FixedWindow × Bool
unfolding clean_windows
acquire_fixed s l now =
    let window_id = now / l.window_size in
    let number = get_or window_id l.window_counts 0 in
    if has_room s l.max_rate l.window_size number
    then (
      record l {
        window_counts = clean_windows window_id (put window_id (number + 1) l.window_counts);
      },
      true,
    )
    else (l, false)

unfoldable pub fixed_answers : Scale → FixedWindow → ℕ → List ℕ → List Bool
unfolding acquire_fixed
fixed_answers s l now [] = []
fixed_answers s l now (delay ∷ delays) =
    (acquire_fixed s l (now + delay)).1
    ∷ fixed_answers s (acquire_fixed s l (now + delay)).0 (now + delay) delays

-- The grant at `t` falls into the window that `now` is in.
abbrev pub in_same : ℕ → ℕ → ℕ → Bool
in_same window now t = (now / window) == (t / window)

get-clean_windows :
    (i window_id : ℕ) (d : Dict ℕ) → window_id ≤ i → get i (clean_windows window_id d) ≡ get i d
unfolding get clean_windows
get-clean_windows i window_id [] h = refl
get-clean_windows i window_id ((w, c) ∷ d) h = ground (arith, get-clean_windows i window_id d h)

div_mono : (w a b : ℕ) → 0 < w → a ≤ b → a / w ≤ b / w
div_mono w a b pos le = (le-div_iff_mul-le pos).1 (omega (arith, div-mul-le_self a w))

-- The counts of the present window and of all later ones.
abbrev Counted : FixedWindow → List ℕ → ℕ → Type 0
Counted l h now =
    (i : ℕ)
    → now / l.window_size ≤ i
    → get_or i l.window_counts 0 ≡ count (λ t. i == (t / l.window_size)) h

Counted-grant :
    (l : FixedWindow) (h : List ℕ) (t : ℕ)
    → Counted l h t
    → (n : ℕ) → get_or (t / l.window_size) l.window_counts 0 ≡ n
    → Counted
        (record l {
          window_counts =
              clean_windows (t / l.window_size) (put (t / l.window_size) (n + 1) l.window_counts);
        })
        (h ++ t ∷ [])
        t
Counted-grant l h t e n same i le =
    let w = l.window_size in
    rw
      (
        get_or,
        get-clean_windows i (t / w) (put (t / w) (n + 1) l.window_counts) le,
        get-put i (t / w) (n + 1) l.window_counts,
        count-append_one (λ u. i == (u / w)) h t,
      )
      (elim (Bool-cases (i == (t / w))) [
        | inr other ↦ rw (other, if◌then◌else◌) (e i le)
        | inl mine ↦
            rw (mine, if◌then◌else◌)
              (ground (
                arith,
                ==→eq i (t / w) mine,
                e i le,
                same,
                ap (λ j. get_or j l.window_counts 0) (==→eq i (t / w) mine),
              ))
      ])

answers_promised :
    (s : Scale) (l : FixedWindow) (h : List ℕ) (now : ℕ) (delays : List ℕ)
    → 0 < l.window_size
    → Counted l h now
    → fixed_answers s l now delays
      ≡ promised s (in_same l.window_size) l.max_rate l.window_size h now delays
unfolding fixed_answers promised acquire_fixed
answers_promised s l h now [] p e = refl
answers_promised s l h now (delay ∷ delays) p e =
    let t = now + delay in
    let w = l.window_size in
    let later = div_mono w now t p (omega arith) in
    let n = count (in_same w t) h in
    let same : get_or (t / w) l.window_counts 0 ≡ n = e (t / w) later in
    elim (Bool-cases (has_room s l.max_rate w n)) [
      | inl room ↦
          let l' = record l {
            window_counts = clean_windows (t / w) (put (t / w) (n + 1) l.window_counts);
          } in
          let rest =
            answers_promised s l' (h ++ t ∷ []) t delays p
              (Counted-grant l h t (λ i le. e i (omega (arith, le, later))) n same) in
          rw (same, room, if◌then◌else◌) (ap (λ bs. true ∷ bs) rest)
      | inr full ↦
          let rest = answers_promised s l h t delays p (λ i le. e i (omega (arith, le, later))) in
          rw (same, full, if◌then◌else◌) (ap (λ bs. false ∷ bs) rest)
    ]

-- A new fixed window, of a size other than 0, answers every history of calls as promised: dropping the counts of past
-- windows loses no grant of the present one.
pub fixed_refines :
    (s : Scale) (rate window now : ℕ) (delays : List ℕ)
    → 0 < window
    → fixed_answers s (create_fixed rate window) now delays
      ≡ promised s (in_same window) rate window [] now delays
unfolding create_fixed get count
fixed_refines s rate window now delays pos =
    answers_promised s (create_fixed rate window) [] now delays pos (λ i h. refl)
