-- ===== src/Primitives/Barrier.antt =====
-- core/coordination/primitives.py: a barrier with its asyncio lock and condition. A party that
-- waits on `_condition` does so inside `async with self._lock`, so the lock stays taken until the
-- party wakes up. A call that finds the lock taken waits for it, which is no step of the model.
use puffinfloww.Base.{
  ℕ, ◌≤◌, ◌≡◌, ◌≢◌, refl, Bool, true, false, Option, none, some, List, [], ◌∷◌, Name, arith,
  if◌then◌else◌, contains, add, discard, All,
}
use puffinfloww.Primitives.{
  Primitive, barrier, Outcome, returns, notifies, raises, waits, acquire, acquire_new,
  acquire_barrier, acquire_for, remove_owner, barrier_woken, barrier_timed_out, release, is_quota,
}
use puffinfloww.Primitives.Kinds.{create_barrier}

-- The party that waits on the condition with the lock taken, and whether it was notified since.
pub record System : Type 0 where
  pub prim : Primitive
  pub sleeper : Option (Name × Option ℕ)
  pub notified : Bool

pub data Event : Type 0 where
  arrives : (caller : Name) (now : ℕ) (timeout : Option ℕ) → Event
  departs : (caller : Name) → Event
  wakes : Event
  times_out : Event

-- The next state, and the answer of the `acquire` call that returns in this step.
abbrev pub Step : Type 0
Step = System × Option Bool

unfoldable pub settle : System → Name → Outcome → Step
settle s caller (returns p b) = (record s { prim = p }, some b)
settle s caller (notifies p) = (record s { prim = p; notified = true }, some true)
settle s caller (raises p e) = (record s { prim = p }, none)
settle s caller (waits p timeout) =
    (record { prim = p; sleeper = some (caller, timeout); notified = false }, none)

unfoldable pub wake : System → Option (Name × Option ℕ) → Bool → Step
wake s (some (caller, timeout)) true =
    (record { prim = barrier_woken s.prim; sleeper = none; notified = false }, some true)
wake s _ _ = (s, none)

unfoldable pub time_out : System → Option (Name × Option ℕ) → Step
time_out s (some (caller, some t)) = (
  record { prim = barrier_timed_out s.prim caller; sleeper = none; notified = false },
  some false,
)
time_out s _ = (s, none)

-- A call runs only while the lock is free.
unfoldable pub step : System → Event → Step
unfolding settle wake time_out
step s (arrives caller now timeout) = elim s.sleeper [
  | none ↦ settle s caller (acquire s.prim caller now timeout none)
  | some sleeper ↦ (s, none)
]
step s (departs caller) = elim s.sleeper [
  | none ↦ (
    record s {
      prim = (release s.prim caller).0;
      notified = if (release s.prim caller).2 then true else s.notified;
    },
    none,
  )
  | some sleeper ↦ (s, none)
]
step s wakes = wake s s.sleeper s.notified
step s times_out = time_out s s.sleeper

unfoldable pub run : System → List Event → System
run s [] = s
run s (e ∷ es) = run (step s e).0 es

-- The answers that the calls of `acquire` return, in order.
unfoldable pub answers : System → List Event → List (Option Bool)
answers s [] = []
answers s (e ∷ es) = (step s e).1 ∷ answers (step s e).0 es

abbrev pub new_barrier : Name → ℕ → Option ℕ → System
new_barrier name parties timeout = record {
  prim = create_barrier name parties timeout;
  sleeper = none;
  notified = false;
}

-- Nobody but the party that sleeps has arrived.
abbrev pub Alone : List Name → Option (Name × Option ℕ) → Type 0
Alone owners none = owners ≡ []
Alone owners (some (caller, timeout)) = owners ≡ caller ∷ []

record IsStuck (s : System) : Type 0 where
  kind : s.prim.type ≡ barrier
  many : 2 ≤ s.prim.max_count
  alone : Alone s.prim.owners s.sleeper
  quiet : s.notified ≡ false

arrives-IsStuck :
    (s : System) (c : Name) (now : ℕ) (timeout : Option ℕ)
    → IsStuck s
    → IsStuck (step s (arrives c now timeout)).0 × ((step s (arrives c now timeout)).1 ≡ none)
unfolding step is_quota acquire acquire_new acquire_barrier acquire_for contains add
arrives-IsStuck s c now timeout h = ground arith

departs-IsStuck :
    (s : System) (c : Name)
    → IsStuck s
    → IsStuck (step s (departs c)).0 × ((step s (departs c)).1 ≡ none)
unfolding step release contains
departs-IsStuck s c h = ground arith

wakes-IsStuck : (s : System) → IsStuck s → IsStuck (step s wakes).0 × ((step s wakes).1 ≡ none)
unfolding step
wakes-IsStuck s h = ground arith

times_out-IsStuck :
    (s : System) → IsStuck s → IsStuck (step s times_out).0 × ((step s times_out).1 ≢ some true)
unfolding step barrier_timed_out remove_owner discard
times_out-IsStuck s h = ground arith

step-IsStuck :
    (s : System) (e : Event) → IsStuck s → IsStuck (step s e).0 × ((step s e).1 ≢ some true)
step-IsStuck s (arrives c now timeout) h =
    let (h', e) = arrives-IsStuck s c now timeout h in (h', λ granted. cc)
step-IsStuck s (departs c) h = let (h', e) = departs-IsStuck s c h in (h', λ granted. cc)
step-IsStuck s wakes h = let (h', e) = wakes-IsStuck s h in (h', λ granted. cc)
step-IsStuck s times_out h = times_out-IsStuck s h

answers_stuck : (s : System) (es : List Event) → IsStuck s → All (λ a. a ≢ some true) (answers s es)
unfolding answers
answers_stuck s [] h = tt
answers_stuck s (e ∷ es) h =
    let (h', denied) = step-IsStuck s e h in (denied, answers_stuck (step s e).0 es h')

-- A barrier for two parties or more never lets anybody pass, whatever arrives, departs, is notified
-- or times out, as long as no task is cancelled: no call of `acquire` ever returns true.
pub barrier_never_passes :
    (name : Name) (parties : ℕ) (timeout : Option ℕ) (es : List Event)
    → 2 ≤ parties
    → All (λ a. a ≢ some true) (answers (new_barrier name parties timeout) es)
unfolding create_barrier
barrier_never_passes name parties timeout es h =
    answers_stuck (new_barrier name parties timeout) es
      (record { kind = refl; many = h; alone = refl; quiet = refl })

record IsWedged (s : System) (c : Name) : Type 0 where
  asleep : s.sleeper ≡ some (c, none)
  unnotified : s.notified ≡ false

step_wedged : (s : System) (c : Name) (e : Event) → IsWedged s c → step s e ≡ (s, none)
unfolding step
step_wedged s c (arrives d now timeout) h = ground arith
step_wedged s c (departs d) h = ground arith
step_wedged s c wakes h = ground arith
step_wedged s c times_out h = ground arith

run_wedged : (s : System) (c : Name) (es : List Event) → IsWedged s c → run s es ≡ s
unfolding run
run_wedged s c [] h = refl
run_wedged s c (e ∷ es) h = rw (step_wedged s c e h) (run_wedged s c es h)

-- With no timeout the first party to arrive at a barrier for two or more wedges it: no later event
-- changes the state, in which that party sleeps with the lock taken.
pub barrier_wedges :
    (name : Name) (parties : ℕ) (c : Name) (now : ℕ) (es : List Event)
    → 2 ≤ parties
    → let s = (step (new_barrier name parties none) (arrives c now none)).0 in
      (s.sleeper ≡ some (c, none)) × (run s es ≡ s)
unfolding create_barrier step is_quota acquire acquire_new acquire_barrier acquire_for contains add
barrier_wedges name parties c now es h =
    (asleep, run_wedged _ c es (record { asleep = asleep; unnotified = ground arith }))
  where
    asleep : (step (new_barrier name parties none) (arrives c now none)).0.sleeper ≡ some (c, none)
    asleep = ground arith
