-- ===== src/Primitives/Calls.antt =====
-- core/coordination/primitives.py: a history of calls on one primitive.
use puffinfloww.Base.{ℕ, Option, List, [], ◌∷◌, Name}
use puffinfloww.Primitives.{
  Primitive, Outcome, returns, notifies, raises, waits, acquire, barrier_woken, barrier_timed_out,
  release,
}

-- The primitive that a call of `acquire` leaves, also where it raises or waits.
unfoldable pub after : Outcome → Primitive
after (returns p b) = p
after (notifies p) = p
after (raises p e) = p
after (waits p t) = p

pub data Call : Type 0 where
  acquires : (caller : Name) (now : ℕ) (timeout amount : Option ℕ) → Call
  releases : (caller : Name) → Call
  wakes : Call
  times_out : (caller : Name) → Call

unfoldable pub step : Primitive → Call → Primitive
unfolding after
step p (acquires caller now timeout amount) = after (acquire p caller now timeout amount)
step p (releases caller) = (release p caller).0
step p wakes = barrier_woken p
step p (times_out caller) = barrier_timed_out p caller

unfoldable pub run : Primitive → List Call → Primitive
run p [] = p
run p (c ∷ cs) = run (step p c) cs
