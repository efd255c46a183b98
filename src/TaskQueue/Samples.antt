-- ===== src/TaskQueue/Samples.antt =====
-- core/scheduler/queue.py: small queues.
use puffinfloww.Base.{
  Bool, ltb, length, ℕ, ◌+◌, ◌≡◌, refl, true, false, some, List, [], ◌∷◌, get, put, pop, ℤ, pos,
}
use puffinfloww.TaskQueue.{
  active, Entry, heappush, PriorityQueue, stopped, create, push_item, drop_front, enqueue,
  take_front, dequeue, peek, set_status,
}
use puffinfloww.TaskQueue.Invariant.{
  Call, enqueues, dequeues, clears, run, step, WellFormed, Accounts, run-create-Accounts,
}
use puffinfloww.TaskQueue.Waiting.{all_expected}
use puffinfloww.TaskQueue.Refines.{all_observed, run-create_refines}
use puffinfloww.TaskQueue.DeadLetter.{DeadLetterQueue, reprocess_all, reprocess_all_keeps}
use puffinfloww.TaskQueue.Router.{QueueRouter}
use puffinfloww.TaskQueue.Delayed.{Submission, at, delayed}

program : Unit {0}
unfolding create push_item drop_front enqueue take_front dequeue peek set_status heappush get put
    pop run step
program = tt

abbrev calls : List (Call ℕ)
calls = enqueues 40 (pos 1) 0 ∷ enqueues 50 (pos 3) 1 ∷ []

-- A third item, which makes the queue drop one, and all the calls that take items out.
abbrev more_calls : List (Call ℕ)
more_calls =
    enqueues 40 (pos 1) 0
    ∷ enqueues 50 (pos 3) 1
    ∷ enqueues 60 (pos 1) 2
    ∷ dequeues 3 3
    ∷ clears
    ∷ dequeues 4 4
    ∷ []

-- Two items in a queue for two: 50 with the higher priority in front.
abbrev full : PriorityQueue ℕ
full = (run (create (some 2) true) calls).0

full-WellFormed : WellFormed full
full-WellFormed = (run-create-Accounts (some 2) true calls).0

abbrev front : Entry ℕ
front = record { key = ℤ.negsuc 2; counter = 2; item = 50 }

abbrev back : Entry ℕ
back = record { key = ℤ.negsuc 0; counter = 1; item = 40 }

queue-full : full.queue ≡ front ∷ back ∷ []
unfolding program
queue-full = refl

run-create-Accounts_example :
    let r = run (create (some 2) true) calls in WellFormed r.0 × Accounts r.0 r.1
run-create-Accounts_example = run-create-Accounts (some 2) true calls

run-create_refines_example :
    all_observed (create (some 2) true) more_calls
    ≡ all_expected
        (record { pending = []; limit = some 2; drops = true; state = active })
        more_calls
run-create_refines_example = run-create_refines (some 2) true more_calls

abbrev submissions : List (Submission ℕ)
submissions = at 40 5000 0 ∷ delayed 50 9000 1 ∷ []

abbrev self : ℕ → ℕ
self n = n

abbrev above_zero : ℕ → Bool
above_zero n = ltb 0 n

abbrev halted : PriorityQueue ℕ
halted = set_status full stopped

-- Two failed items; the original queue has room for one.
abbrev dead : DeadLetterQueue ℕ
dead = record {
  base = full;
  max_retries = 3;
  retry_delay = 60;
  retry_counts = [];
  original_queue = some (create (some 1) false);
}

reprocess_all_keeps_example :
    (d' : DeadLetterQueue ℕ) × (n : ℕ) × (reprocess_all self above_zero dead 9 ≡ some (d', n))
    × (n + length d'.base.queue ≡ length dead.base.queue)
unfolding program
reprocess_all_keeps_example =
    reprocess_all_keeps self above_zero dead 9 (refl, (refl, tt)) refl full-WellFormed

-- Route to queue 2, which does not exist, and by default to queue 1.
abbrev router : QueueRouter ℕ
router = record {
  queues = (1, full) ∷ [];
  routes = (λ x. some true, 2) ∷ [];
  default_queue = some 1;
}
