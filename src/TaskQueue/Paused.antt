-- ===== src/TaskQueue/Paused.antt =====
-- core/scheduler/queue.py: which statuses stop a queue from giving out its items.
use puffinfloww.Base.{ℕ, ◌≡◌, ◌≢◌, refl, ◌⊎◌, inl, inr, none, some, List, ◌∷◌, arith}
use puffinfloww.TaskQueue.{
  Entry, PriorityQueue, QueueStatus, active, paused, draining, stopped, got, take_front, dequeue,
  set_status,
}

module _ {ℓ} {A : Type ℓ} where
  -- Every status but `stopped`, also `paused`, gives out the front entry.
  pub paused_gives_out :
      (q : PriorityQueue A) (s : QueueStatus) (start now : ℕ) (e : Entry A) (rest : List (Entry A))
      → q.queue ≡ e ∷ rest
      → ((s ≢ stopped)
          × (dequeue (set_status q s) start now
              ≡ got (take_front (set_status q s) e rest start now) (some e.item)))
        ⊎ ((s ≡ stopped) × (dequeue (set_status q s) start now ≡ got (set_status q s) none))
  unfolding dequeue set_status
  paused_gives_out q active start now e rest front = inl (λ h. cc, ground arith)
  paused_gives_out q paused start now e rest front = inl (λ h. cc, ground arith)
  paused_gives_out q draining start now e rest front = inl (λ h. cc, ground arith)
  paused_gives_out q stopped start now e rest front = inr (refl, ground arith)
