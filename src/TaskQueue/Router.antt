-- ===== src/TaskQueue/Router.antt =====
-- core/scheduler/queue.py: `QueueRouter`, over the queues of a `QueueManager`. A predicate is a
-- parameter of the route, and `none` where it raises, which the router logs and passes over.
use puffinfloww.Base.{
  ℕ, ◌≡◌, ◌∙◌, Bool-cases, ◌⊎◌, inl, inr, Bool, true, false, Option, none, some, List, [], ◌∷◌,
  ◌++◌, Name, Dict, arith, ◌==◌, if◌then◌else◌, get, put, pos, Option-cases, All,
}
use puffinfloww.TaskQueue.{PriorityQueue, enqueue}

pub record QueueRouter {ℓ} (A : Type ℓ) : Type ℓ where
  pub queues : Dict (PriorityQueue A)
  pub routes : List ((A → Option Bool) × Name)
  pub default_queue : Option Name

module _ {ℓ} {A : Type ℓ} where
  unfoldable pub add_route : QueueRouter A → (A → Option Bool) → Name → QueueRouter A
  add_route r predicate name = record r { routes = r.routes ++ (predicate, name) ∷ [] }

  unfoldable pub set_default_queue : QueueRouter A → Name → QueueRouter A
  set_default_queue r name = record r { default_queue = some name }

  abbrev pub deliver : QueueRouter A → Name → PriorityQueue A → A → ℕ → QueueRouter A × Bool
  deliver r name q item now =
      let (q', taken) = enqueue q item (pos 0) now in
      (record r { queues = put name q' r.queues }, taken)

  -- The end of `route`: the name 0, the empty string, counts as no default.
  unfoldable pub route_default : QueueRouter A → A → ℕ → QueueRouter A × Bool
  route_default r item now = elim r.default_queue [
    | none ↦ (r, false)
    | some name ↦
        if name == 0
        then (r, false)
        else elim (get name r.queues) [ none ↦ (r, false) | some q ↦ deliver r name q item now ]
  ]

  unfoldable pub route_by :
      QueueRouter A → List ((A → Option Bool) × Name) → A → ℕ → QueueRouter A × Bool
  unfolding route_default
  route_by r [] item now = route_default r item now
  route_by r ((predicate, name) ∷ routes) item now =
      let rest = route_by r routes item now in
      elim (predicate item) [
        | some true ↦ elim (get name r.queues) [ none ↦ rest | some q ↦ deliver r name q item now ]
        | _ ↦ rest
      ]

  unfoldable pub route : QueueRouter A → A → ℕ → QueueRouter A × Bool
  unfolding route_by
  route r item now = route_by r r.routes item now

  -- The route takes the item, and its queue exists.
  abbrev pub Open : QueueRouter A → A → (A → Option Bool) × Name → Type ℓ
  Open r item (predicate, name) =
      (predicate item ≡ some true) × ((q : PriorityQueue A) × (get name r.queues ≡ some q))

  -- What `route` may do for a list of routes.
  abbrev pub Routed :
      QueueRouter A → List ((A → Option Bool) × Name) → A → ℕ → QueueRouter A × Bool → Type ℓ
  Routed r routes item now out =
      ((name : Name) × (q : PriorityQueue A) × (get name r.queues ≡ some q)
        × (out ≡ deliver r name q item now))
      ⊎ ((out ≡ (r, false)) × All (λ x. ¬ Open r item x) routes)

  route_default-Routed :
      (r : QueueRouter A) (item : A) (now : ℕ) → Routed r [] item now (route_default r item now)
  unfolding route_default
  route_default-Routed r item now = elim (Option-cases r.default_queue) [
    | inl unset ↦ inr (ground (arith, unset), tt)
    | inr (name, set) ↦ elim (Bool-cases (name == 0)) [
      | inl blank ↦ inr (ground (arith, set, blank), tt)
      | inr named ↦ elim (Option-cases (get name r.queues)) [
        | inl missing ↦ inr (ground (arith, set, named, missing), tt)
        | inr (q, known) ↦ inl (name, q, known, ground (arith, set, named, known))
      ]
    ]
  ]

  route_by-Routed :
      (r : QueueRouter A) (routes : List ((A → Option Bool) × Name)) (item : A) (now : ℕ)
      → Routed r routes item now (route_by r routes item now)
  unfolding route_by
  route_by-Routed r [] item now = route_default-Routed r item now
  route_by-Routed r ((predicate, name) ∷ routes) item now =
      let rest = route_by-Routed r routes item now in
      elim (Option-cases (predicate item)) [
        | inl raised ↦ pass rest (λ o. cc) (ground (arith, raised))
        | inr (false, refused) ↦ pass rest (λ o. cc) (ground (arith, refused))
        | inr (true, taken) ↦ elim (Option-cases (get name r.queues)) [
          | inl missing ↦
              pass rest (λ o. let (_, (q, known)) = o in cc) (ground (arith, taken, missing))
          | inr (q, known) ↦ inl (name, q, known, ground (arith, taken, known))
        ]
      ]
    where
      pass :
          Routed r routes item now (route_by r routes item now)
          → ¬ Open r item (predicate, name)
          → route_by r ((predicate, name) ∷ routes) item now ≡ route_by r routes item now
          → Routed r
              ((predicate, name) ∷ routes)
              item
              now
              (route_by r ((predicate, name) ∷ routes) item now)
      pass (inl (k, q, known, out)) shut same = inl (k, q, known, same ∙ out)
      pass (inr (out, all)) shut same = inr (same ∙ out, (shut, all))

  -- `route` puts the item into one existing queue at most, with the answer of that queue, and
  -- leaves all others; where it puts it into none, it returns false and no route whose predicate
  -- takes the item has a queue.
  pub route-Routed :
      (r : QueueRouter A) (item : A) (now : ℕ) → Routed r r.routes item now (route r item now)
  unfolding route
  route-Routed r item now = route_by-Routed r r.routes item now
