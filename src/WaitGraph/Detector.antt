-- ===== src/WaitGraph/Detector.antt =====
-- core/coordination/deadlock.py: `DeadlockDetector`. The agent's monitor and the logger are left out.
use puffinfloww.Base.{
  All, subst, ℕ, suc, ◌+◌, ◌≤◌, ◌≡◌, refl, ◌⊎◌, inl, inr, Bool, true, false, Option, none, some,
  List, [], ◌∷◌, ◌++◌, Name, arith, ◌==◌, ltb, if◌then◌else◌, length, length-append, is_empty, has,
  keys, Bool-cases,
}
use puffinfloww.WaitGraph.{Graph, Outcome, done, wedged, acquire_resource, add_process}
use puffinfloww.WaitGraph.Detection.{detect_deadlock}
use puffinfloww.Digraph.{IsAcyclic, IsCycle}
use puffinfloww.DependencyGraph
use puffinfloww.DependencyGraph.{
  CycleDetectionResult, find_cycles, get_shortest_cycle, shortest, neighbors,
}
use puffinfloww.DependencyGraph.Cycles.{find_cycles_decides}

pub record Detector : Type 0 where
  pub dependency_graph : DependencyGraph.Graph
  pub resource_graph : Graph
  pub cycle_count : ℕ
  pub last_cycle : Option (List Name)
  pub detection_history : List CycleDetectionResult

-- The detector after `_handle_deadlock`, and the cycle of the `DeadlockError` that it raises:
-- `if self._last_cycle` also passes over the empty cycle.
unfoldable pub handle_deadlock : Detector → CycleDetectionResult → Detector × Option (List Name)
unfolding get_shortest_cycle
handle_deadlock d r =
    let cycle = get_shortest_cycle r in
    (
      record d { cycle_count = d.cycle_count + 1; last_cycle = cycle },
      elim cycle [ none ↦ none | some c ↦ if is_empty c then none else some c ],
    )

-- A check of one result: nothing where it has no cycle, and else the handling, which may raise.
unfoldable pub check : Detector → Option CycleDetectionResult → Detector × Option (List Name)
unfolding handle_deadlock
check d none = (d, none)
check d (some r) = if r.has_cycle then handle_deadlock d r else (d, none)

-- The detector, the outcome of the acquisition, and the cycle of a `DeadlockError`.
unfoldable pub acquire_checked :
    Detector → Name → Name → ℕ → Detector × Option Bool × Option (List Name)
unfolding check
acquire_checked d p r now = elim (acquire_resource d.resource_graph p r now) [
  | wedged g ↦ (record d { resource_graph = g }, none, none)
  | done g true ↦ (record d { resource_graph = g }, some true, none)
  | done g false ↦
      let d' = record d { resource_graph = g } in
      let (d'', raised) = check d' (detect_deadlock g).0 in (d'', some false, raised)
]

-- `DeadlockDetector.acquire_resource`: a name makes the process known first.
unfoldable pub acquire :
    Detector → Name → Name → Option Name → ℕ → Detector × Option Bool × Option (List Name)
unfolding acquire_checked
acquire d p r none now = acquire_checked d p r now
acquire d p r (some name) now =
    if name == 0
    then acquire_checked d p r now
    else acquire_checked (record d { resource_graph = add_process d.resource_graph p name now }) p r
        now

-- `append`, and `pop(0)` above a hundred entries
unfoldable pub remember :
    List CycleDetectionResult → CycleDetectionResult → List CycleDetectionResult
remember hs r = elim (hs ++ r ∷ []) [
  | [] ↦ []
  | oldest ∷ later ↦ if ltb 100 (suc (length later)) then later else oldest ∷ later
]

-- One round of `_detect_deadlocks`: an error raised by a check is caught and ends the round.
unfoldable pub detect_round : Detector → Detector
unfolding check remember
detect_round d = elim (find_cycles d.dependency_graph) [
  | none ↦ d
  | some state_result ↦
      let (d', raised) = check d (some state_result) in
      elim raised [
        | some c ↦ d'
        | none ↦
            let (d'', raised') = check d' (detect_deadlock d'.resource_graph).0 in
            elim raised' [
              | some c ↦ d''
              | none ↦ record d'' {
                detection_history = remember d''.detection_history state_result;
              }
            ]
      ]
]

acquire_checked_quiet :
    (d : Detector) (p r : Name) (now : ℕ)
    → ((acquire_checked d p r now).2 ≡ none)
      × ((acquire_checked d p r now).0.cycle_count ≡ d.cycle_count)
      × ((acquire_checked d p r now).0.last_cycle ≡ d.last_cycle)
unfolding acquire_checked detect_deadlock find_cycles keys
acquire_checked_quiet d p r now = go (acquire_resource d.resource_graph p r now)
  where
    go :
        (o : Outcome Bool)
        → let x : Detector × Option Bool × Option (List Name) = elim o [
          | wedged g ↦ (record d { resource_graph = g }, none, none)
          | done g true ↦ (record d { resource_graph = g }, some true, none)
          | done g false ↦
              let d' = record d { resource_graph = g } in
              let (d'', raised) = check d' (detect_deadlock g).0 in (d'', some false, raised)
        ] in
          (x.2 ≡ none) × (x.0.cycle_count ≡ d.cycle_count) × (x.0.last_cycle ≡ d.last_cycle)
    go (wedged g) = (refl, refl, refl)
    go (done g true) = (refl, refl, refl)
    go (done g false) = (refl, refl, refl)

-- An acquisition through the detector never raises a `DeadlockError`, and it counts and records no
-- cycle, whatever the processes wait for.
pub acquire_never_raises :
    (d : Detector) (p r : Name) (name : Option Name) (now : ℕ)
    → ((acquire d p r name now).2 ≡ none)
      × ((acquire d p r name now).0.cycle_count ≡ d.cycle_count)
      × ((acquire d p r name now).0.last_cycle ≡ d.last_cycle)
unfolding acquire
acquire_never_raises d p r none now = acquire_checked_quiet d p r now
acquire_never_raises d p r (some name) now = elim (Bool-cases (name == 0)) [
  | inl unnamed ↦ rw (unnamed, acquire) (acquire_checked_quiet d p r now)
  | inr named ↦
      rw (named, acquire)
        (acquire_checked_quiet
          (record d { resource_graph = add_process d.resource_graph p name now }) p r now)
]

length-remember_le :
    (hs : List CycleDetectionResult) (r : CycleDetectionResult)
    → length hs ≤ 100
    → length (remember hs r) ≤ 100
unfolding remember
length-remember_le [] r h = omega arith
length-remember_le (x ∷ hs) r h = ground (arith, length-append hs (r ∷ []))

shortest-nonempty :
    (c : List Name) (cs : List (List Name))
    → is_empty c ≡ false
    → All (λ d. is_empty d ≡ false) cs
    → is_empty (shortest c cs) ≡ false
unfolding shortest
shortest-nonempty c [] h a = h
shortest-nonempty c (d ∷ cs) h a = elim (Bool-cases (ltb (length d) (length c))) [
  | inl less ↦ rw less (shortest-nonempty d cs a.0 a.1)
  | inr more ↦ rw more (shortest-nonempty c cs h a.1)
]

abbrev pub Counts : Detector → Detector → Type 0
Counts d e =
    (IsAcyclic (neighbors d.dependency_graph)
      × (e.cycle_count ≡ d.cycle_count)
      × ((r : CycleDetectionResult) × (r.has_cycle ≡ false)
          × (e.detection_history ≡ remember d.detection_history r)))
    ⊎ (((c : List Name) × IsCycle (neighbors d.dependency_graph) c)
        × (e.cycle_count ≡ d.cycle_count + 1)
        × (e.detection_history ≡ d.detection_history))

round_of_result : Detector → CycleDetectionResult → Detector
round_of_result d r =
    let (d', raised) = check d (some r) in
    elim raised [
      | some c ↦ d'
      | none ↦
          let (d'', raised') = check d' (detect_deadlock d'.resource_graph).0 in
          elim raised' [
            | some c ↦ d''
            | none ↦ record d'' { detection_history = remember d''.detection_history r }
          ]
    ]

detect_round-eq :
    (d : Detector) (r : CycleDetectionResult)
    → find_cycles d.dependency_graph ≡ some r
    → detect_round d ≡ round_of_result d r
unfolding detect_round round_of_result
detect_round-eq d r e = rw (e, detect_round)

round_acyclic :
    (d : Detector) (r : CycleDetectionResult)
    → r.has_cycle ≡ false
    → round_of_result d r ≡ record d { detection_history = remember d.detection_history r }
unfolding round_of_result check detect_deadlock find_cycles keys
round_acyclic d r e = rw e

round_cyclic :
    (d : Detector) (r : CycleDetectionResult) (c : List Name) (cs : List (List Name))
    → r.has_cycle ≡ true
    → r.cycles ≡ c ∷ cs
    → All (λ x. is_empty x ≡ false) r.cycles
    → round_of_result d r
      ≡ record d { cycle_count = d.cycle_count + 1; last_cycle = some (shortest c cs) }
unfolding round_of_result check handle_deadlock get_shortest_cycle
round_cyclic d r c cs e listed all =
    let all' = subst (All (λ x. is_empty x ≡ false)) listed all in
    let full = shortest-nonempty c cs all'.0 all'.1 in ground (arith, e, listed, full)

-- A round of the detection loop: where the dependency graph has no cycle, it counts none and
-- records a result without cycles; where it has one, it counts one more and the error that it
-- raises keeps the round from recording anything.
pub detect_round-Counts : (d : Detector) → Counts d (detect_round d)
detect_round-Counts d =
    let (r, e, all, answer) = find_cycles_decides d.dependency_graph in
    rw (detect_round-eq d r e) (elim answer [
      | inl (no_cycle, _, acyclic) ↦ inl (
        acyclic,
        ground (arith, round_acyclic d r no_cycle),
        (r, no_cycle, ground (arith, round_acyclic d r no_cycle)),
      )
      | inr (has, (c, rest, listed, real)) ↦
          let same = round_cyclic d r c rest has listed all in
          inr ((c, real), ground (arith, same), ground (arith, same))
    ])
