-- ===== src/WaitGraph/Holders.antt =====
-- core/coordination/deadlock.py: who holds what in a `ResourceWaitGraph`, after any history.
use puffinfloww.Base.{
  ℕ, ◌≤◌, ◌≡◌, refl, inl, inr, true, false, ◌||◌, none, some, List, [], ◌∷◌, Name, arith, ◌==◌,
  if◌then◌else◌, length, is_empty, contains, add, discard, get, get-put, contains-add,
  contains-discard, length-add, length-discard-le, Bool-cases, Option-cases, length-discard-le,
}
use puffinfloww.WaitGraph.{
  ResourceNode, ProcessNode, Graph, empty, Outcome, done, wedged, add_resource, add_process,
  new_resource, new_process, lookup_nodes, set_nodes, block, hold, is_free, acquire_resource,
  release_resource, request_resource, get_resource_holders, System, Call, adds_resource,
  adds_process, acquires, releases, requests, settle, perform, step, run,
}

abbrev pub holding_of : Graph → Name → List Name
holding_of g p = elim (get p g.processes) [ none ↦ [] | some n ↦ n.holding ]

-- A resource has one holder at most, and the two sides of a holding agree.
pub record Consistent (g : Graph) : Type 0 where
  pub exclusive : (r : Name) → length (get_resource_holders g r) ≤ 1
  pub agreed : (p r : Name) → contains p (get_resource_holders g r) ≡ contains r (holding_of g p)

empty-Consistent : Consistent empty
unfolding get_resource_holders get contains
empty-Consistent = record { exclusive = λ r. omega arith; agreed = λ p r. refl }

add_resource-Consistent :
    (g : Graph) (r kind : Name) → Consistent g → Consistent (add_resource g r kind)
unfolding add_resource get_resource_holders contains
add_resource-Consistent g r kind c = record {
  exclusive = λ s. ground (arith, c.exclusive s, get-put s r (new_resource kind) g.resources);
  agreed = λ p s. ground (arith, c.agreed p s, get-put s r (new_resource kind) g.resources);
}

add_process-Consistent :
    (g : Graph) (p name : Name) (now : ℕ) → Consistent g → Consistent (add_process g p name now)
unfolding add_process get_resource_holders contains
add_process-Consistent g p name now c =
    let node = new_process (if name == 0 then p else name) now in
    record {
      exclusive = λ s. ground (arith, c.exclusive s);
      agreed = λ q s. ground (arith, c.agreed q s, get-put q p node g.processes);
    }

-- Writing both nodes back keeps the graph consistent, if the new holders are one at most and both
-- nodes say the same of every other process and resource as before, and agree on this pair.
module _ (g : Graph) (r p : Name) (res res' : ResourceNode) (proc proc' : ProcessNode)
    (known_r : get r g.resources ≡ some res) (known_p : get p g.processes ≡ some proc) where
  set_nodes-Consistent :
      Consistent g
      → length res'.holders ≤ 1
      → ((q : Name) → (q == p) ≡ false → contains q res'.holders ≡ contains q res.holders)
      → ((s : Name) → (s == r) ≡ false → contains s proc'.holding ≡ contains s proc.holding)
      → contains p res'.holders ≡ contains r proc'.holding
      → Consistent (set_nodes g r res' p proc')
  unfolding set_nodes get_resource_holders
  set_nodes-Consistent c one others elsewhere same = record {
    exclusive = λ s. ground (arith, c.exclusive s, get-put s r res' g.resources);
    agreed = λ q s. ground (
      arith,
      c.agreed q s,
      known_r,
      known_p,
      get-put s r res' g.resources,
      get-put q p proc' g.processes,
      others q,
      elsewhere s,
      same,
    );
  }

pub lookup_nodes-some :
    (g : Graph) (r p : Name) (res : ResourceNode) (proc : ProcessNode)
    → lookup_nodes g r p ≡ some (res, proc)
    → (get r g.resources ≡ some res) × (get p g.processes ≡ some proc)
unfolding lookup_nodes
lookup_nodes-some g r p res proc e = ground arith

holders_at :
    (g : Graph) (r p : Name) (res : ResourceNode) (proc : ProcessNode)
    → Consistent g
    → lookup_nodes g r p ≡ some (res, proc)
    → (length res.holders ≤ 1) × (contains p res.holders ≡ contains r proc.holding)
unfolding get_resource_holders
holders_at g r p res proc c e =
    let (er, ep) = lookup_nodes-some g r p res proc e in
    (ground (arith, c.exclusive r, er), ground (arith, c.agreed p r, er, ep))

length-add_le :
    (p : Name) (s : List Name)
    → length s ≤ 1
    → (is_empty s || contains p s) ≡ true
    → length (add p s) ≤ 1
unfolding add
length-add_le p [] h f = omega (arith, length-add p [])
length-add_le p (x ∷ s) h f = ground (arith, length-add p (x ∷ s))

acquire-Consistent :
    (g : Graph) (p r : Name) (now : ℕ)
    → Consistent g
    → Consistent (settle (acquire_resource g p r now)).graph
unfolding acquire_resource
acquire-Consistent g p r now c = elim (Option-cases (lookup_nodes g r p)) [
  | inl missing ↦ rw (missing, acquire_resource) c
  | inr ((res, proc), e) ↦
      let (er, ep) = lookup_nodes-some g r p res proc e in
      let (one, same) = holders_at g r p res proc c e in
      elim (Bool-cases (is_free res || contains p res.holders)) [
        | inl granted ↦
            rw (e, acquire_resource, granted)
              (unfold hold is_free in
                set_nodes-Consistent g r p res _ proc _ er ep c
                  (length-add_le p res.holders one granted)
                  (λ q ne. ground (arith, contains-add q p res.holders))
                  (λ s ne. ground (arith, contains-add s r proc.holding))
                  (ground (arith, contains-add p p res.holders, contains-add r r proc.holding)))
        | inr waits ↦
            rw (e, acquire_resource, waits)
              (unfold block in
                set_nodes-Consistent g r p res _ proc _ er ep c one (λ q ne. refl) (λ s ne. refl)
                  same)
      ]
]

request-Consistent :
    (g : Graph) (p r : Name) (now : ℕ)
    → Consistent g
    → Consistent (settle (request_resource g p r now)).graph
unfolding request_resource
request-Consistent g p r now c = elim (Option-cases (lookup_nodes g r p)) [
  | inl missing ↦ rw (missing, request_resource) c
  | inr ((res, proc), e) ↦
      let (er, ep) = lookup_nodes-some g r p res proc e in
      let (one, same) = holders_at g r p res proc c e in
      rw (e, request_resource)
        (unfold block in
          set_nodes-Consistent g r p res _ proc _ er ep c one (λ q ne. refl) (λ s ne. refl) same)
]

-- The graph that `release_resource` makes, with the waiters `left` at the resource.
released-Consistent :
    (g : Graph) (p r : Name) (res : ResourceNode) (proc : ProcessNode) (left : List Name)
    → Consistent g
    → lookup_nodes g r p ≡ some (res, proc)
    → Consistent (
        set_nodes g r
          (record res { holders = discard p res.holders; waiters = left })
          p
          (record proc { holding = discard r proc.holding }))
released-Consistent g p r res proc left c e =
    let (er, ep) = lookup_nodes-some g r p res proc e in
    let (one, same) = holders_at g r p res proc c e in
    set_nodes-Consistent g r p res _ proc _ er ep c (omega (arith, length-discard-le p res.holders))
      (λ q ne. ground (arith, contains-discard q p res.holders))
      (λ s ne. ground (arith, contains-discard s r proc.holding))
      (ground (arith, contains-discard p p res.holders, contains-discard r r proc.holding))

release-Consistent :
    (g : Graph) (p r : Name) → Consistent g → Consistent (settle (release_resource g p r)).graph
unfolding release_resource
release-Consistent g p r c = elim (Option-cases (lookup_nodes g r p)) [
  | inl missing ↦ rw (missing, release_resource) c
  | inr ((res, proc), e) ↦ rw (e, release_resource) (by_waiters res proc e res.waiters refl)
]
  where
    by_waiters :
        (res : ResourceNode) (proc : ProcessNode)
        → lookup_nodes g r p ≡ some (res, proc)
        → (ws : List Name) → res.waiters ≡ ws
        → let res' = record res { holders = discard p res.holders } in
          let proc' = record proc { holding = discard r proc.holding } in
          let o : Outcome (Unit {0}) = elim ws [
            | [] ↦ done (set_nodes g r res' p proc') tt
            | next ∷ rest ↦
                if is_free res'
                then wedged (set_nodes g r (record res' { waiters = rest }) p proc')
                else done (set_nodes g r res' p proc') tt
          ] in
          Consistent (settle o).graph
    by_waiters res proc e [] w = released-Consistent g p r res proc res.waiters c e
    by_waiters res proc e (next ∷ rest) w =
        let res' = record res { holders = discard p res.holders } in
        elim (Bool-cases (is_free res')) [
          | inl free ↦ rw free (released-Consistent g p r res proc rest c e)
          | inr held ↦ rw held (released-Consistent g p r res proc res.waiters c e)
        ]

step-Consistent : (s : System) (c : Call) → Consistent s.graph → Consistent (step s c).graph
unfolding step perform
step-Consistent s c h = elim (Bool-cases s.lock_stuck) [
  | inl stuck ↦ rw (stuck, step) h
  | inr free ↦ rw (free, step) (by_call c)
]
  where
    by_call : (c : Call) → Consistent (perform s.graph c).graph
    by_call (adds_resource r kind) = add_resource-Consistent s.graph r kind h
    by_call (adds_process p name now) = add_process-Consistent s.graph p name now h
    by_call (acquires p r now) = acquire-Consistent s.graph p r now h
    by_call (releases p r) = release-Consistent s.graph p r h
    by_call (requests p r now) = request-Consistent s.graph p r now h

run-Consistent : (s : System) (cs : List Call) → Consistent s.graph → Consistent (run s cs).graph
unfolding run
run-Consistent s [] h = h
run-Consistent s (c ∷ cs) h = run-Consistent (step s c) cs (step-Consistent s c h)

-- After any history of calls on an empty graph, also one that wedges its lock, no resource has two
-- holders, and a process is a holder of a resource exactly when it lists the resource as held.
pub run_exclusive :
    (cs : List Call) → Consistent (run (record { graph = empty; lock_stuck = false }) cs).graph
run_exclusive cs = run-Consistent _ cs empty-Consistent
