-- ===== src/WaitGraph/Handover.antt =====
-- core/coordination/deadlock.py: the calls of `ResourceWaitGraph` that never return. They await
-- another method of the same graph inside `async with self._lock`.
use puffinfloww.Base.{
  ℕ, ◌≡◌, refl, ap, ◌∙◌, ◌⊎◌, true, false, none, List, [], ◌∷◌, Name, arith, has,
}
use puffinfloww.WaitGraph.{
  Graph, lookup_nodes, acquire_resource, request_resource, System, Call, acquires, requests,
  perform, step, run,
}

step_stuck : (s : System) (c : Call) → s.lock_stuck ≡ true → step s c ≡ s
unfolding step
step_stuck s c h = ground arith

pub run_stuck : (s : System) (cs : List Call) → s.lock_stuck ≡ true → run s cs ≡ s
unfolding run
run_stuck s [] h = refl
run_stuck s (c ∷ cs) h = ap (λ t. run t cs) (step_stuck s c h) ∙ run_stuck s cs h

-- A call of `acquire_resource` or `request_resource` for a resource or a process that was not added
-- before never returns: the graph stays as it was, and nothing changes it any more.
pub unknown_wedges :
    (g : Graph) (p r : Name) (now : ℕ) (cs : List Call)
    → (has r g.resources ≡ false) ⊎ (has p g.processes ≡ false)
    → let s : System = record { graph = g; lock_stuck = false } in
      let wedge : System = record { graph = g; lock_stuck = true } in
      (run (step s (acquires p r now)) cs ≡ wedge) × (run (step s (requests p r now)) cs ≡ wedge)
unfolding step perform acquire_resource request_resource
unknown_wedges g p r now cs u =
    let missing : lookup_nodes g r p ≡ none = absent u in
    (
      rw (missing, step, perform, acquire_resource) (run_stuck _ cs refl),
      rw (missing, step, perform, request_resource) (run_stuck _ cs refl),
    )
  where
    absent : (has r g.resources ≡ false) ⊎ (has p g.processes ≡ false) → lookup_nodes g r p ≡ none
    absent u = unfold lookup_nodes in ground arith
