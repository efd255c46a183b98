-- ===== src/ResourcePool/Samples.antt =====
-- core/resources/pool.py: a small pool.
use puffinfloww.Base.{ℕ, ◌≡◌, Bool, true, false, [], ◌∷◌, keys}
use puffinfloww.ResourcePool.{
  ResourceType, cpu, memory, Requirements, Pool, create, attempt, allocate, update_stats, required,
  for_all, check_quota, validate_requirements, can_allocate, held,
}
use puffinfloww.ResourcePool.Ledger.{Sound}
use puffinfloww.ResourcePool.History.{acquires, releases, times_out, run, run-create-Sound}
use puffinfloww.ResourcePool.Preemption.{with_others, attempt_ignores}

abbrev totals : ResourceType → ℕ
totals cpu = 8
totals memory = 1000
totals _ = 4

abbrev named : ResourceType → Bool
named cpu = true
named memory = true
named _ = false

abbrev two_cpus : Requirements
two_cpus = record {
  cpu_units = 2;
  memory_mb = 100;
  io_weight = 1;
  network_weight = 1;
  gpu_units = 0;
  resource_types = named;
}

abbrev fresh : Pool
fresh = create totals true false 60

abbrev busy : Pool
busy = update_stats (allocate fresh 5 two_cpus 1) two_cpus 0 1

program : Unit {0}
unfolding create attempt required for_all check_quota validate_requirements can_allocate held keys
program = tt

run-create-Sound_example : Sound (
    run fresh
      (acquires 5 two_cpus true 0 1 ∷ acquires 6 two_cpus true 0 2 ∷ releases 5 ∷ times_out 7 ∷ []))
run-create-Sound_example =
    run-create-Sound totals true false 60
      (acquires 5 two_cpus true 0 1 ∷ acquires 6 two_cpus true 0 2 ∷ releases 5 ∷ times_out 7 ∷ [])

attempt_ignores_example :
    attempt fresh 5 (with_others two_cpus 90000 7 7) true 0 1 ≡ attempt fresh 5 two_cpus true 0 1
attempt_ignores_example = attempt_ignores fresh 5 two_cpus true 0 1 90000 7 7
