-- ===== src/Processes/Tests.antt =====
-- The processes of a run on two CPUs: one worker ends by a signal and is replaced, and the replacement
-- returns from `worker()`.
use quic_proxy.Base.{ℕ, ◌≡◌, ◌≢◌, refl, none, some, List, [], ◌∷◌, arith}
use quic_proxy.Processes.{
  Pc, forking, waiting, reforking, exited, working, worker_returned, Process, entry, set_pc, remove,
  children, forks, loop_ends, waits, crashes, started, Step, Reach, here, next,
}
use quic_proxy.Processes.Manned.{Accounts}
use quic_proxy.Processes.Population.{population_lem}
use quic_proxy.Processes.Spinner.{spinner_lem}
use quic_proxy.Processes.Recovery.{recovery_lem}

abbrev first : Pc → Process
first pc = record { pid = 1; parent = none; pc = pc }

abbrev worker_of : ℕ → Pc → Process
worker_of pid pc = record { pid = pid; parent = some 1; pc = pc }

abbrev crashed : List Process
crashed = worker_of 11 (working (some 1)) ∷ worker_of 10 exited ∷ first waiting ∷ []

abbrev replaced : List Process
replaced = worker_of 12 (working none) ∷ worker_of 11 (working (some 1)) ∷ first waiting ∷ []

crashed-Reach : Reach 2 (started 1) crashed 0
unfolding entry set_pc
crashed-Reach =
    next
      (next
        (next (next here (forks 1 10 (first (forking 0)) refl (ground arith) refl refl refl))
          (forks 1 11 (first (forking 1)) refl (ground arith) refl refl refl))
        (loop_ends 1 (first (forking 2)) refl refl refl refl))
      (crashes 10 (worker_of 10 (working (some 0))) (some 0) refl refl refl refl)

replaced-Reach : Reach 2 (started 1) replaced 0
unfolding entry set_pc remove
replaced-Reach =
    next
      (next crashed-Reach
        (waits 1 10 (first waiting) (worker_of 10 exited) refl refl refl refl refl refl refl))
      (forks 1 12 (first reforking) refl tt refl refl refl)

population_lem_example :
    (x : Process) × (entry 1 replaced ≡ some x) × Accounts 2 (children 1 replaced) 0 x.pc
population_lem_example = population_lem replaced-Reach

spinner_lem_example :
    (entry 12 (set_pc 12 (worker_returned none) replaced)
      ≡ some (record (worker_of 12 (working none)) { pc = waiting }))
    × (children 12 (set_pc 12 (worker_returned none) replaced) ≡ 0)
unfolding entry
spinner_lem_example =
    spinner_lem 12 (worker_of 12 (working none)) replaced-Reach (ground arith) refl refl refl here

recovery_lem_example :
    (ms qs : List Process) × (children 1 crashed ≢ 0)
    × Step 2 crashed ms 0
    × (entry 1 ms ≡ some (record (first waiting) { pc = reforking }))
    × Step 2 ms qs 0
    × (entry 12 qs ≡ some (record { pid = 12; parent = some 1; pc = working none }))
    × (entry 1 qs ≡ some (record (first waiting) { pc = waiting }))
    × (children 1 qs ≡ children 1 crashed)
unfolding entry
recovery_lem_example =
    recovery_lem 1 10 12 (first waiting) (worker_of 10 exited) refl refl refl refl refl refl
