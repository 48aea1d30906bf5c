-- ===== src/Processes/Population.antt =====
-- How many workers the parent of quic_proxy_server_bin.cc keeps.
use quic_proxy.Base.{
  ℕ, ◌+◌, ◌≡◌, refl, sym, ap, ◌∙◌, subst, inl, inr, List, ◌∷◌, Option, none, some, arith,
}
use quic_proxy.Processes.{
  Pc, forking, waiting, reforking, exited, working, Process, forked_parent, forked_child,
  fork_failed, worker_returned, CallsFork, replacements_lost, entry, set_pc, remove, children, Step,
  forks, fork_fails, loop_ends, wait_fails, waits, returns, crashes, started, Reach, here, next,
}
use quic_proxy.Processes.Manned.{
  IsWorker, Accounts, IsManned, IsWorker-at, forker, parent_at, boss_at, boss_moves, worker_moves,
  child_comes, child_goes, not_boss,
}

fork-Accounts :
    (n c lost : ℕ) (pc : Pc)
    → CallsFork n pc
    → Accounts n c lost pc
    → IsWorker (forked_child pc) × Accounts n (1 + c) lost (forked_parent pc)
fork-Accounts n c lost (forking i) more a = (tt, omega arith)
fork-Accounts n c lost reforking more a = (tt, omega arith)
fork-Accounts n c lost waiting more a = absurd more
fork-Accounts n c lost exited more a = absurd more
fork-Accounts n c lost (working cpu) more a = absurd more

fail-Accounts :
    (n c lost : ℕ) (pc : Pc)
    → CallsFork n pc
    → Accounts n c lost pc
    → Accounts n c (lost + replacements_lost pc) (fork_failed pc)
fail-Accounts n c lost (forking i) more a = omega arith
fail-Accounts n c lost reforking more a = omega arith
fail-Accounts n c lost waiting more a = absurd more
fail-Accounts n c lost exited more a = absurd more
fail-Accounts n c lost (working cpu) more a = absurd more

returned_IsWorker : (cpu : Option ℕ) → IsWorker (worker_returned cpu)
returned_IsWorker none = tt
returned_IsWorker (some cpu) = tt

same-IsManned :
    {n boss lost lost' : ℕ} {ps qs : List Process}
    → IsManned n boss ps lost
    → qs ≡ ps
    → lost' ≡ lost
    → IsManned n boss qs lost'
same-IsManned {n} {boss} {lost} {lost'} {ps} {qs} m e e' =
    subst (λ k. IsManned n boss qs k) (sym e') (subst (λ z. IsManned n boss z lost) (sym e) m)

pub Step-IsManned :
    {n boss lost lost' : ℕ} {ps qs : List Process}
    → IsManned n boss ps lost
    → Step n ps qs lost'
    → IsManned n boss qs (lost + lost')
Step-IsManned {n} {boss} {lost} {lost'} {ps} {qs} m (forks p child x at_p c new e e') =
    let b : p ≡ boss = forker m p x at_p c in
    let at_boss : entry boss ps ≡ some x = ap (λ q. entry q ps) (sym b) ∙ at_p in
    let (k, a) = fork-Accounts n (children boss ps) lost x.pc c (boss_at m x at_boss) in
    same-IsManned
      (child_comes m child x (forked_child x.pc) (forked_parent x.pc) lost at_boss new k a)
      (e
        ∙ ap
            (λ q.
              record { pid = child; parent = some q; pc = forked_child x.pc }
              ∷ set_pc q (forked_parent x.pc) ps)
            b)
      (omega arith)
Step-IsManned {n} {boss} {lost} {lost'} {ps} {qs} m (fork_fails p x at_p c e e') =
    let b : p ≡ boss = forker m p x at_p c in
    let at_boss : entry boss ps ≡ some x = ap (λ q. entry q ps) (sym b) ∙ at_p in
    same-IsManned
      (boss_moves m (fork_failed x.pc) (lost + replacements_lost x.pc)
        (fail-Accounts n (children boss ps) lost x.pc c (boss_at m x at_boss)))
      (e ∙ ap (λ q. set_pc q (fork_failed x.pc) ps) b) (omega arith)
Step-IsManned {n} {boss} {lost} {lost'} {ps} {qs} m (loop_ends p x at_p at e e') =
    let b : p ≡ boss = elim (IsWorker-at boss p ps x m.workers at_p) [
      | inl b ↦ b
      | inr k ↦ absurd (subst IsWorker at k)
    ] in
    let at_boss : entry boss ps ≡ some x = ap (λ q. entry q ps) (sym b) ∙ at_p in
    let a : Accounts n (children boss ps) lost (forking n) =
      subst (Accounts n (children boss ps) lost) at (boss_at m x at_boss) in
    same-IsManned (boss_moves m waiting lost (omega arith)) (e ∙ ap (λ q. set_pc q waiting ps) b)
      (omega arith)
Step-IsManned m (wait_fails p x at_p at none_left e e') = same-IsManned m e (omega arith)
Step-IsManned {n} {boss} {lost} {lost'} {ps} {qs} m (waits p q x y at_p at at_q par gone e e') =
    let b : p ≡ boss = parent_at m p q y at_q par in
    let at_boss : entry boss ps ≡ some x = ap (λ q. entry q ps) (sym b) ∙ at_p in
    same-IsManned (child_goes m q x y at_boss at at_q (par ∙ ap (λ z. some z) b) gone)
      (e ∙ ap (λ z. set_pc z reforking (remove q ps)) b) (omega arith)
Step-IsManned m (returns p x cpu at_p at e e') =
    same-IsManned
      (worker_moves m p (worker_returned cpu) (not_boss m p x cpu at_p at) (returned_IsWorker cpu))
      e (omega arith)
Step-IsManned m (crashes p x cpu at_p at e e') =
    same-IsManned (worker_moves m p exited (not_boss m p x cpu at_p at) tt) e (omega arith)

started-IsManned : (n boss : ℕ) → IsManned n boss (started boss) 0
unfolding entry children
started-IsManned n boss = record {
  workers = (inl refl, tt);
  childless = λ p ne. omega arith;
  accounts = (record { pid = boss; parent = none; pc = forking 0 }, ground arith, omega arith);
}

pub Reach-IsManned :
    {n boss lost : ℕ} {ps qs : List Process} {more : ℕ}
    → IsManned n boss ps lost
    → Reach n ps qs more
    → IsManned n boss qs (lost + more)
Reach-IsManned m here = same-IsManned m refl (omega arith)
Reach-IsManned m (next r st) =
    same-IsManned (Step-IsManned (Reach-IsManned m r) st) refl (omega arith)

pub from_start :
    {n boss lost : ℕ} {ps : List Process} → Reach n (started boss) ps lost → IsManned n boss ps lost
from_start {n} {boss} r =
    same-IsManned (Reach-IsManned (started-IsManned n boss) r) refl (omega arith)

-- However the workers end and the kernel answers, if signals end only workers: the first process forks, waits or has exited; in
-- the loop over the CPUs it has a child for each CPU so far, and in the loop around `wait` one for
-- each CPU, but for those that a failed `fork` did not replace and the one to be replaced just now.
pub population_lem :
    {n boss lost : ℕ} {ps : List Process}
    → Reach n (started boss) ps lost
    → (x : Process) × (entry boss ps ≡ some x) × Accounts n (children boss ps) lost x.pc
population_lem r = (from_start r).accounts
