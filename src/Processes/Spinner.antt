-- ===== src/Processes/Spinner.antt =====
-- A replacement whose `worker()` returns, in quic_proxy_server_bin.cc.
use quic_proxy.Base.{
  ℕ, ◌≡◌, ◌≢◌, refl, sym, ap, ◌∙◌, List, none, some, some-eq, ==_iff, beq_ne, arith,
}
use quic_proxy.Processes.{
  Pc, forking, waiting, reforking, exited, working, Process, forked_parent, fork_failed,
  worker_returned, CallsFork, entry, set_pc, remove, children, Step, forks, fork_fails, loop_ends,
  wait_fails, waits, returns, crashes, started, Reach, here, next,
}
use quic_proxy.Processes.Table.{entry-set_pc, entry-remove_ne}
use quic_proxy.Processes.Manned.{IsManned, parent_at}
use quic_proxy.Processes.Population.{Step-IsManned, Reach-IsManned, from_start}

calls_ne_waiting : (n : ℕ) (pc : Pc) → CallsFork n pc → pc ≢ waiting
calls_ne_waiting n (forking i) c = λ e. cc
calls_ne_waiting n reforking c = λ e. cc
calls_ne_waiting n waiting c = absurd c
calls_ne_waiting n exited c = absurd c
calls_ne_waiting n (working cpu) c = absurd c

module _ {n boss lost : ℕ} {ps : List Process} (m : IsManned n boss ps lost) (p : ℕ) (x : Process)
    (other : p ≢ boss) (at_p : entry p ps ≡ some x) (is_waiting : x.pc ≡ waiting) where
  differs : (q : ℕ) (y : Process) → entry q ps ≡ some y → y.pc ≢ waiting → q ≢ p
  differs q y at_q ne e =
      ne (ap (λ z. z.pc) (some-eq (sym at_q ∙ ap (λ r. entry r ps) e ∙ at_p)) ∙ is_waiting)

  set_other : (q : ℕ) (pc : Pc) → q ≢ p → entry p (set_pc q pc ps) ≡ some x
  set_other q pc ne = entry-set_pc p q pc ps x at_p ∙ rw (beq_ne q p ne) refl

  -- A process in the loop around `wait`, other than the first, stays there: it has no child, and no
  -- process changes another's place.
  stays : {qs : List Process} {lost' : ℕ} → Step n ps qs lost' → entry p qs ≡ some x
  unfolding entry
  stays (forks q child y at_q c new e e') = rw e (
      ground (
        arith,
        ==_iff child p,
        set_other q (forked_parent y.pc) (differs q y at_q (calls_ne_waiting n y.pc c)),
      ))
  stays (fork_fails q y at_q c e e') =
      rw e (set_other q (fork_failed y.pc) (differs q y at_q (calls_ne_waiting n y.pc c)))
  stays (loop_ends q y at_q at e e') = rw e (set_other q waiting (differs q y at_q (λ w. cc)))
  stays (wait_fails q y at_q at none_left e e') = rw e at_p
  stays (waits q r y z at_q at at_r par gone e e') =
      let boss_waits : q ≢ p = λ same. other (sym same ∙ parent_at m q r z at_r par) in
      let kept : entry p (remove r ps) ≡ some x =
        entry-remove_ne p r ps (differs r z at_r (λ w. cc)) ∙ at_p in
      rw e (entry-set_pc p q reforking (remove r ps) x kept ∙ rw (beq_ne q p boss_waits) refl)
  stays (returns q y cpu at_q at e e') =
      rw e (set_other q (worker_returned cpu) (differs q y at_q (λ w. cc)))
  stays (crashes q y cpu at_q at e e') = rw e (set_other q exited (differs q y at_q (λ w. cc)))

stays_on :
    {n boss lost : ℕ} {ps : List Process} (m : IsManned n boss ps lost) (p : ℕ) (x : Process)
    {qs : List Process} {more : ℕ}
    → p ≢ boss
    → entry p ps ≡ some x
    → x.pc ≡ waiting
    → Reach n ps qs more
    → entry p qs ≡ some x
stays_on m p x other at_p is_waiting here = at_p
stays_on m p x other at_p is_waiting (next r st) =
    stays (Reach-IsManned m r) p x other (stays_on m p x other at_p is_waiting r) is_waiting st

-- A worker that replaced another returns, since it cannot listen: from then on, whatever happens,
-- if signals end only workers, it
-- stands in the loop around `wait` without a child, so that it neither works nor exits, and is counted
-- among the children of the first process.
pub spinner_lem :
    {n boss lost more : ℕ} {ps qs rs : List Process} (p : ℕ) (x : Process)
    → Reach n (started boss) ps lost
    → p ≢ boss
    → entry p ps ≡ some x
    → x.pc ≡ working none
    → qs ≡ set_pc p (worker_returned none) ps
    → Reach n qs rs more
    → (entry p rs ≡ some (record x { pc = waiting })) × (children p rs ≡ 0)
spinner_lem {n} {boss} {lost} {more} {ps} {qs} {rs} p x r other at_p at e later =
    let m = from_start r in
    let st : Step n ps qs 0 = returns p x none at_p at e refl in
    let m' = Step-IsManned m st in
    let there : entry p qs ≡ some (record x { pc = waiting }) =
      rw e (entry-set_pc p p waiting ps x at_p ∙ ground arith) in
    (
      stays_on m' p (record x { pc = waiting }) other there refl later,
      (Reach-IsManned m' later).childless p other,
    )
