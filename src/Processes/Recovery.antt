-- ===== src/Processes/Recovery.antt =====
-- A worker of quic_proxy_server_bin.cc has ended, and is replaced.
use quic_proxy.Base.{
  ℕ, ◌≡◌, ◌≢◌, refl, sym, ap, ◌∙◌, none, some, some-eq, none-ne-some, List, ◌∷◌, ==_iff, arith,
}
use quic_proxy.Processes.{
  waiting, reforking, exited, working, Process, entry, set_pc, remove, children, forks, waits, Step,
}
use quic_proxy.Processes.Table.{
  entry-set_pc, entry-set_pc-none, entry-remove_ne, children-set_pc, children-remove,
}

waiting-ne-exited : waiting ≢ exited
waiting-ne-exited e = cc

-- While the first process waits and a child of it has ended, `wait` cannot fail, as there is a child. There
-- is a step in which it returns, to the branch that forks, and, if the number of a process is free, a
-- second one in which the fork succeeds: a new process then works in the place of the one that has
-- ended, and the first waits again, for as many children as before.
pub recovery_lem :
    {n : ℕ} {ps : List Process} (boss q c : ℕ) (x y : Process)
    → entry boss ps ≡ some x
    → x.pc ≡ waiting
    → entry q ps ≡ some y
    → y.parent ≡ some boss
    → y.pc ≡ exited
    → entry c ps ≡ none
    → (ms qs : List Process) × (children boss ps ≢ 0)
      × Step n ps ms 0
      × (entry boss ms ≡ some (record x { pc = reforking }))
      × Step n ms qs 0
      × (entry c qs ≡ some (record { pid = c; parent = some boss; pc = working none }))
      × (entry boss qs ≡ some (record x { pc = waiting }))
      × (children boss qs ≡ children boss ps)
unfolding entry children
recovery_lem {n} {ps} boss q c x y at_boss is_waiting at_q par gone new = (
  ps',
  rs,
  (λ none_left. grind (arith, children-remove boss q ps y at_q, ==_iff boss boss)),
  waits boss q x y at_boss is_waiting at_q par gone refl refl,
  at_x',
  forks boss c x' at_x' tt none_c refl refl,
  ground arith,
  ground (arith, ==_iff c boss, entry-set_pc boss boss waiting ps' x' at_x'),
  ground (
    arith,
    children-set_pc boss boss waiting ps',
    children-set_pc boss boss reforking (remove q ps),
    children-remove boss q ps y at_q,
  ),
)
  where
    x' : Process
    x' = record x { pc = reforking }

    ps' : List Process
    ps' = set_pc boss reforking (remove q ps)

    rs : List Process
    rs = record { pid = c; parent = some boss; pc = working none } ∷ set_pc boss waiting ps'

    apart : q ≢ boss
    apart e = waiting-ne-exited (
        sym is_waiting
        ∙ ap (λ z. z.pc) (some-eq (sym at_boss ∙ ap (λ p. entry p ps) (sym e) ∙ at_q))
        ∙ gone)

    at_x' : entry boss ps' ≡ some x'
    at_x' =
        entry-set_pc boss boss reforking (remove q ps) x (entry-remove_ne boss q ps apart ∙ at_boss)
        ∙ ground arith

    none_c : entry c ps' ≡ none
    none_c = entry-set_pc-none c boss reforking (remove q ps) (
        entry-remove_ne c q ps (λ e. none-ne-some (sym new ∙ ap (λ p. entry p ps) (sym e) ∙ at_q))
        ∙ new)
