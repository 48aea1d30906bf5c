-- ===== src/Processes/Table.antt =====
-- The table of processes of quic_proxy_server_bin.cc: what is found after a change.
use quic_proxy.Base.{
  ℕ, ◌+◌, ◌≡◌, ◌≢◌, refl, List, [], ◌∷◌, none, some, ◌==◌, ==_iff, if◌then◌else◌, arith,
}
use quic_proxy.Processes.{Pc, Process, is_child, entry, set_pc, remove, children}

pub entry-set_pc :
    (p q : ℕ) (pc : Pc) (ps : List Process) (x : Process)
    → entry p ps ≡ some x
    → entry p (set_pc q pc ps) ≡ some (if q == p then record x { pc = pc } else x)
unfolding entry set_pc
entry-set_pc p q pc [] x e = cc
entry-set_pc p q pc (y ∷ ys) x e =
    ground (arith, ==_iff y.pid p, ==_iff y.pid q, ==_iff q p, entry-set_pc p q pc ys x)

pub entry-remove_ne : (p q : ℕ) (ps : List Process) → q ≢ p → entry p (remove q ps) ≡ entry p ps
unfolding entry remove
entry-remove_ne p q [] ne = refl
entry-remove_ne p q (y ∷ ys) ne =
    ground (arith, ==_iff y.pid p, ==_iff y.pid q, entry-remove_ne p q ys ne)

pub children-set_pc :
    (p q : ℕ) (pc : Pc) (ps : List Process) → children p (set_pc q pc ps) ≡ children p ps
unfolding children set_pc
children-set_pc p q pc [] = refl
children-set_pc p q pc (y ∷ ys) = ground (arith, children-set_pc p q pc ys)

pub children-remove :
    (p q : ℕ) (ps : List Process) (x : Process)
    → entry q ps ≡ some x
    → children p ps ≡ (if is_child p x then 1 else 0) + children p (remove q ps)
unfolding children remove entry
children-remove p q [] x e = cc
children-remove p q (y ∷ ys) x e = ground (arith, children-remove p q ys x)

pub entry-set_pc-none :
    (p q : ℕ) (pc : Pc) (ps : List Process) → entry p ps ≡ none → entry p (set_pc q pc ps) ≡ none
unfolding entry set_pc
entry-set_pc-none p q pc [] e = refl
entry-set_pc-none p q pc (y ∷ ys) e = ground (arith, entry-set_pc-none p q pc ys)
