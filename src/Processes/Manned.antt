-- ===== src/Processes/Manned.antt =====
-- What holds of the processes of quic_proxy_server_bin.cc between two steps.
use quic_proxy.Base.{
  ℕ, ◌+◌, ◌≡◌, ◌≢◌, ◌<◌, ◌≤◌, refl, sym, ap, ◌∙◌, subst, ◌⊎◌, inl, inr, List, [], ◌∷◌, Option, none,
  some, some-eq, ◌==◌, ==_iff, if◌then◌else◌, arith, Bool-cases,
}
use quic_proxy.Processes.{
  Pc, forking, waiting, reforking, exited, working, Process, CallsFork, entry, set_pc, remove,
  children,
}
use quic_proxy.Processes.Table.{entry-set_pc, entry-remove_ne, children-set_pc, children-remove}

-- What a process other than the first can be at.
abbrev pub IsWorker : Pc → Type 0
IsWorker (forking i) = ⊥
IsWorker waiting = Unit {0}
IsWorker reforking = ⊥
IsWorker exited = Unit {0}
IsWorker (working cpu) = Unit {0}

-- The children that the first process has, with the replacements lost so far, where it stands.
abbrev pub Accounts : (cpu_count children lost : ℕ) → Pc → Type 0
Accounts n c lost (forking i) = (c ≡ i) × (i ≤ n) × (lost ≡ 0)
Accounts n c lost waiting = c + lost ≡ n
Accounts n c lost reforking = c + 1 + lost ≡ n
Accounts n c lost exited = (c < n) × (lost ≡ 0)
Accounts n c lost (working cpu) = ⊥

abbrev pub AllWorkers : ℕ → List Process → Type 0
AllWorkers boss [] = Unit {0}
AllWorkers boss (x ∷ xs) = ((x.pid ≡ boss) ⊎ IsWorker x.pc) × AllWorkers boss xs

pub record IsManned (cpu_count boss : ℕ) (ps : List Process) (lost : ℕ) : Type 0 where
  pub workers : AllWorkers boss ps
  pub childless : (p : ℕ) → p ≢ boss → children p ps ≡ 0
  pub accounts :
      (x : Process) × (entry boss ps ≡ some x) × Accounts cpu_count (children boss ps) lost x.pc

pub IsWorker-at :
    (boss p : ℕ) (ps : List Process) (x : Process)
    → AllWorkers boss ps
    → entry p ps ≡ some x
    → (p ≡ boss) ⊎ IsWorker x.pc
unfolding entry
IsWorker-at boss p [] x w e = cc
IsWorker-at boss p (y ∷ ys) x w e = elim (Bool-cases (y.pid == p)) [
  | inl s ↦
      let same : y ≡ x = some-eq (ground arith) in
      let at_p : y.pid ≡ p = (==_iff y.pid p).0 s in
      elim w.0 [
        | inl b ↦ inl (sym at_p ∙ b)
        | inr k ↦ inr (subst (λ (z : Process). IsWorker z.pc) same k)
      ]
  | inr s ↦ IsWorker-at boss p ys x w.1 (ground arith)
]

AllWorkers-set_pc :
    (boss p : ℕ) (pc : Pc) (ps : List Process)
    → AllWorkers boss ps
    → (p ≡ boss) ⊎ IsWorker pc
    → AllWorkers boss (set_pc p pc ps)
unfolding set_pc
AllWorkers-set_pc boss p pc [] w k = tt
AllWorkers-set_pc boss p pc (y ∷ ys) w k = elim (Bool-cases (y.pid == p)) [
  | inl s ↦
      let at_p : y.pid ≡ p = (==_iff y.pid p).0 s in
      let head : (y.pid ≡ boss) ⊎ IsWorker pc = elim k [ inl b ↦ inl (at_p ∙ b) | inr i ↦ inr i ] in
      rw s (head, w.1)
  | inr s ↦ rw s (w.0, AllWorkers-set_pc boss p pc ys w.1 k)
]

AllWorkers-remove :
    (boss p : ℕ) (ps : List Process) → AllWorkers boss ps → AllWorkers boss (remove p ps)
unfolding remove
AllWorkers-remove boss p [] w = tt
AllWorkers-remove boss p (y ∷ ys) w = elim (Bool-cases (y.pid == p)) [
  | inl s ↦ rw s w.1
  | inr s ↦ rw s (w.0, AllWorkers-remove boss p ys w.1)
]

waiting_ne : waiting ≡ exited → ⊥
waiting_ne e = cc

not_worker : (n : ℕ) (pc : Pc) → CallsFork n pc → IsWorker pc → ⊥
not_worker n (forking i) c k = k
not_worker n waiting c k = c
not_worker n reforking c k = k
not_worker n exited c k = c
not_worker n (working cpu) c k = c

module _ {cpu_count boss : ℕ} {ps : List Process} {lost : ℕ}
    (m : IsManned cpu_count boss ps lost) where
  -- Only the first process forks, or has a child.
  pub forker : (p : ℕ) (x : Process) → entry p ps ≡ some x → CallsFork cpu_count x.pc → p ≡ boss
  forker p x e c = elim (IsWorker-at boss p ps x m.workers e) [
    | inl b ↦ b
    | inr k ↦ absurd (not_worker cpu_count x.pc c k)
  ]

  pub parent_at : (p q : ℕ) (y : Process) → entry q ps ≡ some y → y.parent ≡ some p → p ≡ boss
  parent_at p q y e par = elim (Bool-cases (p == boss)) [
    | inl b ↦ (==_iff p boss).0 b
    | inr b ↦ ground (arith, m.childless p, children-remove p q ps y e, ==_iff p boss)
  ]

  -- What the first process is at.
  pub boss_at :
      (x : Process) → entry boss ps ≡ some x → Accounts cpu_count (children boss ps) lost x.pc
  boss_at x e =
      let (y, at_boss, a) = m.accounts in
      let same : y ≡ x = some-eq (sym at_boss ∙ e) in
      subst (λ (z : Process). Accounts cpu_count (children boss ps) lost z.pc) same a

  pub boss_moves :
      (pc : Pc) (lost' : ℕ)
      → Accounts cpu_count (children boss ps) lost' pc
      → IsManned cpu_count boss (set_pc boss pc ps) lost'
  boss_moves pc lost' a = record {
    workers = AllWorkers-set_pc boss boss pc ps m.workers (inl refl);
    childless = λ p ne. children-set_pc p boss pc ps ∙ m.childless p ne;
    accounts =
        let (y, at_boss, old) = m.accounts in
        (
          record y { pc = pc },
          entry-set_pc boss boss pc ps y at_boss ∙ ground arith,
          rw (children-set_pc boss boss pc ps) a,
        );
  }

  pub worker_moves :
      (p : ℕ) (pc : Pc) → p ≢ boss → IsWorker pc → IsManned cpu_count boss (set_pc p pc ps) lost
  worker_moves p pc other k = record {
    workers = AllWorkers-set_pc boss p pc ps m.workers (inr k);
    childless = λ q ne. children-set_pc q p pc ps ∙ m.childless q ne;
    accounts =
        let (y, at_boss, a) = m.accounts in
        (
          y,
          entry-set_pc boss p pc ps y at_boss ∙ ground (arith, ==_iff p boss),
          rw (children-set_pc boss p pc ps) a,
        );
  }

  pub child_comes :
      (c : ℕ) (x : Process) (pc pc' : Pc) (lost' : ℕ)
      → entry boss ps ≡ some x
      → entry c ps ≡ none
      → IsWorker pc
      → Accounts cpu_count (1 + children boss ps) lost' pc'
      → IsManned cpu_count boss
          (record { pid = c; parent = some boss; pc = pc } ∷ set_pc boss pc' ps)
          lost'
  unfolding entry children
  child_comes c x pc pc' lost' at_boss new k a = record {
    workers = (inr k, AllWorkers-set_pc boss boss pc' ps m.workers (inl refl));
    childless = λ q ne. ground (arith, children-set_pc q boss pc' ps, m.childless q, ==_iff boss q);
    accounts =
        let one_more : (if boss == boss then 1 else 0) + children boss (set_pc boss pc' ps)
            ≡ 1 + children boss ps =
          ground (arith, children-set_pc boss boss pc' ps) in
        let still : entry boss (set_pc boss pc' ps) ≡ some (record x { pc = pc' }) =
          entry-set_pc boss boss pc' ps x at_boss ∙ ground arith in
        (
          record x { pc = pc' },
          ground (arith, ==_iff c boss, still),
          subst (λ n. Accounts cpu_count n lost' pc') (sym one_more) a,
        );
  }

  pub child_goes :
      (q : ℕ) (x y : Process)
      → entry boss ps ≡ some x
      → x.pc ≡ waiting
      → entry q ps ≡ some y
      → y.parent ≡ some boss
      → y.pc ≡ exited
      → IsManned cpu_count boss (set_pc boss reforking (remove q ps)) lost
  child_goes q x y at_boss is_waiting at_q par gone = record {
    workers =
        AllWorkers-set_pc boss boss reforking (remove q ps) (AllWorkers-remove boss q ps m.workers)
          (inl refl);
    childless = λ p ne.
        children-set_pc p boss reforking (remove q ps)
        ∙ omega (arith, m.childless p ne, children-remove p q ps y at_q);
    accounts =
        let kept : entry boss (remove q ps) ≡ some x =
          entry-remove_ne boss q ps (λ e. waiting_ne (
            sym is_waiting
            ∙ ap (λ z. z.pc) (some-eq (sym at_boss ∙ ap (λ p. entry p ps) (sym e) ∙ at_q))
            ∙ gone))
          ∙ at_boss in
        let fewer : children boss ps ≡ 1 + children boss (remove q ps) =
          children-remove boss q ps y at_q ∙ ground arith in
        let before : children boss ps + lost ≡ cpu_count =
          subst (Accounts cpu_count (children boss ps) lost) is_waiting (boss_at x at_boss) in
        (
          record x { pc = reforking },
          entry-set_pc boss boss reforking (remove q ps) x kept ∙ ground arith,
          rw (children-set_pc boss boss reforking (remove q ps)) (omega arith),
        );
  }

  pub not_boss :
      (p : ℕ) (x : Process) (cpu : Option ℕ) → entry p ps ≡ some x → x.pc ≡ working cpu → p ≢ boss
  not_boss p x cpu at_p at e =
      subst (Accounts cpu_count (children boss ps) lost) at
        (boss_at x (ap (λ q. entry q ps) (sym e) ∙ at_p))
