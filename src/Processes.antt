-- ===== src/Processes.antt =====
-- quic_proxy/proxy_quic/quic_proxy_server_bin.cc: the parent that forks a worker for each CPU and
-- replaces those that end. What a process does at each of its calls is a function of the call's
-- answer; `Step` is one such answer, chosen by the kernel, in one of the processes.
pub mod Table
pub mod Manned
pub mod Population
pub mod Spinner
pub mod Recovery
pub mod Worker
mod Tests
use quic_proxy.Base.{
  ℕ, suc, ◌+◌, ◌≡◌, ◌<◌, Bool, true, false, List, [], ◌∷◌, Option, none, some, ◌==◌, if◌then◌else◌,
}

-- Where a process stands. A worker from the loop over the CPUs is bound to its CPU, and `exit` stands
-- behind its `worker()`; behind that of a replacement stands the head of the loop around `wait`.
pub data Pc : Type 0 where
  forking : (i : ℕ) → Pc
  waiting reforking exited : Pc
  working : (cpu : Option ℕ) → Pc

pub record Process : Type 0 where
  pub pid : ℕ
  pub parent : Option ℕ
  pub pc : Pc

-- `fork` in the parent, and in the child, and when it fails.
abbrev pub forked_parent : Pc → Pc
forked_parent (forking i) = forking (suc i)
forked_parent reforking = waiting
forked_parent waiting = waiting
forked_parent exited = exited
forked_parent (working cpu) = working cpu

abbrev pub forked_child : Pc → Pc
forked_child (forking i) = working (some i)
forked_child reforking = working none
forked_child waiting = waiting
forked_child exited = exited
forked_child (working cpu) = working cpu

abbrev pub fork_failed : Pc → Pc
fork_failed (forking i) = exited
fork_failed reforking = waiting
fork_failed waiting = waiting
fork_failed exited = exited
fork_failed (working cpu) = working cpu

-- `worker()` has returned.
abbrev pub worker_returned : Option ℕ → Pc
worker_returned (some cpu) = exited
worker_returned none = waiting

-- The process calls `fork` next.
abbrev pub CallsFork : ℕ → Pc → Type 0
CallsFork cpu_count (forking i) = i < cpu_count
CallsFork cpu_count reforking = Unit {0}
CallsFork cpu_count waiting = ⊥
CallsFork cpu_count exited = ⊥
CallsFork cpu_count (working cpu) = ⊥

-- How many replacements are lost when `fork` fails here.
abbrev pub replacements_lost : Pc → ℕ
replacements_lost reforking = 1
replacements_lost (forking i) = 0
replacements_lost waiting = 0
replacements_lost exited = 0
replacements_lost (working cpu) = 0

-- The kernel's table of processes; one that has exited stays until its parent has waited for it.
abbrev pub is_child : ℕ → Process → Bool
is_child p x = elim x.parent [ none ↦ false | some q ↦ q == p ]

unfoldable pub entry : ℕ → List Process → Option Process
entry p [] = none
entry p (x ∷ xs) = if x.pid == p then some x else entry p xs

unfoldable pub set_pc : ℕ → Pc → List Process → List Process
set_pc p pc [] = []
set_pc p pc (x ∷ xs) = if x.pid == p then record x { pc = pc } ∷ xs else x ∷ set_pc p pc xs

unfoldable pub remove : ℕ → List Process → List Process
remove p [] = []
remove p (x ∷ xs) = if x.pid == p then xs else x ∷ remove p xs

unfoldable pub children : ℕ → List Process → ℕ
children p [] = 0
children p (x ∷ xs) = (if is_child p x then 1 else 0) + children p xs

-- One step, and how many replacements it loses. A signal is taken to end workers only: that a process is
-- killed while it is in `fork` or `wait` is left out.
pub data Step (cpu_count : ℕ) (ps qs : List Process) (lost : ℕ) : Type 0 where
  forks :
      (p child : ℕ) (x : Process)
      → entry p ps ≡ some x
      → CallsFork cpu_count x.pc
      → entry child ps ≡ none
      → qs
        ≡ record { pid = child; parent = some p; pc = forked_child x.pc }
          ∷ set_pc p (forked_parent x.pc) ps
      → lost ≡ 0
      → Step cpu_count ps qs lost
  fork_fails :
      (p : ℕ) (x : Process)
      → entry p ps ≡ some x
      → CallsFork cpu_count x.pc
      → qs ≡ set_pc p (fork_failed x.pc) ps
      → lost ≡ replacements_lost x.pc
      → Step cpu_count ps qs lost
  loop_ends :
      (p : ℕ) (x : Process)
      → entry p ps ≡ some x
      → x.pc ≡ forking cpu_count
      → qs ≡ set_pc p waiting ps
      → lost ≡ 0
      → Step cpu_count ps qs lost
  -- `wait` is -1 where there is no child.
  wait_fails :
      (p : ℕ) (x : Process)
      → entry p ps ≡ some x
      → x.pc ≡ waiting
      → children p ps ≡ 0
      → qs ≡ ps
      → lost ≡ 0
      → Step cpu_count ps qs lost
  waits :
      (p q : ℕ) (x y : Process)
      → entry p ps ≡ some x
      → x.pc ≡ waiting
      → entry q ps ≡ some y
      → y.parent ≡ some p
      → y.pc ≡ exited
      → qs ≡ set_pc p reforking (remove q ps)
      → lost ≡ 0
      → Step cpu_count ps qs lost
  returns :
      (p : ℕ) (x : Process) (cpu : Option ℕ)
      → entry p ps ≡ some x
      → x.pc ≡ working cpu
      → qs ≡ set_pc p (worker_returned cpu) ps
      → lost ≡ 0
      → Step cpu_count ps qs lost
  -- A worker ends by a signal.
  crashes :
      (p : ℕ) (x : Process) (cpu : Option ℕ)
      → entry p ps ≡ some x
      → x.pc ≡ working cpu
      → qs ≡ set_pc p exited ps
      → lost ≡ 0
      → Step cpu_count ps qs lost

-- The processes at the head of the loop over the CPUs, and those that may follow, with the number of
-- replacements lost on the way.
abbrev pub started : ℕ → List Process
started boss = record { pid = boss; parent = none; pc = forking 0 } ∷ []

pub data Reach (cpu_count : ℕ) (ps : List Process) : List Process → ℕ → Type 0 where
  here : Reach cpu_count ps ps 0
  next :
      {qs rs : List Process} {n lost : ℕ}
      → Reach cpu_count ps qs n
      → Step cpu_count qs rs lost
      → Reach cpu_count ps rs (n + lost)
