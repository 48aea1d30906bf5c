-- ===== src/Writer/Tests.antt =====
-- quic_proxy_packet_writer.cc on concrete datagrams, over a socket whose state says how it answers.
use quic_proxy.Base.{
  ◌-◌, ◌^◌, zero, ℕ, suc, ◌+◌, ◌≡◌, refl, false, List, [], ◌∷◌, ◌++◌, none, some, arith, take, drop,
  replicate,
}
use quic_proxy.Base.Int.{pos}
use quic_proxy.Socket.{WriteResult, status_ok, status_blocked}
use quic_proxy.Socket.Sample.{Kernel, socket}
use quic_proxy.Writer.{Writer, BufferedWrite, init, packets, write_packet, emplaced, memcpy}
use quic_proxy.Writer.Slots.{IsValid}
use quic_proxy.Writer.Queue
use quic_proxy.Writer.Queue.{Call, writes, flushes, written, accepted}
use quic_proxy.Writer.History.{run, run_refines}
use quic_proxy.Writer.Conserve.{run_conserves}
use quic_proxy.Writer.Outcomes.{
  init-IsValid, Reports, write_packet-Reports, write_packet_overflow, write_packet_last,
}

abbrev rows : List (List ℕ)
rows = replicate 32 (0 ∷ 0 ∷ 0 ∷ [])

abbrev start : Writer
start = record {
  fd = pos 5;
  write_blocked = false;
  buffered_writes = [];
  writes_cache = rows;
  writes_cache_pos = 0;
}

start-IsValid : IsValid 3 start
unfolding init
start-IsValid = init-IsValid 3 (pos 5) rows refl (omega arith)

-- One entry for each row from `i` on.
abbrev entries : ℕ → ℕ → List BufferedWrite
entries zero i = []
entries (suc n) i =
    record { slot = i; buf_len = 1; self_address = 1; peer_address = 2 } ∷ entries n (i + 1)

-- 31 datagrams of one byte, the position having wrapped past 2 ^ 64 - 32.
abbrev almost_full : Writer
almost_full = record start { buffered_writes = entries 31 0; writes_cache_pos = 2 ^ 64 - 1 }

almost_full-IsValid : IsValid 3 almost_full
almost_full-IsValid = omega arith

abbrev open_kernel : Kernel
open_kernel = record { traffic = []; most = 2; status = status_ok }

abbrev jammed_kernel : Kernel
jammed_kernel = record { traffic = []; most = 0; status = status_blocked }

abbrev calls : List Call
calls = writes (7 ∷ 8 ∷ []) 2 1 2 ∷ writes (9 ∷ []) 1 1 3 ∷ writes (4 ∷ []) 1 1 2 ∷ flushes ∷ []

-- Three writes, and a flush of which the kernel takes two.
run-calls : Queue.run socket (pos 5) calls [] open_kernel ≡ (
  record { status = status_ok; value = 2 }
      ∷ record { status = status_ok; value = 1 }
      ∷ record { status = status_ok; value = 1 }
      ∷ record { status = status_ok; value = 0 }
      ∷ [],
  written (4 ∷ []) 1 1 2 ∷ [],
  record open_kernel { traffic = written (7 ∷ 8 ∷ []) 2 1 2 ∷ written (9 ∷ []) 1 1 3 ∷ [] },
)
unfolding Queue.run
run-calls = refl

run_refines_example :
    (w' : Writer) × (run socket calls start open_kernel
      ≡ some (
        (Queue.run socket (pos 5) calls [] open_kernel).0,
        w',
        (Queue.run socket (pos 5) calls [] open_kernel).2,
      ))
    × (packets w' ≡ (Queue.run socket (pos 5) calls [] open_kernel).1)
    × IsValid 3 w'
run_refines_example = run_refines socket calls start open_kernel start-IsValid (omega arith)

run_conserves_example :
    (rs : List WriteResult) × (w' : Writer) × (k' : Kernel) × (run socket calls start open_kernel
      ≡ some (rs, w', k'))
    × (k'.traffic ++ packets w' ≡ accepted socket (pos 5) calls [] open_kernel)
run_conserves_example = run_conserves socket calls start open_kernel start-IsValid (omega arith)

-- The position wraps to 0 while 32 datagrams are sent.
write_packet-Reports_example : Reports socket 1 false (
  record { status = status_ok; value = 1 },
  record (emplaced almost_full (6 ∷ 0 ∷ 0 ∷ []) 1 1 2) {
    buffered_writes = drop 2 (emplaced almost_full (6 ∷ 0 ∷ 0 ∷ []) 1 1 2).buffered_writes;
  },
  record open_kernel { traffic = take 2 (packets almost_full) },
)
unfolding write_packet emplaced memcpy
write_packet-Reports_example =
    write_packet-Reports socket almost_full open_kernel (6 ∷ []) 1 1 2 refl

write_packet_overflow_example :
    write_packet socket start open_kernel (1 ∷ 2 ∷ 3 ∷ 4 ∷ []) 4 1 2 ≡ none
write_packet_overflow_example =
    write_packet_overflow socket open_kernel (1 ∷ 2 ∷ 3 ∷ 4 ∷ []) 4 1 2 start-IsValid (omega arith)
      (omega arith)

write_packet_last_example :
    (w' : Writer) × (write_packet socket almost_full jammed_kernel (6 ∷ []) 1 1 2
      ≡ some (record { status = status_blocked; value = 0 }, w', jammed_kernel))
    × (packets w' ≡ packets almost_full ++ (written (6 ∷ []) 1 1 2 ∷ []))
write_packet_last_example =
    write_packet_last socket {w = almost_full} jammed_kernel jammed_kernel (6 ∷ []) 1 1 2
      (record { status = status_blocked; value = 0 }) almost_full-IsValid refl (omega arith)
      (omega arith) refl
