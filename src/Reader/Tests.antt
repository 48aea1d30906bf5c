-- ===== src/Reader/Tests.antt =====
-- The reader on a concrete queue of datagrams.
use quic_proxy.Base.{
  ℕ, ◌+◌, ◌≤◌, ◌≡◌, ◌↔◌, refl, true, List, [], ◌∷◌, map, Option, none, some, length, take,
  replicate, arith,
}
use quic_proxy.Base.Int.{pos, nat_part}
use quic_proxy.Reader.{Slot, Received, init, reset, read_and_dispatch_packets, read_loop}
use quic_proxy.Reader.Sample.{net, datagram}
use quic_proxy.Reader.Batch.{packets_at, read_lem}
use quic_proxy.Reader.Drain.{drain_lem}

-- The second is too long for its buffer.
abbrev queue : List Slot
queue = datagram 0 ∷ datagram 32 ∷ datagram 0 ∷ []

-- Two are handed on, both with the first reading of the clock.
two_packets :
    map (λ p. p.timestamp) (read_and_dispatch_packets net 443 (init 4 8) none queue).2
    ≡ 1000 ∷ 1000 ∷ []
unfolding read_and_dispatch_packets init reset
two_packets = refl

read_lem_example :
    let (n, slots', k') = net.recvmmsg (map (reset net) (init 4 8)) queue in
    let (more, slots'', out, packets_dropped', k'') =
      read_and_dispatch_packets net 443 (init 4 8) (some 0) queue in
    ((more ≡ true) ↔ (n ≡ pos 16))
    × (out ≡ packets_at net 443 1000 (take (nat_part n) slots'))
    × (k'' ≡ k')
read_lem_example = read_lem net 443 (init 4 8) (some 0) queue (λ e. cc)

drain_lem_example :
    (slots' : List Slot) × (out : List Received) × (packets_dropped' : Option ℕ) × (k' : List Slot)
    × (read_loop net 2 443 (init 4 8) none (replicate 20 (datagram 0))
        ≡ some (slots', out, packets_dropped', k'))
    × (length out + length k' ≤ 20)
drain_lem_example = drain_lem net 443 2 (init 4 8) none (replicate 20 (datagram 0)) (omega arith)
