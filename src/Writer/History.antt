-- ===== src/Writer/History.antt =====
-- Histories of quic_proxy_packet_writer.cc: any sequence of writes and timer flushes, against the
-- queue, and what becomes of every datagram.
use quic_proxy.Base.{ℕ, ◌≤◌, ◌≡◌, refl, List, [], ◌∷◌, Option, none, some, length}
use quic_proxy.Socket.{Socket, WriteResult}
use quic_proxy.Writer.{Writer, packets, flush, write_packet}
use quic_proxy.Writer.Slots.{IsValid}
use quic_proxy.Writer.Refine.{Agrees, flush-Agrees, write_packet-Agrees}
use quic_proxy.Writer.Queue
use quic_proxy.Writer.Queue.{Call, writes, flushes, written, added, accepted}

-- What the caller of `WritePacket` owes: the datagram fits in a row, and the buffer holds it.
abbrev pub Fits : ℕ → Call → Type 0
Fits mtu (writes buffer len self peer) = (len ≤ mtu) × (len ≤ length buffer)
Fits mtu flushes = Unit {0}

abbrev pub AllFit : ℕ → List Call → Type 0
AllFit mtu [] = Unit {0}
AllFit mtu (c ∷ cs) = Fits mtu c × AllFit mtu cs

module _ {K : Type 0} (s : Socket K) where
  pub step : Call → Writer → K → Option (WriteResult × Writer × K)
  step (writes buffer len self peer) w k = write_packet s w k buffer len self peer
  step flushes w k = some (flush s w k)

  pub run : List Call → Writer → K → Option (List WriteResult × Writer × K)
  run [] w k = some ([], w, k)
  run (c ∷ cs) w k = elim (step c w k) [
    | none ↦ none
    | some (r, w', k') ↦ elim (run cs w' k') [
      | none ↦ none
      | some (rs, w'', k'') ↦ some (r ∷ rs, w'', k'')
    ]
  ]

module _ {K : Type 0} (s : Socket K) {mtu : ℕ} where
  step-Agrees :
      (c : Call) (w : Writer) (k : K)
      → IsValid mtu w
      → Fits mtu c
      → (x : WriteResult × Writer × K) × (step s c w k ≡ some x)
        × Agrees mtu w.fd x (Queue.step s w.fd c (packets w) k)
  unfolding step Queue.step
  step-Agrees (writes buffer len self peer) w k v f =
      write_packet-Agrees s buffer len self peer f.0 f.1 w k v
  step-Agrees flushes w k v f = (flush s w k, refl, flush-Agrees s k v)

  -- No call of a history is undefined behaviour; the results are the queue's, so is the traffic,
  -- and what the writer still holds; and the writer stays valid.
  pub run_refines :
      (cs : List Call) (w : Writer) (k : K)
      → IsValid mtu w
      → AllFit mtu cs
      → let (rs, q, k') = Queue.run s w.fd cs (packets w) k in
        (w' : Writer) × (run s cs w k ≡ some (rs, w', k')) × (packets w' ≡ q) × IsValid mtu w'
  unfolding run Queue.run
  run_refines [] w k v f = (w, refl, refl, v)
  run_refines (c ∷ cs) w k v f =
      let (x, e, a) = step-Agrees c w k v f.0 in
      let (w', r, h, v') = rw a.same_fd at (run_refines cs x.1 x.2 a.valid f.1) in
      (w', rw (e, run, ← a.result, ← a.holds, ← a.kernel, r), rw (← a.holds, ← a.kernel) h, v')
