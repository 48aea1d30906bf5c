-- ===== src/Socket.antt =====
-- What the packet writer uses of the QUIC library's socket helpers, which are not in this
-- repository: the statuses of a write, and `QuicLinuxSocketUtils::WriteMultiplePackets` over
-- sendmmsg(2). The state `K` of the kernel is whatever an instance chooses.
pub mod Sample
use quic_proxy.Base.{ℕ, ◌≤◌, ◌≡◌, Bool, true, false, List, ◌++◌, length, take}
use quic_proxy.Base.Int.{ℤ, nat_part}

-- The two statuses that the writer names, and all others by a number.
pub data WriteStatus : Type 0 where
  status_ok status_blocked : WriteStatus
  status_other : ℕ → WriteStatus

-- `WriteResult(status, bytes_written or error_code)`.
pub record WriteResult : Type 0 where
  pub status : WriteStatus
  pub value : ℕ

-- A datagram as sendmmsg is given it. Addresses are only moved, so an address is any number.
pub record Packet : Type 0 where
  pub payload : List ℕ
  pub self_address : ℕ
  pub peer_address : ℕ

-- The operations, and what their documentation says of them: sendmmsg takes a prefix of the
-- datagrams that it is given, in order, and stores how many. `sent` is the traffic so far.
pub record Socket (K : Type 0) : Type 0 where
  pub is_write_blocked_status : WriteStatus → Bool
  pub write_multiple : ℤ → List Packet → K → WriteResult × ℤ × K
  pub sent : K → List Packet
  pub blocked_lem : is_write_blocked_status status_blocked ≡ true
  pub ok_lem : is_write_blocked_status status_ok ≡ false
  pub num_sent_le :
      (fd : ℤ) (ps : List Packet) (k : K) → nat_part (write_multiple fd ps k).1 ≤ length ps
  pub sent_lem :
      (fd : ℤ) (ps : List Packet) (k : K)
      → sent (write_multiple fd ps k).2 ≡ sent k ++ take (nat_part (write_multiple fd ps k).1) ps
