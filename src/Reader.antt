-- ===== src/Reader.antt =====
-- quic_proxy/proxy_quic/quic_proxy_packet_reader.h and .cc, and the read loop of `OnEvent` in
-- quic_proxy_server.cc: datagrams come in batches of up to 16.
--
-- A slot is a `PacketData` with its `mmsghdr`. What the kernel, the epoll clock and QuicSocketUtils do
-- is the interface `Net`; the packets that go to the processor are recorded as a list. A time is a
-- number, and 0 is the time that is not set.
pub mod Batch
pub mod Drain
pub mod Sample
mod Tests
use quic_proxy.Base.{
  ℕ, suc, zero, ◌+◌, ◌/◌, ◌%◌, ◌≤◌, ◌≡◌, Bool, true, false, not, List, [], ◌∷◌, ◌++◌, map, Option,
  none, some, ◌==◌, if◌then◌else◌, length, replicate, take,
}
use quic_proxy.Base.Int.{ℤ, pos, is_pos, int_eq, nat_part}
use quic_proxy.Base.Bytes.{Bytes}

abbrev pub packets_per_call : ℕ
packets_per_call = 16

pub record Slot : Type 0 where
  pub msg_namelen : ℕ
  pub msg_controllen : ℕ
  pub msg_flags : ℕ
  pub msg_len : ℕ
  pub raw_address : ℕ
  pub cbuf : Bytes
  pub buf : Bytes

pub record Net (K : Type 0) : Type 0 where
  -- `recvmmsg`: how many slots it filled or -1, and the slots.
  pub recvmmsg : List Slot → K → ℤ × List Slot × K
  -- The readings of the clock after this call, in order.
  pub clock : K → ℕ → ℕ
  pub cmsg_space : ℕ
  pub self_ip : Slot → Option ℕ
  pub wall_time : Slot → ℕ
  pub ttl : Slot → Option ℕ
  pub wall_to_quic_time : ℕ → ℕ
  pub overflow : Slot → ℕ → ℕ
  -- The datagrams that the socket has or will get.
  pub supply : K → ℕ
  pub recvmmsg_le : (slots : List Slot) (k : K) → nat_part (recvmmsg slots k).0 ≤ length slots
  pub recvmmsg_length : (slots : List Slot) (k : K) → length (recvmmsg slots k).1 ≡ length slots
  -- Each filled slot is a datagram taken from the supply.
  pub supply_le :
      (slots : List Slot) (k : K)
      → nat_part (recvmmsg slots k).0 + supply (recvmmsg slots k).2 ≤ supply k

-- A call of `ProcessPacket`.
pub record Received : Type 0 where
  pub self_ip : ℕ
  pub port : ℕ
  pub peer_address : ℕ
  pub contents : Bytes
  pub timestamp : ℕ
  pub ttl : Option ℕ

-- MSG_CTRUNC and MSG_TRUNC in `msg_flags`.
abbrev pub is_ctrunc : Slot → Bool
is_ctrunc s = s.msg_flags / 8 % 2 == 1

abbrev pub is_trunc : Slot → Bool
is_trunc s = s.msg_flags / 32 % 2 == 1

-- The constructor: all is zero but the lengths.
unfoldable pub init : (cmsg_space max_packet_size : ℕ) → List Slot
init cmsg_space max_packet_size = replicate packets_per_call (record {
  msg_namelen = 128;
  msg_controllen = cmsg_space;
  msg_flags = 0;
  msg_len = 0;
  raw_address = 0;
  cbuf = replicate cmsg_space 0;
  buf = replicate max_packet_size 0;
})

module _ {K : Type 0} (net : Net K) where
  -- The three fields that the kernel may have changed.
  pub reset : Slot → Slot
  reset s = record s { msg_namelen = 128; msg_controllen = net.cmsg_space; msg_flags = 0 }

  abbrev pub received : ℕ → (ip timestamp : ℕ) → Slot → Received
  received port ip timestamp s = record {
    self_ip = ip;
    port = port;
    peer_address = s.raw_address;
    contents = take s.msg_len s.buf;
    timestamp = timestamp;
    ttl = net.ttl s;
  }

  -- The timestamp of a packet; the state is how often the clock was read, and `fallback_timestamp`.
  unfoldable pub timestamp_of : (ℕ → ℕ) → ℕ × ℕ → Slot → ℕ × (ℕ × ℕ)
  timestamp_of clock (reads, fallback) s =
      if net.wall_time s == 0
      then (if fallback == 0
          then (clock reads, (reads + 1, clock reads))
          else (fallback, (reads, fallback)))
      else (net.wall_to_quic_time (net.wall_time s), (reads, fallback))

  -- One round of the loop over the slots.
  unfoldable pub dispatch_one : ℕ → (ℕ → ℕ) → ℕ × ℕ → Slot → List Received × (ℕ × ℕ)
  unfolding timestamp_of
  dispatch_one port clock st s =
      if s.msg_len == 0
      then ([], st)
      else (if is_ctrunc s
          then ([], st)
          else (if is_trunc s then ([], st) else (elim (net.self_ip s) [
            | none ↦ ([], st)
            | some ip ↦
                let (timestamp, st') = timestamp_of clock st s in
                (received port ip timestamp s ∷ [], st')
          ])))

  unfoldable pub dispatch : ℕ → (ℕ → ℕ) → ℕ × ℕ → List Slot → List Received × (ℕ × ℕ)
  unfolding dispatch_one
  dispatch port clock st [] = ([], st)
  dispatch port clock st (s ∷ ss) =
      let (out, st') = dispatch_one port clock st s in
      let (outs, st'') = dispatch port clock st' ss in (out ++ outs, st'')

  -- `GetOverflowFromMsghdr` on the first header, if the caller wants it.
  abbrev pub overflow_of : List Slot → Option ℕ → Option ℕ
  overflow_of [] dropped = dropped
  overflow_of (s ∷ ss) none = none
  overflow_of (s ∷ ss) (some d) = some (net.overflow s d)

  -- `ReadAndDispatchPackets`
  unfoldable pub read_and_dispatch_packets :
      ℕ
      → List Slot
      → (packets_dropped : Option ℕ) → K
      → Bool × List Slot × List Received × Option ℕ × K
  unfolding reset dispatch
  read_and_dispatch_packets port slots packets_dropped k =
      let (packets_read, slots', k') = net.recvmmsg (map reset slots) k in
      let (out, _) = dispatch port (net.clock k') (0, 0) (take (nat_part packets_read) slots') in
      if not (is_pos packets_read) then (false, slots', [], packets_dropped, k') else (
        int_eq packets_read (pos packets_per_call),
        slots',
        out,
        overflow_of slots' packets_dropped,
        k',
      )

  -- The loop of the server's `OnEvent`, on fuel: the packets of all batches.
  unfoldable pub read_loop :
      ℕ
      → ℕ
      → List Slot
      → (packets_dropped : Option ℕ) → K
      → Option (List Slot × List Received × Option ℕ × K)
  unfolding read_and_dispatch_packets
  read_loop zero port slots packets_dropped k = none
  read_loop (suc fuel) port slots packets_dropped k =
      let (more_to_read, slots', out, packets_dropped', k') =
        read_and_dispatch_packets port slots packets_dropped k in
      let rest = read_loop fuel port slots' packets_dropped' k' in
      if more_to_read
      then (elim rest [
        | none ↦ none
        | some (slots'', outs, packets_dropped'', k'') ↦
            some (slots'', out ++ outs, packets_dropped'', k'')
      ])
      else some (slots', out, packets_dropped', k')
