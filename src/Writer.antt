-- ===== src/Writer.antt =====
-- quic_proxy/proxy_quic/quic_proxy_packet_writer.h and .cc: the packet writer that collects up to
-- 32 datagrams in a cache of its own and hands them to sendmmsg together.
--
-- `writes_cache_` is a list of rows; a `BufferedWrite` holds the index of the row that its pointer
-- points into, so that a row written again is seen by every entry that still points there. The
-- row size kEthernetMTU is the QUIC library's, and a parameter. A memcpy past the end of the row,
-- or of the source, is undefined behaviour: the operation is then `none`. The DCHECKs are not in
-- a release build. `write_blocked` is the flag of the base class behind `set_write_blocked`.
pub mod Queue
pub mod Slots
pub mod Refine
pub mod History
pub mod Conserve
pub mod Outcomes
mod Tests
use mathlib.Core.Option
use quic_proxy.Base.{
  ℕ, ◌+◌, ◌%◌, ◌^◌, Bool, true, false, ◌&&◌, List, [], ◌∷◌, ◌++◌, map, Option, none, some, leb,
  if◌then◌else◌, length, is_empty, get_or, set, take, drop,
}
use quic_proxy.Base.Int.{ℤ, is_pos, nat_part}
use quic_proxy.Socket.{Socket, WriteResult, status_ok, status_blocked, Packet}

pub record BufferedWrite : Type 0 where
  pub slot : ℕ
  pub buf_len : ℕ
  pub self_address : ℕ
  pub peer_address : ℕ

pub record Writer : Type 0 where
  pub fd : ℤ
  pub write_blocked : Bool
  pub buffered_writes : List BufferedWrite
  pub writes_cache : List (List ℕ)
  pub writes_cache_pos : ℕ

abbrev pub max_cache_buffer_write_size : ℕ
max_cache_buffer_write_size = 32

-- errno of a call that would block
abbrev pub eagain : ℕ
eagain = 11

-- The constructor. The rows are not initialised; their first contents are a parameter.
unfoldable pub init : ℤ → List (List ℕ) → Writer
init fd rows = record {
  fd = fd;
  write_blocked = false;
  buffered_writes = [];
  writes_cache = rows;
  writes_cache_pos = 0;
}

-- memcpy into the front of a row.
pub memcpy : List ℕ → List ℕ → ℕ → Option (List ℕ)
memcpy row buffer len =
    if leb len (length row) && leb len (length buffer)
    then some (take len buffer ++ drop len row)
    else none

-- The datagram that a buffered write stands for: the bytes are read through the pointer.
abbrev pub packet_of : List (List ℕ) → BufferedWrite → Packet
packet_of rows b = record {
  payload = take b.buf_len (get_or rows b.slot []);
  self_address = b.self_address;
  peer_address = b.peer_address;
}

-- The message headers that `QuicMMsgHdr` is built from, oldest first.
abbrev pub packets : Writer → List Packet
packets w = map (packet_of w.writes_cache) w.buffered_writes

abbrev pub set_write_blocked : Writer → Writer
set_write_blocked w = record w { write_blocked = true }

-- `buffered_writes_.erase(begin, begin + num_packets_sent)` if that number is positive.
pub erase_sent : Writer → ℤ → Writer
erase_sent w num =
    if is_pos num then record w { buffered_writes = drop (nat_part num) w.buffered_writes } else w

-- `writes_cache_pos_ % max_cache_buffer_write_size`
abbrev pub next_slot : Writer → ℕ
next_slot w = w.writes_cache_pos % max_cache_buffer_write_size

-- The state after the copy into the cache and `emplace_back`. The position is a size_t, and wraps.
pub emplaced : Writer → List ℕ → ℕ → ℕ → ℕ → Writer
emplaced w row buf_len self peer = record w {
  buffered_writes =
      w.buffered_writes
      ++ (record { slot = next_slot w; buf_len = buf_len; self_address = self; peer_address = peer }
          ∷ []);
  writes_cache = set w.writes_cache (next_slot w) row;
  writes_cache_pos = (w.writes_cache_pos + 1) % 2 ^ 64;
}

pub emplace : Writer → List ℕ → ℕ → ℕ → ℕ → Option Writer
unfolding emplaced
emplace w buffer buf_len self peer =
    elim (memcpy (get_or w.writes_cache (next_slot w) []) buffer buf_len) [
      | none ↦ none
      | some row ↦ some (emplaced w row buf_len self peer)
    ]

abbrev pub is_full : Writer → Bool
is_full w = leb max_cache_buffer_write_size (length w.buffered_writes)

module _ {K : Type 0} (s : Socket K) where
  pub flush : Writer → K → WriteResult × Writer × K
  unfolding erase_sent
  flush w k =
      let (result, num, k') = s.write_multiple w.fd (packets w) k in
      if is_empty w.buffered_writes
      then (record { status = status_ok; value = 0 }, w, k)
      else (result, erase_sent w num, k')

  -- The end of `WritePacket`, behind `emplace_back`: a full buffer is sent at once.
  pub send_if_full : ℕ → Writer → K → WriteResult × Writer × K
  unfolding flush
  send_if_full buf_len w k =
      let (result, w', k') = flush w k in
      let done : WriteResult = record { status = status_ok; value = buf_len } in
      if is_full w
      then (if s.is_write_blocked_status result.status
          then (result, set_write_blocked w', k')
          else (done, w', k'))
      else (done, w, k)

  -- From the copy on.
  pub append_packet : Writer → K → List ℕ → ℕ → ℕ → ℕ → Option (WriteResult × Writer × K)
  unfolding send_if_full emplace
  append_packet w k buffer buf_len self peer =
      Option.map (λ w'. send_if_full buf_len w' k) (emplace w buffer buf_len self peer)

  pub write_packet : Writer → K → List ℕ → ℕ → ℕ → ℕ → Option (WriteResult × Writer × K)
  unfolding flush append_packet
  write_packet w k buffer buf_len self peer =
      let (_, w', k') = flush w k in
      if is_full w
      then (if is_full w'
          then some (record { status = status_blocked; value = eagain }, set_write_blocked w', k')
          else append_packet w' k' buffer buf_len self peer)
      else append_packet w k buffer buf_len self peer
