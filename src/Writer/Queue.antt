-- ===== src/Writer/Queue.antt =====
-- What the packet writer promises: a first-in first-out queue of at most 32 datagrams. It keeps
-- the datagrams themselves, and knows of no cache and no rows.
use quic_proxy.Base.{
  ℕ, Bool, ◌&&◌, List, [], ◌∷◌, ◌++◌, leb, if◌then◌else◌, length, is_empty, take, drop,
}
use quic_proxy.Base.Int.{ℤ, is_pos, nat_part}
use quic_proxy.Socket.{Socket, WriteResult, status_ok, status_blocked, Packet}
use quic_proxy.Writer.{eagain}

abbrev pub Queue : Type 0
Queue = List Packet

abbrev pub is_full : Queue → Bool
is_full q = leb 32 (length q)

abbrev pub erase_sent : Queue → ℤ → Queue
erase_sent q num = if is_pos num then drop (nat_part num) q else q

-- A write, and the expiry of the timer, which flushes.
pub data Call : Type 0 where
  writes : (buffer : List ℕ) (buf_len self peer : ℕ) → Call
  flushes : Call

abbrev pub written : List ℕ → ℕ → ℕ → ℕ → Packet
written buffer len self peer = record {
  payload = take len buffer;
  self_address = self;
  peer_address = peer;
}

module _ {K : Type 0} (s : Socket K) (fd : ℤ) where
  -- An empty queue makes no system call.
  unfoldable pub flush : Queue → K → WriteResult × Queue × K
  flush q k =
      let (result, num, k') = s.write_multiple fd q k in
      if is_empty q
      then (record { status = status_ok; value = 0 }, q, k)
      else (result, erase_sent q num, k')

  unfoldable pub send_if_full : ℕ → Queue → K → WriteResult × Queue × K
  unfolding flush
  send_if_full buf_len q k =
      let (result, q', k') = flush q k in
      let done : WriteResult = record { status = status_ok; value = buf_len } in
      if is_full q
      then (if s.is_write_blocked_status result.status then (result, q', k') else (done, q', k'))
      else (done, q, k)

  -- A full queue is flushed first, and the datagram is refused if that makes no room.
  unfoldable pub write : Queue → K → Packet → ℕ → WriteResult × Queue × K
  unfolding flush send_if_full
  write q k p buf_len =
      let (_, q', k') = flush q k in
      if is_full q
      then (if is_full q'
          then (record { status = status_blocked; value = eagain }, q', k')
          else send_if_full buf_len (q' ++ (p ∷ [])) k')
      else send_if_full buf_len (q ++ (p ∷ [])) k

  unfoldable pub step : Call → Queue → K → WriteResult × Queue × K
  unfolding write flush
  step (writes buffer len self peer) q k = write q k (written buffer len self peer) len
  step flushes q k = flush q k

  -- The results that a sequence of calls returns, and the queue and the kernel at the end.
  unfoldable pub run : List Call → Queue → K → List WriteResult × Queue × K
  unfolding step
  run [] q k = ([], q, k)
  run (c ∷ cs) q k =
      let (r, q', k') = step c q k in let (rs, q'', k'') = run cs q' k' in (r ∷ rs, q'', k'')

  -- The datagrams that the calls put into the queue.
  abbrev pub added : Call → Queue → K → List Packet
  added (writes buffer len self peer) q k =
      if is_full q && is_full (flush q k).1 then [] else written buffer len self peer ∷ []
  added flushes q k = []

  unfoldable pub accepted : List Call → Queue → K → List Packet
  unfolding step
  accepted [] q k = []
  accepted (c ∷ cs) q k = added c q k ++ accepted cs (step c q k).1 (step c q k).2
