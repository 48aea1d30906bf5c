-- ===== src/Writer/Refine.antt =====
-- quic_proxy_packet_writer.cc against the queue of Writer/Queue.antt.
use quic_proxy.Base.{
  get_or, subst, ℕ, ◌+◌, ◌-◌, ◌≤◌, ◌<◌, ◌≡◌, refl, List, [], ◌∷◌, ◌++◌, some, arith, le→leb,
  lt_of_leb, length, drop, inl, inr, Bool-cases, is_empty, is_empty-map, length-map, length-drop,
  map-drop,
}
use quic_proxy.Base.Int.{ℤ, nat_part, is_pos}
use quic_proxy.Socket.{Socket, WriteResult}
use quic_proxy.Writer.{
  Writer, packet_of, packets, erase_sent, emplace, emplaced, memcpy, next_slot, is_full,
  set_write_blocked, flush, send_if_full, append_packet, write_packet,
}
use quic_proxy.Writer.Slots.{
  IsValid, Slots-shift, Slots-drop, copied, emplaced-IsValid, packets-emplaced, length-get_or,
}
use quic_proxy.Writer.Queue
use quic_proxy.Writer.Queue.{Call, writes, flushes, written}

pub length-packets : (w : Writer) → length (packets w) ≡ length w.buffered_writes
length-packets w = length-map w.buffered_writes (packet_of w.writes_cache)

pub packets-erase_sent :
    (w : Writer) (num : ℤ) → packets (erase_sent w num) ≡ Queue.erase_sent (packets w) num
unfolding erase_sent
packets-erase_sent w num =
    ground (arith, map-drop (nat_part num) (packet_of w.writes_cache) w.buffered_writes)

pub erase_sent-IsValid :
    {mtu : ℕ} {w : Writer} (num : ℤ)
    → nat_part num ≤ length w.buffered_writes
    → IsValid mtu w
    → IsValid mtu (erase_sent w num)
unfolding erase_sent
erase_sent-IsValid {mtu} {w} num le v = elim (Bool-cases (is_pos num)) [
  | inl e ↦ rw e (record {
    rows = v.rows;
    row_size = v.row_size;
    bounded = omega (arith, v.bounded, length-drop (nat_part num) w.buffered_writes);
    slots =
        Slots-shift (drop (nat_part num) w.buffered_writes)
          (w.writes_cache_pos + 32 - length w.buffered_writes + nat_part num)
          (w.writes_cache_pos + 32 - length (drop (nat_part num) w.buffered_writes))
          (omega (arith, v.bounded, le, length-drop (nat_part num) w.buffered_writes))
          (Slots-drop (nat_part num) w.buffered_writes _ le v.slots);
  })
  | inr e ↦ rw e v
]

fd-erase_sent : (w : Writer) (num : ℤ) → (erase_sent w num).fd ≡ w.fd
unfolding erase_sent
fd-erase_sent w num = ground arith

blocked-IsValid : {mtu : ℕ} {w : Writer} → IsValid mtu w → IsValid mtu (set_write_blocked w)
blocked-IsValid v = record {
  rows = v.rows;
  row_size = v.row_size;
  bounded = v.bounded;
  slots = v.slots;
}

-- The writer returned what the queue returned, holds what the queue holds, and is valid.
pub record Agrees {K : Type 0} (mtu : ℕ) (fd : ℤ) (x : WriteResult × Writer × K)
    (y : WriteResult × Queue.Queue × K) : Type 0 where
  pub result : x.0 ≡ y.0
  pub holds : packets x.1 ≡ y.1
  pub kernel : x.2 ≡ y.2
  pub same_fd : x.1.fd ≡ fd
  pub valid : IsValid mtu x.1

is_full-packets : (w : Writer) → Queue.is_full (packets w) ≡ is_full w
is_full-packets w = rw (length-packets w)

module _ {K : Type 0} (s : Socket K) {mtu : ℕ} {w : Writer} (k : K) (v : IsValid mtu w) where
  -- A flush of the cache is a flush of the queue.
  pub flush-Agrees : Agrees mtu w.fd (flush s w k) (Queue.flush s w.fd (packets w) k)
  unfolding flush Queue.flush
  flush-Agrees = elim (Bool-cases (is_empty w.buffered_writes)) [
    | inl e ↦
        rw (is_empty-map (packet_of w.writes_cache) w.buffered_writes, e)
          (record { result = refl; holds = refl; kernel = refl; same_fd = refl; valid = v })
    | inr e ↦
        rw (is_empty-map (packet_of w.writes_cache) w.buffered_writes, e)
          (record {
            result = refl;
            holds = packets-erase_sent w num;
            kernel = refl;
            same_fd = fd-erase_sent w num;
            valid =
                erase_sent-IsValid num
                  (omega (arith, s.num_sent_le w.fd (packets w) k, length-packets w)) v;
          })
  ]
    where
      num : ℤ
      num = (s.write_multiple w.fd (packets w) k).1

  pub send_if_full-Agrees :
      (len : ℕ)
      → Agrees mtu w.fd (send_if_full s len w k) (Queue.send_if_full s w.fd len (packets w) k)
  unfolding send_if_full Queue.send_if_full
  send_if_full-Agrees len = elim (Bool-cases (is_full w)) [
    | inl e ↦
        rw (length-packets w, e)
          (elim (Bool-cases (s.is_write_blocked_status (flush s w k).0.status)) [
            | inl b ↦
                rw (← flush-Agrees.result, b)
                  (record {
                    result = refl;
                    holds = flush-Agrees.holds;
                    kernel = flush-Agrees.kernel;
                    same_fd = flush-Agrees.same_fd;
                    valid = blocked-IsValid flush-Agrees.valid;
                  })
            | inr b ↦
                rw (← flush-Agrees.result, b)
                  (record {
                    result = refl;
                    holds = flush-Agrees.holds;
                    kernel = flush-Agrees.kernel;
                    same_fd = flush-Agrees.same_fd;
                    valid = flush-Agrees.valid;
                  })
          ])
    | inr e ↦
        rw (length-packets w, e)
          (record { result = refl; holds = refl; kernel = refl; same_fd = refl; valid = v })
  ]

pub emplace_lem :
    {mtu : ℕ} {w : Writer} (buffer : List ℕ) (len self peer : ℕ)
    → IsValid mtu w
    → len ≤ mtu
    → len ≤ length buffer
    → emplace w buffer len self peer ≡ some (emplaced w (copied w buffer len) len self peer)
unfolding emplace memcpy
emplace_lem {mtu} {w} buffer len self peer v fits holds =
    let row = length-get_or mtu w.writes_cache (next_slot w) (omega (arith, v.rows)) v.row_size in
    ground (
      arith,
      le→leb len (length (get_or w.writes_cache (next_slot w) [])) (omega (arith, row, fits)),
      le→leb len (length buffer) holds,
    )

module _ {K : Type 0} (s : Socket K) {mtu : ℕ} (buffer : List ℕ) (len self peer : ℕ)
    (fits : len ≤ mtu) (holds : len ≤ length buffer) where
  append_packet-Agrees :
      (w : Writer) (k : K)
      → IsValid mtu w
      → length w.buffered_writes < 32
      → (x : WriteResult × Writer × K) × (append_packet s w k buffer len self peer ≡ some x)
        × Agrees mtu w.fd x
            (Queue.send_if_full s w.fd len (packets w ++ (written buffer len self peer ∷ [])) k)
  unfolding append_packet emplaced
  append_packet-Agrees w k v room = (
    send_if_full s len (emplaced w (copied w buffer len) len self peer) k,
    rw (emplace_lem buffer len self peer v fits holds),
    subst
        (λ q.
          Agrees mtu w.fd (send_if_full s len (emplaced w (copied w buffer len) len self peer) k)
            (Queue.send_if_full s w.fd len q k))
        (packets-emplaced v room buffer len self peer fits holds)
        (send_if_full-Agrees s k (emplaced-IsValid v room buffer len self peer fits holds) len),
  )

  -- A write into the cache is a write into the queue.
  pub write_packet-Agrees :
      (w : Writer) (k : K)
      → IsValid mtu w
      → (x : WriteResult × Writer × K) × (write_packet s w k buffer len self peer ≡ some x)
        × Agrees mtu w.fd x (Queue.write s w.fd (packets w) k (written buffer len self peer) len)
  unfolding write_packet Queue.write
  write_packet-Agrees w k v = elim (Bool-cases (is_full w)) [
    | inr e ↦ rw (length-packets w, e) (append_packet-Agrees w k v (lt_of_leb 32 _ e))
    | inl e ↦
        rw (length-packets w, e, ← flushed.holds, ← flushed.kernel, length-packets (flush s w k).1)
          (elim (Bool-cases (is_full (flush s w k).1)) [
            | inl f ↦ rw f (
              _,
              refl,
              record {
                result = refl;
                holds = refl;
                kernel = refl;
                same_fd = flushed.same_fd;
                valid = blocked-IsValid flushed.valid;
              },
            )
            | inr f ↦ rw f (
                rw flushed.same_fd at (
                  append_packet-Agrees (flush s w k).1 (flush s w k).2 flushed.valid
                    (lt_of_leb 32 _ f)))
          ])
  ]
    where
      flushed : Agrees mtu w.fd (flush s w k) (Queue.flush s w.fd (packets w) k)
      flushed = flush-Agrees s k v
