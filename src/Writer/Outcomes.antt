-- ===== src/Writer/Outcomes.antt =====
-- What `WritePacket` of quic_proxy_packet_writer.cc tells its caller, on every branch.
use quic_proxy.Base.{
  is_empty_of_length, none-ne-some, Option-cases, ℕ, ◌+◌, ◌≤◌, ◌<◌, ◌≡◌, refl, ◌⊎◌, inl, inr, Bool,
  true, false, List, [], ◌∷◌, ◌++◌, none, some, arith, length, Bool-cases, le→leb, length-append,
  if◌then◌else◌, is_empty,
}
use quic_proxy.Base.Int.{ℤ, pos}
use quic_proxy.Socket.{Socket, WriteResult, status_ok}
use quic_proxy.Writer.{
  Writer, packets, flush, write_packet, append_packet, send_if_full, emplace, emplaced, memcpy,
  erase_sent, set_write_blocked, is_full, next_slot, init,
}
use quic_proxy.Writer.Slots.{IsValid, AllRows, copied, length-get_or, packets-emplaced}
use quic_proxy.Writer.Refine.{emplace_lem}
use quic_proxy.Writer.Queue.{written}

-- A fresh writer over 32 rows is valid.
pub init-IsValid :
    (mtu : ℕ) (fd : ℤ) (rows : List (List ℕ))
    → length rows ≡ 32
    → AllRows mtu rows
    → IsValid mtu (init fd rows)
unfolding init
init-IsValid mtu fd rows e a = record { rows = e; row_size = a; bounded = omega arith; slots = tt }

length-emplaced :
    (w : Writer) (row : List ℕ) (len self peer : ℕ)
    → length (emplaced w row len self peer).buffered_writes ≡ length w.buffered_writes + 1
unfolding emplaced
length-emplaced w row len self peer = length-append w.buffered_writes _

fd-emplaced :
    (w : Writer) (row : List ℕ) (len self peer : ℕ) → (emplaced w row len self peer).fd ≡ w.fd
unfolding emplaced
fd-emplaced w row len self peer = refl

module _ {K : Type 0} (s : Socket K) where
  -- A flush never sets or clears the blocked flag, whatever sendmmsg answers.
  flush-write_blocked : (w : Writer) (k : K) → (flush s w k).1.write_blocked ≡ w.write_blocked
  unfolding flush erase_sent
  flush-write_blocked w k = ground arith

  abbrev pub Reports : ℕ → Bool → WriteResult × Writer × K → Type 0
  Reports len flag (r, w, k) =
      ((r ≡ record { status = status_ok; value = len }) × (w.write_blocked ≡ flag))
      ⊎ ((s.is_write_blocked_status r.status ≡ true) × (w.write_blocked ≡ true))

  send_if_full-Reports :
      (len : ℕ) (w : Writer) (k : K) → Reports len w.write_blocked (send_if_full s len w k)
  unfolding send_if_full
  send_if_full-Reports len w k = ground (arith, flush-write_blocked w k)

  emplace-write_blocked :
      (w w' : Writer) (buffer : List ℕ) (len self peer : ℕ)
      → emplace w buffer len self peer ≡ some w'
      → w'.write_blocked ≡ w.write_blocked
  unfolding emplace emplaced
  emplace-write_blocked w w' buffer len self peer e = ground arith

  append_packet-Reports :
      (w : Writer) (k : K) (buffer : List ℕ) (len self peer : ℕ) {x : WriteResult × Writer × K}
      → append_packet s w k buffer len self peer ≡ some x
      → Reports len w.write_blocked x
  unfolding append_packet
  append_packet-Reports w k buffer len self peer {x} e =
      elim (Option-cases (emplace w buffer len self peer)) [
        | inl f ↦ absurd (none-ne-some (rw (f, append_packet) at e))
        | inr (w', f) ↦ ground (
          arith,
          send_if_full-Reports len w' k,
          emplace-write_blocked w w' buffer len self peer f,
        )
      ]

  -- The caller is told that the whole datagram was taken, or that the socket is blocked, and then
  -- the writer says so too; the flag is touched in no other case.
  pub write_packet-Reports :
      (w : Writer) (k : K) (buffer : List ℕ) (len self peer : ℕ) {x : WriteResult × Writer × K}
      → write_packet s w k buffer len self peer ≡ some x
      → Reports len w.write_blocked x
  unfolding write_packet
  write_packet-Reports w k buffer len self peer {x} e = elim (Bool-cases (is_full w)) [
    | inr f ↦ append_packet-Reports w k buffer len self peer (rw f at e)
    | inl f ↦ elim (Bool-cases (is_full (flush s w k).1)) [
      | inl g ↦ ground (arith, s.blocked_lem)
      | inr g ↦ rw (flush-write_blocked w k) at (
          append_packet-Reports (flush s w k).1 (flush s w k).2 buffer len self peer
            (rw (f, g) at e))
    ]
  ]

  -- While there is room, the copy is made whatever the length: past the row it is out of bounds.
  pub write_packet_overflow :
      {mtu : ℕ} {w : Writer} (k : K) (buffer : List ℕ) (len self peer : ℕ)
      → IsValid mtu w
      → length w.buffered_writes < 32
      → mtu < len
      → write_packet s w k buffer len self peer ≡ none
  unfolding write_packet append_packet emplace memcpy
  write_packet_overflow {mtu} {w} k buffer len self peer v room over =
      ground
        (arith, length-get_or mtu w.writes_cache (next_slot w) (omega (arith, v.rows)) v.row_size)

  flush_refused :
      (w : Writer) (k k' : K) (r : WriteResult)
      → is_empty w.buffered_writes ≡ false
      → s.write_multiple w.fd (packets w) k ≡ (r, pos 0, k')
      → flush s w k ≡ (r, w, k')
  unfolding flush erase_sent
  flush_refused w k k' r full refused = ground arith

  send_if_full_refused :
      (len : ℕ) (w : Writer) (k k' : K) (r : WriteResult)
      → is_full w ≡ true
      → flush s w k ≡ (r, w, k')
      → send_if_full s len w k ≡ (
          if s.is_write_blocked_status r.status
          then (r, set_write_blocked w, k')
          else (record { status = status_ok; value = len }, w, k'))
  unfolding send_if_full
  send_if_full_refused len w k k' r full refused = ground arith

  -- The 32nd datagram when the socket takes nothing: the writer keeps the datagram, so that a later
  -- flush sends it. If the status is a blocked one the caller is told that it was refused; after any
  -- other error the caller is told that it was sent.
  pub write_packet_last :
      {mtu : ℕ} {w : Writer} (k k' : K) (buffer : List ℕ) (len self peer : ℕ) (r : WriteResult)
      → IsValid mtu w
      → length w.buffered_writes ≡ 31
      → len ≤ mtu
      → len ≤ length buffer
      → s.write_multiple w.fd (packets w ++ (written buffer len self peer ∷ [])) k ≡ (r, pos 0, k')
      → (w' : Writer) × (write_packet s w k buffer len self peer
          ≡ some (
            if s.is_write_blocked_status r.status
                then r
                else record { status = status_ok; value = len },
            w',
            k',
          ))
        × (packets w' ≡ packets w ++ (written buffer len self peer ∷ []))
  unfolding write_packet append_packet
  write_packet_last {mtu} {w} k k' buffer len self peer r v e fits holds refused =
      elim (Bool-cases (s.is_write_blocked_status r.status)) [
        | inl b ↦ (set_write_blocked w', rw (not_full, emplaced_eq, sends, b), held)
        | inr b ↦ (w', rw (not_full, emplaced_eq, sends, b), held)
      ]
    where
      w' : Writer
      w' = emplaced w (copied w buffer len) len self peer

      not_full : is_full w ≡ false
      not_full = ground arith

      room : length w.buffered_writes < 32
      room = omega arith

      emplaced_eq : emplace w buffer len self peer ≡ some w'
      emplaced_eq = emplace_lem buffer len self peer v fits holds

      held : packets w' ≡ packets w ++ (written buffer len self peer ∷ [])
      held = packets-emplaced v room buffer len self peer fits holds

      sends : send_if_full s len w' k ≡ (
          if s.is_write_blocked_status r.status
          then (r, set_write_blocked w', k')
          else (record { status = status_ok; value = len }, w', k'))
      sends =
          let grown = length-emplaced w (copied w buffer len) len self peer in
          send_if_full_refused len w' k k' r (le→leb 32 _ (omega (arith, grown))) (
            flush_refused w' k k' r (is_empty_of_length w'.buffered_writes (omega (arith, grown)))
              (rw (held, fd-emplaced w (copied w buffer len) len self peer) refused))
