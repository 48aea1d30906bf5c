-- ===== src/Server/Events.antt =====
-- quic_proxy/proxy_quic/quic_proxy_server.cc: `OnEvent`, for the server's socket. The dispatcher is an
-- interface; the packets of the read loop reach it in the order in which they were received.
pub mod Answer
pub mod Chlos
mod Tests
use quic_proxy.Base.{
  ℕ, zero, suc, ◌+◌, ◌-◌, ◌/◌, ◌%◌, ◌≡◌, Bool, List, [], ◌∷◌, Option, none, some, ◌==◌, ltb,
  if◌then◌else◌,
}
use quic_proxy.Reader.{Slot, Net, Received, read_loop}
use quic_proxy.Server.{Server}

abbrev pub sessions_per_event : ℕ
sessions_per_event = 16

pub record Dispatcher (D : Type 0) : Type 0 where
  pub process_buffered_chlos : ℕ → D → D
  pub process_packet : Received → D → D
  pub has_chlos_buffered : D → Bool
  pub on_can_write : D → D
  pub has_pending_writes : D → Bool
  -- How many client hellos wait for their session.
  pub chlos : D → ℕ
  pub has_chlos : (d : D) → has_chlos_buffered d ≡ ltb 0 (chlos d)
  -- A session is made for as many of them as allowed.
  pub chlos_processed : (n : ℕ) (d : D) → chlos (process_buffered_chlos n d) ≡ chlos d - n

-- The parts of the server that an event changes, with the kernel.
pub record State (K D : Type 0) : Type 0 where
  pub slots : List Slot
  pub packets_dropped : ℕ
  pub kernel : K
  pub dispatcher : D

-- EPOLLIN is 1 and EPOLLOUT is 4: the tests `mask & bit`, and `mask |= bit`.
abbrev pub has_epollin : ℕ → Bool
has_epollin mask = mask % 2 == 1

abbrev pub has_epollout : ℕ → Bool
has_epollout mask = mask / 4 % 2 == 1

abbrev pub set_epollin : ℕ → ℕ
set_epollin mask = if has_epollin mask then mask else mask + 1

abbrev pub set_epollout : ℕ → ℕ
set_epollout mask = if has_epollout mask then mask else mask + 4

module _ {K D : Type 0} (net : Net K) (disp : Dispatcher D) (fuel : ℕ) (s : Server) where
  unfoldable pub process_packets : List Received → D → D
  process_packets [] d = d
  process_packets (p ∷ ps) d = process_packets ps (disp.process_packet p d)

  -- The branch for EPOLLIN, with the new `out_ready_mask`; the fuel is for the read loop.
  unfoldable pub on_readable : ℕ → State K D → Option (ℕ × State K D)
  unfolding process_packets
  on_readable mask st =
      let wanted = if s.overflow_supported then some st.packets_dropped else none in
      let d = disp.process_buffered_chlos sessions_per_event st.dispatcher in
      elim (read_loop net fuel s.port st.slots wanted st.kernel) [
        | none ↦ none
        | some (slots', out, dropped, k') ↦
            let d' = process_packets out d in
            some (
              (if disp.has_chlos_buffered d' then set_epollin mask else mask),
              record {
                slots = slots';
                packets_dropped = elim dropped [ none ↦ st.packets_dropped | some n ↦ n ];
                kernel = k';
                dispatcher = d';
              },
            )
      ]

  -- The branch for EPOLLOUT.
  unfoldable pub on_writable : ℕ → State K D → ℕ × State K D
  on_writable mask st =
      let d = disp.on_can_write st.dispatcher in
      (
        (if disp.has_pending_writes d then set_epollout mask else mask),
        record st { dispatcher = d },
      )

  -- `OnEvent`: `out_ready_mask`, and what the event changes.
  unfoldable pub on_event : ℕ → State K D → Option (ℕ × State K D)
  unfolding on_readable on_writable
  on_event in_events st = elim (if has_epollin in_events then on_readable 0 st else some (0, st)) [
    | none ↦ none
    | some (mask, st') ↦ some (if has_epollout in_events then on_writable mask st' else (mask, st'))
  ]

  -- As the epoll server does with the mask: the events it names come again, for so many calls.
  unfoldable pub recalled : ℕ → ℕ → State K D → Option (State K D)
  unfolding on_event
  recalled zero in_events st = none
  recalled (suc calls) in_events st = elim (on_event in_events st) [
    | none ↦ none
    | some (mask, st') ↦ let rest = recalled calls mask st' in if mask == 0 then some st' else rest
  ]
