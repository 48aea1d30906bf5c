-- ===== src/Server/Events/Answer.antt =====
-- What `OnEvent` of quic_proxy_server.cc does for an event, and the mask that it leaves.
use quic_proxy.Base.{
  ℕ, ◌+◌, ◌*◌, ◌≤◌, ◌<◌, ◌≡◌, refl, sym, ap, subst, ◌∙◌, inl, inr, Bool, false, ◌&&◌, List, [],
  none, some, Option, length, arith, Bool-cases, if◌then◌else◌,
}
use quic_proxy.Reader.{Slot, Net, Received, read_loop}
use quic_proxy.Reader.Drain.{drain_lem}
use quic_proxy.Server.{Server}
use quic_proxy.Server.Events.{
  Dispatcher, State, sessions_per_event, has_epollin, has_epollout, process_packets, on_readable,
  on_writable, on_event,
}

module _ {K D : Type 0} (net : Net K) (disp : Dispatcher D) (fuel : ℕ) (s : Server) where
  -- The dispatcher after the packets `out`.
  abbrev pub after_reading : List Received → D → D
  after_reading out d =
      process_packets net disp fuel s out (disp.process_buffered_chlos sessions_per_event d)

  -- What the read loop gives at an EPOLLIN: the slots, the packets, the count of those dropped and the
  -- kernel.
  abbrev pub taken : (in_events : ℕ) → State K D → Option (List Slot × List Received × Option ℕ × K)
  taken in_events st =
      if has_epollin in_events
      then read_loop net fuel s.port st.slots
          (if s.overflow_supported then some st.packets_dropped else none) st.kernel
      else some (st.slots, [], none, st.kernel)

  -- The state holds what the read loop has left.
  abbrev pub Holds : State K D → State K D → List Slot × Option ℕ × K → Type 0
  Holds st st' (slots, dropped, k) =
      (st'.slots ≡ slots)
      × (st'.packets_dropped ≡ (elim dropped [ none ↦ st.packets_dropped | some n ↦ n ]))
      × (st'.kernel ≡ k)

  pub readable_lem :
      (st : State K D)
      → net.supply st.kernel < 16 * fuel
      → (out : List Received) × (st' : State K D) × (on_readable net disp fuel s 0 st
          ≡ some ((if disp.has_chlos_buffered st'.dispatcher then 1 else 0), st'))
        × (st'.dispatcher ≡ after_reading out st.dispatcher)
        × (length out + net.supply st'.kernel ≤ net.supply st.kernel)
        × ((slots : List Slot) × (dropped : Option ℕ) × (read_loop net fuel s.port st.slots
                (if s.overflow_supported then some st.packets_dropped else none)
                st.kernel
              ≡ some (slots, out, dropped, st'.kernel))
            × Holds st st' (slots, dropped, st'.kernel))
  unfolding on_readable
  readable_lem st enough =
      let wanted = if s.overflow_supported then some st.packets_dropped else none in
      let (slots', out, dropped, k', e, le) =
        drain_lem net s.port fuel st.slots wanted st.kernel enough in
      let st' : State K D = record {
        slots = slots';
        packets_dropped = elim dropped [ none ↦ st.packets_dropped | some n ↦ n ];
        kernel = k';
        dispatcher = after_reading out st.dispatcher;
      } in
      (out, st', rw (on_readable, e) refl, refl, le, (slots', dropped, e, (refl, refl, refl)))

  reads_lem :
      (in_events : ℕ) (st : State K D)
      → net.supply st.kernel < 16 * fuel
      → (out : List Received) × (st' : State K D) × ((if has_epollin in_events
            then on_readable net disp fuel s 0 st
            else some (0, st))
          ≡ some (
            (if has_epollin in_events && disp.has_chlos_buffered st'.dispatcher then 1 else 0),
            st',
          ))
        × (st'.dispatcher
            ≡ (if has_epollin in_events then after_reading out st.dispatcher else st.dispatcher))
        × (length out + net.supply st'.kernel ≤ net.supply st.kernel)
        × ((has_epollin in_events ≡ false) → st' ≡ st)
        × ((slots : List Slot) × (dropped : Option ℕ) × (taken in_events st
              ≡ some (slots, out, dropped, st'.kernel))
            × Holds st st' (slots, dropped, st'.kernel))
  reads_lem in_events st enough = elim (Bool-cases (has_epollin in_events)) [
    | inl i ↦
        let (out, st', e, d, le, (slots, dropped, loop, holds)) = readable_lem st enough in
        (out, st', rw i e, rw i d, le, (λ no. absurd (cc)), (slots, dropped, rw i loop, holds))
    | inr i ↦ (
      [],
      st,
      rw i refl,
      rw i refl,
      omega arith,
      (λ no. refl),
      (st.slots, none, rw i refl, (refl, refl, refl)),
    )
  ]

  writes_lem :
      (in_events : ℕ) (chlos : Bool) (st : State K D)
      → let (mask, st') =
          if has_epollout in_events
          then on_writable net disp fuel s (if chlos then 1 else 0) st
          else ((if chlos then 1 else 0), st) in
        (st'.dispatcher
          ≡ (if has_epollout in_events then disp.on_can_write st.dispatcher else st.dispatcher))
        × (st'.kernel ≡ st.kernel)
        × (st'.slots ≡ st.slots)
        × (st'.packets_dropped ≡ st.packets_dropped)
        × (mask
            ≡ (if chlos then 1 else 0)
              + (if has_epollout in_events && disp.has_pending_writes st'.dispatcher then 4 else 0))
        × ((has_epollout in_events ≡ false) → st' ≡ st)
  unfolding on_writable
  writes_lem in_events chlos st = ground arith

  pub on_event_lem :
      (in_events : ℕ) (st : State K D)
      → net.supply st.kernel < 16 * fuel
      → (out : List Received) × (mask : ℕ) × (st' : State K D) × (on_event net disp fuel s in_events
            st
          ≡ some (mask, st'))
        × (length out + net.supply st'.kernel ≤ net.supply st.kernel)
        × (let read =
              if has_epollin in_events then after_reading out st.dispatcher else st.dispatcher in
            (st'.dispatcher ≡ (if has_epollout in_events then disp.on_can_write read else read))
            × (mask
                ≡ (if has_epollin in_events && disp.has_chlos_buffered read then 1 else 0)
                  + (if has_epollout in_events && disp.has_pending_writes st'.dispatcher
                      then 4
                      else 0))
            × ((has_epollin in_events ≡ false) → (has_epollout in_events ≡ false) → st' ≡ st))
        × ((slots : List Slot) × (dropped : Option ℕ) × (k' : K) × (taken in_events st
              ≡ some (slots, out, dropped, k'))
            × Holds st st' (slots, dropped, k'))
  unfolding on_event
  on_event_lem in_events st enough =
      let (out, st1, e, d, le, same, (slots, dropped, loop, (h, h', h''))) =
        reads_lem in_events st enough in
      let chlos = has_epollin in_events && disp.has_chlos_buffered st1.dispatcher in
      let (d', k, sl, pd, m, same') = writes_lem in_events chlos st1 in
      let flag : ℕ = if chlos then 1 else 0 in
      let result : ℕ × State K D =
        if has_epollout in_events then on_writable net disp fuel s flag st1 else (flag, st1) in
      (
        out,
        result.0,
        result.1,
        rw (on_event, e) refl,
        subst (λ x. length out + net.supply x ≤ net.supply st.kernel) (sym k) le,
        (
          d' ∙ ap (λ x. if has_epollout in_events then disp.on_can_write x else x) d,
          rw (sym d) m,
          λ no_in no_out. same' no_out ∙ same no_in,
        ),
        (slots, dropped, st1.kernel, loop, (sl ∙ h, pd ∙ h', k)),
      )
