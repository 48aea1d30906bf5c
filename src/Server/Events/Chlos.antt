-- ===== src/Server/Events/Chlos.antt =====
-- `OnEvent` of quic_proxy_server.cc makes sessions for 16 client hellos at a time, and asks for EPOLLIN
-- until none waits.
use quic_proxy.Base.{
  ℕ, zero, suc, ◌+◌, ◌-◌, ◌*◌, ◌≤◌, ◌<◌, ◌≡◌, refl, sym, ap, ◌∙◌, inl, inr, List, [], ◌∷◌, some,
  length, arith, Bool-cases, if◌then◌else◌, ltb,
}
use quic_proxy.Reader.{Net, Received}
use quic_proxy.Server.{Server}
use quic_proxy.Server.Events.{Dispatcher, State, process_packets, on_event, recalled}
use quic_proxy.Server.Events.Answer.{after_reading, on_event_lem}

module _ {K D : Type 0} (net : Net K) (disp : Dispatcher D) (fuel : ℕ) (s : Server) where
  no_packets :
      (out : List Received) (d : D)
      → length out ≤ 0
      → disp.chlos (after_reading net disp fuel s out d) ≡ disp.chlos d - 16
  unfolding process_packets
  no_packets [] d none_out = disp.chlos_processed 16 d
  no_packets (p ∷ ps) d none_out = absurd (omega arith)

  -- An EPOLLIN for which the socket has nothing.
  quiet_event :
      (st : State K D)
      → net.supply st.kernel ≡ 0
      → 0 < fuel
      → (st' : State K D) × (on_event net disp fuel s 1 st
          ≡ some ((if ltb 0 (disp.chlos st'.dispatcher) then 1 else 0), st'))
        × (net.supply st'.kernel ≡ 0)
        × (disp.chlos st'.dispatcher ≡ disp.chlos st.dispatcher - 16)
  quiet_event st dry enough =
      let (out, mask, st', e, le, (d, m, same), reads) =
        on_event_lem net disp fuel s 1 st (omega arith) in
      let flag : mask ≡ (if ltb 0 (disp.chlos st'.dispatcher) then 1 else 0) =
        m
        ∙ ap (λ x. (if disp.has_chlos_buffered x then 1 else 0) + 0) (sym d)
        ∙ ap (λ b. (if b then 1 else 0) + 0) (disp.has_chlos st'.dispatcher)
        ∙ omega arith in
      (
        st',
        e ∙ ap (λ x. some (x, st')) flag,
        omega arith,
        ap disp.chlos d ∙ no_packets out st.dispatcher (omega arith),
      )

  called_again :
      (calls in_events mask : ℕ) (st st' : State K D)
      → on_event net disp fuel s in_events st ≡ some (mask, st')
      → mask ≡ 1
      → recalled net disp fuel s (suc calls) in_events st ≡ recalled net disp fuel s calls 1 st'
  unfolding recalled
  called_again calls in_events mask st st' e more = rw (recalled, e, more) refl

  -- Once the socket has nothing more to read, the client hellos that wait are all served: with the
  -- events of the mask coming again, `OnEvent` is called until none waits, and then asks no more; a
  -- call for each 16 of them is enough.
  pub chlos_served :
      (calls : ℕ) (st : State K D)
      → net.supply st.kernel ≡ 0
      → 0 < fuel
      → disp.chlos st.dispatcher ≤ 16 * suc calls
      → (st' : State K D) × (recalled net disp fuel s (suc calls) 1 st ≡ some st')
        × (disp.chlos st'.dispatcher ≡ 0)
  unfolding recalled
  chlos_served zero st dry enough few =
      let (st', e, dry', left) = quiet_event st dry enough in
      (st', rw (recalled, e) (ground arith), omega arith)
  chlos_served (suc calls) st dry enough few =
      let (st', e, dry', left) = quiet_event st dry enough in
      elim (Bool-cases (ltb 0 (disp.chlos st'.dispatcher))) [
        | inl more ↦
            let (st'', e', none_left) = chlos_served calls st' dry' enough (omega arith) in
            (st'', called_again (suc calls) 1 _ st st' e (rw more refl) ∙ e', none_left)
        | inr no_more ↦ (st', rw (recalled, e, no_more) refl, ground arith)
      ]
