-- ===== src/Server/Listen.antt =====
-- How a server of quic_proxy_server.cc opens its socket and closes it.
use quic_proxy.Base.{
  ℕ, ◌≡◌, ◌≢◌, ◌↔◌, ◌⊎◌, inl, inr, refl, sym, ap, ◌∙◌, true, false, List, [], ◌∷◌, ◌++◌, map, arith,
  Bool-cases,
}
use quic_proxy.Base.Int.{ℤ, minus_one, int_eq, int_eq-eq, is_neg}
use quic_proxy.Timer.{TimerCall, initialize_send_timer}
use quic_proxy.Server.{
  Server, Answers, ServerCall, set_reuse_addr, register_fd, dispatcher_listens, close_fd, bind_to,
  send_timer, dispatcher_shutdown, epoll_shutdown, create_writer, start_listening,
  create_udp_socket_and_listen, shutdown,
}

-- How often the event loop is asked to watch a descriptor.
abbrev pub registrations : List ServerCall → List ℤ
registrations [] = []
registrations (register_fd fd ∷ cs) = fd ∷ registrations cs
registrations (set_reuse_addr fd ∷ cs) = registrations cs
registrations (dispatcher_listens fd ∷ cs) = registrations cs
registrations (close_fd fd ∷ cs) = registrations cs
registrations (bind_to fd port ∷ cs) = registrations cs
registrations (send_timer c ∷ cs) = registrations cs
registrations (dispatcher_shutdown ∷ cs) = registrations cs
registrations (epoll_shutdown ∷ cs) = registrations cs

-- The socket is created, may be reused, and is bound.
abbrev pub Succeeds : Answers → Type 0
Succeeds a = (is_neg a.created ≡ false) × (a.reused ≢ minus_one) × (is_neg a.bound ≡ false)

timer_quiet :
    (cs : List TimerCall) (fd : ℤ)
    → registrations (map send_timer cs ++ (dispatcher_listens fd ∷ [])) ≡ []
timer_quiet [] fd = refl
timer_quiet (c ∷ cs) fd = timer_quiet cs fd

started :
    (s : Server) (port : ℕ) (a : Answers)
    → let (s', calls) = start_listening s port a in
      (registrations calls ≡ s.fd ∷ [])
      × (s'.fd ≡ s.fd)
      × (((port ≢ 0) × (s'.port ≡ port)) ⊎ ((port ≡ 0) × (s'.port ≡ a.own_port)))
unfolding start_listening create_writer
started s port a = (
  ap (λ l. s.fd ∷ l)
      (timer_quiet (initialize_send_timer minus_one a.timer_created s.sendmmsgtimer_interval).1
        s.fd),
  refl,
  ground arith,
)

-- The server listens exactly if all three calls succeed. Then the event loop watches its socket, once,
-- and the port is the one asked for, or the socket's own if that was 0; else nothing is watched.
pub listen_lem :
    (s : Server) (port : ℕ) (a : Answers)
    → let (listens, s', calls) = create_udp_socket_and_listen s port a in
      ((listens ≡ true) ↔ Succeeds a)
      × (s'.fd ≡ a.created)
      × (((listens ≡ true)
            × (registrations calls ≡ a.created ∷ [])
            × (((port ≢ 0) × (s'.port ≡ port)) ⊎ ((port ≡ 0) × (s'.port ≡ a.own_port))))
          ⊎ ((listens ≡ false) × (registrations calls ≡ []) × (s'.port ≡ s.port)))
unfolding create_udp_socket_and_listen
listen_lem s port a =
    let opened : Server = record s { fd = a.created; overflow_supported = a.overflow } in
    let (once, same, port_is) = started opened port a in
    elim (Bool-cases (is_neg a.created)) [
      | inl c ↦ rw c ((λ e. absurd (cc), λ k. absurd (cc)), refl, inr (refl, refl, refl))
      | inr c ↦ elim (Bool-cases (int_eq a.reused minus_one)) [
        | inl r ↦
            rw (c, r)
              (
                (λ e. absurd (cc), λ k. absurd (k.1 (int_eq-eq a.reused minus_one r))),
                refl,
                inr (refl, refl, refl),
              )
        | inr r ↦ elim (Bool-cases (is_neg a.bound)) [
          | inl d ↦
              rw (c, r, d) ((λ e. absurd (cc), λ k. absurd (cc)), refl, inr (refl, refl, refl))
          | inr d ↦
              rw (c, r, d)
                (
                  (
                    λ e. (
                      refl,
                      (λ broken.
                          let clash : true ≡ false =
                            sym (ap (λ i. int_eq i minus_one) broken) ∙ r in
                          absurd (cc)),
                      refl,
                    ),
                    λ k. refl,
                  ),
                  same,
                  inl (refl, once, port_is),
                )
        ]
      ]
    ]

-- After the socket was opened, the end closes it: the last thing asked is to close what was created,
-- and the dispatcher is told before, unless the close is silent.
shutdown_lem :
    (s : Server) (port : ℕ) (a : Answers)
    → let (listens, s', calls) = create_udp_socket_and_listen s port a in
      let (s'', last) = shutdown s' in
      (s''.fd ≡ minus_one)
      × (((s.silent_close ≡ true) × (last ≡ epoll_shutdown ∷ close_fd a.created ∷ []))
          ⊎ ((s.silent_close ≡ false)
              × (last ≡ dispatcher_shutdown ∷ epoll_shutdown ∷ close_fd a.created ∷ [])))
unfolding create_udp_socket_and_listen start_listening create_writer shutdown
shutdown_lem s port a = ground arith
