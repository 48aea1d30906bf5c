-- ===== src/Processes/Worker/Serving.antt =====
-- What a worker of quic_proxy_server_bin.cc has done when it comes to its loop, or returns.
use quic_proxy.Base.{
  ℕ, ◌≡◌, ◌↔◌, ◌⊎◌, append-nil, subst, ◌&&◌, append_assoc, refl, sym, ap, ◌∙◌, inl, inr, Bool, true,
  false, List, [], ◌∷◌, ◌++◌, map, some, is_empty, arith, Bool-cases, if◌then◌else◌,
}
use quic_proxy.Base.Int.{ℤ, minus_one}
use quic_proxy.Base.Bytes.{Bytes}
use quic_proxy.Timer
use quic_proxy.Backend.Handles.{destroy_tables, destroy_dead, destroy_hash}
use quic_proxy.Timer.{
  destroy_send_timer, destroy_curl_timer, TimerCall, initialize_curl_timer, initialize_send_timer,
}
use quic_proxy.Backend.{Backend, new_backend, initialize_backend}
use quic_proxy.Backend.Linked.{Linked}
use quic_proxy.Backend.Life.{new_backend-Linked}
use quic_proxy.Server
use quic_proxy.Server.{
  Server, Answers, ServerCall, send_timer, create_writer, start_listening,
  create_udp_socket_and_listen,
}
use quic_proxy.Server.Listen.{Succeeds, listen_lem}
use quic_proxy.Server.Config.{construct}
use quic_proxy.Processes.Worker.{
  Flags, World, Parts, WorkerCall, global_init, socket_function, timer_function, wait_for_events,
  multi_cleanup, free, leave, server_call, curl_timer, initialize_curlm, assemble, worker,
}

-- The descriptors that the event loop is asked to watch, in order.
abbrev pub timer_fds : TimerCall → List ℤ
timer_fds (Timer.register_fd fd) = fd ∷ []
timer_fds (Timer.create c) = []
timer_fds (Timer.settime fd a its) = []
timer_fds (Timer.close fd) = []

abbrev pub server_fds : ServerCall → List ℤ
server_fds (Server.register_fd fd) = fd ∷ []
server_fds (Server.set_reuse_addr fd) = []
server_fds (Server.dispatcher_listens fd) = []
server_fds (Server.close_fd fd) = []
server_fds (Server.bind_to fd port) = []
server_fds (Server.send_timer c) = timer_fds c
server_fds Server.dispatcher_shutdown = []
server_fds Server.epoll_shutdown = []

abbrev pub watched : List WorkerCall → List ℤ
watched [] = []
watched (server_call c ∷ cs) = server_fds c ++ watched cs
watched (curl_timer c ∷ cs) = timer_fds c ++ watched cs
watched (global_init ∷ cs) = watched cs
watched (socket_function ∷ cs) = watched cs
watched (timer_function ∷ cs) = watched cs
watched (wait_for_events ∷ cs) = watched cs
watched (multi_cleanup ∷ cs) = watched cs
watched (free c ∷ cs) = watched cs

watched-append : (xs bs : List WorkerCall) → watched (xs ++ bs) ≡ watched xs ++ watched bs
watched-append [] bs = refl
watched-append (server_call c ∷ xs) bs =
    rw (watched-append xs bs) (sym (append_assoc (server_fds c) (watched xs) (watched bs)))
watched-append (curl_timer c ∷ xs) bs =
    rw (watched-append xs bs) (sym (append_assoc (timer_fds c) (watched xs) (watched bs)))
watched-append (global_init ∷ xs) bs = watched-append xs bs
watched-append (socket_function ∷ xs) bs = watched-append xs bs
watched-append (timer_function ∷ xs) bs = watched-append xs bs
watched-append (wait_for_events ∷ xs) bs = watched-append xs bs
watched-append (multi_cleanup ∷ xs) bs = watched-append xs bs
watched-append (free c ∷ xs) bs = watched-append xs bs

server_watches :
    (s : Server) (port : ℕ) (a : Answers)
    → let (listens, s', calls) = create_udp_socket_and_listen s port a in
      watched (map server_call calls) ≡ (if listens then a.created ∷ a.timer_created ∷ [] else [])
unfolding create_udp_socket_and_listen start_listening create_writer initialize_send_timer
server_watches s port a = ground arith

-- The backend that a worker makes has not yet been used.
backend_lem :
    {Block : Type 0} (f : Flags) (o : World)
    → (url : Bytes) × (c : Bool) × ((assemble {Block = Block} f o).backend
        ≡ record new_backend { backend_url = url; cache_initialized = c })
      × ((c ≡ true) ↔ ((is_empty f.backend_url ≡ false) × (o.is_valid ≡ true) × (o.is_http ≡ true)))
unfolding assemble initialize_backend
backend_lem {Block} f o = elim (Bool-cases (is_empty f.backend_url)) [
  | inl e ↦ ([], false, rw (e) refl, ground arith)
  | inr e ↦ elim (Bool-cases (o.is_valid && o.is_http)) [
    | inl v ↦ (o.spec, true, rw (e, v) refl, ground arith)
    | inr v ↦ (o.spec, false, rw (e, v) refl, ground arith)
  ]
]

-- A server that does not listen has no timer yet.
no_timer :
    (s : Server) (port : ℕ) (a : Answers)
    → let (listens, s', calls) = create_udp_socket_and_listen s port a in
      listens ≡ false → s'.send_timer_fd ≡ s.send_timer_fd
unfolding create_udp_socket_and_listen
no_timer s port a e = ground arith

-- The destructors of the timers and of the backend, in a worker that returns, ask only for the clean-up of the multi handle.
leave_unused :
    {Block : Type 0} (w : Parts Block) (url : Bytes) (c : Bool)
    → w.backend ≡ record new_backend { backend_url = url; cache_initialized = c }
    → w.server.send_timer_fd ≡ minus_one
    → w.curl_timer_fd ≡ minus_one
    → leave w ≡ multi_cleanup ∷ []
unfolding leave destroy_send_timer destroy_curl_timer destroy_tables destroy_dead destroy_hash
leave_unused w url c e send curl = rw (leave, e, send, curl) refl

-- Its tables are right, and it is configured as the flags say.
assembled_lem :
    {Block : Type 0} (f : Flags) (o : World)
    → let b = (assemble {Block = Block} f o).backend in
      Linked b
      × ((b.cache_initialized ≡ true)
          ↔ ((is_empty f.backend_url ≡ false) × (o.is_valid ≡ true) × (o.is_http ≡ true)))
assembled_lem {Block} f o =
    let (url, c, e, configured) = backend_lem {Block = Block} f o in
    (
      subst (λ (b : Backend Block). Linked b) (sym e) (new_backend-Linked url c),
      (
        λ h. configured.0 (sym (ap (λ b. b.cache_initialized) e) ∙ h),
        λ k. ap (λ b. b.cache_initialized) e ∙ configured.1 k,
      ),
    )

-- A worker whose server could open its socket comes to its loop, where the event loop watches the
-- socket and the two timers, in that order; else it returns and nothing is watched. It follows no null
-- pointer, its table of requests is consistent, and its backend is configured exactly for a URL that is
-- not empty, is valid and is http or https, which has no bearing on whether it serves. If it returns, the
-- destructors of the server's timer and of the backend only ask for the clean-up of the multi handle, and
-- close no descriptor.
pub worker_lem :
    {Block : Type 0} (f : Flags) (o : World)
    → (serves : Bool) × (w : Parts Block) × (calls : List WorkerCall) × (worker f o
        ≡ some (serves, w, calls))
      × ((serves ≡ true) ↔ Succeeds o.answers)
      × (watched calls ≡ (
          if serves
          then o.answers.created ∷ o.answers.timer_created ∷ o.curl_timer_created ∷ []
          else []))
      × Linked w.backend
      × ((w.backend.cache_initialized ≡ true)
          ↔ ((is_empty f.backend_url ≡ false) × (o.is_valid ≡ true) × (o.is_http ≡ true)))
      × ((serves ≡ true) ⊎ (leave w ≡ multi_cleanup ∷ []))
unfolding worker initialize_curlm assemble construct initialize_curl_timer Server.init
worker_lem {Block} f o =
    let w : Parts Block = assemble f o in
    let (listens, server, calls) = create_udp_socket_and_listen w.server f.port o.answers in
    let succeeds = (listen_lem w.server f.port o.answers).0 in
    let (url, c, e, configured) = backend_lem {Block = Block} f o in
    let (linked, is_configured) = assembled_lem {Block = Block} f o in
    let fds = server_watches w.server f.port o.answers in
    let both : List ℤ = o.answers.created ∷ o.answers.timer_created ∷ [] in
    let before : List WorkerCall = map server_call calls in
    let rest : List WorkerCall =
      socket_function
      ∷ timer_function
      ∷ (map curl_timer (initialize_curl_timer minus_one o.curl_timer_created).1
          ++ (wait_for_events ∷ [])) in
    elim (Bool-cases listens) [
      | inl l ↦ (
        true,
        record w { server = server; curl_timer_fd = o.curl_timer_created },
        global_init ∷ (before ++ rest),
        rw (worker, l) refl,
        (λ h. succeeds.0 l, λ k. refl),
        watched-append before rest
            ∙ ap (λ x. x ++ watched rest) (fds ∙ ap (λ b. if b then both else []) l),
        linked,
        is_configured,
        inl refl,
      )
      | inr l ↦
          let w' : Parts Block = record w { server = server } in
          let left : leave w' ≡ multi_cleanup ∷ [] =
            leave_unused w' url c e (no_timer w.server f.port o.answers l) refl in
          (
            false,
            w',
            global_init ∷ (before ++ leave w'),
            rw (worker, l) refl,
            (λ h. absurd (cc), λ k. sym l ∙ succeeds.1 k),
            watched-append before (leave w')
                ∙ ap (λ x. watched before ++ watched x) left
                ∙ append-nil (watched before)
                ∙ fds
                ∙ ap (λ b. if b then both else []) l,
            linked,
            is_configured,
            inr left,
          )
    ]
