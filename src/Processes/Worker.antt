-- ===== src/Processes/Worker.antt =====
-- quic_proxy/proxy_quic/quic_proxy_server_bin.cc: `worker()`, which puts a backend and a server
-- together, with `InitializeCURLM` of quic_proxy_backend.cc.
pub mod Serving
mod Tests
use quic_proxy.Base.{
  ℕ, ◌≡◌, Bool, true, false, List, [], ◌∷◌, ◌++◌, map, Option, none, some, is_empty, if◌then◌else◌,
}
use quic_proxy.Base.Int.{ℤ, minus_one, int_eq}
use quic_proxy.Base.Bytes.{Bytes}
use quic_proxy.Timer.{TimerCall, initialize_curl_timer, destroy_curl_timer, destroy_send_timer}
use quic_proxy.Backend.{Backend, new_backend, initialize_backend}
use quic_proxy.Backend.Handles.{FreeCall, destroy_tables}
use quic_proxy.Server.{Server, ServerCall, send_timer, Answers, create_udp_socket_and_listen}
use quic_proxy.Server.Config.{Config, Built, construct}

-- The flags of the command line that a worker reads.
pub record Flags : Type 0 where
  pub backend_url : Bytes
  pub port : ℕ
  pub sendmmsgtimer_interval : ℤ
  pub idle_network_timeout : ℤ

-- What GURL says of the URL of the flags, the system's answers, and what the QUIC library sets.
pub record World : Type 0 where
  pub is_valid : Bool
  pub is_http : Bool
  pub spec : Bytes
  pub answers : Answers
  pub curl_timer_created : ℤ
  pub minimum : ℕ
  pub config : Config

pub data WorkerCall : Type 0 where
  global_init socket_function timer_function wait_for_events multi_cleanup : WorkerCall
  server_call : ServerCall → WorkerCall
  curl_timer : TimerCall → WorkerCall
  free : FreeCall → WorkerCall

-- A worker's parts. `has_server` says that the backend's `server_` is not null.
pub record Parts (Block : Type 0) : Type 0 where
  pub backend : Backend Block
  pub has_server : Bool
  pub config : Config
  pub server : Server
  pub curl_timer_fd : ℤ

module _ {Block : Type 0} where
  -- `InitializeCURLM`: the descriptor of the timer. A new timer is registered with the server's epoll
  -- server, and with no server that follows a null pointer.
  unfoldable pub initialize_curlm :
      Parts Block → (created : ℤ) → Option (Parts Block × List WorkerCall)
  initialize_curlm w created =
      let (fd, calls) = initialize_curl_timer w.curl_timer_fd created in
      let done : Parts Block × List WorkerCall = (
        record w { curl_timer_fd = fd },
        socket_function ∷ timer_function ∷ map curl_timer calls,
      ) in
      if int_eq w.curl_timer_fd minus_one
      then (if w.has_server then some done else none)
      else some done

  -- The two objects, before the server listens.
  unfoldable pub assemble : Flags → World → Parts Block
  assemble f o =
      let built = construct o.minimum o.config f.sendmmsgtimer_interval f.idle_network_timeout in
      record {
        backend =
            if is_empty f.backend_url
            then new_backend
            else (initialize_backend new_backend f.backend_url o.is_valid o.is_http o.spec).1;
        has_server = built.backend_has_server;
        config = built.config;
        server = built.server;
        curl_timer_fd = minus_one;
      }

  -- What the destructors of the repository's classes ask for, in their order: of the server, whose own does
  -- nothing, that of its timer, and then that of the backend, with its members. None of them closes the
  -- socket. The destructors of the server's other members, such as its epoll server and its dispatcher, are
  -- the QUIC library's, and left out.
  unfoldable pub leave : Parts Block → List WorkerCall
  leave w =
      map (λ c. server_call (send_timer c)) (destroy_send_timer w.server.send_timer_fd).1
      ++ (multi_cleanup
          ∷ (map curl_timer (destroy_curl_timer w.curl_timer_fd).1
              ++ map free (destroy_tables w.backend)))

  -- `worker()`: whether it comes to its loop, whose first round is the last call recorded; else it
  -- returns.
  unfoldable pub worker : Flags → World → Option (Bool × Parts Block × List WorkerCall)
  unfolding initialize_curlm assemble leave
  worker f o =
      let w = assemble f o in
      let (listens, server, calls) = create_udp_socket_and_listen w.server f.port o.answers in
      let w' = record w { server = server } in
      let before = global_init ∷ map server_call calls in
      if listens
      then (elim (initialize_curlm w' o.curl_timer_created) [
        | none ↦ none
        | some (w'', calls') ↦ some (true, w'', before ++ (calls' ++ (wait_for_events ∷ [])))
      ])
      else some (false, w', before ++ leave w')
