-- ===== src/Server.antt =====
-- quic_proxy/proxy_quic/quic_proxy_server.h and .cc: the server's socket, and its end. What the
-- system answers is an argument; what is asked of the system, the epoll server and the dispatcher is
-- recorded in order.
pub mod Listen
pub mod Events
pub mod Config
mod Tests
use quic_proxy.Base.{ℕ, Bool, true, false, List, [], ◌∷◌, ◌++◌, map, ◌==◌, if◌then◌else◌}
use quic_proxy.Base.Int.{ℤ, minus_one, int_eq, is_neg}
use quic_proxy.Timer.{TimerCall, initialize_send_timer}

pub record Server : Type 0 where
  pub port : ℕ
  pub fd : ℤ
  pub overflow_supported : Bool
  pub silent_close : Bool
  pub sendmmsgtimer_interval : ℤ
  -- The descriptor of `sendmmsg_timer_`.
  pub send_timer_fd : ℤ

-- `dispatcher_listens` is `InitializeWithWriter` on a new dispatcher.
pub data ServerCall : Type 0 where
  set_reuse_addr register_fd dispatcher_listens close_fd : (fd : ℤ) → ServerCall
  bind_to : (fd : ℤ) (port : ℕ) → ServerCall
  send_timer : TimerCall → ServerCall
  dispatcher_shutdown epoll_shutdown : ServerCall

-- The answers of CreateUDPSocket, setsockopt, bind, `FromSocket` and timerfd_create. A socket address
-- that could not be read has the port 0.
pub record Answers : Type 0 where
  pub created : ℤ
  pub overflow : Bool
  pub reused : ℤ
  pub bound : ℤ
  pub own_port : ℕ
  pub timer_created : ℤ

-- The part of the constructor that is the server's own.
unfoldable pub init : ℤ → Server
init interval = record {
  port = 0;
  fd = minus_one;
  overflow_supported = false;
  silent_close = false;
  sendmmsgtimer_interval = interval;
  send_timer_fd = minus_one;
}

-- `CreateWriter`: the timer is a new one.
unfoldable pub create_writer : Server → Answers → Server × List ServerCall
create_writer s a =
    let (timer_fd, calls) =
      initialize_send_timer minus_one a.timer_created s.sendmmsgtimer_interval in
    (record s { send_timer_fd = timer_fd }, map send_timer calls)

-- `CreateUDPSocketAndListen` behind `bind`.
unfoldable pub start_listening : Server → ℕ → Answers → Server × List ServerCall
unfolding create_writer
start_listening s port a =
    let (s', calls) =
      create_writer (record s { port = if port == 0 then a.own_port else port }) a in
    (s', register_fd s.fd ∷ (calls ++ (dispatcher_listens s.fd ∷ [])))

-- `CreateUDPSocketAndListen`, for an address with this port.
unfoldable pub create_udp_socket_and_listen : Server → ℕ → Answers → Bool × Server × List ServerCall
unfolding start_listening
create_udp_socket_and_listen s port a =
    let opened = record s { fd = a.created; overflow_supported = a.overflow } in
    let (s', calls) = start_listening opened port a in
    if is_neg a.created
    then (false, opened, [])
    else (if int_eq a.reused minus_one
        then (false, opened, set_reuse_addr a.created ∷ [])
        else (if is_neg a.bound
            then (false, opened, set_reuse_addr a.created ∷ bind_to a.created port ∷ [])
            else (true, s', set_reuse_addr a.created ∷ bind_to a.created port ∷ calls)))

-- `Shutdown`
unfoldable pub shutdown : Server → Server × List ServerCall
shutdown s = (
  record s { fd = minus_one },
  (if s.silent_close then [] else dispatcher_shutdown ∷ [])
      ++ (epoll_shutdown ∷ close_fd s.fd ∷ []),
)
