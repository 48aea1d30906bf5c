-- ===== src/Backend/Loop.antt =====
-- The event loop's registrations of sockets next to the tables of quic_proxy_backend.cc: which proxy the
-- epoll server calls for a descriptor. `RegisterFD` replaces what was registered for a descriptor. Beside
-- them stands libcurl's own record of the sockets that it has asked to be watched, which no code of the
-- proxy writes.
pub mod Kept
pub mod Agrees
pub mod Socket
pub mod Stays
pub mod Life
mod Tests
use quic_proxy.Base.{◌⊎◌, ℕ, ◌≡◌, ◌≢◌, List, [], ◌∷◌, Option, none, some, ◌==◌, if◌then◌else◌}
use quic_proxy.Base.Int.{ℤ, minus_one, int_eq}
use quic_proxy.HeaderBlock.{HeaderBlock}
use quic_proxy.Backend.{Backend, Msg, done, other, find_key}
use quic_proxy.Backend.Linked.{LiveProxy}
use quic_proxy.Backend.Sockets.{
  SocketCall, register, multi_assign, unregister, start_read, stop_read, start_write, stop_write,
  curl_poll_remove, curl_sock_cb,
}
use quic_proxy.Backend.Events.{
  Event, stream_opened, requested, stream_acked, stream_closed, stream_destroyed, head_received,
  body_received, body_asked, socket_called, checked,
}
use quic_proxy.Backend.Handles.{Held}
use quic_proxy.Backend.Handles.Safe.{IsHeld}
use quic_proxy.Backend.Handles.Events.{IsPermitted, IsCalled, apply_held}

-- The proxy that is called for each descriptor.
abbrev pub Registry : Type 0
Registry = ℤ → Option ℕ

abbrev pub set_fd : Registry → ℤ → Option ℕ → Registry
set_fd f s v fd = if int_eq s fd then v else f fd

-- The epoll server takes the calls in order.
unfoldable pub take_calls : List SocketCall → Registry → Registry
take_calls [] f = f
take_calls (register s p ∷ cs) f = take_calls cs (set_fd f s (some p))
take_calls (unregister s ∷ cs) f = take_calls cs (set_fd f s none)
take_calls (multi_assign s p ∷ cs) f = take_calls cs f
take_calls (start_read s ∷ cs) f = take_calls cs f
take_calls (stop_read s ∷ cs) f = take_calls cs f
take_calls (start_write s ∷ cs) f = take_calls cs f
take_calls (stop_write s ∷ cs) f = take_calls cs f

pub record Loop (Block : Type 0) : Type 0 where
  pub held : Held Block
  pub registry : Registry
  -- The proxies of the transfers that libcurl uses a descriptor for.
  pub watched : Registry

-- What an event asks of the epoll server.
unfoldable pub calls_of : {Block : Type 0} → Backend Block → Event Block → List SocketCall
calls_of b (socket_called easy s what sockp) = elim (curl_sock_cb b easy s what sockp) [
  | none ↦ []
  | some (c, calls) ↦ calls
]
calls_of b (stream_opened s id) = []
calls_of b (requested headers body s f) = []
calls_of b (stream_acked s fin_sent rs buffered) = []
calls_of b (stream_closed s) = []
calls_of b (stream_destroyed s) = []
calls_of b (head_received p contents size nmemb) = []
calls_of b (body_received p contents size nmemb) = []
calls_of b (body_asked p size nmemb) = []
calls_of b (checked ms) = []

-- No socket is watched for this proxy.
abbrev pub IsUnwatched : Registry → ℕ → Type 0
IsUnwatched f p = (fd : ℤ) → f fd ≢ some p

abbrev pub AllUnwatched : Registry → List Msg → Type 0
AllUnwatched f [] = Unit {0}
AllUnwatched f (done h p ∷ ms) = IsUnwatched f p × AllUnwatched f ms
AllUnwatched f (other ∷ ms) = AllUnwatched f ms

-- libcurl's record: `CURL_POLL_REMOVE` takes the socket out of it, and any other action puts it under the
-- proxy that the transfer's handle has in the multi handle.
unfoldable pub wanted : {Block : Type 0} → Held Block → (easy what : ℕ) → Option ℕ
unfolding find_key
wanted x easy what = if what == curl_poll_remove then none else find_key easy x.multi

abbrev pub watched_at : {Block : Type 0} → Held Block → Event Block → Registry → Registry
watched_at x (socket_called easy s what sockp) f = set_fd f s (wanted x easy what)
watched_at x (stream_opened s id) f = f
watched_at x (requested headers body s fresh) f = f
watched_at x (stream_acked s fin_sent rs buffered) f = f
watched_at x (stream_closed s) f = f
watched_at x (stream_destroyed s) f = f
watched_at x (head_received p contents size nmemb) f = f
watched_at x (body_received p contents size nmemb) f = f
watched_at x (body_asked p size nmemb) f = f
watched_at x (checked ms) f = f

-- What libcurl keeps to besides, by a record of sockets, if each transfer uses one socket at a time: a
-- socket is a descriptor, and it is new for a transfer in the multi handle that has none, or it is the
-- one that the transfer has, or no transfer has it and it is removed; and a transfer that is done has
-- none.
abbrev pub IsOrderly : {Block : Type 0} → Held Block → Registry → Event Block → Type 0
IsOrderly x f (socket_called easy s what sockp) =
    ((sockp ≡ none)
      × (what ≢ curl_poll_remove)
      × ((p : ℕ) × (find_key easy x.multi ≡ some p) × IsUnwatched f p))
    ⊎ (((p : ℕ) × (sockp ≡ some p)
          × (f s ≡ some p)
          × (find_key easy x.multi ≡ some p)
          × (s ≢ minus_one))
        ⊎ ((sockp ≡ none) × (what ≡ curl_poll_remove) × (f s ≡ none)))
IsOrderly x f (checked ms) = AllUnwatched f ms
IsOrderly x f (stream_opened s id) = Unit {0}
IsOrderly x f (requested headers body s fresh) = Unit {0}
IsOrderly x f (stream_acked s fin_sent rs buffered) = Unit {0}
IsOrderly x f (stream_closed s) = Unit {0}
IsOrderly x f (stream_destroyed s) = Unit {0}
IsOrderly x f (head_received p contents size nmemb) = Unit {0}
IsOrderly x f (body_received p contents size nmemb) = Unit {0}
IsOrderly x f (body_asked p size nmemb) = Unit {0}

-- What holds between the events: the event loop watches the sockets that libcurl uses, each for its
-- transfer, and no other; whom the epoll server calls for a descriptor is a live proxy that has
-- this socket and whose handle is in the multi handle.
pub record IsLooped {Block : Type 0} (x : Loop Block) : Type 0 where
  pub held : IsHeld x.held
  pub agrees : x.registry ≡ x.watched
  pub called :
      (fd : ℤ) (p : ℕ)
      → x.registry fd ≡ some p
      → LiveProxy x.held.backend p (λ z. z.sockfd ≡ fd) × IsCalled x.held p

module _ {Block : Type 0} (hb : HeaderBlock Block) where
  unfoldable pub apply_loop : Loop Block → Event Block → Option (Loop Block)
  unfolding apply_held calls_of take_calls
  apply_loop x e = elim (apply_held hb x.held e) [
    | none ↦ none
    | some y ↦ some (record {
      held = y;
      registry = take_calls (calls_of x.held.backend e) x.registry;
      watched = watched_at x.held e x.watched;
    })
  ]

  unfoldable pub run_loop : Loop Block → List (Event Block) → Option (Loop Block)
  unfolding apply_loop
  run_loop x [] = some x
  run_loop x (e ∷ es) = elim (apply_loop x e) [ none ↦ none | some y ↦ run_loop y es ]

  abbrev pub AllOrderly : Loop Block → List (Event Block) → Type 0
  AllOrderly x [] = Unit {0}
  AllOrderly x (e ∷ es) =
      IsPermitted hb x.held e
      × IsOrderly x.held x.watched e
      × (elim (apply_loop x e) [ none ↦ Unit {0} | some y ↦ AllOrderly y es ])
