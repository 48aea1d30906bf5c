-- ===== src/Backend/Handles/Events.antt =====
-- What happens to the tables of quic_proxy_backend.cc together with libcurl's multi handle, and what
-- the session and libcurl keep to.
use quic_proxy.Base.{◌⊎◌, ℕ, ◌≡◌, ◌≢◌, ◌≤◌, List, [], ◌∷◌, Option, none, some}
use quic_proxy.Base.Bytes.{Bytes, codes}
use quic_proxy.HeaderBlock.{HeaderBlock}
use quic_proxy.Curl.{real_size}
use quic_proxy.Stream.{Stream}
use quic_proxy.Backend.{find_key}
use quic_proxy.Backend.Linked.{LiveStream, easy_at}
use quic_proxy.Backend.Done.{AllKnown}
use quic_proxy.Backend.Events.{
  Event, stream_opened, requested, stream_acked, stream_closed, stream_destroyed, head_received,
  body_received, body_asked, socket_called, checked, apply,
}
use quic_proxy.Backend.Handles.{Held, fetch_held, check_held}

-- A handle in the multi handle has this pointer.
abbrev pub IsCalled : {Block : Type 0} → Held Block → ℕ → Type 0
IsCalled x p = (h : ℕ) × (find_key h x.multi ≡ some p)

-- What is permitted. Of the session and libcurl: libcurl calls back for the handles that the multi handle
-- has, with the pointers that they were given, and its messages are of such handles; a handle that it
-- makes is of no proxy that lives; the session acts on live streams, a stream asks once, and memory is not
-- in use when it is given out. Of what is sent, and of memory: a request has a path, `curl_easy_init` gives
-- it a handle, and a line of a head has two bytes at least; without these the code is undefined.
abbrev pub IsPermitted : {Block : Type 0} → HeaderBlock Block → Held Block → Event Block → Type 0
IsPermitted hb x (stream_opened s id) = x.backend.streams s ≡ none
IsPermitted hb x (requested headers body s f) =
    LiveStream x.backend s (λ st. st.proxy_curl ≡ none)
    × ((path : Bytes) × (hb.find headers (codes ":path") ≡ some path))
    × ((h : ℕ) × (f.handle ≡ some h) × ((q : ℕ) → easy_at x.backend q ≢ some (some h)))
    × (x.backend.heap f.ptr ≡ none)
IsPermitted hb x (stream_acked s fin_sent rs buffered) =
    (st : Stream) × (x.backend.streams s ≡ some st)
IsPermitted hb x (stream_closed s) = (st : Stream) × (x.backend.streams s ≡ some st)
IsPermitted hb x (stream_destroyed s) = (st : Stream) × (x.backend.streams s ≡ some st)
IsPermitted hb x (head_received p contents size nmemb) = IsCalled x p × (2 ≤ real_size size nmemb)
IsPermitted hb x (body_received p contents size nmemb) = IsCalled x p
IsPermitted hb x (body_asked p size nmemb) = IsCalled x p
IsPermitted hb x (socket_called easy s what sockp) =
    (sockp ≡ none) ⊎ ((p h : ℕ) × (sockp ≡ some p) × (find_key h x.multi ≡ some p))
IsPermitted hb x (checked ms) = AllKnown x.multi ms

module _ {Block : Type 0} (hb : HeaderBlock Block) where
  -- What does not concern the multi handle leaves it as it is.
  unfoldable pub beside : Held Block → Event Block → Option (Held Block)
  unfolding apply
  beside x e = elim (apply hb x.backend e) [
    | none ↦ none
    | some c ↦ some (record { backend = c; multi = x.multi })
  ]

  unfoldable pub apply_held : Held Block → Event Block → Option (Held Block)
  unfolding fetch_held check_held beside
  apply_held x (stream_opened s id) = beside x (stream_opened s id)
  apply_held x (requested headers body s f) = fetch_held hb x headers body s f
  apply_held x (stream_acked s fin_sent rs buffered) =
      beside x (stream_acked s fin_sent rs buffered)
  apply_held x (stream_closed s) = beside x (stream_closed s)
  apply_held x (stream_destroyed s) = beside x (stream_destroyed s)
  apply_held x (head_received p contents size nmemb) =
      beside x (head_received p contents size nmemb)
  apply_held x (body_received p contents size nmemb) =
      beside x (body_received p contents size nmemb)
  apply_held x (body_asked p size nmemb) = beside x (body_asked p size nmemb)
  apply_held x (socket_called easy s what sockp) = beside x (socket_called easy s what sockp)
  apply_held x (checked ms) = check_held x ms

  unfoldable pub run_held : Held Block → List (Event Block) → Option (Held Block)
  unfolding apply_held
  run_held x [] = some x
  run_held x (e ∷ es) = elim (apply_held x e) [ none ↦ none | some y ↦ run_held y es ]

  -- Every event is permitted where it happens.
  abbrev pub AllPermitted : Held Block → List (Event Block) → Type 0
  AllPermitted x [] = Unit {0}
  AllPermitted x (e ∷ es) =
      IsPermitted hb x e × (elim (apply_held x e) [ none ↦ Unit {0} | some y ↦ AllPermitted y es ])
