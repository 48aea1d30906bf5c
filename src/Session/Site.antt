-- ===== src/Session/Site.antt =====
-- All sessions of a worker, by the address of each, with the backend that they share: what happens to
-- them, and what the base classes and libcurl keep to. That the base class takes a stream out of its
-- session when it destroys it is documented behaviour of QuicSession.
pub mod Streams
pub mod Served
pub mod Life
mod Tests
use quic_proxy.Base.{ℕ, ◌≡◌, ◌≢◌, Bool, List, [], ◌∷◌, Option, none, some, ◌==◌, if◌then◌else◌}
use quic_proxy.Base.Bytes.{Bytes, codes}
use quic_proxy.HeaderBlock.{HeaderBlock}
use quic_proxy.Curl.{real_size}
use quic_proxy.Stream.{Stream}
use quic_proxy.Backend.{Backend, update}
use quic_proxy.Backend.Requests.{Fresh}
use quic_proxy.Backend.Linked.{easy_at}
use quic_proxy.Backend.Events.{
  Event, stream_opened, requested, stream_acked, stream_closed, stream_destroyed, head_received,
  body_received, body_asked, socket_called, checked,
}
use quic_proxy.Backend.Handles.{Held}
use quic_proxy.Backend.Handles.Safe.{IsHeld}
use quic_proxy.Backend.Handles.Events.{IsPermitted, apply_held}
use quic_proxy.Session.{Session, Active, create_quic_session, get_peer_ip}
use quic_proxy.Session.Create.{Request, create}

pub record Site (Block : Type 0) : Type 0 where
  pub sessions : ℕ → Option Session
  pub held : Held Block

-- The active stream at this address.
unfoldable pub find_active : ℕ → List Active → Option Active
find_active a [] = none
find_active a (x ∷ xs) = if x.address == a then some x else find_active a xs

unfoldable pub erase_active : ℕ → List Active → List Active
erase_active a [] = []
erase_active a (x ∷ xs) = let rest = erase_active a xs in if x.address == a then rest else x ∷ rest

-- A session, at `n`, is made, makes a stream, hands over a stream's request, destroys a stream, or
-- goes; or there is a callback of libcurl, a look for messages, or an acknowledgement.
pub data SiteEvent (Block : Type 0) : Type 0 where
  session_made : (n connection_id client_address version : ℕ) → SiteEvent Block
  stream_made : (n : ℕ) (q : Request) (a : ℕ) → SiteEvent Block
  asked : (n a : ℕ) (headers : Block) (body : Bytes) (ptr : ℕ) (handle : Option ℕ) → SiteEvent Block
  stream_freed : (n a : ℕ) → SiteEvent Block
  session_gone : (n : ℕ) → SiteEvent Block
  beneath : Event Block → SiteEvent Block

-- The events of the backend that are no call of a session.
abbrev pub IsBeneath : {Block : Type 0} → Event Block → Type 0
IsBeneath (stream_opened s id) = ⊥
IsBeneath (requested headers body s f) = ⊥
IsBeneath (stream_acked s fin_sent rs buffered) = Unit {0}
IsBeneath (stream_closed s) = ⊥
IsBeneath (stream_destroyed s) = ⊥
IsBeneath (head_received p contents size nmemb) = Unit {0}
IsBeneath (body_received p contents size nmemb) = Unit {0}
IsBeneath (body_asked p size nmemb) = Unit {0}
IsBeneath (socket_called easy s what sockp) = Unit {0}
IsBeneath (checked ms) = Unit {0}

-- The session at `n` has this active stream.
abbrev pub HasStream : {Block : Type 0} → Site Block → (n a : ℕ) → Session → Active → Type 0
HasStream w n a s x = (w.sessions n ≡ some s) × (find_active a s.streams ≡ some x)

-- The base classes act on the sessions and streams that there are, give memory that is not in use, ask
-- once for a stream, and let a session go when its streams are gone; libcurl calls back for handles in the
-- multi handle, and makes handles that no living proxy has. A request has a path, `curl_easy_init` gives it
-- a handle, and a line of a head has two bytes at least.
abbrev pub IsAllowedOn :
    {Block : Type 0} → HeaderBlock Block → Site Block → SiteEvent Block → Type 0
IsAllowedOn hb w (session_made n connection_id client_address version) = w.sessions n ≡ none
IsAllowedOn hb w (stream_made n q a) =
    ((s : Session) × (w.sessions n ≡ some s)) × (w.held.backend.streams a ≡ none)
IsAllowedOn hb w (asked n a headers body ptr handle) =
    ((s : Session) × (x : Active) × HasStream w n a s x)
    × ((st : Stream) → w.held.backend.streams a ≡ some st → st.proxy_curl ≡ none)
    × ((path : Bytes) × (hb.find headers (codes ":path") ≡ some path))
    × ((h : ℕ) × (handle ≡ some h) × ((q : ℕ) → easy_at w.held.backend q ≢ some (some h)))
    × (w.held.backend.heap ptr ≡ none)
IsAllowedOn hb w (stream_freed n a) = (s : Session) × (x : Active) × HasStream w n a s x
IsAllowedOn hb w (session_gone n) = (s : Session) × (w.sessions n ≡ some s) × (s.streams ≡ [])
IsAllowedOn hb w (beneath e) = IsBeneath e × IsPermitted hb w.held e

-- What holds between the events: the backend is sound, each active stream of each session is live
-- there under its id, and no two sessions share a stream.
pub record IsServed {Block : Type 0} (w : Site Block) : Type 0 where
  pub held : IsHeld w.held
  pub live :
      (n a : ℕ) (s : Session) (x : Active)
      → HasStream w n a s x
      → (st : Stream) × (w.held.backend.streams a ≡ some st) × (st.id ≡ x.id)
  pub apart :
      (n m a : ℕ) (s t : Session) (x y : Active) → HasStream w n a s x → HasStream w m a t y → n ≡ m

abbrev pub made_stream :
    {Block : Type 0} → Site Block → (n : ℕ) (q : Request) (a : ℕ) → Session → Site Block
made_stream w n q a s =
    let (r, s', b) = create q a s w.held.backend in
    record { sessions = update w.sessions n (some s'); held = record w.held { backend = b } }

-- The text of an address of the network is an argument.
module _ {Block : Type 0} (hb : HeaderBlock Block) (text : ℕ → Bytes) where
  -- An event of the backend, with the sessions that are left.
  unfoldable pub on_held : Site Block → (ℕ → Option Session) → Event Block → Option (Site Block)
  unfolding apply_held
  on_held w sessions e = elim (apply_held hb w.held e) [
    | none ↦ none
    | some y ↦ some (record { sessions = sessions; held = y })
  ]

  unfoldable pub apply_site : Site Block → SiteEvent Block → Option (Site Block)
  unfolding on_held find_active erase_active
  apply_site w (session_made n connection_id client_address version) = some (record w {
    sessions =
        update w.sessions n (some (create_quic_session connection_id client_address version));
  })
  apply_site w (stream_made n q a) = elim (w.sessions n) [
    | none ↦ none
    | some s ↦ some (made_stream w n q a s)
  ]
  apply_site w (asked n a headers body ptr handle) = elim (w.sessions n) [
    | none ↦ none
    | some s ↦ elim (find_active a s.streams) [
      | none ↦ none
      | some x ↦ on_held w w.sessions (
          requested headers body a
            (record { ptr = ptr; handle = handle; peer_ip = get_peer_ip text s }))
    ]
  ]
  apply_site w (stream_freed n a) = elim (w.sessions n) [
    | none ↦ none
    | some s ↦ elim (find_active a s.streams) [
      | none ↦ none
      | some x ↦
          on_held w (update w.sessions n (some (record s { streams = erase_active a s.streams })))
            (stream_destroyed a)
    ]
  ]
  apply_site w (session_gone n) = some (record w { sessions = update w.sessions n none })
  apply_site w (beneath e) = on_held w w.sessions e

  unfoldable pub run_site : Site Block → List (SiteEvent Block) → Option (Site Block)
  unfolding apply_site
  run_site w [] = some w
  run_site w (e ∷ es) = elim (apply_site w e) [ none ↦ none | some v ↦ run_site v es ]

  abbrev pub AllAllowedOn : Site Block → List (SiteEvent Block) → Type 0
  AllAllowedOn w [] = Unit {0}
  AllAllowedOn w (e ∷ es) =
      IsAllowedOn hb w e × (elim (apply_site w e) [ none ↦ Unit {0} | some v ↦ AllAllowedOn v es ])
