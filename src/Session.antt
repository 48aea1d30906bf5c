-- ===== src/Session.antt =====
-- quic_proxy/proxy_quic/quic_proxy_session.h and .cc, and quic_proxy_dispatcher.h and .cc: the sessions
-- that the dispatcher makes, and the streams that they make, all with the same backend.
--
-- The base classes are not in this repository: whether a stream may be created and which id comes next
-- are arguments, and `ActivateStream` adds the stream to those of the session. A stream is known by
-- its address in the backend's `streams`; `new` gives one that is free.
pub mod Create
pub mod Serve
pub mod Site
mod Tests
use quic_proxy.Base.{ℕ, Bool, true, false, List, [], ◌∷◌, Option, none, some, if◌then◌else◌}
use quic_proxy.Stream.{init}
use quic_proxy.Base.Bytes.{Bytes}
use quic_proxy.HeaderBlock.{HeaderBlock}
use quic_proxy.Curl.Start.{EasyOption}
use quic_proxy.Backend.{Backend, update}
use quic_proxy.Backend.Requests.{fetch_response_from_backend}

pub data StreamType : Type 0 where
  bidirectional write_unidirectional : StreamType

-- The server's end of a connection.
pub record Connection : Type 0 where
  pub connection_id : ℕ
  pub client_address : ℕ
  pub owns_writer : Bool
  pub supported_versions : List ℕ

-- A stream that is active in a session.
pub record Active : Type 0 where
  pub id : ℕ
  pub address : ℕ
  pub stream_type : StreamType

pub record Session : Type 0 where
  pub connection : Connection
  pub initialized : Bool
  pub streams : List Active

-- `QuicProxyDispatcher::CreateQuicSession`
unfoldable pub create_quic_session : (connection_id client_address version : ℕ) → Session
create_quic_session connection_id client_address version = record {
  connection = record {
    connection_id = connection_id;
    client_address = client_address;
    owns_writer = false;
    supported_versions = version ∷ [];
  };
  initialized = true;
  streams = [];
}

-- `get_peer_ip` on a stream of this session; `text` is that of an address, `Normalized().ToString()`.
abbrev pub get_peer_ip : (text : ℕ → Bytes) → Session → Bytes
get_peer_ip text s = text s.connection.client_address

module _ {Block : Type 0} where
  -- `new QuicProxyStream` and `ActivateStream`.
  unfoldable pub activate :
      StreamType → (id address : ℕ) → Session → Backend Block → Option ℕ × Session × Backend Block
  activate kind id address s b = (
    some address,
    record s { streams = record { id = id; address = address; stream_type = kind } ∷ s.streams },
    record b { streams = update b.streams address (some (init id)) },
  )

  -- `CreateIncomingStream`, for an id and for a pending stream.
  unfoldable pub create_incoming_stream :
      Bool → (id address : ℕ) → Session → Backend Block → Option ℕ × Session × Backend Block
  unfolding activate
  create_incoming_stream should_create id address s b =
      if should_create then activate bidirectional id address s b else (none, s, b)

  unfoldable pub create_pending_stream :
      (id address : ℕ) → Session → Backend Block → Option ℕ × Session × Backend Block
  unfolding activate
  create_pending_stream id address s b = activate bidirectional id address s b

  unfoldable pub create_outgoing_bidirectional_stream :
      Session → Backend Block → Option ℕ × Session × Backend Block
  create_outgoing_bidirectional_stream s b = (none, s, b)

  -- `id` is `GetNextOutgoingUnidirectionalStreamId()`.
  unfoldable pub create_outgoing_unidirectional_stream :
      Bool → (id address : ℕ) → Session → Backend Block → Option ℕ × Session × Backend Block
  unfolding activate
  create_outgoing_unidirectional_stream should_create id address s b =
      if should_create then activate write_unidirectional id address s b else (none, s, b)

  -- `FetchResponseFromBackend`, as the base class calls it for a stream of this session: the new proxy
  -- is at `ptr`, and StartHttp asks the stream for the client's address.
  unfoldable pub fetch_response :
      HeaderBlock Block
      → (text : ℕ → Bytes) → Session
      → Backend Block
      → (request_headers : Block) (request_body : Bytes) (stream ptr : ℕ) (handle : Option ℕ)
      → Option (Backend Block × List EasyOption × Bool)
  fetch_response hb text s b request_headers request_body stream ptr handle =
      fetch_response_from_backend hb b request_headers request_body stream
        (record { ptr = ptr; handle = handle; peer_ip = get_peer_ip text s })
