-- ===== src/Backend/Sample.antt =====
-- A stream, its request and the tables of quic_proxy_backend.cc that serve it.
use quic_proxy.Base.{false, refl, [], ◌∷◌, none, some}
use quic_proxy.Base.Bytes.{Bytes, codes}
use quic_proxy.HeaderBlock.Sample.{Block, sample}
use quic_proxy.Curl.{Proxy, init}
use quic_proxy.Stream.{Stream, set_proxy_curl}
use quic_proxy.Backend.{Backend, update, find_key, erase_key}
use quic_proxy.Backend.Requests.{Fresh}
use quic_proxy.Backend.Linked.{Linked}
use quic_proxy.Backend.Steps.{with_stream-Linked}
use quic_proxy.Backend.Joined.{joined-Linked}
use quic_proxy.Backend.Fetch.{created}
use quic_proxy.Backend.Life.{empty_backend, empty_backend-Linked}

abbrev pub headers : Block
headers = (codes ":path", codes "/a") ∷ (codes ":method", codes "GET") ∷ []

abbrev pub at_100 : Fresh
at_100 = record { ptr = 100; handle = some 7; peer_ip = codes "10.0.0.1" }

abbrev pub stream_4 : Stream
stream_4 = record {
  id = 4;
  proxy_curl = none;
  fin_sent = false;
  write_side_closed = false;
  buffered = 0;
}

abbrev pub url : Bytes
url = codes "http://b/"

abbrev pub opened : Backend Block
opened = record (empty_backend url) { streams = update (λ s. none) 1 (some stream_4) }

pub opened-Linked : Linked opened
opened-Linked = with_stream-Linked (empty_backend-Linked url) 1 stream_4 refl refl

abbrev pub proxy : Proxy Block
proxy = created sample (codes "http://b/a") 1 7

abbrev pub serving : Backend Block
serving = record opened {
  hash = (7, 100) ∷ [];
  heap = update (λ p. none) 100 (some proxy);
  streams = update opened.streams 1 (some (set_proxy_curl (some 100) stream_4));
}

pub serving-Linked : Linked serving
unfolding find_key erase_key init
serving-Linked = joined-Linked opened-Linked 1 100 7 stream_4 proxy refl refl refl refl refl refl
