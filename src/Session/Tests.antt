-- ===== src/Session/Tests.antt =====
-- Two sessions on one backend: the first has no stream, and the second gets one.
use quic_proxy.Base.{ℕ, ◌≡◌, ◌+◌, refl, true, List, [], ◌∷◌, some}
use quic_proxy.Base.Bytes.{Bytes, codes, bytes_eq, c_str}
use quic_proxy.Curl.{Proxy, or_empty}
use quic_proxy.Curl.Start.{EasyOption}
use quic_proxy.Curl.Transfer.{no_options, asked}
use quic_proxy.Curl.Request.{plain_headers}
use quic_proxy.HeaderBlock.Sample
use quic_proxy.Session.Serve.{forwarded, serve_lem}
use quic_proxy.HeaderBlock.Sample.{Block, sample}
use quic_proxy.Stream
use quic_proxy.Stream.{Stream}
use quic_proxy.Backend.{Backend, find_key}
use quic_proxy.Backend.Linked.{Linked}
use quic_proxy.Backend.Life.{empty_backend, empty_backend-Linked}
use quic_proxy.Session.{
  Session, create_quic_session, create_pending_stream, activate, create_incoming_stream,
  fetch_response,
}
use quic_proxy.Session.Create.{Outcome, incoming, pending, create, create_lem}

abbrev backend : Backend Block
backend = empty_backend (codes "http://b/")

abbrev first : Session
first = create_quic_session 11 7 50

abbrev second : Session
second = (create_pending_stream 0 1 (create_quic_session 12 8 50) backend).1

abbrev shared : Backend Block
shared = (create_pending_stream 0 1 (create_quic_session 12 8 50) backend).2

shared-Linked : Linked shared
unfolding create_pending_stream create_quic_session activate
shared-Linked =
    (create_lem (empty_backend-Linked (codes "http://b/")) (pending 0) 1
      (create_quic_session 12 8 50) first refl tt tt).0

create_lem_example :
    Outcome (incoming true 4) 2 first second shared (create (incoming true 4) 2 first shared)
unfolding create_pending_stream create_quic_session activate Stream.init
create_lem_example =
    create_lem shared-Linked (incoming true 4) 2 first second refl tt
      ((Stream.init 0, refl, refl), tt)

abbrev headers : Block
headers =
    (codes ":path", codes "/a")
    ∷ (codes ":method", codes "GET")
    ∷ (codes "accept", codes "*/*")
    ∷ []

-- The text of an address: one digit.
abbrev text : ℕ → Bytes
text n = (48 + n) ∷ []

two_lines : forwarded sample headers (text 7) ≡ codes "accept: */*" ∷ codes "x-real-ip: 7" ∷ []
unfolding plain_headers c_str
two_lines = refl

serve_lem_example :
    let (r, s', b') = create_incoming_stream true 4 2 first shared in
    let list = forwarded sample headers (text 7) in
    (c : Backend Block) × (options : List EasyOption) × (x : Proxy Block) × (st : Stream) × (r
      ≡ some 2)
    × (fetch_response sample text s' b' headers [] 2 300 (some 7) ≡ some (c, options, true))
    × (let t = asked no_options options in
        (t.to_url ≡ some (c_str (codes "http://b/a")))
        × (t.method ≡ some (c_str (or_empty (sample.find headers (codes ":method")))))
        × (t.headers ≡ some list)
        × (t.knows_proxy ≡ true))
    × Linked c
    × (c.heap 300 ≡ some x)
    × (x.request_header_list ≡ list)
    × (x.quic_stream ≡ some 2)
    × (c.streams 2 ≡ some st)
    × (st.id ≡ 4)
    × (st.proxy_curl ≡ some 300)
unfolding create_pending_stream activate create_quic_session Sample.find bytes_eq find_key
serve_lem_example =
    serve_lem sample text shared-Linked first 4 2 300 7 headers (codes "/a") [] refl refl refl refl
      refl
