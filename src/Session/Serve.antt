-- ===== src/Session/Serve.antt =====
-- A request from the session that takes its stream to the transfer that is started for it.
use quic_proxy.Base.{
  ℕ, ◌≡◌, refl, sym, ap, ◌∙◌, inl, inr, true, List, [], ◌∷◌, ◌++◌, map, none, some, drop, some-eq,
  Option,
}
use quic_proxy.Base.Bytes.{Bytes, codes, c_str}
use quic_proxy.HeaderBlock.{HeaderBlock}
use quic_proxy.Curl.{Proxy, init, or_empty}
use quic_proxy.Curl.Start.{EasyOption, start_http}
use quic_proxy.Curl.Request.{plain_headers, line_of, start_http_lem}
use quic_proxy.Curl.Transfer.{Transfer, no_options, asked}
use quic_proxy.Stream
use quic_proxy.Stream.{Stream, set_proxy_curl, init_alone}
use quic_proxy.Backend.{Backend, find_key}
use quic_proxy.Backend.Linked.{Linked, update_self}
use quic_proxy.Backend.Steps.{with_stream-Linked}
use quic_proxy.Backend.Fetch.{created, fetch_lem}
use quic_proxy.Session.{Session, activate, create_incoming_stream, fetch_response}

-- The lines of the headers that go to the backend for a client at this address.
abbrev pub forwarded : {Block : Type 0} → HeaderBlock Block → Block → (peer_ip : Bytes) → List Bytes
forwarded hb headers peer_ip =
    map line_of (plain_headers (hb.entries headers))
    ++ (c_str (codes "x-real-ip: " ++ peer_ip) ∷ [])

-- The fields of a transfer that is known.
told :
    {t u : Transfer} {to method : Option Bytes} {headers : Option (List Bytes)}
    → t ≡ u
    → u.to_url ≡ to
    → u.method ≡ method
    → u.headers ≡ headers
    → u.knows_proxy ≡ true
    → (t.to_url ≡ to) × (t.method ≡ method) × (t.headers ≡ headers) × (t.knows_proxy ≡ true)
told e a b c d = (
  ap (λ (v : Transfer). v.to_url) e ∙ a,
  ap (λ (v : Transfer). v.method) e ∙ b,
  ap (λ (v : Transfer). v.headers) e ∙ c,
  ap (λ (v : Transfer). v.knows_proxy) e ∙ d,
)

module _ {Block : Type 0} (hb : HeaderBlock Block) where
  -- The transfer that is started goes to the URL of the proxy, by the method, with these headers.
  started_as :
      (x : Proxy Block) (headers : Block) (body peer_ip : Bytes)
      → x.request_header_list ≡ []
      → hb.is_valid_header_name (or_empty (hb.find headers (codes ":method"))) ≡ true
      → let (x', options, added) = start_http hb x headers body peer_ip in
        (added ≡ true)
        × (x'.request_header_list ≡ forwarded hb headers peer_ip)
        × (let t = asked no_options options in
            (t.to_url ≡ some (c_str x.request_url))
            × (t.method ≡ some (c_str (or_empty (hb.find headers (codes ":method")))))
            × (t.headers ≡ some (forwarded hb headers peer_ip))
            × (t.knows_proxy ≡ true))
  started_as x headers body peer_ip none_yet valid =
      let (added, list, how) = start_http_lem hb x headers body peer_ip none_yet valid in
      (
        added,
        list,
        elim how [
          | inl (upload, kept, e) ↦ told e refl refl refl refl
          | inr (plain, kept, e) ↦ told e refl refl refl refl
        ],
      )

  -- A session that may make an incoming stream makes it, and a request on it with a path and a valid
  -- method, with memory and a handle that are not in use, starts a transfer of the backend's URL with
  -- that path, by its method, and libcurl is told the proxy. What is forwarded are the request's own
  -- headers, each line cut at a NUL, which drops the further values of a header that has several, with
  -- the address of the client of that session behind them; the stream and the proxy of the transfer point to each other, and the tables
  -- stay consistent.
  pub serve_lem :
      (text : ℕ → Bytes) {b : Backend Block} (l : Linked b) (s : Session) (id a ptr h : ℕ)
      (headers : Block) (path body : Bytes)
      → b.streams a ≡ none
      → hb.find headers (codes ":path") ≡ some path
      → hb.is_valid_header_name (or_empty (hb.find headers (codes ":method"))) ≡ true
      → find_key h b.hash ≡ none
      → b.heap ptr ≡ none
      → let (r, s', b') = create_incoming_stream true id a s b in
        let list = forwarded hb headers (text s.connection.client_address) in
        (c : Backend Block) × (options : List EasyOption) × (x : Proxy Block) × (st : Stream) × (r
          ≡ some a)
        × (fetch_response hb text s' b' headers body a ptr (some h) ≡ some (c, options, true))
        × (let t = asked no_options options in
            (t.to_url ≡ some (c_str (b.backend_url ++ drop 1 path)))
            × (t.method ≡ some (c_str (or_empty (hb.find headers (codes ":method")))))
            × (t.headers ≡ some list)
            × (t.knows_proxy ≡ true))
        × Linked c
        × (c.heap ptr ≡ some x)
        × (x.request_header_list ≡ list)
        × (x.quic_stream ≡ some a)
        × (c.streams a ≡ some st)
        × (st.id ≡ id)
        × (st.proxy_curl ≡ some ptr)
  unfolding create_incoming_stream activate Stream.init init fetch_response
  serve_lem text {b} l s id a ptr h headers path body free has_path valid new unused =
      let st : Stream = Stream.init id in
      let b' = (create_incoming_stream true id a s b).2 in
      let l' : Linked b' = with_stream-Linked l a st free (init_alone id) in
      let peer_ip : Bytes = text s.connection.client_address in
      let x = created hb (b.backend_url ++ drop 1 path) a h in
      let (c, e, k, found, at_p, at_s) =
        fetch_lem hb l' headers path body a h st
          (record { ptr = ptr; handle = some h; peer_ip = peer_ip })
          (update_self b.streams a (some st)) refl has_path refl new unused in
      let (added, list, transfer) = started_as x headers body peer_ip refl valid in
      let (y, at_y, back) = k.to_proxy a ptr _ at_s refl in
      (
        c,
        (start_http hb x headers body peer_ip).1,
        (start_http hb x headers body peer_ip).0,
        set_proxy_curl (some ptr) st,
        refl,
        e ∙ ap (λ v. some (c, (start_http hb x headers body peer_ip).1, v)) added,
        transfer,
        k,
        at_p,
        list,
        ap (λ (z : Proxy Block). z.quic_stream) (some-eq (sym at_p ∙ at_y)) ∙ back,
        at_s,
        refl,
        refl,
      )
