-- ===== src/Curl/Request.antt =====
-- What `StartHttp` of quic_proxy_curl.cc forwards to the backend.
use quic_proxy.Base.{
  ◌≡◌, ◌≢◌, ◌↔◌, ◌⊎◌, refl, sym, ap, ◌∙◌, true, false, List, [], ◌∷◌, ◌++◌, map, arith,
  append_assoc, some, length, append-nil, inl, inr, Bool-cases, is_empty_iff, if◌then◌else◌,
}
use quic_proxy.Base.Bytes.{Bytes, codes, c_str, bytes_eq_iff}
use quic_proxy.HeaderBlock.{HeaderBlock}
use quic_proxy.Curl.{Proxy, or_empty}
use quic_proxy.Curl.Start.{
  is_pseudo, slist_append, header_text, add_headers, has_upload, basic_options, upload_options,
  start_upload, start_http,
}
use quic_proxy.Curl.Transfer.{no_options, asked, download}

-- The headers of the request itself: all but the pseudo headers, in order.
unfoldable pub plain_headers : List (Bytes × Bytes) → List (Bytes × Bytes)
plain_headers [] = []
plain_headers (h ∷ hs) = if is_pseudo h.0 then plain_headers hs else h ∷ plain_headers hs

abbrev pub line_of : Bytes × Bytes → Bytes
line_of h = c_str (header_text h)

add_headers_lem :
    (hs : List (Bytes × Bytes)) (list : List Bytes)
    → add_headers list hs ≡ list ++ map line_of (plain_headers hs)
unfolding add_headers plain_headers
add_headers_lem [] list = sym (append-nil list)
add_headers_lem ((n, v) ∷ hs) list = elim (Bool-cases (is_pseudo n)) [
  | inl e ↦ rw e (add_headers_lem hs list)
  | inr e ↦ rw e (
      add_headers_lem hs (list ++ (c_str (header_text (n, v)) ∷ []))
      ∙ append_assoc list (c_str (header_text (n, v)) ∷ []) _)
]

abbrev pub IsUpload : Bytes → Type 0
IsUpload method = (method ≡ codes "POST") ⊎ ((method ≡ codes "PUT") ⊎ (method ≡ codes "PATCH"))

has_upload_iff : (method : Bytes) → (has_upload method ≡ true) ↔ IsUpload method
unfolding has_upload
has_upload_iff method = ground (
  arith,
  bytes_eq_iff method (codes "POST"),
  bytes_eq_iff method (codes "PUT"),
  bytes_eq_iff method (codes "PATCH"),
)

start_upload_lem :
    {Block : Type 0} (p : Proxy Block) (method body : Bytes)
    → ((IsUpload method × (body ≢ []))
        × (start_upload p method body ≡ (record p { request_body = body }, upload_options body)))
      ⊎ (((¬ IsUpload method) ⊎ (body ≡ [])) × (start_upload p method body ≡ (p, [])))
unfolding start_upload
start_upload_lem p method body = ground (arith, is_empty_iff body, has_upload_iff method)

module _ {Block : Type 0} (hb : HeaderBlock Block) where
  -- The options of a request with a valid method, in the words of the code.
  pub start_http_options :
      (p : Proxy Block) (headers : Block) (body peer_ip : Bytes)
      → p.request_header_list ≡ []
      → hb.is_valid_header_name (or_empty (hb.find headers (codes ":method"))) ≡ true
      → let method = or_empty (hb.find headers (codes ":method")) in
        let list =
          map line_of (plain_headers (hb.entries headers))
          ++ (c_str (codes "x-real-ip: " ++ peer_ip) ∷ []) in
        let (q, options, added) = start_http hb p headers body peer_ip in
        (added ≡ true)
        × (q.request_header_list ≡ list)
        × (((IsUpload method × (body ≢ []))
              × (q.request_body ≡ body)
              × (options ≡ basic_options p.request_url method list ++ upload_options body))
            ⊎ (((¬ IsUpload method) ⊎ (body ≡ []))
                × (q.request_body ≡ p.request_body)
                × (options ≡ basic_options p.request_url method list)))
  unfolding start_http
  start_http_options p headers body peer_ip fresh valid =
      elim (start_upload_lem (record p { request_header_list = list }) method body) [
        | inl (m, e) ↦ rw (e, valid) (refl, list_eq, inl (m, refl, rw list_eq))
        | inr (m, e) ↦ rw (e, valid) (refl, list_eq, inr (m, refl, rw list_eq))
      ]
    where
      method : Bytes
      method = or_empty (hb.find headers (codes ":method"))

      list : List Bytes
      list =
          slist_append (add_headers p.request_header_list (hb.entries headers))
            (codes "x-real-ip: " ++ peer_ip)

      list_eq :
          list
          ≡ map line_of (plain_headers (hb.entries headers))
            ++ (c_str (codes "x-real-ip: " ++ peer_ip) ∷ [])
      list_eq =
          ap (λ l. l ++ (c_str (codes "x-real-ip: " ++ peer_ip) ∷ []))
            (add_headers_lem (hb.entries headers) p.request_header_list
              ∙ ap (λ l. l ++ map line_of (plain_headers (hb.entries headers))) fresh)

  -- A request with a valid method is started: a fresh proxy asks for one transfer, of its URL by this
  -- method, both cut at a NUL, with the client's headers but the pseudo headers, in order and each line
  -- cut at a NUL, and the client's address behind them; the transfer calls the proxy back with the
  -- response and knows it, and it uploads the body exactly for POST, PUT and PATCH with a body that is
  -- not empty, with its length, and reads it from the proxy.
  pub start_http_lem :
      (p : Proxy Block) (headers : Block) (body peer_ip : Bytes)
      → p.request_header_list ≡ []
      → hb.is_valid_header_name (or_empty (hb.find headers (codes ":method"))) ≡ true
      → let method = or_empty (hb.find headers (codes ":method")) in
        let list =
          map line_of (plain_headers (hb.entries headers))
          ++ (c_str (codes "x-real-ip: " ++ peer_ip) ∷ []) in
        let plain = download (c_str p.request_url) (c_str method) list in
        let (q, options, added) = start_http hb p headers body peer_ip in
        (added ≡ true)
        × (q.request_header_list ≡ list)
        × (((IsUpload method × (body ≢ []))
              × (q.request_body ≡ body)
              × (asked no_options options ≡ record plain {
                uploads = true;
                size = some (length body);
                reads = (true, true);
              }))
            ⊎ (((¬ IsUpload method) ⊎ (body ≡ []))
                × (q.request_body ≡ p.request_body)
                × (asked no_options options ≡ plain)))
  unfolding asked
  start_http_lem p headers body peer_ip fresh valid =
      let (added, list, how) = start_http_options p headers body peer_ip fresh valid in
      (
        added,
        list,
        elim how [
          | inl (upload, kept, e) ↦ inl (upload, kept, ap (asked no_options) e)
          | inr (plain, kept, e) ↦ inr (plain, kept, ap (asked no_options) e)
        ],
      )

  -- With an invalid method no option is set and the handle is not added.
  pub start_http_invalid :
      (p : Proxy Block) (headers : Block) (body peer_ip : Bytes)
      → hb.is_valid_header_name (or_empty (hb.find headers (codes ":method"))) ≡ false
      → let (q, options, added) = start_http hb p headers body peer_ip in
        (options ≡ []) × (added ≡ false) × (q.request_body ≡ p.request_body)
  unfolding start_http
  start_http_invalid p headers body peer_ip bad = ground arith

  -- The request changes neither the proxy's stream nor its handle.
  pub start_http_keeps :
      (p : Proxy Block) (headers : Block) (body peer_ip : Bytes)
      → let q = (start_http hb p headers body peer_ip).0 in
        (q.quic_stream ≡ p.quic_stream) × (q.easy ≡ p.easy)
  unfolding start_http start_upload
  start_http_keeps p headers body peer_ip = ground arith
