-- ===== src/Curl/Tests.antt =====
-- The callbacks of quic_proxy_curl.cc on concrete requests and responses.
use quic_proxy.Base.{
  ◌≡◌, ◌≢◌, ◌⊎◌, refl, true, false, List, [], ◌∷◌, ◌++◌, map, some, arith, length,
}
use quic_proxy.Base.Bytes.{Bytes, codes, is_prefix, bytes_eq, c_str}
use quic_proxy.Base.Int.{minus_one}
use quic_proxy.HeaderBlock.Sample.{Block, sample, set}
use quic_proxy.HeaderBlock.Sample
use quic_proxy.Curl.{Proxy, write_headers, write_body, settled_length, head_fin, crlf, or_empty}
use quic_proxy.Curl.Head.{
  feed, feed_head, Field, field_text, status_text, with_fields, AllFields, feed_head_stale,
}
use quic_proxy.Curl.Response.{response_lem}
use quic_proxy.Curl.Download.{writes}
use quic_proxy.Curl.Upload.{reads, reads_conserve, reads_all, CanRead, remaining}
use quic_proxy.Curl.Start.{start_http, header_text}
use quic_proxy.Curl.Transfer.{no_options, asked, download}
use quic_proxy.Curl.Request.{start_http_lem, plain_headers, IsUpload}

abbrev fresh : Proxy Block
fresh = record {
  sockfd = minus_one;
  easy = some 1;
  request_url = codes "http://backend/a";
  quic_stream = some 4;
  is_pause = false;
  spdy_headers = [];
  content_length = 0;
  had_send_length = 0;
  request_header_list = [];
  request_body = [];
  request_body_pos = 0;
}

abbrev fields : List Field
fields = (codes "Content-Length", codes "5") ∷ (codes "Server", codes "a: b") ∷ []

abbrev head_lines : List Bytes
head_lines =
    (status_text (codes "/1.1") (codes "200") (codes " OK") ++ crlf)
    ∷ (map (λ f. field_text f ++ crlf) fields ++ (crlf ∷ []))

head_block :
    with_fields sample (Sample.set [] (codes ":status") (codes "200")) fields
    ≡ (codes ":status", codes "200")
      ∷ (codes "content-length", codes "5")
      ∷ (codes "server", codes "a: b")
      ∷ []
unfolding Sample.set Sample.append Sample.lower
head_block = refl

block : Block
block = with_fields sample (set [] (codes ":status") (codes "200")) fields

fields-AllFields : AllFields fields
unfolding is_prefix
fields-AllFields = (omega arith, refl, omega arith, (omega arith, refl, omega arith, tt))

feed_head_example :
    let len = settled_length sample (record fresh { spdy_headers = block }) in
    feed sample fresh head_lines
    ≡ some (
      map length head_lines,
      record fresh { spdy_headers = []; content_length = len },
      write_headers block (
            head_fin len
              (or_empty (Sample.find block (codes ":status")))
              (or_empty (Sample.find block (codes "transfer-encoding"))))
          ∷ [],
    )
unfolding block
feed_head_example =
    feed_head sample fresh 4 (codes "/1.1") (codes "200") (codes " OK") fields refl (omega arith)
      refl (omega arith) fields-AllFields

-- With five bytes announced the stream stays open, and the length is 5.
head_stays_open :
    (settled_length sample (record fresh { spdy_headers = block }) ≡ 5)
    × (head_fin 5 (codes "200") [] ≡ false)
    × (head_fin 0 (codes "304") [] ≡ true)
unfolding block Sample.find Sample.decimal Sample.set Sample.append Sample.lower settled_length
    head_fin bytes_eq
head_stays_open = (refl, refl, refl)

abbrev serving : Proxy Block
serving = record fresh { content_length = 5 }

response_lem_example :
    (q : Proxy Block) × (feed sample fresh head_lines
      ≡ some (map length head_lines, q, write_headers block false ∷ []))
    × (let (ns, q', calls) = writes q (codes "ab" ∷ codes "" ∷ codes "cde" ∷ []) in
        (ns ≡ 2 ∷ 0 ∷ 3 ∷ [])
        × (calls
            ≡ write_body (codes "ab") false
              ∷ write_body [] false
              ∷ write_body (codes "cde") true
              ∷ [])
        × (q'.had_send_length ≡ 5))
unfolding block Sample.find Sample.decimal Sample.set Sample.append Sample.lower settled_length
response_lem_example =
    response_lem sample fresh 4 (codes "/1.1") (codes "200") (codes " OK") fields
      (codes "ab" ∷ codes "" ∷ []) (codes "cde") refl refl (omega arith) refl (omega arith)
      fields-AllFields refl (omega arith) (omega arith)

abbrev uploading : Proxy Block
uploading = record fresh { request_body = codes "hello" }

reads_conserve_example :
    let (q, bytes) = reads uploading ((1, 2) ∷ (2, 1) ∷ []) in
    (bytes ++ remaining q ≡ codes "hello") × CanRead q
reads_conserve_example = reads_conserve uploading ((1, 2) ∷ (2, 1) ∷ []) (omega arith)

reads_all_example :
    (reads uploading ((1, 2) ∷ (1, 1) ∷ (1, 16) ∷ (1, 16) ∷ (1, 16) ∷ [])).1 ≡ codes "hello"
reads_all_example =
    reads_all uploading ((1, 2) ∷ (1, 1) ∷ (1, 16) ∷ (1, 16) ∷ (1, 16) ∷ []) (omega arith)
      (omega arith) (omega arith)

abbrev request : Block
request =
    (codes ":method", codes "POST") ∷ (codes ":path", codes "/a") ∷ (codes "accept", codes "*") ∷ []

-- The pseudo headers are left out.
plain_headers-request : plain_headers request ≡ (codes "accept", codes "*") ∷ []
unfolding plain_headers
plain_headers-request = refl

start_http_lem_example :
    let (q, options, added) = start_http sample fresh request (codes "hello") (codes "10.0.0.1") in
    let method = or_empty (Sample.find request (codes ":method")) in
    let list =
      map (λ h. c_str (header_text h)) (plain_headers request)
      ++ (c_str (codes "x-real-ip: 10.0.0.1") ∷ []) in
    let plain = download (c_str fresh.request_url) (c_str method) list in
    (added ≡ true)
    × (q.request_header_list ≡ list)
    × (((IsUpload method × (codes "hello" ≢ []))
          × (q.request_body ≡ codes "hello")
          × (asked no_options options
              ≡ record plain { uploads = true; size = some 5; reads = (true, true) }))
        ⊎ (((¬ IsUpload method) ⊎ (codes "hello" ≡ []))
            × (q.request_body ≡ [])
            × (asked no_options options ≡ plain)))
unfolding Sample.find
start_http_lem_example =
    start_http_lem sample fresh request (codes "hello") (codes "10.0.0.1") refl refl

-- The head of a 404 behind a redirect whose length was 5.
feed_head_stale_example :
    let found = with_fields sample (Sample.set [] (codes ":status") (codes "404")) [] in
    feed sample
      (record fresh { content_length = 5 })
      ((status_text (codes "/1.1") (codes "404") [] ++ crlf) ∷ (crlf ∷ []))
    ≡ some (14 ∷ 2 ∷ [], record fresh { content_length = 5 }, write_headers found false ∷ [])
unfolding Sample.set Sample.find
feed_head_stale_example =
    feed_head_stale sample (record fresh { content_length = 5 }) 4 (codes "/1.1") (codes "404") []
      [] refl (omega arith) refl (omega arith) tt refl λ e. cc
