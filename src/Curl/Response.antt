-- ===== src/Curl/Response.antt =====
-- A whole response through the callbacks of quic_proxy_curl.cc: its head, line after line, and then its
-- body, chunk after chunk.
use quic_proxy.Base.{
  ℕ, ◌+◌, ◌^◌, ◌<◌, ◌≡◌, ap, ◌∙◌, true, false, List, [], ◌∷◌, ◌++◌, map, some, length, arith,
}
use quic_proxy.Base.Bytes.{Bytes, codes, Avoids}
use quic_proxy.HeaderBlock.{HeaderBlock}
use quic_proxy.Curl.{Proxy, write_headers, write_body, settled_length, head_fin, or_empty, crlf}
use quic_proxy.Curl.Head.{
  Field, field_text, IsLine, AllFields, status_text, with_fields, feed, feed_head,
}
use quic_proxy.Curl.Download.{total, writes, writes_body}

head_fin-open : (n : ℕ) (status encoding : Bytes) → 0 < n → head_fin n status encoding ≡ false
unfolding head_fin
head_fin-open n status encoding more = ground arith

module _ {Block : Type 0} (hb : HeaderBlock Block) where
  -- A response whose head is well-formed and announces the length of its body, which is not empty and
  -- ends with a chunk that is not: all lines and chunks are taken whole, and the stream gets the head
  -- first and then the body in order, and is closed once, with the last chunk.
  pub response_lem :
      (p : Proxy Block) (s : ℕ) (version status reason : Bytes) (fs : List Field) (cs : List Bytes)
      (last : Bytes)
      → p.quic_stream ≡ some s
      → p.had_send_length ≡ 0
      → Avoids b' ' version
      → length status ≡ 3
      → IsLine (status_text version status reason)
      → AllFields fs
      → settled_length hb (record p {
        spdy_headers = with_fields hb (hb.set p.spdy_headers (codes ":status") status) fs;
      })
        ≡ total cs + length last
      → total cs + length last < 2 ^ 64
      → 0 < length last
      → let lines =
          (status_text version status reason ++ crlf)
          ∷ (map (λ f. field_text f ++ crlf) fs ++ (crlf ∷ [])) in
        let block = with_fields hb (hb.set p.spdy_headers (codes ":status") status) fs in
        (q : Proxy Block) × (feed hb p lines
          ≡ some (map length lines, q, write_headers block false ∷ []))
        × (let (ns, q', calls) = writes q (cs ++ (last ∷ [])) in
            (ns ≡ map length (cs ++ (last ∷ [])))
            × (calls ≡ map (λ c. write_body c false) cs ++ (write_body last true ∷ []))
            × (q'.had_send_length ≡ total cs + length last))
  response_lem p s version status reason fs cs last e unsent plain three small fits len bound more =
      let block = with_fields hb (hb.set p.spdy_headers (codes ":status") status) fs in
      let lines : List Bytes =
        (status_text version status reason ++ crlf)
        ∷ (map (λ f. field_text f ++ crlf) fs ++ (crlf ∷ [])) in
      let n = settled_length hb (record p { spdy_headers = block }) in
      let q : Proxy Block = record p { spdy_headers = hb.moved_from block; content_length = n } in
      let stays : head_fin n (or_empty (hb.find block (codes ":status")))
            (or_empty (hb.find block (codes "transfer-encoding")))
          ≡ false =
        head_fin-open n _ _ (omega arith) in
      let (ns, calls, sent) = writes_body cs q last s e (omega arith) (omega arith) more in
      (
        q,
        feed_head hb p s version status reason fs e plain three small fits
            ∙ ap (λ fin. some (map length lines, q, write_headers block fin ∷ [])) stays,
        (ns, calls, sent ∙ len),
      )
