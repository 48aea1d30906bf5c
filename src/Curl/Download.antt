-- ===== src/Curl/Download.antt =====
-- `WriteQuicCallback` of quic_proxy_curl.cc: how the response's body reaches the stream; and
-- `HttpHeaderCallback` for a line that comes without a stream, or that is too short.
use quic_proxy.Base.{
  take-length, ℕ, ◌+◌, ◌%◌, ◌^◌, ◌<◌, ◌≡◌, List, [], ◌∷◌, ◌++◌, map, none, some, arith, length,
  true, false, ◌==◌,
}
use quic_proxy.Base.Bytes.{Bytes}
use quic_proxy.HeaderBlock.{HeaderBlock}
use quic_proxy.Curl.{
  Proxy, StreamCall, write_body, real_size, write_quic_callback, http_header_callback,
  curle_write_error,
}

abbrev pub total : List Bytes → ℕ
total [] = 0
total (c ∷ cs) = length c + total cs

module _ {Block : Type 0} where
  -- libcurl hands over one chunk after another, each as `length` members of one byte.
  pub writes : Proxy Block → List Bytes → List ℕ × Proxy Block × List (StreamCall Block)
  writes p [] = ([], p, [])
  writes p (c ∷ cs) =
      let (n, p', calls) = write_quic_callback p c 1 (length c) in
      let (ns, q, rest) = writes p' cs in (n ∷ ns, q, calls ++ rest)

  write_lem :
      (p : Proxy Block) (c : Bytes) (s : ℕ)
      → p.quic_stream ≡ some s
      → p.had_send_length + length c < 2 ^ 64
      → write_quic_callback p c 1 (length c) ≡ (
        length c,
        record p { had_send_length = p.had_send_length + length c },
        write_body c (p.had_send_length + length c == p.content_length) ∷ [],
      )
  unfolding write_quic_callback
  write_lem p c s e small =
      let fits : real_size 1 (length c) ≡ length c = omega arith in
      let sum : (p.had_send_length + length c) % 2 ^ 64 ≡ p.had_send_length + length c =
        omega arith in
      ground (arith, fits, sum, take-length c)

  -- A body that ends at the announced length: every chunk is taken whole and goes to the stream in
  -- order, and only the last one closes the stream.
  pub writes_body :
      (cs : List Bytes) (p : Proxy Block) (last : Bytes) (s : ℕ)
      → p.quic_stream ≡ some s
      → p.had_send_length + (total cs + length last) ≡ p.content_length
      → p.content_length < 2 ^ 64
      → 0 < length last
      → let (ns, q, calls) = writes p (cs ++ (last ∷ [])) in
        (ns ≡ map length (cs ++ (last ∷ [])))
        × (calls ≡ map (λ c. write_body c false) cs ++ (write_body last true ∷ []))
        × (q.had_send_length ≡ p.content_length)
  unfolding writes
  writes_body [] p last s e sum small more =
      let w = write_lem p last s e (omega arith) in ground (arith, w)
  writes_body (c ∷ cs) p last s e sum small more =
      let w = write_lem p c s e (omega arith) in
      let rest =
        writes_body cs (record p { had_send_length = p.had_send_length + length c }) last s e
          (omega arith) small more in
      ground (arith, w, rest)

module _ {Block : Type 0} (hb : HeaderBlock Block) where
  -- Once the stream is closed a line of the head writes nothing and changes nothing.
  pub detached_head :
      (p : Proxy Block) (contents : Bytes) (size nmemb : ℕ)
      → p.quic_stream ≡ none
      → http_header_callback hb p contents size nmemb ≡ some (curle_write_error, p, [])
  unfolding http_header_callback
  detached_head p contents size nmemb e = ground arith

  -- A line of fewer than two bytes reaches past the buffer while there is a stream.
  pub short_head :
      (p : Proxy Block) (contents : Bytes) (size nmemb s : ℕ)
      → p.quic_stream ≡ some s
      → real_size size nmemb < 2
      → http_header_callback hb p contents size nmemb ≡ none
  unfolding http_header_callback
  short_head p contents size nmemb s e short = ground arith
