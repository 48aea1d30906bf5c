-- ===== src/Curl/Head.antt =====
-- The head of a response through `HttpHeaderCallback` of quic_proxy_curl.cc, line after line.
use quic_proxy.Base.{
  beq_ne, append-nil, ℕ, ◌<◌, ◌^◌, ◌≡◌, ◌≢◌, ◌↔◌, refl, ap, ◌∙◌, List, [], ◌∷◌, ◌++◌, map, Option,
  none, some, arith, length, true, false,
}
use quic_proxy.Base.Bytes.{Bytes, codes, is_prefix, bytes_eq_iff, Avoids}
use quic_proxy.HeaderBlock.{HeaderBlock}
use quic_proxy.Curl.{
  Proxy, StreamCall, write_headers, http_header_callback, end_of_head, settled_length, head_fin,
  or_empty, crlf,
}
use quic_proxy.Curl.Lines.{blank_lem, field_lem, status_lem}

abbrev pub Field : Type 0
Field = Bytes × Bytes

abbrev pub field_text : Field → Bytes
field_text (name, value) = name ++ (codes ": " ++ value)

-- A line fits in memory.
abbrev pub IsLine : Bytes → Type 0
IsLine text = length (text ++ crlf) < 2 ^ 64

-- The fields of a head: no colon in a name, and none that looks like a status line.
abbrev pub AllFields : List Field → Type 0
AllFields [] = Unit {0}
AllFields ((name, value) ∷ fs) =
    Avoids b':' name
    × (is_prefix (codes "HTTP") (name ++ (codes ": " ++ value)) ≡ false)
    × IsLine (name ++ (codes ": " ++ value))
    × AllFields fs

abbrev pub status_text : Bytes → Bytes → Bytes → Bytes
status_text version status reason = codes "HTTP" ++ (version ++ (codes " " ++ (status ++ reason)))

-- When a head closes the stream: no length, and neither a status that announces more nor chunks.
head_fin_lem :
    (content_length : ℕ) (status encoding : Bytes)
    → (head_fin content_length status encoding ≡ true) ↔ (
        (content_length ≡ 0)
        × (status ≢ codes "200")
        × (status ≢ codes "100")
        × (encoding ≢ codes "chunked"))
unfolding head_fin
head_fin_lem n status encoding = ground (
  arith,
  bytes_eq_iff status (codes "200"),
  bytes_eq_iff status (codes "100"),
  bytes_eq_iff encoding (codes "chunked"),
)

module _ {Block : Type 0} (hb : HeaderBlock Block) where
  -- The block with the fields added in order.
  abbrev pub with_fields : Block → List Field → Block
  with_fields b [] = b
  with_fields b ((name, value) ∷ fs) =
      with_fields (hb.append_value_or_add_header b (hb.to_lower name) value) fs

  pub feed : Proxy Block → List Bytes → Option (List ℕ × Proxy Block × List (StreamCall Block))
  feed p [] = some ([], p, [])
  feed p (l ∷ ls) = elim (http_header_callback hb p l 1 (length l)) [
    | none ↦ none
    | some (n, p', calls) ↦ elim (feed p' ls) [
      | none ↦ none
      | some (ns, p'', more) ↦ some (n ∷ ns, p'', calls ++ more)
    ]
  ]

  feed-cons :
      (p p' p'' : Proxy Block) (l : Bytes) (ls : List Bytes) (n : ℕ) (ns : List ℕ)
      (calls more : List (StreamCall Block))
      → http_header_callback hb p l 1 (length l) ≡ some (n, p', calls)
      → feed p' ls ≡ some (ns, p'', more)
      → feed p (l ∷ ls) ≡ some (n ∷ ns, p'', calls ++ more)
  unfolding feed
  feed-cons p p' p'' l ls n ns calls more e f = rw (e, f, feed)

  fields_lem :
      (fs : List Field) (p : Proxy Block) (s : ℕ)
      → p.quic_stream ≡ some s
      → AllFields fs
      → let lines = map (λ f. field_text f ++ crlf) fs ++ (crlf ∷ []) in
        let q = end_of_head hb (record p { spdy_headers = with_fields p.spdy_headers fs }) in
        feed p lines ≡ some (map length lines, q.0, q.1)
  unfolding feed
  fields_lem [] p s e fits =
      let q = end_of_head hb p in
      feed-cons p q.0 q.0 crlf [] 2 [] q.1 [] (blank_lem hb p e) refl
      ∙ ap (λ calls. some (2 ∷ [], q.0, calls)) (append-nil q.1)
  fields_lem ((name, value) ∷ fs) p s e fits =
      feed-cons p _ _ _ _ _ _ _ _ (field_lem hb p e name value fits.0 fits.1 fits.2) (
        fields_lem fs
          (record p {
            spdy_headers = hb.append_value_or_add_header p.spdy_headers (hb.to_lower name) value;
          })
          s e fits.3)

  -- A well-formed head is taken whole, every line answered by its length, and gives one
  -- `WriteHeaders`: a block with `:status` and the fields in order under lower-case names. The
  -- stream is closed with it as `head_fin` says, from the length that is settled now.
  pub feed_head :
      (p : Proxy Block) (s : ℕ) (version status reason : Bytes) (fs : List Field)
      → p.quic_stream ≡ some s
      → Avoids b' ' version
      → length status ≡ 3
      → IsLine (status_text version status reason)
      → AllFields fs
      → let lines =
          (status_text version status reason ++ crlf)
          ∷ (map (λ f. field_text f ++ crlf) fs ++ (crlf ∷ [])) in
        let block = with_fields (hb.set p.spdy_headers (codes ":status") status) fs in
        let len = settled_length hb (record p { spdy_headers = block }) in
        feed p lines
        ≡ some (
          map length lines,
          record p { spdy_headers = hb.moved_from block; content_length = len },
          write_headers block (
                head_fin len
                  (or_empty (hb.find block (codes ":status")))
                  (or_empty (hb.find block (codes "transfer-encoding"))))
              ∷ [],
        )
  unfolding end_of_head
  feed_head p s version status reason fs e plain three small fits =
      feed-cons p _ _ _ _ _ _ _ _ (status_lem hb p e version status reason plain three small) (
        fields_lem fs (record p { spdy_headers = hb.set p.spdy_headers (codes ":status") status }) s
          e fits)

  settled_length_kept :
      (p : Proxy Block)
      → hb.find p.spdy_headers (codes "content-length") ≡ none
      → settled_length hb p ≡ p.content_length
  unfolding settled_length
  settled_length_kept p e = ground arith

  -- The length of an earlier head stays where a later one names none: such a head never closes the
  -- stream, whatever its status.
  pub feed_head_stale :
      (p : Proxy Block) (s : ℕ) (version status reason : Bytes) (fs : List Field)
      → p.quic_stream ≡ some s
      → Avoids b' ' version
      → length status ≡ 3
      → IsLine (status_text version status reason)
      → AllFields fs
      → let block = with_fields (hb.set p.spdy_headers (codes ":status") status) fs in
        hb.find block (codes "content-length") ≡ none
        → p.content_length ≢ 0
        → let lines =
            (status_text version status reason ++ crlf)
            ∷ (map (λ f. field_text f ++ crlf) fs ++ (crlf ∷ [])) in
          feed p lines
          ≡ some (
            map length lines,
            record p { spdy_headers = hb.moved_from block },
            write_headers block false ∷ [],
          )
  unfolding head_fin
  feed_head_stale p s version status reason fs e plain three small fits unnamed stale =
      feed_head p s version status reason fs e plain three small fits
      ∙ rw (
        settled_length_kept
            (record p {
              spdy_headers = with_fields (hb.set p.spdy_headers (codes ":status") status) fs;
            })
            unnamed,
        beq_ne p.content_length 0 stale,
      )
