-- ===== src/Curl/Lines.antt =====
-- `HttpHeaderCallback` of quic_proxy_curl.cc on one line, as libcurl hands it over: `length`
-- members of one byte, CR LF at the end.
use quic_proxy.Base.{
  drop-drop, ℕ, ◌+◌, ◌-◌, ◌^◌, ◌<◌, ◌≡◌, refl, sym, ap, ◌∙◌, [], ◌∷◌, ◌++◌, some, arith, length,
  length-append, take, drop, false, take-append_left, take-length, if◌then◌else◌,
}
use quic_proxy.Base.Bytes.{Bytes, codes, is_prefix, is_prefix_self, find-append, bytes_eq, Avoids}
use quic_proxy.HeaderBlock.{HeaderBlock}
use quic_proxy.Curl.{
  Proxy, http_header_callback, end_of_head, status_line, field_line, real_size, crlf,
}

drop-length : (xs ys : Bytes) → drop (length xs) (xs ++ ys) ≡ ys
drop-length [] ys = refl
drop-length (x ∷ xs) ys = drop-length xs ys

take_append : (xs ys : Bytes) → take (length xs) (xs ++ ys) ≡ xs
take_append xs ys = take-append_left (length xs) xs ys (omega arith) ∙ take-length xs

drop_past : (xs ys zs : Bytes) → drop (length xs + length ys) (xs ++ (ys ++ zs)) ≡ zs
drop_past xs ys zs =
    sym (drop-drop (length xs) (length ys) (xs ++ (ys ++ zs)))
    ∙ ap (drop (length ys)) (drop-length xs (ys ++ zs))
    ∙ drop-length ys zs

module _ {Block : Type 0} (hb : HeaderBlock Block) (p : Proxy Block) {s : ℕ}
    (open_ : p.quic_stream ≡ some s) where
  pub blank_lem :
      http_header_callback hb p crlf 1 2 ≡ some (2, (end_of_head hb p).0, (end_of_head hb p).1)
  unfolding http_header_callback bytes_eq
  blank_lem = ground arith

  line_lem :
      (text : Bytes)
      → 0 < length text
      → length (text ++ crlf) < 2 ^ 64
      → let n = length (text ++ crlf) in
        http_header_callback hb p (text ++ crlf) 1 n ≡ (
          if is_prefix (codes "HTTP") text
          then some ((status_line hb p text n).0, (status_line hb p text n).1, [])
          else some (n, field_line hb p text, []))
  unfolding http_header_callback
  line_lem text more small =
      let size : real_size 1 (length (text ++ crlf)) ≡ length (text ++ crlf) = omega arith in
      let line : take (length (text ++ crlf) - 2) (text ++ crlf) ≡ text =
        ap (λ k. take k (text ++ crlf)) {x = length (text ++ crlf) - 2} {y = length text}
          (omega (arith, length-append text crlf))
        ∙ take_append text crlf in
      ground (arith, size, line, length-append text crlf)

  field_line_lem :
      (name value : Bytes)
      → Avoids b':' name
      → field_line hb p (name ++ (codes ": " ++ value)) ≡ record p {
        spdy_headers = hb.append_value_or_add_header p.spdy_headers (hb.to_lower name) value;
      }
  unfolding field_line
  field_line_lem name value plain = rw (
    find-append b':' (b' ' ∷ []) name value plain,
    field_line,
    take_append name (codes ": " ++ value),
    drop_past name (codes ": ") value,
  )

  status_line_lem :
      (version status reason : Bytes) (n : ℕ)
      → Avoids b' ' version
      → length status ≡ 3
      → status_line hb p (version ++ (codes " " ++ (status ++ reason))) n
        ≡ (n, record p { spdy_headers = hb.set p.spdy_headers (codes ":status") status })
  unfolding status_line
  status_line_lem version status reason n plain three = rw (
    find-append b' ' [] version (status ++ reason) plain,
    status_line,
    drop_past version (codes " ") (status ++ reason),
    sym three,
    take_append status reason,
  )

  -- A field "name: value" goes into the block under its name in lower case.
  pub field_lem :
      (name value : Bytes)
      → Avoids b':' name
      → is_prefix (codes "HTTP") (name ++ (codes ": " ++ value)) ≡ false
      → let text = name ++ (codes ": " ++ value) in
        length (text ++ crlf) < 2 ^ 64
        → http_header_callback hb p (text ++ crlf) 1 (length (text ++ crlf))
          ≡ some (
            length (text ++ crlf),
            record p {
              spdy_headers = hb.append_value_or_add_header p.spdy_headers (hb.to_lower name) value;
            },
            [],
          )
  field_lem name value plain other small =
      line_lem (name ++ (codes ": " ++ value))
        (omega (arith, length-append name (codes ": " ++ value))) small
      ∙ rw (other, field_line_lem name value plain)

  -- "HTTP…", a blank, and three bytes of status: these three become `:status`.
  pub status_lem :
      (version status reason : Bytes)
      → Avoids b' ' version
      → length status ≡ 3
      → let text = codes "HTTP" ++ (version ++ (codes " " ++ (status ++ reason))) in
        length (text ++ crlf) < 2 ^ 64
        → http_header_callback hb p (text ++ crlf) 1 (length (text ++ crlf))
          ≡ some (
            length (text ++ crlf),
            record p { spdy_headers = hb.set p.spdy_headers (codes ":status") status },
            [],
          )
  status_lem version status reason plain three small =
      line_lem (codes "HTTP" ++ (version ++ (codes " " ++ (status ++ reason)))) (omega arith) small
      ∙ rw (
        is_prefix_self (codes "HTTP") (version ++ (codes " " ++ (status ++ reason))),
        status_line_lem (codes "HTTP" ++ version) status reason
            (length (codes "HTTP" ++ (version ++ (codes " " ++ (status ++ reason))) ++ crlf))
            (omega arith, (omega arith, (omega arith, (omega arith, plain)))) three,
      )
