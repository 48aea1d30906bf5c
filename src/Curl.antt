-- ===== src/Curl.antt =====
-- quic_proxy/proxy_quic/quic_proxy_curl.h and .cc: one request to the backend over libcurl, and
-- the callbacks by which libcurl hands over the response and takes the request's body.
--
-- A `Proxy` is the state of a `QuicProxyCurl`. The stream that it serves is a pointer, given by
-- the stream's identity. What a callback asks of the stream is returned as a list of `StreamCall`.
-- `stream_id_`, which is only logged, is
-- left out. A callback gets `size * nmemb` bytes, a size_t product. Undefined behaviour is `none`.
pub mod Lines
pub mod Head
pub mod Start
pub mod Request
pub mod Transfer
pub mod Keeps
pub mod Upload
mod Tests
pub mod Download
pub mod Response
use quic_proxy.Base.{
  ℕ, ◌+◌, ◌-◌, ◌*◌, ◌%◌, ◌^◌, Bool, true, false, not, ◌&&◌, ◌||◌, List, [], ◌∷◌, ◌++◌, Option, none,
  some, ltb, leb, ◌==◌, if◌then◌else◌, length, take, drop, is_empty, get_or,
}
use quic_proxy.Base.Int.{ℤ, minus_one}
use quic_proxy.Base.Bytes.{Bytes, codes, bytes_eq, is_prefix, find, c_str}
use quic_proxy.HeaderBlock.{HeaderBlock}

pub record Proxy (Block : Type 0) : Type 0 where
  pub sockfd : ℤ
  pub easy : Option ℕ
  pub request_url : Bytes
  pub quic_stream : Option ℕ
  pub is_pause : Bool
  pub spdy_headers : Block
  pub content_length : ℕ
  pub had_send_length : ℕ
  pub request_header_list : List Bytes
  pub request_body : Bytes
  pub request_body_pos : ℕ

-- `WriteHeaders(block, fin, nullptr)` and `WriteOrBufferBody(body, fin)`
pub data StreamCall (Block : Type 0) : Type 0 where
  write_headers : (block : Block) (fin : Bool) → StreamCall Block
  write_body : (body : Bytes) (fin : Bool) → StreamCall Block

-- The codes in curl.h that a callback returns.
abbrev pub curle_ok : ℕ
curle_ok = 0

abbrev pub curle_write_error : ℕ
curle_write_error = 23

abbrev pub curle_aborted_by_callback : ℕ
curle_aborted_by_callback = 42

-- `size * nmemb`
abbrev pub real_size : ℕ → ℕ → ℕ
real_size size nmemb = size * nmemb % 2 ^ 64

abbrev pub crlf : Bytes
crlf = 13 ∷ 10 ∷ []

abbrev is_some_stream : Option ℕ → Bool
is_some_stream none = false
is_some_stream (some s) = true

abbrev pub or_empty : Option Bytes → Bytes
or_empty none = []
or_empty (some v) = v

-- `fin`, from the length, the status and the transfer encoding.
pub head_fin : ℕ → Bytes → Bytes → Bool
head_fin content_length http_status transfer_encoding =
    if content_length == 0
    then (if bytes_eq http_status (codes "200")
          || bytes_eq http_status (codes "100")
          || bytes_eq transfer_encoding (codes "chunked")
        then false
        else true)
    else false

module _ {Block : Type 0} where
  -- `WriteQuicCallback`
  unfoldable pub write_quic_callback :
      Proxy Block → (contents : Bytes) (size nmemb : ℕ) → ℕ × Proxy Block × List (StreamCall Block)
  write_quic_callback p contents size nmemb =
      let n = real_size size nmemb in
      let sent = (p.had_send_length + n) % 2 ^ 64 in
      if not (is_some_stream p.quic_stream) then (curle_write_error, p, []) else (
        n,
        record p { had_send_length = sent },
        write_body (take n contents) (sent == p.content_length) ∷ [],
      )

  -- `ReadQuicCallback`: what it returns, and the bytes that it copies to `dest`.
  unfoldable pub read_quic_callback : Proxy Block → (size nmemb : ℕ) → ℕ × Proxy Block × Bytes
  read_quic_callback p size nmemb =
      let left = (length p.request_body + 2 ^ 64 - p.request_body_pos) % 2 ^ 64 in
      let buffer_size = real_size size nmemb in
      let copied = if ltb buffer_size left then buffer_size else left in
      if ltb 0 left
      then (
        copied,
        record p { request_body_pos = (p.request_body_pos + copied) % 2 ^ 64 },
        take copied (drop p.request_body_pos p.request_body),
      )
      else (0, p, [])

  -- `ProgressQuicCallback`, given what the stream has buffered; whether it pauses the transfer.
  -- (The program does not install it.)
  pub progress_quic_callback : Proxy Block → (buffered : ℕ) → ℕ × Proxy Block × Bool
  progress_quic_callback p buffered =
      if not (is_some_stream p.quic_stream)
      then (curle_aborted_by_callback, p, false)
      else (if leb (1024 * 1024 * 40) buffered && not p.is_pause
          then (curle_ok, record p { is_pause = true }, true)
          else (curle_ok, p, false))

module _ {Block : Type 0} (hb : HeaderBlock Block) where
  -- The constructor, for a stream.
  unfoldable pub init : Bytes → ℕ → Proxy Block
  init url stream = record {
    sockfd = minus_one;
    easy = none;
    request_url = url;
    quic_stream = some stream;
    is_pause = false;
    spdy_headers = hb.empty;
    content_length = 0;
    had_send_length = 0;
    request_header_list = [];
    request_body = [];
    request_body_pos = 0;
  }

  -- The length that the end of the head settles: `content_length_` is kept where no field gives it.
  pub settled_length : Proxy Block → ℕ
  settled_length p = elim (hb.find p.spdy_headers (codes "content-length")) [
    | none ↦ p.content_length
    | some v ↦ hb.string_to_size_t v p.content_length
  ]

  -- The blank line: the head is over and goes to the stream.
  pub end_of_head : Proxy Block → Proxy Block × List (StreamCall Block)
  unfolding settled_length head_fin
  end_of_head p =
      let http_status = or_empty (hb.find p.spdy_headers (codes ":status")) in
      let transfer_encoding = or_empty (hb.find p.spdy_headers (codes "transfer-encoding")) in
      let fin = head_fin (settled_length p) http_status transfer_encoding in
      (
        record p { spdy_headers = hb.moved_from p.spdy_headers; content_length = settled_length p },
        write_headers p.spdy_headers fin ∷ [],
      )

  -- A line that begins with "HTTP": `:status` is the three bytes behind the first blank.
  pub status_line : Proxy Block → (line : Bytes) (n : ℕ) → ℕ × Proxy Block
  status_line p line n = elim (find (codes " ") line) [
    | none ↦ (0, p)
    | some at ↦ (
      n,
      record p {
        spdy_headers = hb.set p.spdy_headers (codes ":status") (take 3 (drop (at + 1) line));
      },
    )
  ]

  -- Any other line: a field, or ignored where it holds no ": ".
  pub field_line : Proxy Block → (line : Bytes) → Proxy Block
  field_line p line = elim (find (codes ": ") line) [
    | none ↦ p
    | some at ↦ record p {
      spdy_headers =
          hb.append_value_or_add_header p.spdy_headers (hb.to_lower (take at line))
            (drop (at + 2) line);
    }
  ]

  -- `HttpHeaderCallback`. For fewer than two bytes `real_size - 2` wraps, and the line reaches past
  -- the buffer.
  pub http_header_callback :
      Proxy Block
      → (contents : Bytes) (size nmemb : ℕ) → Option (ℕ × Proxy Block × List (StreamCall Block))
  unfolding end_of_head status_line field_line bytes_eq is_prefix
  http_header_callback p contents size nmemb =
      let n = real_size size nmemb in
      let line = take (n - 2) contents in
      let (p', calls) = end_of_head p in
      let (answer, p'') = status_line p line n in
      if not (is_some_stream p.quic_stream)
      then some (curle_write_error, p, [])
      else (if n == 2 && bytes_eq (take 2 contents) crlf
          then some (n, p', calls)
          else (if ltb n 2
              then none
              else (if is_prefix (codes "HTTP") line
                  then some (answer, p'', [])
                  else some (n, field_line p line, []))))
