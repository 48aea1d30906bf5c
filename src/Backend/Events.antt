-- ===== src/Backend/Events.antt =====
-- What happens to the tables of quic_proxy_backend.cc: the streams come, ask, close and go, libcurl
-- calls back, and the loop looks for messages.
use quic_proxy.Base.{ℕ, Bool, List, Option, none, some}
use quic_proxy.Base.Int.{ℤ}
use quic_proxy.Base.Bytes.{Bytes}
use quic_proxy.HeaderBlock.{HeaderBlock}
use quic_proxy.Curl.{Proxy, write_quic_callback, read_quic_callback, http_header_callback}
use quic_proxy.Stream.{init, on_stream_frame_acked}
use quic_proxy.Backend.{
  Backend, Msg, update, close_backend_response_stream, destroy_stream, check_curl_multi_info,
}
use quic_proxy.Backend.Sockets.{curl_sock_cb}
use quic_proxy.Backend.Requests.{Fresh, fetch_response_from_backend}

pub data Event (Block : Type 0) : Type 0 where
  stream_opened : (s id : ℕ) → Event Block
  requested : (headers : Block) (body : Bytes) (s : ℕ) (f : Fresh) → Event Block
  stream_acked : (s : ℕ) (fin_sent rs : Bool) (buffered : ℕ) → Event Block
  stream_closed stream_destroyed : (s : ℕ) → Event Block
  head_received body_received : (p : ℕ) (contents : Bytes) (size nmemb : ℕ) → Event Block
  body_asked : (p size nmemb : ℕ) → Event Block
  -- Of the handle `easy`, for the socket `s`.
  socket_called : (easy : ℕ) (s : ℤ) (what : ℕ) (sockp : Option ℕ) → Event Block
  checked : List Msg → Event Block

module _ {Block : Type 0} where
  -- A callback finds its proxy through the pointer that libcurl hands back.
  unfoldable pub at_proxy :
      Backend Block → ℕ → (Proxy Block → Option (Proxy Block)) → Option (Backend Block)
  at_proxy b p callback = elim (b.heap p) [
    | none ↦ none
    | some x ↦ elim (callback x) [
      | none ↦ none
      | some y ↦ some (record b { heap = update b.heap p (some y) })
    ]
  ]

  -- The base class's function leaves a stream; the code's own works on that.
  unfoldable pub acked_at :
      Backend Block → (s : ℕ) (fin_sent rs : Bool) (buffered : ℕ) → Option (Backend Block)
  acked_at b s fin_sent rs buffered = elim (b.streams s) [
    | none ↦ none
    | some st ↦
        let (rs', u) =
          on_stream_frame_acked (rs, record st { fin_sent = fin_sent; buffered = buffered }) in
        some (record b { streams = update b.streams s (some u) })
  ]

module _ {Block : Type 0} (hb : HeaderBlock Block) where
  abbrev pub head_callback : Bytes → ℕ → ℕ → Proxy Block → Option (Proxy Block)
  head_callback contents size nmemb x = elim (http_header_callback hb x contents size nmemb) [
    | none ↦ none
    | some (n, y, calls) ↦ some y
  ]

  unfoldable pub apply : Backend Block → Event Block → Option (Backend Block)
  apply b (stream_opened s id) = some (record b { streams = update b.streams s (some (init id)) })
  apply b (requested headers body s f) = elim (fetch_response_from_backend hb b headers body s f) [
    | none ↦ none
    | some (c, options, added) ↦ some c
  ]
  apply b (stream_acked s fin_sent rs buffered) = acked_at b s fin_sent rs buffered
  apply b (stream_closed s) = close_backend_response_stream b s
  apply b (stream_destroyed s) = destroy_stream b s
  apply b (head_received p contents size nmemb) = at_proxy b p (head_callback contents size nmemb)
  apply b (body_received p contents size nmemb) =
      at_proxy b p λ x. some (write_quic_callback x contents size nmemb).1
  apply b (body_asked p size nmemb) = at_proxy b p λ x. some (read_quic_callback x size nmemb).1
  apply b (socket_called easy s what sockp) = elim (curl_sock_cb b easy s what sockp) [
    | none ↦ none
    | some (c, calls) ↦ some c
  ]
  apply b (checked ms) = check_curl_multi_info b ms
