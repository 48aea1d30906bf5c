-- ===== src/Backend/Handles/Sample.antt =====
-- A concrete life: a stream opens, asks, goes before its transfer is done, and the transfer is freed.
use quic_proxy.Base.{none-ne-some, inl, refl, List, [], ◌∷◌, none}
use quic_proxy.Base.Int.{pos}
use quic_proxy.Base.Bytes.{codes, bytes_eq}
use quic_proxy.HeaderBlock.Sample.{Block, sample}
use quic_proxy.HeaderBlock.Sample
use quic_proxy.Curl.{init, write_quic_callback, read_quic_callback}
use quic_proxy.Curl.Start.{start_http, start_upload, add_headers, has_upload, initialize_proxy_curl}
use quic_proxy.Stream
use quic_proxy.Stream.{set_proxy_curl}
use quic_proxy.Backend.{
  done, find_key, erase_key, has_value, has_elem, collect, store_proxy_curl, store_stream,
  destroy_stream, close_backend_response_stream, check_curl_multi_info, check_msgs, check_msg, bury,
  detach,
}
use quic_proxy.Backend.Sockets.{curl_sock_cb, curl_add_sock}
use quic_proxy.Backend.Requests.{create_proxy_curl, start_at, fetch_response_from_backend}
use quic_proxy.Backend.Events.{
  Event, stream_opened, requested, stream_destroyed, body_received, body_asked, socket_called,
  checked, at_proxy, apply,
}
use quic_proxy.Backend.Life.{empty_backend, empty_backend-Linked}
use quic_proxy.Backend.Handles.{Held, check_held, fetch_held, remove_handles}
use quic_proxy.Backend.Handles.Safe.{IsHeld}
use quic_proxy.Backend.Handles.Events.{beside, apply_held, AllPermitted}
use quic_proxy.Backend.Sample.{headers, at_100, stream_4, url}

abbrev pub life : List (Event Block)
life =
    stream_opened 1 4
    ∷ requested headers [] 1 at_100
    ∷ socket_called 7 (pos 9) 2 none
    ∷ body_asked 100 1 16
    ∷ body_received 100 (codes "abc") 1 3
    ∷ stream_destroyed 1
    ∷ body_received 100 (codes "abc") 1 3
    ∷ checked (done 7 100 ∷ [])
    ∷ checked []
    ∷ []

abbrev pub empty_held : Held Block
empty_held = record { backend = empty_backend url; multi = [] }

pub empty_held-IsHeld : IsHeld empty_held
unfolding find_key has_elem
empty_held-IsHeld = record {
  linked = empty_backend-Linked url;
  in_table = λ h p e. absurd (none-ne-some e);
  done_out = λ p h e at. absurd (cc);
}

pub life-AllPermitted : AllPermitted sample empty_held life
unfolding apply_held beside apply fetch_held check_held remove_handles fetch_response_from_backend
    create_proxy_curl start_at start_http start_upload add_headers has_upload collect find_key
    erase_key has_value has_elem initialize_proxy_curl init Sample.find bytes_eq store_proxy_curl
    store_stream destroy_stream close_backend_response_stream check_curl_multi_info check_msgs
    check_msg bury detach at_proxy write_quic_callback read_quic_callback curl_sock_cb curl_add_sock
    Stream.init
life-AllPermitted = (
  refl,
  (
    ((stream_4, refl, refl), (codes "/a", refl), (7, refl, λ q e. none-ne-some e), refl),
    (inl refl, ((7, refl), ((7, refl), ((_, refl), ((7, refl), ((refl, tt), (tt, tt))))))),
  ),
)
