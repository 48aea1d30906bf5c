-- ===== src/Session/Site/Tests.antt =====
-- A session comes, one of its streams asks and goes, the session goes, and then the transfer ends.
use quic_proxy.Base.{
  ℕ, ◌≡◌, ◌+◌, refl, true, List, [], ◌∷◌, none, some, none-ne-some, some-eq, sym, ap,
}
use quic_proxy.Base.Bytes.{Bytes, codes, bytes_eq}
use quic_proxy.HeaderBlock.Sample
use quic_proxy.HeaderBlock.Sample.{Block, sample}
use quic_proxy.Curl.{init, write_quic_callback}
use quic_proxy.Curl.Start.{start_http, start_upload, add_headers, has_upload, initialize_proxy_curl}
use quic_proxy.Stream
use quic_proxy.Stream.{Stream}
use quic_proxy.Backend.{
  done, find_key, erase_key, has_value, has_elem, collect, store_proxy_curl, store_stream,
  destroy_stream, close_backend_response_stream, check_curl_multi_info, check_msgs, check_msg, bury,
  detach,
}
use quic_proxy.Backend.Requests.{create_proxy_curl, start_at, fetch_response_from_backend}
use quic_proxy.Backend.Events.{body_received, checked, at_proxy, apply}
use quic_proxy.Backend.Handles.{check_held, fetch_held, remove_handles}
use quic_proxy.Backend.Handles.Events.{beside, apply_held}
use quic_proxy.Backend.Handles.Sample.{empty_held, empty_held-IsHeld}
use quic_proxy.Backend.Sample.{headers}
use quic_proxy.Session.{activate, create_incoming_stream, create_quic_session}
use quic_proxy.Session.Create.{incoming}
use quic_proxy.Session.Site.{
  Site, SiteEvent, session_made, stream_made, asked, stream_freed, session_gone, beneath,
  find_active, erase_active, IsServed, on_held, apply_site, run_site,
}
use quic_proxy.Session.Site.Life.{run_site_lem}

abbrev empty_site : Site Block
empty_site = record { sessions = λ n. none; held = empty_held }

empty_site-IsServed : IsServed empty_site
empty_site-IsServed = record {
  held = empty_held-IsHeld;
  live = λ n a s x (at_n, found). absurd (none-ne-some at_n);
  apart = λ n m a s t x y (at_n, found) has. absurd (none-ne-some at_n);
}

abbrev text : ℕ → Bytes
text n = (48 + n) ∷ []

abbrev visits : List (SiteEvent Block)
visits =
    session_made 1 11 7 50
    ∷ stream_made 1 (incoming true 4) 2
    ∷ asked 1 2 headers [] 300 (some 7)
    ∷ beneath (body_received 300 (codes "abc") 1 3)
    ∷ stream_freed 1 2
    ∷ session_gone 1
    ∷ beneath (checked (done 7 300 ∷ []))
    ∷ beneath (checked [])
    ∷ []

run_site_lem_example :
    (v : Site Block) × (run_site sample text empty_site visits ≡ some v) × IsServed v
unfolding apply_site on_held find_active erase_active create_quic_session create_incoming_stream
    activate apply_held beside apply fetch_held check_held remove_handles
    fetch_response_from_backend create_proxy_curl start_at start_http start_upload add_headers
    has_upload collect find_key erase_key has_value has_elem initialize_proxy_curl init Sample.find
    bytes_eq store_proxy_curl store_stream destroy_stream close_backend_response_stream
    check_curl_multi_info check_msgs check_msg bury detach at_proxy write_quic_callback Stream.init
run_site_lem_example = run_site_lem sample text visits empty_site-IsServed (
  refl,
  (
    ((_, refl), refl),
    (
      (
        (_, _, (refl, refl)),
        (λ st e. ap (λ (z : Stream). z.proxy_curl) (some-eq (sym e))),
        (codes "/a", refl),
        (7, refl, λ q e. none-ne-some e),
        refl,
      ),
      (
        (tt, (7, refl)),
        ((_, _, (refl, refl)), ((_, refl, refl), ((tt, (refl, tt)), ((tt, tt), tt)))),
      ),
    ),
  ),
)
