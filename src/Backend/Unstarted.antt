-- ===== src/Backend/Unstarted.antt =====
-- What becomes of a request whose method is refused, in quic_proxy_backend.cc and `StartHttp`.
use quic_proxy.Base.{ℕ, ◌≡◌, ◌≢◌, refl, ap, ap₂, ◌∙◌, false, List, [], ◌∷◌, none, some, beq_ne}
use quic_proxy.Base.Bytes.{Bytes, codes}
use quic_proxy.HeaderBlock.{HeaderBlock}
use quic_proxy.Curl.{or_empty}
use quic_proxy.Curl.Request.{start_http_invalid}
use quic_proxy.Stream.{Stream}
use quic_proxy.Backend.{Backend, Msg, done, other, find_key, check_curl_multi_info}
use quic_proxy.Backend.Requests.{Fresh, fetch_response_from_backend}
use quic_proxy.Backend.Linked.{Linked, LiveProxy, find_key-erase_key}
use quic_proxy.Backend.Done.{AllKnown, running, check_lem}
use quic_proxy.Backend.Fetch.{fetch_lem}

-- No message is of this handle. libcurl reports only handles that were added to it.
abbrev pub IsSilent : ℕ → List Msg → Type 0
IsSilent h [] = Unit {0}
IsSilent h (done easy p ∷ ms) = (easy ≢ h) × IsSilent h ms
IsSilent h (other ∷ ms) = IsSilent h ms

find_key-running :
    (h : ℕ) (ms : List Msg) (m : List (ℕ × ℕ))
    → IsSilent h ms
    → find_key h (running m ms) ≡ find_key h m
find_key-running h [] m silent = refl
find_key-running h (other ∷ ms) m silent = find_key-running h ms m silent
find_key-running h (done easy p ∷ ms) m (ne, silent) =
    find_key-running h ms _ silent ∙ find_key-erase_key easy h m ∙ rw (beq_ne easy h ne) refl

module _ {Block : Type 0} (hb : HeaderBlock Block) {b : Backend Block} (l : Linked b) where
  -- A request with a method that is not valid is not added to libcurl; its proxy stays alive through
  -- every call of `CheckCurlMultiInfo` whose messages are not of its handle.
  pub unstarted_lem :
      (headers : Block) (path body : Bytes) (s h : ℕ) (st : Stream) (f : Fresh) (ms : List Msg)
      → b.streams s ≡ some st
      → st.proxy_curl ≡ none
      → hb.find headers (codes ":path") ≡ some path
      → f.handle ≡ some h
      → find_key h b.hash ≡ none
      → b.heap f.ptr ≡ none
      → hb.is_valid_header_name (or_empty (hb.find headers (codes ":method"))) ≡ false
      → IsSilent h ms
      → ((c : Backend Block)
          → fetch_response_from_backend hb b headers body s f ≡ some (c, [], false)
          → AllKnown c.hash ms)
      → (c d : Backend Block) × (fetch_response_from_backend hb b headers body s f
          ≡ some (c, [], false))
        × (check_curl_multi_info c ms ≡ some d)
        × LiveProxy d f.ptr (λ x. x.easy ≡ some h)
  unstarted_lem headers path body s h st f ms at_s idle has_path has_handle new unused bad silent
        known =
      let (c, e, k, under, at_p, at_s') =
        fetch_lem hb l headers path body s h st f at_s idle has_path has_handle new unused in
      let (no_options, not_added, same) = start_http_invalid hb _ headers body f.peer_ip bad in
      let e' : fetch_response_from_backend hb b headers body s f ≡ some (c, [], false) =
        e ∙ ap₂ (λ o a. some (c, o, a)) no_options not_added in
      let (d, checked, k', hash, dead) = check_lem ms k (known c e') in
      (
        c,
        d,
        e',
        checked,
        k'.keyed h f.ptr (ap (find_key h) hash ∙ find_key-running h ms c.hash silent ∙ under),
      )
