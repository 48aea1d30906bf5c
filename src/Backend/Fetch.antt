-- ===== src/Backend/Fetch.antt =====
-- `FetchResponseFromBackend` of quic_proxy_backend.cc for a new request.
use quic_proxy.Base.{
  if◌then◌else◌, ℕ, ◌≡◌, ◌≢◌, refl, ap, ◌∙◌, ◌⊎◌, inl, inr, List, ◌∷◌, ◌++◌, none, some, arith,
  ◌==◌, Option-cases, drop,
}
use quic_proxy.Base.Bytes.{Bytes, codes}
use quic_proxy.HeaderBlock.{HeaderBlock}
use quic_proxy.Curl.{Proxy, init}
use quic_proxy.Curl.Start.{initialize_proxy_curl, start_http}
use quic_proxy.Curl.Request.{start_http_keeps}
use quic_proxy.Stream.{Stream, set_proxy_curl}
use quic_proxy.Backend.{Backend, update, find_key, erase_key, collect}
use quic_proxy.Backend.Requests.{Fresh, create_proxy_curl, start_at, fetch_response_from_backend}
use quic_proxy.Backend.Linked.{
  easy_at, stream_at, Linked, update_self, update_ne, store_proxy_curl_at,
}
use quic_proxy.Backend.Unmoved.{KeepsStreams, updated-KeepsStreams}
use quic_proxy.Backend.Steps.{with_proxy-Linked}
use quic_proxy.Backend.Joined.{entered, joined, joined-Linked, collect-entered}

find_key_head : (h p : ℕ) (m : List (ℕ × ℕ)) → find_key h ((h, p) ∷ m) ≡ some p
unfolding find_key
find_key_head h p m = ground arith

-- The proxy that `CreateProxyCurl` makes.
abbrev pub created :
    {Block : Type 0} → HeaderBlock Block → Bytes → (stream handle : ℕ) → Proxy Block
created hb url stream handle = record (init hb url stream) { easy = some handle }

module _ {Block : Type 0} (hb : HeaderBlock Block) (b : Backend Block) where
  create_proxy_curl_at :
      (url : Bytes) (s h : ℕ) (f : Fresh)
      → f.handle ≡ some h
      → create_proxy_curl hb b url s f
        ≡ some (
            collect (record b {
              hash = (h, f.ptr) ∷ erase_key h b.hash;
              heap = update b.heap f.ptr (some (created hb url s h));
            }))
  unfolding create_proxy_curl initialize_proxy_curl
  create_proxy_curl_at url s h f has_handle = rw (has_handle, create_proxy_curl) refl

  start_at_at :
      (p : ℕ) (x : Proxy Block) (headers : Block) (body peer_ip : Bytes)
      → b.heap p ≡ some x
      → let (x', options, added) = start_http hb x headers body peer_ip in
        start_at hb b p headers body peer_ip
        ≡ some (record b { heap = update b.heap p (some x') }, options, added)
  unfolding start_at
  start_at_at p x headers body peer_ip at_p = rw (at_p, start_at) refl

module _ {Block : Type 0} (hb : HeaderBlock Block) {b : Backend Block} (l : Linked b) where
  -- What `FetchResponseFromBackend` does to the tables.
  pub fetch_tables :
      (headers : Block) (path body : Bytes) (s h : ℕ) (st : Stream) (f : Fresh)
      → b.streams s ≡ some st
      → st.proxy_curl ≡ none
      → hb.find headers (codes ":path") ≡ some path
      → f.handle ≡ some h
      → find_key h b.hash ≡ none
      → b.heap f.ptr ≡ none
      → let url = b.backend_url ++ drop 1 path in
        let (x, options, added) = start_http hb (created hb url s h) headers body f.peer_ip in
        (c : Backend Block) × (fetch_response_from_backend hb b headers body s f
          ≡ some (c, options, added))
        × Linked c
        × (find_key h c.hash ≡ some f.ptr)
        × (c.heap f.ptr ≡ some x)
        × (c.streams s ≡ some (set_proxy_curl (some f.ptr) st))
        × (c.hash ≡ (h, f.ptr) ∷ erase_key h b.hash)
        × (c.dead ≡ b.dead)
        × ((q : ℕ) → easy_at c q ≡ (if f.ptr == q then some (some h) else easy_at b q))
        × ((q : ℕ) → stream_at c q ≡ (if f.ptr == q then some (some s) else stream_at b q))
        × KeepsStreams b c
        × ((q : ℕ) → f.ptr ≢ q → c.heap q ≡ b.heap q)
  unfolding fetch_response_from_backend
  fetch_tables headers path body s h st f at_s idle has_path has_handle new unused = (
    record j { heap = update j.heap f.ptr (some x') },
    rw (has_path, fetch_response_from_backend, made)
        (rw (store_proxy_curl_at e s (some f.ptr) st at_s)
          (start_at_at hb j f.ptr x headers body f.peer_ip (update_self b.heap f.ptr _))),
    with_proxy-Linked (joined-Linked l s f.ptr h st x at_s idle unused new refl refl) f.ptr x x'
        (update_self b.heap f.ptr _) keeps.0 keeps.1,
    find_key_head h f.ptr _,
    update_self j.heap f.ptr _,
    update_self b.streams s _,
    refl,
    refl,
    λ q. ground (arith, keeps.1),
    λ q. ground (arith, keeps.0),
    updated-KeepsStreams b (record j { heap = update j.heap f.ptr (some x') }) s st
        (set_proxy_curl (some f.ptr) st) at_s refl (λ t. refl),
    λ q ne. update_ne j.heap f.ptr _ q ne ∙ update_ne b.heap f.ptr _ q ne,
  )
    where
      url : Bytes
      url = b.backend_url ++ drop 1 path

      x : Proxy Block
      x = created hb url s h

      e : Backend Block
      e = entered l s f.ptr h st x at_s idle unused new refl refl

      j : Backend Block
      j = joined l s f.ptr h st x at_s idle unused new refl refl

      x' : Proxy Block
      x' = (start_http hb x headers body f.peer_ip).0

      made : create_proxy_curl hb b url s f ≡ some e
      made =
          create_proxy_curl_at hb b url s h f has_handle
          ∙ ap (λ z. some z) (collect-entered l s f.ptr h st x at_s idle unused new refl refl)

      keeps : (x'.quic_stream ≡ some s) × (x'.easy ≡ some h)
      keeps = start_http_keeps hb x headers body f.peer_ip

  pub fetch_lem :
      (headers : Block) (path body : Bytes) (s h : ℕ) (st : Stream) (f : Fresh)
      → b.streams s ≡ some st
      → st.proxy_curl ≡ none
      → hb.find headers (codes ":path") ≡ some path
      → f.handle ≡ some h
      → find_key h b.hash ≡ none
      → b.heap f.ptr ≡ none
      → let url = b.backend_url ++ drop 1 path in
        let (x, options, added) = start_http hb (created hb url s h) headers body f.peer_ip in
        (c : Backend Block) × (fetch_response_from_backend hb b headers body s f
          ≡ some (c, options, added))
        × Linked c
        × (find_key h c.hash ≡ some f.ptr)
        × (c.heap f.ptr ≡ some x)
        × (c.streams s ≡ some (set_proxy_curl (some f.ptr) st))
  fetch_lem headers path body s h st f at_s idle has_path has_handle new unused =
      let (c, e, k, found, at_p, at_s', hash, dead, easy, stream, lives, others) =
        fetch_tables headers path body s h st f at_s idle has_path has_handle new unused in
      (c, e, k, found, at_p, at_s')

module _ {Block : Type 0} (hb : HeaderBlock Block) (b : Backend Block) where
  uncreated :
      (path : Bytes) (s : ℕ) (f : Fresh)
      → f.handle ≡ none
      → create_proxy_curl hb b (b.backend_url ++ drop 1 path) s f ≡ none
  unfolding create_proxy_curl
  uncreated path s f e = rw (e, create_proxy_curl) refl

  -- A request without ":path", or for which there is no handle, ends in undefined behaviour.
  pub fetch_fails :
      (headers : Block) (body : Bytes) (s : ℕ) (f : Fresh)
      → (hb.find headers (codes ":path") ≡ none) ⊎ (f.handle ≡ none)
      → fetch_response_from_backend hb b headers body s f ≡ none
  unfolding fetch_response_from_backend
  fetch_fails headers body s f (inl e) = rw (e, fetch_response_from_backend) refl
  fetch_fails headers body s f (inr e) = elim (Option-cases (hb.find headers (codes ":path"))) [
    | inl unnamed ↦ rw (unnamed, fetch_response_from_backend) refl
    | inr (path, named) ↦ rw (named, fetch_response_from_backend, uncreated path s f e) refl
  ]
