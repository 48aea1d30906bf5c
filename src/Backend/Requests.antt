-- ===== src/Backend/Requests.antt =====
-- `CreateProxyCurl` and `FetchResponseFromBackend` of quic_proxy_backend.cc.
use quic_proxy.Base.{ℕ, Bool, List, ◌∷◌, ◌++◌, Option, none, some, drop}
use quic_proxy.Base.Bytes.{Bytes, codes}
use quic_proxy.HeaderBlock.{HeaderBlock}
use quic_proxy.Curl.{init}
use quic_proxy.Curl.Start.{EasyOption, initialize_proxy_curl, start_http}
use quic_proxy.Backend.{Backend, update, erase_key, collect, store_proxy_curl}

-- The environment's part of a request: the address of the new proxy, the handle that
-- `curl_easy_init` gives if it does, and the client's address.
pub record Fresh : Type 0 where
  pub ptr : ℕ
  pub handle : Option ℕ
  pub peer_ip : Bytes

module _ {Block : Type 0} (hb : HeaderBlock Block) where
  -- `CreateProxyCurl`; `none` is its `false`, after which the new proxy is gone again.
  unfoldable pub create_proxy_curl : Backend Block → Bytes → ℕ → Fresh → Option (Backend Block)
  unfolding init collect erase_key initialize_proxy_curl
  create_proxy_curl b url s f = elim f.handle [
    | none ↦ none
    | some h ↦ some (
        collect (record b {
          hash = (h, f.ptr) ∷ erase_key h b.hash;
          heap = update b.heap f.ptr (some (initialize_proxy_curl (init hb url s) (some h)).1);
        }))
  ]

  -- `proxy->StartHttp(...)` through the pointer: what it sets, and whether the transfer is added.
  unfoldable pub start_at :
      Backend Block → ℕ → Block → Bytes → Bytes → Option (Backend Block × List EasyOption × Bool)
  unfolding start_http
  start_at b p headers body peer_ip = elim (b.heap p) [
    | none ↦ none
    | some x ↦
        let (x', options, added) = start_http hb x headers body peer_ip in
        some (record b { heap = update b.heap p (some x') }, options, added)
  ]

  -- `FetchResponseFromBackend`. A request without ":path" reads through the end iterator, and a
  -- proxy that could not be created is used all the same, through a null pointer.
  unfoldable pub fetch_response_from_backend :
      Backend Block
      → (request_headers : Block) (request_body : Bytes) (s : ℕ) (f : Fresh)
      → Option (Backend Block × List EasyOption × Bool)
  unfolding create_proxy_curl start_at store_proxy_curl
  fetch_response_from_backend b request_headers request_body s f =
      elim (hb.find request_headers (codes ":path")) [
        | none ↦ none
        | some path ↦ elim (create_proxy_curl b (b.backend_url ++ drop 1 path) s f) [
          | none ↦ none
          | some b' ↦ elim (store_proxy_curl b' s (some f.ptr)) [
            | none ↦ none
            | some b'' ↦ start_at b'' f.ptr request_headers request_body f.peer_ip
          ]
        ]
      ]
