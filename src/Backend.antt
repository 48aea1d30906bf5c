-- ===== src/Backend.antt =====
-- quic_proxy/proxy_quic/quic_proxy_backend.h and .cc: the table of running requests, and the
-- pointers between streams and proxies.
--
-- `heap` holds the proxies by address and `streams` the live streams by address; a stream points to
-- a proxy and a proxy to a stream, and neither pointer owns. A proxy is owned by shared pointers in
-- `hash` (`proxy_http_hash_`, by the libcurl handle) and in `dead` (`proxy_http_dead_list_`): when
-- an entry goes, `collect` frees what nothing owns any more. To follow a pointer to what is gone,
-- or a null pointer, is undefined behaviour, and the operation is then `none`.
pub mod Requests
pub mod Linked
pub mod Unlink
pub mod Steps
pub mod Close
pub mod Done
pub mod Joined
pub mod Fetch
pub mod Sockets
pub mod Watched
pub mod Events
pub mod Life
pub mod Unmoved
pub mod Quiet
pub mod Ready
pub mod Unstarted
pub mod Handles
pub mod Book
pub mod Kept
pub mod Loop
pub mod Sample
mod Tests
use quic_proxy.Base.{
  ℕ, Bool, true, false, ◌&&◌, ◌||◌, List, [], ◌∷◌, ◌++◌, Option, none, some, ◌==◌, if◌then◌else◌,
  drop, is_empty,
}
use quic_proxy.Base.Int.{ℤ, pos}
use quic_proxy.Base.Bytes.{Bytes, codes}
use quic_proxy.HeaderBlock.{HeaderBlock}
use quic_proxy.Curl.{Proxy, init}
use quic_proxy.Curl.Start.{EasyOption, initialize_proxy_curl, start_http}
use quic_proxy.Stream.{Stream, set_proxy_curl}

pub record Backend (Block : Type 0) : Type 0 where
  pub backend_url : Bytes
  pub cache_initialized : Bool
  pub hash : List (ℕ × ℕ)
  pub dead : List ℕ
  pub heap : ℕ → Option (Proxy Block)
  pub streams : ℕ → Option Stream

abbrev pub update : {A : Type 0} → (ℕ → A) → ℕ → A → ℕ → A
update f k v j = if k == j then v else f j

-- `proxy_http_hash_`: find, erase, and `hash[key] = value`.
unfoldable pub find_key : ℕ → List (ℕ × ℕ) → Option ℕ
find_key h [] = none
find_key h ((k, p) ∷ m) = if k == h then some p else find_key h m

unfoldable pub erase_key : ℕ → List (ℕ × ℕ) → List (ℕ × ℕ)
erase_key h [] = []
erase_key h ((k, p) ∷ m) = if k == h then erase_key h m else (k, p) ∷ erase_key h m

unfoldable pub has_value : ℕ → List (ℕ × ℕ) → Bool
has_value p [] = false
has_value p ((k, q) ∷ m) = q == p || has_value p m

unfoldable pub has_elem : ℕ → List ℕ → Bool
has_elem p [] = false
has_elem p (q ∷ l) = q == p || has_elem p l

-- What `curl_multi_info_read` hands over: a transfer that is done, with its handle and the proxy
-- that CURLINFO_PRIVATE gives for it, or another message.
pub data Msg : Type 0 where
  done : (easy proxy : ℕ) → Msg
  other : Msg

module _ {Block : Type 0} where
  -- A shared pointer owns the proxy at this address.
  abbrev pub owned : Backend Block → ℕ → Bool
  owned b p = has_value p b.hash || has_elem p b.dead

  unfoldable pub collect : Backend Block → Backend Block
  collect b = record b { heap = λ p. if owned b p then b.heap p else none }

  -- `stream->set_proxy_curl(p)` and `proxy->set_stream(s)`, through a pointer.
  unfoldable pub store_proxy_curl : Backend Block → ℕ → Option ℕ → Option (Backend Block)
  store_proxy_curl b s p = elim (b.streams s) [
    | none ↦ none
    | some st ↦ some (record b { streams = update b.streams s (some (set_proxy_curl p st)) })
  ]

  unfoldable pub store_stream : Backend Block → ℕ → Option ℕ → Option (Backend Block)
  store_stream b p s = elim (b.heap p) [
    | none ↦ none
    | some x ↦ some (record b { heap = update b.heap p (some (record x { quic_stream = s })) })
  ]

  -- The constructor.
  abbrev pub new_backend : Backend Block
  new_backend = record {
    backend_url = [];
    cache_initialized = false;
    hash = [];
    dead = [];
    heap = λ p. none;
    streams = λ s. none;
  }

  -- `InitializeBackend`, given whether GURL takes the text for a valid http or https URL, and its
  -- `spec()`.
  unfoldable pub initialize_backend :
      Backend Block → (url : Bytes) (is_valid is_http : Bool) (spec : Bytes) → Bool × Backend Block
  initialize_backend b url is_valid is_http spec =
      if is_empty url
      then (false, b)
      else (if is_valid && is_http
          then (true, record b { backend_url = spec; cache_initialized = true })
          else (false, record b { backend_url = spec }))

  -- `CloseBackendResponseStream`
  unfoldable pub close_backend_response_stream : Backend Block → ℕ → Option (Backend Block)
  unfolding store_proxy_curl store_stream
  close_backend_response_stream b s = elim (b.streams s) [
    | none ↦ none
    | some st ↦ elim st.proxy_curl [
      | none ↦ some b
      | some p ↦ elim (store_stream b p none) [ none ↦ none | some b' ↦ store_proxy_curl b' s none ]
    ]
  ]

  -- When the base class, whose destructor is taken to close the stream so, destroys it: it is gone.
  unfoldable pub destroy_stream : Backend Block → ℕ → Option (Backend Block)
  unfolding close_backend_response_stream
  destroy_stream b s = elim (close_backend_response_stream b s) [
    | none ↦ none
    | some b' ↦ some (record b' { streams = update b'.streams s none })
  ]

  -- The shared pointer moves from the table to the dead list.
  unfoldable pub bury : Backend Block → ℕ → Backend Block
  unfolding find_key erase_key
  bury b easy = elim (find_key easy b.hash) [
    | none ↦ b
    | some p ↦ record b { hash = erase_key easy b.hash; dead = p ∷ b.dead }
  ]

  -- The two pointers are cut.
  unfoldable pub detach : Backend Block → ℕ → Option (Backend Block)
  unfolding store_proxy_curl store_stream
  detach b p = elim (b.heap p) [
    | none ↦ none
    | some x ↦ elim x.quic_stream [
      | none ↦ some b
      | some s ↦ elim (store_proxy_curl b s none) [ none ↦ none | some b' ↦ store_stream b' p none ]
    ]
  ]

  -- One round of the loop of `CheckCurlMultiInfo`.
  unfoldable pub check_msg : Backend Block → Msg → Option (Backend Block)
  unfolding bury detach
  check_msg b (done easy p) = elim (b.heap p) [ none ↦ none | some x ↦ detach (bury b easy) p ]
  check_msg b other = some b

  unfoldable pub check_msgs : Backend Block → List Msg → Option (Backend Block)
  unfolding check_msg
  check_msgs b [] = some b
  check_msgs b (m ∷ ms) = elim (check_msg b m) [ none ↦ none | some b' ↦ check_msgs b' ms ]

  -- `CheckCurlMultiInfo`: the dead proxies are freed by a call that finds no message.
  unfoldable pub check_curl_multi_info : Backend Block → List Msg → Option (Backend Block)
  unfolding check_msgs collect
  check_curl_multi_info b ms =
      if is_empty ms then some (collect (record b { dead = [] })) else check_msgs b ms
