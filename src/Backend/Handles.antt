-- ===== src/Backend/Handles.antt =====
-- quic_proxy/proxy_quic/quic_proxy_backend.cc: the handles in libcurl's multi handle, `multi_curl_`,
-- next to the tables: StartHttp adds one and CheckCurlMultiInfo removes those that are done.
pub mod Tables
pub mod Safe
pub mod Cleaned
pub mod Fetched
pub mod Unmoved
pub mod Events
pub mod Life
pub mod Hazard
pub mod Sample
mod Tests
use quic_proxy.Base.{
  is_empty, ◌++◌, ◌||◌, ℕ, Bool, true, false, List, [], ◌∷◌, Option, none, some, ◌==◌,
  if◌then◌else◌,
}
use quic_proxy.Base.Bytes.{Bytes}
use quic_proxy.HeaderBlock.{HeaderBlock}
use quic_proxy.Curl.{Proxy}
use quic_proxy.Backend.{
  Backend, Msg, done, other, erase_key, has_value, has_elem, check_curl_multi_info,
}
use quic_proxy.Backend.Requests.{Fresh, fetch_response_from_backend}

pub record Held (Block : Type 0) : Type 0 where
  pub backend : Backend Block
  -- Each handle with the pointer that StartHttp gave for it as CURLOPT_PRIVATE and as the data of the
  -- callbacks.
  pub multi : List (ℕ × ℕ)

-- `curl_multi_remove_handle` for all messages.
unfoldable pub remove_handles : List Msg → List (ℕ × ℕ) → List (ℕ × ℕ)
unfolding erase_key
remove_handles [] m = m
remove_handles (done easy p ∷ ms) m = remove_handles ms (erase_key easy m)
remove_handles (other ∷ ms) m = remove_handles ms m

-- `curl_multi_add_handle`
abbrev pub add_handle : Option ℕ → (proxy : ℕ) → Bool → List (ℕ × ℕ) → List (ℕ × ℕ)
add_handle none p added m = m
add_handle (some h) p added m = if added then (h, p) ∷ m else m

-- `curl_easy_cleanup` and `curl_slist_free_all`
pub data FreeCall : Type 0 where
  easy_cleanup : (h : ℕ) → FreeCall
  slist_free_all : FreeCall

module _ {Block : Type 0} where
  -- What the destructor of a proxy asks of libcurl.
  unfoldable pub destroy : Proxy Block → List FreeCall
  destroy x =
      (elim x.easy [ none ↦ [] | some h ↦ easy_cleanup h ∷ [] ])
      ++ (if is_empty x.request_header_list then [] else slist_free_all ∷ [])

  -- The destructors that run while the dead list is cleared from its front: that of a proxy runs when
  -- the last shared pointer to it goes.
  unfoldable pub destroy_dead : Backend Block → List ℕ → List FreeCall
  unfolding destroy
  destroy_dead b [] = []
  destroy_dead b (p ∷ ps) =
      (if has_value p b.hash || has_elem p ps
        then []
        else (elim (b.heap p) [ none ↦ [] | some x ↦ destroy x ]))
      ++ destroy_dead b ps

  -- The destructor of the backend, behind `curl_multi_cleanup` and the timer: the dead list goes, and then
  -- the table.
  unfoldable pub destroy_hash : Backend Block → List (ℕ × ℕ) → List FreeCall
  unfolding destroy
  destroy_hash b [] = []
  destroy_hash b ((h, p) ∷ m) =
      (elim (b.heap p) [ none ↦ [] | some x ↦ destroy x ]) ++ destroy_hash b m

  unfoldable pub destroy_tables : Backend Block → List FreeCall
  unfolding destroy_dead destroy_hash
  destroy_tables b = destroy_dead b b.dead ++ destroy_hash b b.hash

  -- What `CheckCurlMultiInfo` makes the destructors ask.
  abbrev pub freed_calls : Backend Block → List Msg → List FreeCall
  freed_calls b ms = if is_empty ms then destroy_dead b b.dead else []

  -- `CheckCurlMultiInfo` and `FetchResponseFromBackend`, with what they ask of the multi handle.
  unfoldable pub check_held : Held Block → List Msg → Option (Held Block)
  unfolding remove_handles
  check_held x ms = elim (check_curl_multi_info x.backend ms) [
    | none ↦ none
    | some c ↦ some (record { backend = c; multi = remove_handles ms x.multi })
  ]

  unfoldable pub fetch_held :
      HeaderBlock Block
      → Held Block
      → (request_headers : Block) (request_body : Bytes) (s : ℕ) (f : Fresh) → Option (Held Block)
  fetch_held hb x request_headers request_body s f =
      elim (fetch_response_from_backend hb x.backend request_headers request_body s f) [
        | none ↦ none
        | some (c, options, added) ↦
            some (record { backend = c; multi = add_handle f.handle f.ptr added x.multi })
      ]
