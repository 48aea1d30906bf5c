-- ===== src/Curl/Start.antt =====
-- `InitializeProxyCurl` and `StartHttp` of quic_proxy_curl.cc: what the proxy asks of libcurl for a
-- request. The options are recorded in the order in which they are set. `curl_slist_append` copies
-- a C string behind a list; that it runs out of memory is not modelled.
use quic_proxy.Base.{
  ℕ, ◌*◌, Bool, true, false, ◌&&◌, ◌||◌, not, List, [], ◌∷◌, ◌++◌, Option, none, some, ◌==◌,
  if◌then◌else◌, length, is_empty,
}
use quic_proxy.Base.Bytes.{Bytes, codes, bytes_eq, c_str}
use quic_proxy.HeaderBlock.{HeaderBlock}
use quic_proxy.Curl.{Proxy, or_empty}

-- `curl_easy_setopt` with the options that `StartHttp` sets. Those that take the proxy itself or one
-- of its callbacks have no argument here.
pub data EasyOption : Type 0 where
  url customrequest : Bytes → EasyOption
  httpheader : List Bytes → EasyOption
  writefunction writedata headerfunction headerdata errorbuffer private_data : EasyOption
  followlocation buffersize upload infilesize : ℕ → EasyOption
  readfunction readdata : EasyOption

-- `header->first[0] == ':'`. (A name in a block is not empty.)
abbrev pub is_pseudo : Bytes → Bool
is_pseudo [] = false
is_pseudo (c ∷ cs) = c == b':'

-- `curl_slist_append`
abbrev pub slist_append : List Bytes → Bytes → List Bytes
slist_append list text = list ++ (c_str text ∷ [])

abbrev pub header_text : Bytes × Bytes → Bytes
header_text (name, value) = name ++ (codes ": " ++ value)

-- The loop over the request's headers.
unfoldable pub add_headers : List Bytes → List (Bytes × Bytes) → List Bytes
add_headers list [] = list
add_headers list ((name, value) ∷ hs) =
    add_headers (if is_pseudo name then list else slist_append list (header_text (name, value))) hs

-- POST, PUT and PATCH
unfoldable pub has_upload : Bytes → Bool
has_upload method =
    bytes_eq method (codes "POST")
    || bytes_eq method (codes "PUT")
    || bytes_eq method (codes "PATCH")

-- The options of every request.
abbrev pub basic_options : Bytes → Bytes → List Bytes → List EasyOption
basic_options request_url method list =
    url (c_str request_url)
    ∷ customrequest (c_str method)
    ∷ httpheader list
    ∷ writefunction
    ∷ writedata
    ∷ headerfunction
    ∷ headerdata
    ∷ errorbuffer
    ∷ private_data
    ∷ followlocation 1
    ∷ buffersize (1024 * 32)
    ∷ []

abbrev pub upload_options : Bytes → List EasyOption
upload_options body = upload 1 ∷ infilesize (length body) ∷ readfunction ∷ readdata ∷ []

module _ {Block : Type 0} where
  -- The proxy with its handle, if `curl_easy_init` gives one.
  unfoldable pub initialize_proxy_curl : Proxy Block → (handle : Option ℕ) → Bool × Proxy Block
  initialize_proxy_curl p none = (false, record p { easy = none })
  initialize_proxy_curl p (some h) = (true, record p { easy = some h })

  -- The options of a request with a body are those of any other and four more.
  unfoldable pub start_upload : Proxy Block → (method body : Bytes) → Proxy Block × List EasyOption
  unfolding has_upload
  start_upload p method body =
      if has_upload method && not (is_empty body)
      then (record p { request_body = body }, upload_options body)
      else (p, [])

module _ {Block : Type 0} (hb : HeaderBlock Block) where
  -- `StartHttp`; the flag says whether the handle is added to the multi handle. The list is never
  -- null where it is tested, since `x-real-ip` is in it.
  unfoldable pub start_http :
      Proxy Block
      → (request_headers : Block) (request_body peer_ip : Bytes)
      → Proxy Block × List EasyOption × Bool
  unfolding start_upload add_headers
  start_http p request_headers request_body peer_ip =
      let list =
        slist_append (add_headers p.request_header_list (hb.entries request_headers))
          (codes "x-real-ip: " ++ peer_ip) in
      let method = or_empty (hb.find request_headers (codes ":method")) in
      let p' = record p { request_header_list = list } in
      let (q, more) = start_upload p' method request_body in
      if hb.is_valid_header_name method
      then (q, basic_options p.request_url method list ++ more, true)
      else (p', [], false)
