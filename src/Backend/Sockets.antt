-- ===== src/Backend/Sockets.antt =====
-- `CurlSockCB` of quic_proxy_backend.cc, by which libcurl says what it waits for on a socket, with
-- `CurlAddSock`, `CurlSetSock` and `CurlRemoveSock`. What they ask of the epoll server and of libcurl
-- is recorded as a list.
use quic_proxy.Base.{
  ℕ, ◌/◌, ◌%◌, Bool, List, [], ◌∷◌, ◌++◌, Option, none, some, ◌==◌, if◌then◌else◌,
}
use quic_proxy.Base.Int.{ℤ, minus_one, int_eq}
use quic_proxy.Backend.{Backend, update, find_key}

-- `RegisterFD` (for EPOLLIN | EPOLLOUT, with the proxy to call), `UnregisterFD`, `StartRead`,
-- `StopRead`, `StartWrite`, `StopWrite` and `curl_multi_assign`.
pub data SocketCall : Type 0 where
  register multi_assign : (fd : ℤ) (proxy : ℕ) → SocketCall
  unregister start_read stop_read start_write stop_write : (fd : ℤ) → SocketCall

-- The value in curl.h; the two others are bits, 1 and 2.
abbrev pub curl_poll_remove : ℕ
curl_poll_remove = 4

abbrev pub has_in : ℕ → Bool
has_in action = action % 2 == 1

abbrev pub has_out : ℕ → Bool
has_out action = action / 2 % 2 == 1

-- `CurlSetSock`
unfoldable pub curl_set_sock : ℤ → ℕ → List SocketCall
curl_set_sock s act =
    (if has_in act then start_read s else stop_read s)
    ∷ (if has_out act then start_write s else stop_write s)
    ∷ []

module _ {Block : Type 0} where
  -- `CurlRemoveSock`: the socket is the one that the proxy has.
  unfoldable pub curl_remove_sock : Backend Block → Option ℕ → Option (List SocketCall)
  curl_remove_sock b none = some []
  curl_remove_sock b (some p) = elim (b.heap p) [
    | none ↦ none
    | some x ↦ some (if int_eq x.sockfd minus_one then [] else unregister x.sockfd ∷ [])
  ]

  -- `CurlAddSock`
  unfoldable pub curl_add_sock :
      Backend Block → ℤ → ℕ → ℕ → Option (Backend Block × List SocketCall)
  unfolding curl_set_sock find_key
  curl_add_sock b s easy action = elim (find_key easy b.hash) [
    | none ↦ some (b, [])
    | some p ↦ elim (b.heap p) [
      | none ↦ none
      | some x ↦ some (
        record b { heap = update b.heap p (some (record x { sockfd = s })) },
        register s p ∷ (curl_set_sock s action ++ (multi_assign s p ∷ [])),
      )
    ]
  ]

  -- `CurlSockCB`; libcurl hands back what was assigned to the socket, if anything was.
  unfoldable pub curl_sock_cb :
      Backend Block
      → (easy : ℕ) (s : ℤ) (what : ℕ) (sockp : Option ℕ) → Option (Backend Block × List SocketCall)
  unfolding curl_remove_sock curl_add_sock curl_set_sock
  curl_sock_cb b easy s what sockp =
      if what == curl_poll_remove
      then (elim (curl_remove_sock b sockp) [ none ↦ none | some calls ↦ some (b, calls) ])
      else (elim sockp [
        | none ↦ curl_add_sock b s easy what
        | some p ↦ some (b, curl_set_sock s what)
      ])
