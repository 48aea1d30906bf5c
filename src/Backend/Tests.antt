-- ===== src/Backend/Tests.antt =====
-- The tables of quic_proxy_backend.cc on a concrete stream and its request.
use quic_proxy.Base.{false, arith, inl, ℕ, ◌≡◌, refl, List, [], ◌∷◌, none, some}
use quic_proxy.Base.Int.{pos}
use quic_proxy.Base.Bytes.{codes, bytes_eq}
use quic_proxy.HeaderBlock.Sample.{Block, sample}
use quic_proxy.HeaderBlock.Sample
use quic_proxy.Stream.{Stream}
use quic_proxy.Backend.{Backend, done, other, find_key, erase_key, check_curl_multi_info}
use quic_proxy.Backend.Sockets.{SocketCall, unregister, curl_poll_remove, curl_sock_cb}
use quic_proxy.Backend.Watched.{Watches, sock_cb_lem, remove_lem}
use quic_proxy.Backend.Unstarted.{unstarted_lem}
use quic_proxy.Backend.Requests.{fetch_response_from_backend}
use quic_proxy.Backend.Linked.{Linked, LiveProxy}
use quic_proxy.Backend.Done.{check_lem, check_frees}
use quic_proxy.Backend.Sample.{at_100, stream_4, opened, opened-Linked, serving, serving-Linked}

unstarted_lem_example :
    (c d : Backend Block) × (fetch_response_from_backend sample opened
        ((codes ":path", codes "/a") ∷ [])
        []
        1
        at_100
      ≡ some (c, [], false))
    × (check_curl_multi_info c (other ∷ []) ≡ some d)
    × LiveProxy d 100 (λ x. x.easy ≡ some 7)
unfolding Sample.find bytes_eq find_key
unstarted_lem_example =
    unstarted_lem sample opened-Linked ((codes ":path", codes "/a") ∷ []) (codes "/a") [] 1 7
      stream_4 at_100 (other ∷ []) refl refl refl refl refl refl refl tt (λ c e. tt)

check_lem_example :
    (c : Backend Block) × (check_curl_multi_info serving (other ∷ done 7 100 ∷ []) ≡ some c)
    × Linked c
    × (c.hash ≡ [])
    × (c.dead ≡ 100 ∷ [])
unfolding find_key erase_key
check_lem_example = check_lem (other ∷ done 7 100 ∷ []) serving-Linked (refl, tt)

check_frees_example :
    (c d : Backend Block) × (check_curl_multi_info serving (done 7 100 ∷ []) ≡ some c)
    × (check_curl_multi_info c [] ≡ some d)
    × ((p : ℕ) → d.heap p ≡ none)
    × ((s : ℕ) (st : Stream) → d.streams s ≡ some st → st.proxy_curl ≡ none)
unfolding find_key erase_key
check_frees_example = check_frees (done 7 100 ∷ []) serving-Linked (refl, tt) refl

sock_cb_lem_example :
    (c : Backend Block) × (calls : List SocketCall) × (curl_sock_cb serving 7 (pos 9) 3 none
      ≡ some (c, calls))
    × Linked c
    × Watches (pos 9) 3 calls
unfolding find_key
sock_cb_lem_example = sock_cb_lem serving-Linked 7 100 (pos 9) 3 none (omega arith) refl (inl refl)

remove_lem_example :
    (c d : Backend Block) × (calls calls' : List SocketCall) × (curl_sock_cb serving 7
        (pos 9)
        2
        none
      ≡ some (c, calls))
    × (curl_sock_cb c 7 (pos 10) 1 none ≡ some (d, calls'))
    × (curl_sock_cb d 7 (pos 9) curl_poll_remove (some 100) ≡ some (d, unregister (pos 10) ∷ []))
unfolding find_key
remove_lem_example =
    remove_lem serving-Linked 7 100 (pos 9) (pos 10) 2 1 (omega arith) (omega arith) (λ e. cc) refl
