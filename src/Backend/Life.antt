-- ===== src/Backend/Life.antt =====
-- What may happen to the tables of quic_proxy_backend.cc keeps their pointers right.
use quic_proxy.Base.{◌⊎◌, ℕ, ◌≡◌, ◌≤◌, refl, Bool, true, Option, none, some, none-ne-some}
use quic_proxy.Base.Bytes.{Bytes, codes}
use quic_proxy.HeaderBlock.{HeaderBlock}
use quic_proxy.Curl.{Proxy, real_size}
use quic_proxy.Curl.Keeps.{Keeps, write-Keeps, read-Keeps, head-Keeps}
use quic_proxy.Stream.{Stream, init, init_alone, acked_keeps, on_stream_frame_acked}
use quic_proxy.Backend.{Backend, new_backend, update, find_key, has_elem}
use quic_proxy.Backend.Linked.{Linked, LiveStream}
use quic_proxy.Backend.Steps.{with_stream-Linked, changed_stream-Linked, with_proxy-Linked}
use quic_proxy.Backend.Close.{close_lem, destroy_lem}
use quic_proxy.Backend.Done.{AllKnown, check_lem}
use quic_proxy.Backend.Fetch.{fetch_lem}
use quic_proxy.Backend.Watched.{sock_defined}
use quic_proxy.Backend.Events.{
  Event, stream_opened, requested, stream_acked, stream_closed, stream_destroyed, head_received,
  body_received, body_asked, socket_called, checked, at_proxy, acked_at, head_callback, apply,
}

-- A transfer of this proxy is running.
abbrev pub IsRunning : {Block : Type 0} → Backend Block → ℕ → Type 0
IsRunning b p = (h : ℕ) × (find_key h b.hash ≡ some p)

-- What the session and libcurl keep to: they act on live streams and running transfers; a stream
-- asks once, for a path, and gets memory and a handle that are not in use; a line of a head has two
-- bytes at least; the socket callback gets nothing or the proxy of a running transfer; and the
-- messages are of transfers in the table.
abbrev pub IsAllowed : {Block : Type 0} → HeaderBlock Block → Backend Block → Event Block → Type 0
IsAllowed hb b (stream_opened s id) = b.streams s ≡ none
IsAllowed hb b (requested headers body s f) =
    LiveStream b s (λ st. st.proxy_curl ≡ none)
    × ((path : Bytes) × (hb.find headers (codes ":path") ≡ some path))
    × ((h : ℕ) × (f.handle ≡ some h) × (find_key h b.hash ≡ none))
    × (b.heap f.ptr ≡ none)
IsAllowed hb b (stream_acked s fin_sent rs buffered) = (st : Stream) × (b.streams s ≡ some st)
IsAllowed hb b (stream_closed s) = (st : Stream) × (b.streams s ≡ some st)
IsAllowed hb b (stream_destroyed s) = (st : Stream) × (b.streams s ≡ some st)
IsAllowed hb b (head_received p contents size nmemb) = IsRunning b p × (2 ≤ real_size size nmemb)
IsAllowed hb b (body_received p contents size nmemb) = IsRunning b p
IsAllowed hb b (body_asked p size nmemb) = IsRunning b p
IsAllowed hb b (socket_called easy s what sockp) =
    (sockp ≡ none) ⊎ ((p h : ℕ) × (sockp ≡ some p) × (find_key h b.hash ≡ some p))
IsAllowed hb b (checked ms) = AllKnown b.hash ms

module _ {Block : Type 0} (hb : HeaderBlock Block) where
  pub callback-Keeps :
      (x : Proxy Block) (contents : Bytes) (size nmemb : ℕ)
      → 2 ≤ real_size size nmemb
      → (y : Proxy Block) × (head_callback hb contents size nmemb x ≡ some y) × Keeps x y
  callback-Keeps x contents size nmemb enough =
      let (n, y, calls, e, keeps) = head-Keeps hb x contents size nmemb enough in
      (y, rw (e, head_callback) refl, keeps)

  module _ {b : Backend Block} (l : Linked b) where
    called :
        (p : ℕ) (callback : Proxy Block → Option (Proxy Block))
        → IsRunning b p
        → ((x : Proxy Block) → (y : Proxy Block) × (callback x ≡ some y) × Keeps x y)
        → (c : Backend Block) × (at_proxy b p callback ≡ some c) × Linked c
    unfolding at_proxy
    called p callback (h, found) keeps =
        let (x, at_p, key) = l.keyed h p found in
        let (y, e, same) = keeps x in
        (
          record b { heap = update b.heap p (some y) },
          rw (at_p, at_proxy, e) refl,
          with_proxy-Linked l p x y at_p same.0 same.1,
        )

    acked :
        (s : ℕ) (fin_sent rs : Bool) (buffered : ℕ) (st : Stream)
        → b.streams s ≡ some st
        → (c : Backend Block) × (acked_at b s fin_sent rs buffered ≡ some c) × Linked c
    unfolding acked_at
    acked s fin_sent rs buffered st at_s = (
      record b { streams = update b.streams s (some u) },
      rw (at_s, acked_at) refl,
      changed_stream-Linked l s st u at_s (acked_keeps _),
    )
      where
        u : Stream
        u = (on_stream_frame_acked (rs, record st { fin_sent = fin_sent; buffered = buffered })).1

    -- What is allowed is defined, and keeps the pointers right.
    pub apply_lem :
        (e : Event Block)
        → IsAllowed hb b e
        → (c : Backend Block) × (apply hb b e ≡ some c) × Linked c
    unfolding apply
    apply_lem (stream_opened s id) free =
        (_, refl, with_stream-Linked l s (init id) free (init_alone id))
    apply_lem (requested headers body s f)
          ((st, at_s, idle), (path, has_path), (h, has_handle, new), unused) =
        let (c, e, k, under, at_p, at_s') =
          fetch_lem hb l headers path body s h st f at_s idle has_path has_handle new unused in
        (c, rw (e, apply) refl, k)
    apply_lem (stream_acked s fin_sent rs buffered) (st, at_s) =
        acked s fin_sent rs buffered st at_s
    apply_lem (stream_closed s) (st, at_s) =
        let (c, u, e, k, gone, alone, rest) = close_lem l s st at_s in (c, e, k)
    apply_lem (stream_destroyed s) (st, at_s) =
        let (c, e, k, gone, rest) = destroy_lem l s st at_s in (c, e, k)
    apply_lem (head_received p contents size nmemb) (running, enough) =
        called p _ running λ x. callback-Keeps x contents size nmemb enough
    apply_lem (body_received p contents size nmemb) running =
        called p _ running λ x. (_, refl, write-Keeps x contents size nmemb)
    apply_lem (body_asked p size nmemb) running =
        called p _ running λ x. (_, refl, read-Keeps x size nmemb)
    apply_lem (socket_called easy s what sockp) assigned =
        let (c, calls, e, k) = sock_defined l easy s what sockp assigned in
        (c, rw (e, apply) refl, k)
    apply_lem (checked ms) known = let (c, e, k, hash, dead) = check_lem ms l known in (c, e, k)

-- The tables at the start.
abbrev pub empty_backend : {Block : Type 0} → Bytes → Backend Block
empty_backend url = record new_backend { backend_url = url; cache_initialized = true }

pub new_backend-Linked :
    {Block : Type 0} (url : Bytes) (c : Bool)
    → Linked {Block = Block} (record new_backend { backend_url = url; cache_initialized = c })
unfolding find_key has_elem
new_backend-Linked url c = record {
  unique = tt;
  to_proxy = λ s p st e to_p. absurd (none-ne-some e);
  to_stream = λ p s x e to_s. absurd (none-ne-some e);
  keyed = λ h p e. absurd (none-ne-some e);
  kept = λ p x e. absurd (none-ne-some e);
  buried = λ p e. absurd (cc);
}

pub empty_backend-Linked :
    {Block : Type 0} (url : Bytes) → Linked {Block = Block} (empty_backend url)
empty_backend-Linked url = new_backend-Linked url true
