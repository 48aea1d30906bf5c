-- ===== src/Backend/Close.antt =====
-- A stream of quic_proxy_backend.cc closes, or is destroyed.
use quic_proxy.Base.{
  ℕ, ◌≡◌, ◌⊎◌, ◌≢◌, refl, sym, ap, ◌∙◌, none, some, some-eq, Option-cases, inl, inr,
}
use quic_proxy.Curl.{Proxy}
use quic_proxy.Stream.{Stream, set_proxy_curl}
use quic_proxy.Backend.{Backend, update, close_backend_response_stream, destroy_stream}
use quic_proxy.Backend.Linked.{Linked, update_self, update_ne, store_proxy_curl_at, store_stream_at}
use quic_proxy.Backend.Unlink.{unlinked, unlinked-Linked}
use quic_proxy.Backend.Steps.{without_stream-Linked}

abbrev uncoupled : {Block : Type 0} → Proxy Block → Proxy Block
uncoupled x = record x { quic_stream = none }

-- The proxy that served the stream serves none, and is otherwise as it was; the other streams and
-- the tables stay.
abbrev pub Orphaned : {Block : Type 0} → Backend Block → ℕ → Backend Block → Type 0
Orphaned {Block} b s c =
    ((p : ℕ) (x : Proxy Block)
      → b.heap p ≡ some x
      → x.quic_stream ≡ some s
      → c.heap p ≡ some (record x { quic_stream = none }))
    × ((t : ℕ) → s ≢ t → c.streams t ≡ b.streams t)
    × (c.hash ≡ b.hash)
    × (c.dead ≡ b.dead)

module _ {Block : Type 0} {b : Backend Block} (l : Linked b) where
  -- A stream that points to no proxy is left as it is.
  pub close_alone :
      (s : ℕ) (st : Stream)
      → b.streams s ≡ some st
      → st.proxy_curl ≡ none
      → close_backend_response_stream b s ≡ some b
  unfolding close_backend_response_stream
  close_alone s st at_s alone = rw (at_s, alone, close_backend_response_stream) refl

  -- One that points to a proxy loses its pointer, and the proxy its own.
  pub close_serving :
      (s p : ℕ) (st : Stream) (x : Proxy Block) (at_s : b.streams s ≡ some st)
      (at_p : b.heap p ≡ some x) (to_p : st.proxy_curl ≡ some p) (to_s : x.quic_stream ≡ some s)
      → close_backend_response_stream b s ≡ some (unlinked l s p st x at_s at_p to_p to_s)
  unfolding close_backend_response_stream
  close_serving s p st x at_s at_p to_p to_s =
      rw (at_s, to_p, close_backend_response_stream, store_stream_at b p none x at_p)
        (store_proxy_curl_at _ s none st at_s)

  pub close_lem :
      (s : ℕ) (st : Stream)
      → b.streams s ≡ some st
      → (c : Backend Block) × (u : Stream) × (close_backend_response_stream b s ≡ some c)
        × Linked c
        × (c.streams s ≡ some u)
        × (u.proxy_curl ≡ none)
        × Orphaned b s c
  close_lem s st at_s = elim (Option-cases st.proxy_curl) [
    | inl alone ↦ (
      b,
      st,
      close_alone s st at_s alone,
      l,
      at_s,
      alone,
      (
        λ p x at_p to_s. let (u, at_s', back) = l.to_stream p s x at_p to_s in absurd (cc),
        λ t ne. refl,
        refl,
        refl,
      ),
    )
    | inr (p, to_p) ↦
        let (x, at_p, to_s) = l.to_proxy s p st at_s to_p in
        (
          unlinked l s p st x at_s at_p to_p to_s,
          set_proxy_curl none st,
          close_serving s p st x at_s at_p to_p to_s,
          unlinked-Linked l s p st x at_s at_p to_p to_s,
          update_self b.streams s _,
          refl,
          (
            λ q y at_q to_s'.
                let (u, at_s', back) = l.to_stream q s y at_q to_s' in
                let same : p ≡ q = some-eq (cc) in
                let same_x : x ≡ y = some-eq (sym at_p ∙ ap b.heap same ∙ at_q) in
                ap (λ z. update b.heap p (some (uncoupled x)) z) (sym same)
                ∙ update_self b.heap p _
                ∙ ap (λ z. some (uncoupled z)) same_x,
            update_ne b.streams s _,
            refl,
            refl,
          ),
        )
  ]

  -- What a close leaves, read backwards.
  pub close_cases :
      (s : ℕ) (st : Stream) {c : Backend Block} (at_s : b.streams s ≡ some st)
      → close_backend_response_stream b s ≡ some c
      → ((st.proxy_curl ≡ none) × (b ≡ c))
        ⊎ ((p : ℕ) × (x : Proxy Block) × (at_p : b.heap p ≡ some x) × (to_p : st.proxy_curl
              ≡ some p)
            × (to_s : x.quic_stream ≡ some s) × (unlinked l s p st x at_s at_p to_p to_s ≡ c))
  close_cases s st at_s e = elim (Option-cases st.proxy_curl) [
    | inl alone ↦ inl (alone, some-eq (sym (close_alone s st at_s alone) ∙ e))
    | inr (p, to_p) ↦
        let (x, at_p, to_s) = l.to_proxy s p st at_s to_p in
        inr (p, x, at_p, to_p, to_s, some-eq (sym (close_serving s p st x at_s at_p to_p to_s) ∙ e))
  ]

  -- A stream that is destroyed is closed first.
  pub destroy_gives :
      (s : ℕ) (st : Stream) {c : Backend Block}
      → b.streams s ≡ some st
      → destroy_stream b s ≡ some c
      → (d : Backend Block) × (close_backend_response_stream b s ≡ some d)
        × (record d { streams = update d.streams s none } ≡ c)
  unfolding destroy_stream
  destroy_gives s st at_s e =
      let (d, u, closes, k, at_u, gone, rest) = close_lem s st at_s in
      (d, closes, some-eq (sym (rw (closes, destroy_stream) refl) ∙ e))

  -- The stream is destroyed: nothing dangles, and the proxy that served it serves none.
  pub destroy_lem :
      (s : ℕ) (st : Stream)
      → b.streams s ≡ some st
      → (c : Backend Block) × (destroy_stream b s ≡ some c)
        × Linked c
        × (c.streams s ≡ none)
        × Orphaned b s c
  unfolding destroy_stream
  destroy_lem s st at_s =
      let (c, u, e, k, at_u, alone, (freed, others, same, gone)) = close_lem s st at_s in
      (
        record c { streams = update c.streams s none },
        rw (e, destroy_stream) refl,
        without_stream-Linked k s u at_u alone,
        update_self c.streams s none,
        (freed, λ t ne. update_ne c.streams s none t ne ∙ others t ne, same, gone),
      )
