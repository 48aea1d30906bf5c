-- ===== src/Backend/Loop/Kept.antt =====
-- The calls of quic_proxy_backend.cc but `CurlSockCB` keep the sockets of the transfers that go on.
use quic_proxy.Base.{
  ℕ, ◌≡◌, refl, sym, ap, subst, ◌∙◌, inl, inr, Bool, true, List, [], ◌∷◌, Option, none, some,
  some-eq, none-ne-some, ◌==◌, ==_iff, Bool-cases, Option-cases,
}
use quic_proxy.Curl.{Proxy}
use quic_proxy.Stream.{Stream, on_stream_frame_acked}
use quic_proxy.Backend.{
  Backend, Msg, done, other, update, find_key, has_value, has_elem, collect, check_msg, check_msgs,
  check_curl_multi_info, close_backend_response_stream, destroy_stream,
}
use quic_proxy.Backend.Linked.{Linked, has_value_of_find_key}
use quic_proxy.Backend.Unlink.{unlinked}
use quic_proxy.Backend.Close.{close_cases, destroy_gives}
use quic_proxy.Backend.Done.{AllKnown, bury_at, message_cases, check_msg_lem}
use quic_proxy.Backend.Events.{at_proxy, acked_at}
use quic_proxy.Backend.Handles.Safe.{check_msgs-done, check_collects, check_messages}

-- A live proxy lives on with its socket.
abbrev pub KeepsSocket : {Block : Type 0} → (b c : Backend Block) → ℕ → Type 0
KeepsSocket {Block} b c p =
    (z : Proxy Block)
    → b.heap p ≡ some z
    → (y : Proxy Block) × (c.heap p ≡ some y) × (y.sockfd ≡ z.sockfd)

module _ {Block : Type 0} where
  pub same-KeepsSocket : (b c : Backend Block) (p : ℕ) → c.heap p ≡ b.heap p → KeepsSocket b c p
  same-KeepsSocket b c p e z at_p = (z, e ∙ at_p, refl)

  -- A proxy is written back with its socket.
  pub updated-KeepsSocket :
      (b c : Backend Block) (p q : ℕ) (x y : Proxy Block)
      → b.heap p ≡ some x
      → y.sockfd ≡ x.sockfd
      → c.heap q ≡ update b.heap p (some y) q
      → KeepsSocket b c q
  updated-KeepsSocket b c p q x y at_p same e z at_q = elim (Bool-cases (p == q)) [
    | inl its ↦
        let here : b.heap q ≡ some x = ap b.heap (sym ((==_iff p q).0 its)) ∙ at_p in
        (y, e ∙ rw its refl, same ∙ ap (λ (v : Proxy Block). v.sockfd) (some-eq (sym here ∙ at_q)))
    | inr apart ↦ (z, e ∙ rw apart at_q, refl)
  ]

  then-KeepsSocket :
      (b c d : Backend Block) (p : ℕ) → KeepsSocket b c p → KeepsSocket c d p → KeepsSocket b d p
  then-KeepsSocket b c d p first second z at_p =
      let (y, at_y, same) = first z at_p in
      let (v, at_v, same') = second y at_y in (v, at_v, same' ∙ same)

  module _ {b : Backend Block} (l : Linked b) where
    unlinked-KeepsSocket :
        (s p : ℕ) (st : Stream) (x : Proxy Block) (at_s : b.streams s ≡ some st)
        (at_p : b.heap p ≡ some x) (to_p : st.proxy_curl ≡ some p) (to_s : x.quic_stream ≡ some s)
        (q : ℕ)
        → KeepsSocket b (unlinked l s p st x at_s at_p to_p to_s) q
    unlinked-KeepsSocket s p st x at_s at_p to_p to_s q =
        updated-KeepsSocket b (unlinked l s p st x at_s at_p to_p to_s) p q x
          (record x { quic_stream = none }) at_p refl refl

    pub close-KeepsSocket :
        (s : ℕ) (st : Stream) {c : Backend Block} (q : ℕ)
        → b.streams s ≡ some st
        → close_backend_response_stream b s ≡ some c
        → KeepsSocket b c q
    close-KeepsSocket s st {c} q at_s e = elim (close_cases l s st at_s e) [
      | inl (alone, its) ↦ same-KeepsSocket b c q (ap (λ (z : Backend Block). z.heap q) (sym its))
      | inr (p, x, at_p, to_p, to_s, its) ↦
          subst (λ (z : Backend Block). KeepsSocket b z q) its
            (unlinked-KeepsSocket s p st x at_s at_p to_p to_s q)
    ]

    pub destroy-KeepsSocket :
        (s : ℕ) (st : Stream) {c : Backend Block} (q : ℕ)
        → b.streams s ≡ some st
        → destroy_stream b s ≡ some c
        → KeepsSocket b c q
    destroy-KeepsSocket s st q at_s e =
        let (d, closes, its) = destroy_gives l s st at_s e in
        subst (λ (z : Backend Block). KeepsSocket b z q) its (close-KeepsSocket s st q at_s closes)

    message-KeepsSocket :
        (h p : ℕ) {c : Backend Block} (q : ℕ)
        → find_key h b.hash ≡ some p
        → check_msg b (done h p) ≡ some c
        → KeepsSocket b c q
    message-KeepsSocket h p {c} q found e = elim (message_cases l h p found e) [
      | inl its ↦
          same-KeepsSocket b c q
            (ap (λ (z : Backend Block). z.heap q) (sym its ∙ bury_at b h p found))
      | inr (s, st, x, at_s, at_p, to_p, to_s, its) ↦
          let d : Backend Block = unlinked l s p st x at_s at_p to_p to_s in
          then-KeepsSocket b d c q (unlinked-KeepsSocket s p st x at_s at_p to_p to_s q) (
            same-KeepsSocket d c q
              (ap (λ (z : Backend Block). z.heap q) (sym its ∙ bury_at d h p found)))
    ]

  messages-KeepsSocket :
      (ms : List Msg) {b c : Backend Block} (l : Linked b) (q : ℕ)
      → AllKnown b.hash ms
      → check_msgs b ms ≡ some c
      → KeepsSocket b c q
  unfolding check_msgs
  messages-KeepsSocket [] {b} {c} l q known e =
      same-KeepsSocket b c q (ap (λ (z : Backend Block). z.heap q) (sym (some-eq e)))
  messages-KeepsSocket (other ∷ ms) l q known e = messages-KeepsSocket ms l q known e
  messages-KeepsSocket (done h p ∷ ms) {b} {c} l q (found, known) e =
      let (d, at, k, hash, dead) = check_msg_lem l h p found in
      let rest : check_msgs d ms ≡ some c = sym (check_msgs-done b d h p ms at) ∙ e in
      then-KeepsSocket b d c q (message-KeepsSocket l h p q found at)
        (messages-KeepsSocket ms k q (subst (λ m. AllKnown m ms) (sym hash) known) rest)

  -- Of a transfer in the table.
  pub checked-KeepsSocket :
      (ms : List Msg) {b c : Backend Block} (l : Linked b) (h q : ℕ)
      → AllKnown b.hash ms
      → find_key h b.hash ≡ some q
      → check_curl_multi_info b ms ≡ some c
      → KeepsSocket b c q
  unfolding collect has_elem
  checked-KeepsSocket [] {b} {c} l h q known found e =
      let its : collect (record b { dead = [] }) ≡ c = some-eq (sym (check_collects b) ∙ e) in
      let owns : has_value q b.hash ≡ true = has_value_of_find_key h q b.hash found in
      same-KeepsSocket b c q
        (ap (λ (z : Backend Block). z.heap q) (sym its) ∙ rw (collect, owns) refl)
  checked-KeepsSocket (m ∷ ms) {b} l h q known found e =
      messages-KeepsSocket (m ∷ ms) l q known (sym (check_messages b m ms) ∙ e)

  pub callback-KeepsSocket :
      (b : Backend Block) (p : ℕ) (callback : Proxy Block → Option (Proxy Block)) (q : ℕ)
      {c : Backend Block}
      → ((x y : Proxy Block) → callback x ≡ some y → y.sockfd ≡ x.sockfd)
      → at_proxy b p callback ≡ some c
      → KeepsSocket b c q
  unfolding at_proxy
  callback-KeepsSocket b p callback q {c} same e = elim (Option-cases (b.heap p)) [
    | inl gone ↦ absurd (none-ne-some (sym (rw (gone, at_proxy) refl) ∙ e))
    | inr (x, at_p) ↦ elim (Option-cases (callback x)) [
      | inl fails ↦ absurd (none-ne-some (sym (rw (at_p, at_proxy, fails) refl) ∙ e))
      | inr (y, gives) ↦
          let its : record b { heap = update b.heap p (some y) } ≡ c =
            some-eq (sym (rw (at_p, at_proxy, gives) refl) ∙ e) in
          updated-KeepsSocket b c p q x y at_p (same x y gives)
            (ap (λ (z : Backend Block). z.heap q) (sym its))
    ]
  ]

  pub acked-KeepsSocket :
      (b : Backend Block) (s : ℕ) (fin_sent rs : Bool) (buffered q : ℕ) {c : Backend Block}
      → acked_at b s fin_sent rs buffered ≡ some c
      → KeepsSocket b c q
  unfolding acked_at
  acked-KeepsSocket b s fin_sent rs buffered q {c} e = elim (Option-cases (b.streams s)) [
    | inl gone ↦ absurd (none-ne-some (sym (rw (gone, acked_at) refl) ∙ e))
    | inr (st, at_s) ↦
        let (rs', u) =
          on_stream_frame_acked (rs, record st { fin_sent = fin_sent; buffered = buffered }) in
        let its : record b { streams = update b.streams s (some u) } ≡ c =
          some-eq (sym (rw (at_s, acked_at) refl) ∙ e) in
        same-KeepsSocket b c q (ap (λ (z : Backend Block). z.heap q) (sym its))
  ]
