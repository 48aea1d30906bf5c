-- ===== src/Backend/Unmoved.antt =====
-- What the calls of quic_proxy_backend.cc that neither make nor finish a request leave as it is: the
-- table, the dead list, and a field of each proxy.
use quic_proxy.Base.{
  ℕ, ◌≡◌, refl, sym, ap, subst, ◌∙◌, inl, inr, Bool, List, [], ◌∷◌, ◌++◌, Option, none, some,
  some-eq, none-ne-some, ◌==◌, ==_iff, Bool-cases, Option-cases,
}
use quic_proxy.Base.Int.{ℤ}
use quic_proxy.Curl.{Proxy}
use quic_proxy.Stream.{Stream, on_stream_frame_acked, acked_id}
use quic_proxy.Backend.{Backend, update, find_key}
use quic_proxy.Backend.Sockets.{
  SocketCall, register, multi_assign, curl_poll_remove, curl_sock_cb, curl_add_sock, curl_set_sock,
  curl_remove_sock,
}
use quic_proxy.Backend.Events.{at_proxy, acked_at}

-- A field of the proxy at this address, if there is one.
abbrev pub field_at : {Block A : Type 0} → (Proxy Block → A) → Backend Block → ℕ → Option A
field_at field b p = elim (b.heap p) [ none ↦ none | some x ↦ some (field x) ]

-- The table, the dead list, and this field of each proxy are the same.
abbrev pub Unmoved : {Block A : Type 0} → (Proxy Block → A) → (b c : Backend Block) → Type 0
Unmoved field b c =
    (c.hash ≡ b.hash) × (c.dead ≡ b.dead) × ((q : ℕ) → field_at field c q ≡ field_at field b q)

-- Every stream lives on, under its id.
abbrev pub KeepsStreams : {Block : Type 0} → (b c : Backend Block) → Type 0
KeepsStreams b c =
    (s : ℕ) (st : Stream)
    → b.streams s ≡ some st
    → (u : Stream) × (c.streams s ≡ some u) × (u.id ≡ st.id)

abbrev pub Still : {Block A : Type 0} → (Proxy Block → A) → (b c : Backend Block) → Type 0
Still field b c = Unmoved field b c × KeepsStreams b c

module _ {Block : Type 0} where
  pub same-KeepsStreams : (b c : Backend Block) → c.streams ≡ b.streams → KeepsStreams b c
  same-KeepsStreams b c e s st at_s = (st, ap (λ f. f s) e ∙ at_s, refl)

  -- A stream is written back under its id.
  pub updated-KeepsStreams :
      (b c : Backend Block) (s : ℕ) (st u : Stream)
      → b.streams s ≡ some st
      → u.id ≡ st.id
      → ((t : ℕ) → c.streams t ≡ update b.streams s (some u) t)
      → KeepsStreams b c
  updated-KeepsStreams b c s st u at_s same e t v at_t = elim (Bool-cases (s == t)) [
    | inl its ↦
        let here : b.streams t ≡ some st = ap b.streams (sym ((==_iff s t).0 its)) ∙ at_s in
        (u, e t ∙ rw its refl, same ∙ ap (λ (z : Stream). z.id) (some-eq (sym here ∙ at_t)))
    | inr apart ↦ (v, e t ∙ rw apart at_t, refl)
  ]

  pub then-KeepsStreams :
      (b c d : Backend Block) → KeepsStreams b c → KeepsStreams c d → KeepsStreams b d
  then-KeepsStreams b c d first second s st at_s =
      let (u, at_u, same) = first s st at_s in
      let (v, at_v, same') = second s u at_u in (v, at_v, same' ∙ same)

module _ {Block A : Type 0} (field : Proxy Block → A) where
  pub refl-Unmoved : (b : Backend Block) → Unmoved field b b
  refl-Unmoved b = (refl, refl, λ q. refl)

  refl-Still : (b : Backend Block) → Still field b b
  refl-Still b = (refl-Unmoved b, same-KeepsStreams b b refl)

  answered :
      {b c : Backend Block} {calls calls' : List SocketCall}
      → ◌≡◌ {A = Option (Backend Block × List SocketCall)} (some (b, calls')) (some (c, calls))
      → b ≡ c
  answered e = ap (λ (z : Backend Block × List SocketCall). z.0) (some-eq e)

  same-Still :
      {b c : Backend Block} {calls calls' : List SocketCall}
      → ◌≡◌ {A = Option (Backend Block × List SocketCall)} (some (b, calls')) (some (c, calls))
      → Still field b c
  same-Still {b} e = subst (Still field b) (answered e) (refl-Still b)

  pub streams-Still :
      (b : Backend Block) (streams : ℕ → Option Stream)
      → KeepsStreams b (record b { streams = streams })
      → Still field b (record b { streams = streams })
  streams-Still b streams keeps = ((refl, refl, λ q. refl), keeps)

  -- A proxy that keeps its handle is written back.
  proxy-Still :
      (b : Backend Block) (p : ℕ) (x y : Proxy Block)
      → b.heap p ≡ some x
      → field y ≡ field x
      → Still field b (record b { heap = update b.heap p (some y) })
  proxy-Still b p x y at_p same = (
    (
      refl,
      refl,
      λ q. elim (Bool-cases (p == q)) [
        | inl its ↦
            let at_q : b.heap q ≡ some x = ap b.heap (sym ((==_iff p q).0 its)) ∙ at_p in
            rw (field_at, its, at_q) (ap some same)
        | inr apart ↦ rw (field_at, apart) refl
      ],
    ),
    same-KeepsStreams b (record b { heap = update b.heap p (some y) }) refl,
  )

  pub callback-Still :
      (b : Backend Block) (p : ℕ) (callback : Proxy Block → Option (Proxy Block))
      {c : Backend Block}
      → ((x y : Proxy Block) → callback x ≡ some y → field y ≡ field x)
      → at_proxy b p callback ≡ some c
      → Still field b c
  unfolding at_proxy
  callback-Still b p callback {c} same e = elim (Option-cases (b.heap p)) [
    | inl gone ↦ absurd (none-ne-some (sym (rw (gone, at_proxy) refl) ∙ e))
    | inr (x, at_p) ↦ elim (Option-cases (callback x)) [
      | inl fails ↦ absurd (none-ne-some (sym (rw (at_p, at_proxy, fails) refl) ∙ e))
      | inr (y, gives) ↦
          let its : record b { heap = update b.heap p (some y) } ≡ c =
            some-eq (sym (rw (at_p, at_proxy, gives) refl) ∙ e) in
          subst (Still field b) its (proxy-Still b p x y at_p (same x y gives))
    ]
  ]

  pub acked-Still :
      (b : Backend Block) (s : ℕ) (fin_sent rs : Bool) (buffered : ℕ) {c : Backend Block}
      → acked_at b s fin_sent rs buffered ≡ some c
      → Still field b c
  unfolding acked_at
  acked-Still b s fin_sent rs buffered {c} e = elim (Option-cases (b.streams s)) [
    | inl gone ↦ absurd (none-ne-some (sym (rw (gone, acked_at) refl) ∙ e))
    | inr (st, at_s) ↦
        let (rs', u) =
          on_stream_frame_acked (rs, record st { fin_sent = fin_sent; buffered = buffered }) in
        let streams : ℕ → Option Stream = update b.streams s (some u) in
        let its : record b { streams = streams } ≡ c =
          some-eq (sym (rw (at_s, acked_at) refl) ∙ e) in
        subst (Still field b) its (
          streams-Still b streams (
            updated-KeepsStreams b (record b { streams = streams }) s st u at_s (acked_id _)
              (λ t. refl)))
  ]

  add_sock-Still :
      (b : Backend Block) (s : ℤ) (easy action : ℕ) {c : Backend Block} {calls : List SocketCall}
      → ((x : Proxy Block) → field (record x { sockfd = s }) ≡ field x)
      → curl_add_sock b s easy action ≡ some (c, calls)
      → Still field b c
  unfolding curl_add_sock
  add_sock-Still b s easy action {c} {calls} same e = elim (Option-cases (find_key easy b.hash)) [
    | inl unknown ↦
        let its : some (b, []) ≡ some (c, calls) = sym (rw (unknown, curl_add_sock) refl) ∙ e in
        same-Still its
    | inr (p, found) ↦ elim (Option-cases (b.heap p)) [
      | inl gone ↦ absurd (none-ne-some (sym (rw (found, curl_add_sock, gone) refl) ∙ e))
      | inr (x, at_p) ↦
          let d : Backend Block = record b {
            heap = update b.heap p (some (record x { sockfd = s }));
          } in
          let its : some (d, register s p ∷ (curl_set_sock s action ++ (multi_assign s p ∷ [])))
              ≡ some (c, calls) =
            sym (rw (found, curl_add_sock, at_p) refl) ∙ e in
          subst (Still field b) (answered its)
            (proxy-Still b p x (record x { sockfd = s }) at_p (same x))
    ]
  ]

  remove_sock-Still :
      (b : Backend Block) (o : Option (List SocketCall)) {c : Backend Block}
      {calls : List SocketCall}
      → ◌≡◌ {A = Option (Backend Block × List SocketCall)}
          (elim o [ none ↦ none | some calls ↦ some (b, calls) ])
          (some (c, calls))
      → Still field b c
  remove_sock-Still b none e = absurd (none-ne-some e)
  remove_sock-Still b (some calls') e = same-Still e

  pub sock_cb-Still :
      (b : Backend Block) (easy : ℕ) (s : ℤ) (what : ℕ) (sockp : Option ℕ) {c : Backend Block}
      {calls : List SocketCall}
      → ((x : Proxy Block) → field (record x { sockfd = s }) ≡ field x)
      → curl_sock_cb b easy s what sockp ≡ some (c, calls)
      → Still field b c
  unfolding curl_sock_cb
  sock_cb-Still b easy s what sockp {c} {calls} same e =
      elim (Bool-cases (what == curl_poll_remove)) [
        | inl removes ↦
            remove_sock-Still b (curl_remove_sock b sockp)
              (sym (rw (removes, curl_sock_cb) refl) ∙ e)
        | inr keeps ↦ elim (Option-cases sockp) [
          | inl new ↦
              add_sock-Still b s easy what same (sym (rw (keeps, curl_sock_cb, new) refl) ∙ e)
          | inr (p, assigned) ↦
              let its : some (b, curl_set_sock s what) ≡ some (c, calls) =
                sym (rw (keeps, curl_sock_cb, assigned) refl) ∙ e in
              same-Still its
        ]
      ]

  pub called-Still :
      (b : Backend Block) (o : Option (Backend Block × List SocketCall)) {c : Backend Block}
      → ((d : Backend Block) (calls : List SocketCall) → o ≡ some (d, calls) → Still field b d)
      → elim o [ none ↦ none | some z ↦ some z.0 ] ≡ some c
      → Still field b c
  called-Still b none unmoved e = absurd (none-ne-some e)
  called-Still b (some (d, calls)) unmoved e =
      subst (Still field b) (some-eq e) (unmoved d calls refl)
