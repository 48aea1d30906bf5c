-- ===== src/Backend/Book/Cuts.antt =====
-- A stream of quic_proxy_backend.cc that closes, and the entry of its transfer in the book.
use quic_proxy.Base.{
  ℕ, ◌≡◌, ◌≢◌, refl, sym, ap, ◌∙◌, inl, inr, true, false, Option, none, some, some-eq, none-ne-some,
  ◌==◌, ==_iff, arith, Bool-cases, Option-cases,
}
use quic_proxy.Curl.{Proxy}
use quic_proxy.Stream.{Stream}
use quic_proxy.Backend.{Backend, find_key, close_backend_response_stream, destroy_stream}
use quic_proxy.Backend.Linked.{Linked, stream_at}
use quic_proxy.Backend.Unlink.{unlinked}
use quic_proxy.Backend.Unmoved.{Unmoved}
use quic_proxy.Backend.Close.{close_cases, destroy_gives}
use quic_proxy.Backend.Book.{cut_entry, book}

uncut : (s : ℕ) (o : Option (Option ℕ)) → (o ≡ some (some s) → ⊥) → o ≡ cut_entry s o
uncut s none ne = refl
uncut s (some none) ne = refl
uncut s (some (some t)) ne = ground (arith, ==_iff s t, ne)

no_less : true ≡ false → ⊥
no_less e = cc

module _ {Block : Type 0} where
  abbrev pub stream_of : Proxy Block → Option ℕ
  stream_of x = x.quic_stream

  -- Entries agree where the table is the same and each proxy's stream comes from its old one.
  mapped :
      (b c : Backend Block) (f : Option (Option ℕ) → Option (Option ℕ))
      → f none ≡ none
      → c.hash ≡ b.hash
      → ((q : ℕ) → stream_at c q ≡ f (stream_at b q))
      → (h : ℕ) → book c h ≡ f (book b h)
  mapped b c f absent hash streams h = elim (Option-cases (find_key h b.hash)) [
    | inl new ↦
        let new' : find_key h c.hash ≡ none = ap (find_key h) hash ∙ new in
        rw (book, new, new') (sym absent)
    | inr (p, found) ↦
        let found' : find_key h c.hash ≡ some p = ap (find_key h) hash ∙ found in
        rw (book, found, found') (streams p)
  ]

  pub Unmoved-book : (b c : Backend Block) → Unmoved stream_of b c → (h : ℕ) → book c h ≡ book b h
  Unmoved-book b c (hash, dead, same) h = mapped b c (λ e. e) refl hash same h

  stream_at-at :
      (b : Backend Block) (p : ℕ) (x : Proxy Block)
      → b.heap p ≡ some x
      → stream_at b p ≡ some x.quic_stream
  stream_at-at b p x at_p = rw (stream_at, at_p) refl

  module _ {b : Backend Block} (l : Linked b) where
    -- A proxy that serves the stream is the one that the stream points to.
    its_proxy :
        (s q : ℕ) (st : Stream)
        → b.streams s ≡ some st
        → stream_at b q ≡ some (some s)
        → st.proxy_curl ≡ some q
    its_proxy s q st at_s at_q = elim (Option-cases (b.heap q)) [
      | inl gone ↦ absurd (none-ne-some (sym (rw (gone, stream_at) refl) ∙ at_q))
      | inr (x, at_x) ↦
          let to_s : x.quic_stream ≡ some s = some-eq (sym (stream_at-at b q x at_x) ∙ at_q) in
          let (u, at_u, back) = l.to_stream q s x at_x to_s in
          ap (λ (z : Stream). z.proxy_curl) (some-eq (sym at_s ∙ at_u)) ∙ back
    ]

    unlinked-cut :
        (s p : ℕ) (st : Stream) (x : Proxy Block) (at_s : b.streams s ≡ some st)
        (at_p : b.heap p ≡ some x) (to_p : st.proxy_curl ≡ some p) (to_s : x.quic_stream ≡ some s)
        (q : ℕ)
        → stream_at (unlinked l s p st x at_s at_p to_p to_s) q ≡ cut_entry s (stream_at b q)
    unlinked-cut s p st x at_s at_p to_p to_s q = elim (Bool-cases (p == q)) [
      | inl same ↦
          let at_q : stream_at b q ≡ some (some s) =
            ap (stream_at b) (sym ((==_iff p q).0 same)) ∙ stream_at-at b p x at_p ∙ ap some to_s in
          rw (stream_at, same) (sym (ap (cut_entry s) at_q ∙ ground arith))
      | inr apart ↦
          let other_one : stream_at b q ≢ some (some s) = λ e.
            let same : p ≡ q = some-eq (sym to_p ∙ its_proxy s q st at_s e) in
            no_less (sym ((==_iff p q).1 same) ∙ apart) in
          rw (stream_at, apart) (uncut s (stream_at b q) other_one)
    ]

    -- A stream that points to no proxy is in no entry.
    alone-cut :
        (s : ℕ) (st : Stream)
        → b.streams s ≡ some st
        → st.proxy_curl ≡ none
        → (q : ℕ) → stream_at b q ≡ cut_entry s (stream_at b q)
    alone-cut s st at_s alone q =
        uncut s (stream_at b q) (λ e. none-ne-some (sym alone ∙ its_proxy s q st at_s e))

    pub close-book :
        (s : ℕ) (st : Stream) {c : Backend Block}
        → b.streams s ≡ some st
        → close_backend_response_stream b s ≡ some c
        → (h : ℕ) → book c h ≡ cut_entry s (book b h)
    close-book s st at_s e h = elim (close_cases l s st at_s e) [
      | inl (alone, its) ↦
          ap (λ (z : Backend Block). book z h) (sym its)
          ∙ mapped b b (cut_entry s) refl refl (alone-cut s st at_s alone) h
      | inr (p, x, at_p, to_p, to_s, its) ↦
          ap (λ (z : Backend Block). book z h) (sym its)
          ∙ mapped b (unlinked l s p st x at_s at_p to_p to_s) (cut_entry s) refl refl
              (unlinked-cut s p st x at_s at_p to_p to_s) h
    ]

    pub destroy-book :
        (s : ℕ) (st : Stream) {c : Backend Block}
        → b.streams s ≡ some st
        → destroy_stream b s ≡ some c
        → (h : ℕ) → book c h ≡ cut_entry s (book b h)
    destroy-book s st at_s e h =
        let (d, closes, its) = destroy_gives l s st at_s e in
        ap (λ (z : Backend Block). book z h) (sym its) ∙ close-book s st at_s closes h
