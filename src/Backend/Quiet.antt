-- ===== src/Backend/Quiet.antt =====
-- The calls of quic_proxy_backend.cc, and the callbacks, that neither make nor finish a request nor cut
-- one from its stream.
use quic_proxy.Base.{ℕ, ◌≡◌, ◌≤◌, refl, sym, ap, subst, ◌∙◌, none, some, none-ne-some, some-eq}
use quic_proxy.Base.Bytes.{Bytes}
use quic_proxy.HeaderBlock.{HeaderBlock}
use quic_proxy.Curl.{Proxy, real_size, write_quic_callback, read_quic_callback}
use quic_proxy.Curl.Keeps.{write-Keeps, read-Keeps}
use quic_proxy.Stream.{init}
use quic_proxy.Backend.{Backend, update}
use quic_proxy.Backend.Linked.{update_ne}
use quic_proxy.Backend.Sockets.{curl_sock_cb}
use quic_proxy.Backend.Events.{
  Event, stream_opened, requested, stream_acked, stream_closed, stream_destroyed, head_received,
  body_received, body_asked, socket_called, checked, head_callback, apply,
}
use quic_proxy.Backend.Life.{callback-Keeps}
use quic_proxy.Backend.Unmoved.{
  Still, streams-Still, callback-Still, acked-Still, sock_cb-Still, called-Still,
}

abbrev pub IsQuiet : {Block : Type 0} → Backend Block → Event Block → Type 0
IsQuiet b (stream_opened s id) = b.streams s ≡ none
IsQuiet b (requested headers body s f) = ⊥
IsQuiet b (stream_acked s fin_sent rs buffered) = Unit {0}
IsQuiet b (stream_closed s) = ⊥
IsQuiet b (stream_destroyed s) = ⊥
IsQuiet b (head_received p contents size nmemb) = 2 ≤ real_size size nmemb
IsQuiet b (body_received p contents size nmemb) = Unit {0}
IsQuiet b (body_asked p size nmemb) = Unit {0}
IsQuiet b (socket_called easy s what sockp) = Unit {0}
IsQuiet b (checked ms) = ⊥

-- A field that only the stream and the handle of a proxy decide.
abbrev pub IsPointer : {Block A : Type 0} → (Proxy Block → A) → Type 0
IsPointer {Block} field =
    (x y : Proxy Block) → y.quic_stream ≡ x.quic_stream → y.easy ≡ x.easy → field y ≡ field x

module _ {Block A : Type 0} (hb : HeaderBlock Block) (field : Proxy Block → A)
    (pointer : IsPointer field) where
  head_field :
      (contents : Bytes) (size nmemb : ℕ)
      → 2 ≤ real_size size nmemb
      → (u v : Proxy Block) → head_callback hb contents size nmemb u ≡ some v
      → field v ≡ field u
  head_field contents size nmemb enough u v e =
      let (w, gives, keeps) = callback-Keeps hb u contents size nmemb enough in
      ap field (some-eq (sym e ∙ gives)) ∙ pointer u w keeps.0 keeps.1

  pub quiet-Still :
      (b : Backend Block) {c : Backend Block} (e : Event Block)
      → IsQuiet b e
      → apply hb b e ≡ some c
      → Still field b c
  unfolding apply
  quiet-Still b (stream_opened s id) quiet at = subst (Still field b) (some-eq at) (
      streams-Still field b (update b.streams s (some (init id))) (λ t st at_t. (
        st,
        update_ne b.streams s _ t (λ e. none-ne-some (sym quiet ∙ ap b.streams e ∙ at_t)) ∙ at_t,
        refl,
      )))
  quiet-Still b (stream_acked s fin_sent rs buffered) quiet at =
      acked-Still field b s fin_sent rs buffered at
  quiet-Still b (head_received p contents size nmemb) enough at =
      callback-Still field b p (head_callback hb contents size nmemb)
        (head_field contents size nmemb enough) at
  quiet-Still b (body_received p contents size nmemb) quiet at =
      callback-Still field b p (λ u. some (write_quic_callback u contents size nmemb).1)
        (λ u v e.
          let keeps = write-Keeps u contents size nmemb in
          ap field (sym (some-eq e)) ∙ pointer u _ keeps.0 keeps.1)
        at
  quiet-Still b (body_asked p size nmemb) quiet at =
      callback-Still field b p (λ u. some (read_quic_callback u size nmemb).1)
        (λ u v e.
          let keeps = read-Keeps u size nmemb in
          ap field (sym (some-eq e)) ∙ pointer u _ keeps.0 keeps.1)
        at
  quiet-Still b (socket_called easy s what sockp) quiet at =
      called-Still field b (curl_sock_cb b easy s what sockp)
        (λ d calls.
          sock_cb-Still field b easy s what sockp
            (λ u. pointer u (record u { sockfd = s }) refl refl))
        at
  quiet-Still b (requested headers body s f) quiet at = absurd quiet
  quiet-Still b (stream_closed s) quiet at = absurd quiet
  quiet-Still b (stream_destroyed s) quiet at = absurd quiet
  quiet-Still b (checked ms) quiet at = absurd quiet
