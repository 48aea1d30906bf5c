-- ===== src/Session/Site/Streams.antt =====
-- What the events of the backend do to the streams of the sessions.
use quic_proxy.Base.{ℕ, ◌≡◌, ◌≢◌, sym, ap, ◌∙◌, subst, none, some, some-eq}
use quic_proxy.Base.Bytes.{Bytes}
use quic_proxy.HeaderBlock.{HeaderBlock}
use quic_proxy.Stream.{Stream}
use quic_proxy.Backend.{Backend, find_key}
use quic_proxy.Backend.Requests.{Fresh}
use quic_proxy.Backend.Unmoved.{KeepsStreams}
use quic_proxy.Backend.Quiet.{IsQuiet, quiet-Still}
use quic_proxy.Backend.Kept.{checked-KeepsStreams}
use quic_proxy.Backend.Fetch.{fetch_tables}
use quic_proxy.Backend.Close.{destroy_lem}
use quic_proxy.Backend.Events.{
  Event, stream_opened, requested, stream_acked, stream_closed, stream_destroyed, head_received,
  body_received, body_asked, socket_called, checked, apply,
}
use quic_proxy.Backend.Handles.{Held}
use quic_proxy.Backend.Handles.Tables.{reported-AllKnown}
use quic_proxy.Backend.Handles.Safe.{IsHeld}
use quic_proxy.Backend.Handles.Fetched.{fetch_held_at}
use quic_proxy.Backend.Handles.Unmoved.{handle_of}
use quic_proxy.Backend.Handles.Events.{IsPermitted, beside, apply_held}
use quic_proxy.Backend.Handles.Life.{check_of, beside_of, new_handle}
use quic_proxy.Session.Site.{IsBeneath}

module _ {Block : Type 0} (hb : HeaderBlock Block) {x : Held Block} (k : IsHeld x)
    (y : Held Block) where
  quiet-KeepsStreams :
      (e : Event Block)
      → IsQuiet x.backend e
      → beside hb x e ≡ some y
      → KeepsStreams x.backend y.backend
  quiet-KeepsStreams e quiet at =
      (quiet-Still hb handle_of (λ u v stream easy. easy) x.backend e quiet
        (beside_of hb x y e at)).1

  pub requested-KeepsStreams :
      (headers : Block) (body : Bytes) (s : ℕ) (f : Fresh)
      → IsPermitted hb x (requested headers body s f)
      → apply_held hb x (requested headers body s f) ≡ some y
      → KeepsStreams x.backend y.backend
  unfolding apply_held
  requested-KeepsStreams headers body s f
        ((st, at_s, idle), (path, has_path), (h, has_handle, own), unused) at =
      let new : find_key h x.backend.hash ≡ none = new_handle hb k h own in
      let (c, e, l, found, at_p, at_s', hash, dead, easy, streams, lives, others) =
        fetch_tables hb k.linked headers path body s h st f at_s idle has_path has_handle new
          unused in
      subst (KeepsStreams x.backend)
        (ap (λ (z : Held Block). z.backend)
          (some-eq (sym (fetch_held_at hb x headers body s f e) ∙ at)))
        lives

  pub beneath-KeepsStreams :
      (e : Event Block)
      → IsBeneath e
      → IsPermitted hb x e
      → apply_held hb x e ≡ some y
      → KeepsStreams x.backend y.backend
  unfolding apply_held
  beneath-KeepsStreams (stream_opened s id) under permitted at = absurd under
  beneath-KeepsStreams (requested headers body s f) under permitted at = absurd under
  beneath-KeepsStreams (stream_closed s) under permitted at = absurd under
  beneath-KeepsStreams (stream_destroyed s) under permitted at = absurd under
  beneath-KeepsStreams (stream_acked s fin_sent rs buffered) under permitted at =
      quiet-KeepsStreams (stream_acked s fin_sent rs buffered) tt at
  beneath-KeepsStreams (head_received p contents size nmemb) under (called, enough) at =
      quiet-KeepsStreams (head_received p contents size nmemb) enough at
  beneath-KeepsStreams (body_received p contents size nmemb) under permitted at =
      quiet-KeepsStreams (body_received p contents size nmemb) tt at
  beneath-KeepsStreams (body_asked p size nmemb) under permitted at =
      quiet-KeepsStreams (body_asked p size nmemb) tt at
  beneath-KeepsStreams (socket_called easy s what sockp) under permitted at =
      quiet-KeepsStreams (socket_called easy s what sockp) tt at
  beneath-KeepsStreams (checked ms) under known at =
      checked-KeepsStreams ms k.linked
        (reported-AllKnown ms x.multi x.backend.hash k.in_table known) (check_of x y ms at)

  -- A stream that is destroyed is gone, and the others are as they were.
  pub freed_lem :
      (s : ℕ) (st : Stream)
      → x.backend.streams s ≡ some st
      → apply_held hb x (stream_destroyed s) ≡ some y
      → (y.backend.streams s ≡ none) × ((t : ℕ) → s ≢ t → y.backend.streams t ≡ x.backend.streams t)
  unfolding apply_held apply
  freed_lem s st at_s at =
      let (c, e, l, gone, (freed, others, hash, dead)) = destroy_lem k.linked s st at_s in
      let its : c ≡ y.backend = some-eq (sym e ∙ beside_of hb x y (stream_destroyed s) at) in
      (
        ap (λ (z : Backend Block). z.streams s) (sym its) ∙ gone,
        λ t ne. ap (λ (z : Backend Block). z.streams t) (sym its) ∙ others t ne,
      )
