-- ===== src/Session/Site/Life.antt =====
-- Whole lives of the sessions of a worker with their backend.
use quic_proxy.Base.{ℕ, ◌≡◌, refl, subst, List, [], ◌∷◌, Option, none, some}
use quic_proxy.Base.Bytes.{Bytes}
use quic_proxy.HeaderBlock.{HeaderBlock}
use quic_proxy.Backend.{update}
use quic_proxy.Backend.Requests.{Fresh}
use quic_proxy.Backend.Events.{Event, requested, stream_destroyed}
use quic_proxy.Backend.Handles.{Held}
use quic_proxy.Backend.Handles.Events.{IsPermitted, apply_held}
use quic_proxy.Backend.Handles.Life.{apply_held_lem}
use quic_proxy.Session.{Session, get_peer_ip}
use quic_proxy.Session.Site.{
  Site, SiteEvent, session_made, stream_made, asked, stream_freed, session_gone, beneath,
  erase_active, IsAllowedOn, IsServed, made_stream, on_held, apply_site, run_site, AllAllowedOn,
}
use quic_proxy.Session.Site.Streams.{requested-KeepsStreams, beneath-KeepsStreams, freed_lem}
use quic_proxy.Session.Site.Served.{
  kept-IsServed, session_made-IsServed, session_gone-IsServed, stream_made-IsServed, freed-IsServed,
}

module _ {Block : Type 0} (hb : HeaderBlock Block) (text : ℕ → Bytes) where
  -- An event of the backend that is permitted.
  on_held_at :
      (w : Site Block) (sessions : ℕ → Option Session) (e : Event Block) (y : Held Block)
      → apply_held hb w.held e ≡ some y
      → on_held hb text w sessions e ≡ some (record { sessions = sessions; held = y })
  unfolding on_held
  on_held_at w sessions e y at = rw (on_held, at) refl

  module _ {w : Site Block} (k : IsServed w) where
    asked_lem :
        (n a : ℕ) (headers : Block) (body : Bytes) (ptr : ℕ) (handle : Option ℕ)
        → IsAllowedOn hb w (asked n a headers body ptr handle)
        → (v : Site Block) × (apply_site hb text w (asked n a headers body ptr handle) ≡ some v)
          × IsServed v
    unfolding apply_site
    asked_lem n a headers body ptr handle ((s, x, (at_n, found)), idle, path, fresh, unused) =
        let (st, at_a, id) = k.live n a s x (at_n, found) in
        let f : Fresh = record { ptr = ptr; handle = handle; peer_ip = get_peer_ip text s } in
        let permitted : IsPermitted hb w.held (requested headers body a f) =
          ((st, at_a, idle st at_a), path, fresh, unused) in
        let (y, at, held) = apply_held_lem hb k.held (requested headers body a f) permitted in
        (
          record { sessions = w.sessions; held = y },
          rw (at_n, apply_site, found) (on_held_at w w.sessions (requested headers body a f) y at),
          kept-IsServed k y held (requested-KeepsStreams hb k.held y headers body a f permitted at),
        )

    stream_freed_lem :
        (n a : ℕ)
        → IsAllowedOn hb w (stream_freed n a)
        → (v : Site Block) × (apply_site hb text w (stream_freed n a) ≡ some v) × IsServed v
    unfolding apply_site
    stream_freed_lem n a (s, x, (at_n, found)) =
        let (st, at_a, id) = k.live n a s x (at_n, found) in
        let (y, at, held) = apply_held_lem hb k.held (stream_destroyed a) (st, at_a) in
        let (gone, others) = freed_lem hb k.held y a st at_a at in
        let sessions : ℕ → Option Session =
          update w.sessions n (some (record s { streams = erase_active a s.streams })) in
        (
          record { sessions = sessions; held = y },
          rw (at_n, apply_site, found) (on_held_at w sessions (stream_destroyed a) y at),
          freed-IsServed k n a s x y (at_n, found) held others,
        )

    apply_site_lem :
        (e : SiteEvent Block)
        → IsAllowedOn hb w e
        → (v : Site Block) × (apply_site hb text w e ≡ some v) × IsServed v
    unfolding apply_site
    apply_site_lem (session_made n connection_id client_address version) allowed =
        (_, refl, session_made-IsServed k n connection_id client_address version)
    apply_site_lem (stream_made n q a) ((s, at_n), free) = (
      made_stream w n q a s,
      rw (at_n, apply_site) refl,
      stream_made-IsServed k n a q s at_n free,
    )
    apply_site_lem (asked n a headers body ptr handle) allowed =
        asked_lem n a headers body ptr handle allowed
    apply_site_lem (stream_freed n a) allowed = stream_freed_lem n a allowed
    apply_site_lem (session_gone n) allowed = (_, refl, session_gone-IsServed k n)
    apply_site_lem (beneath e) (under, permitted) =
        let (y, at, held) = apply_held_lem hb k.held e permitted in
        (
          record { sessions = w.sessions; held = y },
          on_held_at w w.sessions e y at,
          kept-IsServed k y held (beneath-KeepsStreams hb k.held y e under permitted at),
        )

  -- From sessions and a backend that are sound, every sequence of what the base classes and libcurl may
  -- do (`IsAllowedOn`: they keep to their contracts, each request has a path and gets a handle, and each line
  -- of a head has two bytes at least) is defined and leaves them sound.
  pub run_site_lem :
      (es : List (SiteEvent Block)) {w : Site Block} (k : IsServed w)
      → AllAllowedOn hb text w es
      → (v : Site Block) × (run_site hb text w es ≡ some v) × IsServed v
  unfolding run_site
  run_site_lem [] {w = w} k allowed = (w, refl, k)
  run_site_lem (e ∷ es) {w = w} k (now, later) =
      let (v, at, served) = apply_site_lem k e now in
      let rest : AllAllowedOn hb text v es =
        subst
          (λ (o : Option (Site Block)). elim o [
            | none ↦ Unit {0}
            | some v ↦ AllAllowedOn hb text v es
          ])
          at later in
      let (u, at', served') = run_site_lem es served rest in (u, rw (at, run_site) at', served')
