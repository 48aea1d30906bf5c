-- ===== src/Backend/Book/Tests.antt =====
-- The book of a concrete life.
use quic_proxy.Base.{◌≡◌, refl, [], ◌∷◌, none, some}
use quic_proxy.HeaderBlock.Sample.{Block, sample}
use quic_proxy.Backend.Events.{stream_opened, requested, stream_destroyed}
use quic_proxy.Backend.Handles.{Held}
use quic_proxy.Backend.Handles.Events.{run_held}
use quic_proxy.Backend.Handles.Sample.{life, empty_held, empty_held-IsHeld, life-AllPermitted}
use quic_proxy.Backend.Sample.{headers, at_100}
use quic_proxy.Backend.Book.{note_all, book}
use quic_proxy.Backend.Book.Refine.{book_lem}

-- The transfer of a stream that is gone goes on alone.
cut_short :
    note_all {Block = Block}
      (stream_opened 1 4 ∷ requested headers [] 1 at_100 ∷ stream_destroyed 1 ∷ [])
      (λ h. none)
      7
    ≡ some none
cut_short = refl

book_lem_example :
    (y : Held Block) × (run_held sample empty_held life ≡ some y)
    × (book y.backend ≡ note_all life (book empty_held.backend))
book_lem_example = book_lem sample life empty_held-IsHeld life-AllPermitted
