-- ===== src/Backend/Loop/Tests.antt =====
-- A request whose transfer waits on one socket, and then on another, until it is done.
use quic_proxy.Base.{List, [], ◌∷◌, none, some}
use quic_proxy.Base.Int.{ℤ, pos}
use quic_proxy.Base.Bytes.{codes}
use quic_proxy.HeaderBlock.Sample
use quic_proxy.HeaderBlock.Sample.{Block}
use quic_proxy.Stream
use quic_proxy.Backend.{done}
use quic_proxy.Backend.Events.{
  Event, stream_opened, requested, body_received, socket_called, checked,
}
use quic_proxy.Backend.Handles.Sample.{empty_held}
use quic_proxy.Backend.Sample.{headers, at_100}
use quic_proxy.Backend.Loop.{Registry, set_fd, Loop}

abbrev quiet : Loop Block
quiet = record { held = empty_held; registry = λ fd. none; watched = λ fd. none }

-- The sockets 9 and 10 after the transfer has had and used them.
abbrev had : Registry → ℤ → Registry
had f s = set_fd (set_fd f s (some 100)) s (some 100)

abbrev sockets : List (Event Block)
sockets =
    stream_opened 1 4
    ∷ requested headers [] 1 at_100
    ∷ socket_called 7 (pos 9) 2 none
    ∷ socket_called 7 (pos 9) 1 (some 100)
    ∷ socket_called 7 (pos 9) 4 (some 100)
    ∷ socket_called 7 (pos 10) 1 none
    ∷ body_received 100 (codes "abc") 1 3
    ∷ socket_called 7 (pos 10) 4 (some 100)
    ∷ checked (done 7 100 ∷ [])
    ∷ checked []
    ∷ []
