-- ===== src/Backend/Loop/Life.antt =====
-- Whole lives of the event loop's registrations.
use quic_proxy.HeaderBlock.{HeaderBlock}
use quic_proxy.Backend.{Backend}
use quic_proxy.Backend.Events.{Event}
use quic_proxy.Backend.Handles.{Held}
use quic_proxy.Backend.Loop.{take_calls, watched_at, Loop, calls_of, IsLooped}

module _ {Block : Type 0} (hb : HeaderBlock Block) where
  module _ {x : Loop Block} (k : IsLooped x) where
    after : Event Block → Held Block → Loop Block
    after e y = record {
      held = y;
      registry = take_calls (calls_of x.held.backend e) x.registry;
      watched = watched_at x.held e x.watched;
    }
