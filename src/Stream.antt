-- ===== src/Stream.antt =====
-- quic_proxy/proxy_quic/quic_proxy_stream.h and .cc: a stream of a QUIC session, which points to the
-- proxy that serves it. The base class QuicSimpleServerStream is not in this repository: of its
-- state the code reads `fin_sent` and the number of buffered bytes, and shuts the write side.
use quic_proxy.Base.{
  ◌≡◌, refl, arith, ℕ, Bool, true, false, not, ◌&&◌, Option, none, some, ◌==◌, if◌then◌else◌,
}

pub record Stream : Type 0 where
  pub id : ℕ
  pub proxy_curl : Option ℕ
  pub fin_sent : Bool
  pub write_side_closed : Bool
  pub buffered : ℕ

-- Both constructors, behind the base class's.
unfoldable pub init : ℕ → Stream
init id = record {
  id = id;
  proxy_curl = none;
  fin_sent = false;
  write_side_closed = false;
  buffered = 0;
}

abbrev pub set_proxy_curl : Option ℕ → Stream → Stream
set_proxy_curl p st = record st { proxy_curl = p }

abbrev pub has_proxy : Stream → Bool
has_proxy st = elim st.proxy_curl [ none ↦ false | some p ↦ true ]

-- `OnStreamFrameAcked`, given what the base class's function returns and the stream that it leaves.
-- (`ContinueDownload` does nothing: its body is commented out.)
pub on_stream_frame_acked : Bool × Stream → Bool × Stream
on_stream_frame_acked (rs, st) =
    if has_proxy st
    then (rs, st)
    else (if not st.fin_sent && st.buffered == 0
        then (rs, record st { fin_sent = true; write_side_closed = true })
        else (rs, st))

-- Neither changes the pointer of a stream.
pub init_alone : (id : ℕ) → (init id).proxy_curl ≡ none
unfolding init
init_alone id = refl

pub acked_keeps : (x : Bool × Stream) → (on_stream_frame_acked x).1.proxy_curl ≡ x.1.proxy_curl
unfolding on_stream_frame_acked
acked_keeps x = ground arith

pub acked_id : (x : Bool × Stream) → (on_stream_frame_acked x).1.id ≡ x.1.id
unfolding on_stream_frame_acked
acked_id x = ground arith
