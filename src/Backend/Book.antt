-- ===== src/Backend/Book.antt =====
-- What the tables of quic_proxy_backend.cc are for: a book of the transfers, each with the stream
-- that it serves, if it still serves one. Memory, pointers and the dead list are forgotten.
pub mod Cuts
pub mod Ends
pub mod Refine
mod Tests
use quic_proxy.Base.{ℕ, List, [], ◌∷◌, Option, none, some, ◌==◌, if◌then◌else◌}
use quic_proxy.Curl.{Proxy}
use quic_proxy.Backend.{Backend, Msg, done, other, find_key}
use quic_proxy.Backend.Linked.{stream_at}
use quic_proxy.Backend.Events.{
  Event, stream_opened, requested, stream_acked, stream_closed, stream_destroyed, head_received,
  body_received, body_asked, socket_called, checked,
}

-- The entry of each handle.
abbrev pub Book : Type 0
Book = ℕ → Option (Option ℕ)

abbrev pub starts : (h s : ℕ) → Book → Book
starts h s m g = if h == g then some (some s) else m g

-- The entry of a transfer when this stream is gone.
abbrev pub cut_entry : (s : ℕ) → Option (Option ℕ) → Option (Option ℕ)
cut_entry s none = none
cut_entry s (some none) = some none
cut_entry s (some (some t)) = if s == t then some none else some (some t)

abbrev pub ends : (h : ℕ) → Book → Book
ends h m g = if h == g then none else m g

abbrev pub all_end : List Msg → Book → Book
all_end [] m = m
all_end (done h p ∷ ms) m = all_end ms (ends h m)
all_end (other ∷ ms) m = all_end ms m

-- A request enters a transfer, a stream that goes is cut from its transfer, and the messages end
-- transfers; nothing else changes the book.
abbrev pub note : {Block : Type 0} → Event Block → Book → Book
note (stream_opened s id) m = m
note (requested headers body s f) m = elim f.handle [ none ↦ m | some h ↦ starts h s m ]
note (stream_acked s fin_sent rs buffered) m = m
note (stream_closed s) m = λ h. cut_entry s (m h)
note (stream_destroyed s) m = λ h. cut_entry s (m h)
note (head_received p contents size nmemb) m = m
note (body_received p contents size nmemb) m = m
note (body_asked p size nmemb) m = m
note (socket_called easy s what sockp) m = m
note (checked ms) m = all_end ms m

abbrev pub note_all : {Block : Type 0} → List (Event Block) → Book → Book
note_all [] m = m
note_all (e ∷ es) m = note_all es (note e m)

-- The book that the tables keep.
abbrev pub book : {Block : Type 0} → Backend Block → Book
book b h = elim (find_key h b.hash) [ none ↦ none | some p ↦ stream_at b p ]
