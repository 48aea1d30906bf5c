-- ===== src/Backend/Book/Refine.antt =====
-- The tables of quic_proxy_backend.cc keep the book.
use quic_proxy.Base.{
  fun_ext, ℕ, ◌≡◌, ◌≢◌, refl, sym, ap, subst, ◌∙◌, inl, inr, List, [], ◌∷◌, Option, none, some,
  some-eq, none-ne-some, ◌==◌, if◌then◌else◌, arith, beq_ne, Bool-cases, Option-cases,
}
use quic_proxy.Base.Bytes.{Bytes}
use quic_proxy.HeaderBlock.{HeaderBlock}
use quic_proxy.Backend.{Backend, Msg, find_key, check_curl_multi_info}
use quic_proxy.Backend.Requests.{Fresh}
use quic_proxy.Backend.Linked.{Linked, stream_at}
use quic_proxy.Backend.Done.{AllKnown}
use quic_proxy.Backend.Fetch.{fetch_tables}
use quic_proxy.Backend.Events.{
  Event, stream_opened, requested, stream_acked, stream_closed, stream_destroyed, head_received,
  body_received, body_asked, socket_called, checked,
}
use quic_proxy.Backend.Quiet.{IsQuiet, quiet-Still}
use quic_proxy.Backend.Handles.{Held, fetch_held}
use quic_proxy.Backend.Handles.Tables.{reported-AllKnown}
use quic_proxy.Backend.Handles.Safe.{IsHeld, check_collects, check_messages}
use quic_proxy.Backend.Handles.Fetched.{find_key_entered, fetch_held_at}
use quic_proxy.Backend.Handles.Events.{IsPermitted, beside, apply_held, run_held, AllPermitted}
use quic_proxy.Backend.Handles.Life.{check_of, beside_of, apply_held_lem, new_handle}
use quic_proxy.Backend.Book.{starts, all_end, note, note_all, book}
use quic_proxy.Backend.Book.Cuts.{stream_of, Unmoved-book, close-book, destroy-book}
use quic_proxy.Backend.Book.Ends.{check_msgs-book, collect-book}

module _ {Block : Type 0} where
  -- A new transfer is entered for its stream.
  entered-book :
      {b : Backend Block} (l : Linked b) (c : Backend Block) (h p s : ℕ)
      → b.heap p ≡ none
      → ((g : ℕ) → find_key g c.hash ≡ (if h == g then some p else find_key g b.hash))
      → ((q : ℕ) → stream_at c q ≡ (if p == q then some (some s) else stream_at b q))
      → (g : ℕ) → book c g ≡ starts h s (book b) g
  entered-book {b} l c h p s unused keys streams g = elim (Bool-cases (h == g)) [
    | inl its ↦
        let at_g : find_key g c.hash ≡ some p = keys g ∙ rw its refl in
        rw (book, at_g, its) (streams p ∙ ground arith)
    | inr apart ↦
        let same : find_key g c.hash ≡ find_key g b.hash =
          keys g ∙ ap (λ z. if z then some p else find_key g b.hash) apart in
        elim (Option-cases (find_key g b.hash)) [
          | inl new ↦ rw (book, same ∙ new, apart, new) refl
          | inr (q, found) ↦
              let (x, at_q, key) = l.keyed g q found in
              let ne : p ≢ q = λ e. none-ne-some (sym unused ∙ ap b.heap e ∙ at_q) in
              rw (book, same ∙ found, apart, found)
                (streams q ∙ ap (λ z. if z then some (some s) else stream_at b q) (beq_ne p q ne))
        ]
  ]

  checked-book :
      {b : Backend Block} (l : Linked b) (ms : List Msg) {c : Backend Block}
      → AllKnown b.hash ms
      → check_curl_multi_info b ms ≡ some c
      → (g : ℕ) → book c g ≡ all_end ms (book b) g
  checked-book {b} l [] {c} known e g =
      ap (λ (z : Backend Block). book z g) (some-eq (sym e ∙ check_collects b)) ∙ collect-book l g
  checked-book {b} l (m ∷ ms) known e g =
      check_msgs-book (m ∷ ms) l known (sym (check_messages b m ms) ∙ e) g

module _ {Block : Type 0} (hb : HeaderBlock Block) where
  module _ {x : Held Block} (k : IsHeld x) (y : Held Block) where
    quiet-book :
        (e : Event Block)
        → IsQuiet x.backend e
        → beside hb x e ≡ some y
        → (h : ℕ) → book y.backend h ≡ book x.backend h
    quiet-book e quiet at = Unmoved-book x.backend y.backend (
        (quiet-Still hb stream_of (λ u v stream easy. stream) x.backend e quiet
          (beside_of hb x y e at)).0)

    requested-book :
        (headers : Block) (body : Bytes) (s : ℕ) (f : Fresh)
        → IsPermitted hb x (requested headers body s f)
        → fetch_held hb x headers body s f ≡ some y
        → (g : ℕ) → book y.backend g ≡ note (requested headers body s f) (book x.backend) g
    requested-book headers body s f
          ((st, at_s, idle), (path, has_path), (h, has_handle, own), unused) at g =
        let new : find_key h x.backend.hash ≡ none = new_handle hb k h own in
        let (c, e, l, found, at_p, at_s', hash, dead, easy, streams, lives, others) =
          fetch_tables hb k.linked headers path body s h st f at_s idle has_path has_handle new
            unused in
        let its : c ≡ y.backend =
          ap (λ (z : Held Block). z.backend)
            (some-eq (sym (fetch_held_at hb x headers body s f e) ∙ at)) in
        ap (λ (z : Backend Block). book z g) (sym its)
        ∙ entered-book k.linked c h f.ptr s unused
            (λ i. ap (find_key i) hash ∙ find_key_entered h f.ptr i x.backend.hash) streams g
        ∙ rw has_handle refl

    note-book :
        (e : Event Block)
        → IsPermitted hb x e
        → apply_held hb x e ≡ some y
        → (g : ℕ) → book y.backend g ≡ note e (book x.backend) g
    unfolding apply_held
    note-book (stream_opened s id) permitted at = quiet-book (stream_opened s id) permitted at
    note-book (requested headers body s f) permitted at =
        requested-book headers body s f permitted at
    note-book (stream_acked s fin_sent rs buffered) permitted at =
        quiet-book (stream_acked s fin_sent rs buffered) tt at
    note-book (stream_closed s) (st, at_s) at =
        close-book k.linked s st at_s (beside_of hb x y (stream_closed s) at)
    note-book (stream_destroyed s) (st, at_s) at =
        destroy-book k.linked s st at_s (beside_of hb x y (stream_destroyed s) at)
    note-book (head_received p contents size nmemb) (called, enough) at =
        quiet-book (head_received p contents size nmemb) enough at
    note-book (body_received p contents size nmemb) permitted at =
        quiet-book (body_received p contents size nmemb) tt at
    note-book (body_asked p size nmemb) permitted at = quiet-book (body_asked p size nmemb) tt at
    note-book (socket_called easy s what sockp) permitted at =
        quiet-book (socket_called easy s what sockp) tt at
    note-book (checked ms) known at =
        checked-book k.linked ms (reported-AllKnown ms x.multi x.backend.hash k.in_table known)
          (check_of x y ms at)

  -- Over every sequence of permitted events, in which each request has a path and gets a handle, each line
  -- of a head has two bytes at least, and the session and libcurl keep to their contracts, the tables keep
  -- the book.
  pub book_lem :
      (es : List (Event Block)) {x : Held Block} (k : IsHeld x)
      → AllPermitted hb x es
      → (y : Held Block) × (run_held hb x es ≡ some y)
        × (book y.backend ≡ note_all es (book x.backend))
  unfolding run_held
  book_lem [] {x = x} k permitted = (x, refl, refl)
  book_lem (e ∷ es) {x = x} k (now, later) =
      let (y, at, held) = apply_held_lem hb k e now in
      let rest : AllPermitted hb y es =
        subst
          (λ (o : Option (Held Block)). elim o [ none ↦ Unit {0} | some y ↦ AllPermitted hb y es ])
          at later in
      let (z, at', same) = book_lem es held rest in
      (z, rw (at, run_held) at', same ∙ ap (note_all es) (fun_ext (note-book k y e now at)))
