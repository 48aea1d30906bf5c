-- ===== src/Backend/Loop/Stays.antt =====
-- An event of quic_proxy_backend.cc other than `CurlSockCB`, and a proxy that the event loop calls.
use quic_proxy.Base.{
  ℕ, ◌≡◌, ◌≢◌, refl, sym, ap, subst, ◌∙◌, inl, inr, Bool, true, false, List, [], ◌∷◌, ◌++◌, drop,
  ◌≤◌, Option, none, some, some-eq, none-ne-some, ◌==◌, ==_iff, if◌then◌else◌, Bool-cases,
  Option-cases, beq_ne,
}
use quic_proxy.Base.Int.{ℤ}
use quic_proxy.Base.Bytes.{Bytes}
use quic_proxy.HeaderBlock.{HeaderBlock}
use quic_proxy.Curl.{Proxy, write_quic_callback, read_quic_callback}
use quic_proxy.Curl.{real_size}
use quic_proxy.Curl.Start.{start_http}
use quic_proxy.Curl.Keeps.{write-Keeps, read-Keeps}
use quic_proxy.Backend.{Backend, Msg, done, other, find_key, erase_key}
use quic_proxy.Backend.Requests.{Fresh}
use quic_proxy.Backend.Linked.{find_key-erase_key}
use quic_proxy.Backend.Done.{AllKnown}
use quic_proxy.Backend.Fetch.{created, fetch_tables}
use quic_proxy.Backend.Life.{callback-Keeps}
use quic_proxy.Backend.Events.{
  Event, stream_opened, requested, stream_acked, stream_closed, stream_destroyed, head_received,
  body_received, body_asked, socket_called, checked, head_callback, at_proxy, apply,
}
use quic_proxy.Backend.Handles.{Held, add_handle, remove_handles, fetch_held, check_held}
use quic_proxy.Backend.Handles.Tables.{reported-AllKnown}
use quic_proxy.Backend.Handles.Cleaned.{check_held-multi}
use quic_proxy.Backend.Handles.Fetched.{not_held, fetch_held_at}
use quic_proxy.Backend.Handles.Events.{IsPermitted, IsCalled, beside, apply_held}
use quic_proxy.Backend.Handles.Life.{check_of, beside_of, new_handle}
use quic_proxy.Backend.Loop.{Registry, Loop, AllUnwatched, IsOrderly, IsLooped}
use quic_proxy.Backend.Loop.Kept.{
  KeepsSocket, same-KeepsSocket, close-KeepsSocket, destroy-KeepsSocket, checked-KeepsSocket,
  callback-KeepsSocket, acked-KeepsSocket,
}

-- A transfer with a socket is in the multi handle after the messages.
watched_stays :
    (ms : List Msg) (multi : List (ℕ × ℕ)) (f : Registry) (fd : ℤ) (g p : ℕ)
    → AllKnown multi ms
    → AllUnwatched f ms
    → f fd ≡ some p
    → find_key g multi ≡ some p
    → find_key g (remove_handles ms multi) ≡ some p
unfolding remove_handles
watched_stays [] multi f fd g p known free has inside = inside
watched_stays (other ∷ ms) multi f fd g p known free has inside =
    watched_stays ms multi f fd g p known free has inside
watched_stays (done h q ∷ ms) multi f fd g p (found, known) (unwatched, free) has inside =
    elim (Bool-cases (h == g)) [
      | inl its ↦
          let same : q ≡ p =
            some-eq (sym found ∙ ap (λ v. find_key v multi) ((==_iff h g).0 its) ∙ inside) in
          absurd (unwatched fd (has ∙ ap some (sym same)))
      | inr apart ↦ watched_stays ms (erase_key h multi) f fd g p known free has (
          find_key-erase_key h g multi
          ∙ ap (λ v. if v then none else find_key g multi) apart
          ∙ inside)
    ]

-- Another handle leaves a transfer in the multi handle.
added_stays :
    (h ptr : ℕ) (added : Bool) (multi : List (ℕ × ℕ)) (g p : ℕ)
    → find_key h multi ≡ none
    → find_key g multi ≡ some p
    → find_key g (add_handle (some h) ptr added multi) ≡ some p
unfolding find_key
added_stays h ptr false multi g p new inside = inside
added_stays h ptr true multi g p new inside =
    let ne : h ≢ g = λ e. none-ne-some (sym new ∙ ap (λ v. find_key v multi) e ∙ inside) in
    rw (beq_ne h g ne) inside

-- `CurlSockCB` is not meant here.
abbrev pub IsAside : {Block : Type 0} → Event Block → Type 0
IsAside (socket_called easy s what sockp) = ⊥
IsAside (stream_opened s id) = Unit {0}
IsAside (requested headers body s f) = Unit {0}
IsAside (stream_acked s fin_sent rs buffered) = Unit {0}
IsAside (stream_closed s) = Unit {0}
IsAside (stream_destroyed s) = Unit {0}
IsAside (head_received q contents size nmemb) = Unit {0}
IsAside (body_received q contents size nmemb) = Unit {0}
IsAside (body_asked q size nmemb) = Unit {0}
IsAside (checked ms) = Unit {0}

module _ {Block : Type 0} (hb : HeaderBlock Block) where
  pub beside_multi :
      (x y : Held Block) (e : Event Block) → beside hb x e ≡ some y → y.multi ≡ x.multi
  unfolding beside
  beside_multi x y e at = elim (Option-cases (apply hb x.backend e)) [
    | inl fails ↦ absurd (none-ne-some (sym (rw (beside, fails) refl) ∙ at))
    | inr (c, gives) ↦
        let its : record { backend = c; multi = x.multi } ≡ y =
          some-eq (sym (rw (beside, gives) refl) ∙ at) in
        ap (λ (z : Held Block). z.multi) (sym its)
  ]

  module _ {x : Loop Block} (k : IsLooped x) (y : Held Block) (fd : ℤ) (p : ℕ)
      (has : x.registry fd ≡ some p) where
    -- Whom the event loop calls lives on, with its socket, and in the multi handle.
    abbrev pub Stays : Type 0
    Stays = KeepsSocket x.held.backend y.backend p × IsCalled y p

    beside-Stays :
        (e : Event Block)
        → beside hb x.held e ≡ some y
        → KeepsSocket x.held.backend y.backend p
        → Stays
    beside-Stays e at keeps =
        let (live, (h, inside)) = k.called fd p has in
        (keeps, (h, ap (find_key h) (beside_multi x.held y e at) ∙ inside))

    checked-Stays :
        (ms : List Msg)
        → AllKnown x.held.multi ms
        → AllUnwatched x.registry ms
        → check_held x.held ms ≡ some y
        → Stays
    checked-Stays ms known free at =
        let (live, (h, inside)) = k.called fd p has in
        (
          checked-KeepsSocket ms k.held.linked h p
              (reported-AllKnown ms x.held.multi x.held.backend.hash k.held.in_table known)
              (k.held.in_table h p inside) (check_of x.held y ms at),
          (
            h,
            ap (find_key h) (check_held-multi k.held y ms at)
                ∙ watched_stays ms x.held.multi x.registry fd h p known free has inside,
          ),
        )

    requested-Stays :
        (headers : Block) (body : Bytes) (s : ℕ) (f : Fresh)
        → IsPermitted hb x.held (requested headers body s f)
        → fetch_held hb x.held headers body s f ≡ some y
        → Stays
    requested-Stays headers body s f
          ((st, at_s, idle), (path, has_path), (h, has_handle, own), unused) at =
        let new : find_key h x.held.backend.hash ≡ none = new_handle hb k.held h own in
        let (c, e, l, found, at_p, at_s', hash, dead, easy, streams, lives, others) =
          fetch_tables hb k.held.linked headers path body s h st f at_s idle has_path has_handle new
            unused in
        let ((z, at_z, sock), (g, inside)) = k.called fd p has in
        let added : Bool =
          (start_http hb (created hb (x.held.backend.backend_url ++ drop 1 path) s h) headers body
            f.peer_ip).2 in
        let z' : Held Block = record {
          backend = c;
          multi = add_handle f.handle f.ptr added x.held.multi;
        } in
        let its : z' ≡ y = some-eq (sym (fetch_held_at hb x.held headers body s f e) ∙ at) in
        let ne : f.ptr ≢ p =
          λ same. none-ne-some (sym unused ∙ ap x.held.backend.heap same ∙ at_z) in
        subst (λ (v : Held Block). KeepsSocket x.held.backend v.backend p × IsCalled v p) its
          (
            same-KeepsSocket x.held.backend c p (others p ne),
            (
              g,
              ap (λ v. find_key g (add_handle v f.ptr added x.held.multi)) has_handle
                  ∙ added_stays h f.ptr added x.held.multi g p (not_held k.held h new) inside,
            ),
          )

    head_socket :
        (contents : Bytes) (size nmemb : ℕ)
        → 2 ≤ real_size size nmemb
        → (u v : Proxy Block) → head_callback hb contents size nmemb u ≡ some v
        → v.sockfd ≡ u.sockfd
    head_socket contents size nmemb enough u v e =
        let (w, gives, keeps) = callback-Keeps hb u contents size nmemb enough in
        ap (λ (z : Proxy Block). z.sockfd) (some-eq (sym e ∙ gives)) ∙ keeps.2

    callback-Stays :
        (e : Event Block) (q : ℕ) (callback : Proxy Block → Option (Proxy Block))
        → ((u v : Proxy Block) → callback u ≡ some v → v.sockfd ≡ u.sockfd)
        → at_proxy x.held.backend q callback ≡ some y.backend
        → beside hb x.held e ≡ some y
        → Stays
    callback-Stays e q callback same gives at =
        beside-Stays e at (callback-KeepsSocket x.held.backend q callback p same gives)

    pub event-Stays :
        (e : Event Block)
        → IsAside e
        → IsPermitted hb x.held e
        → IsOrderly x.held x.registry e
        → apply_held hb x.held e ≡ some y
        → Stays
    unfolding apply_held apply
    event-Stays (socket_called easy s what sockp) aside permitted orderly at = absurd aside
    event-Stays (stream_opened s id) aside permitted orderly at =
        beside-Stays (stream_opened s id) at (
          same-KeepsSocket x.held.backend y.backend p (
            ap (λ (z : Backend Block). z.heap p)
              (sym (some-eq (beside_of hb x.held y (stream_opened s id) at)))))
    event-Stays (requested headers body s f) aside permitted orderly at =
        requested-Stays headers body s f permitted at
    event-Stays (stream_acked s fin_sent rs buffered) aside permitted orderly at =
        beside-Stays (stream_acked s fin_sent rs buffered) at (
          acked-KeepsSocket x.held.backend s fin_sent rs buffered p
            (beside_of hb x.held y (stream_acked s fin_sent rs buffered) at))
    event-Stays (stream_closed s) aside (st, at_s) orderly at =
        beside-Stays (stream_closed s) at
          (close-KeepsSocket k.held.linked s st p at_s (beside_of hb x.held y (stream_closed s) at))
    event-Stays (stream_destroyed s) aside (st, at_s) orderly at =
        beside-Stays (stream_destroyed s) at (
          destroy-KeepsSocket k.held.linked s st p at_s
            (beside_of hb x.held y (stream_destroyed s) at))
    event-Stays (head_received q contents size nmemb) aside (called, enough) orderly at =
        callback-Stays (head_received q contents size nmemb) q
          (head_callback hb contents size nmemb) (head_socket contents size nmemb enough)
          (beside_of hb x.held y (head_received q contents size nmemb) at) at
    event-Stays (body_received q contents size nmemb) aside permitted orderly at =
        callback-Stays (body_received q contents size nmemb) q
          (λ u. some (write_quic_callback u contents size nmemb).1)
          (λ u v e.
            ap (λ (z : Proxy Block). z.sockfd) (sym (some-eq e))
            ∙ (write-Keeps u contents size nmemb).2)
          (beside_of hb x.held y (body_received q contents size nmemb) at) at
    event-Stays (body_asked q size nmemb) aside permitted orderly at =
        callback-Stays (body_asked q size nmemb) q (λ u. some (read_quic_callback u size nmemb).1)
          (λ u v e.
            ap (λ (z : Proxy Block). z.sockfd) (sym (some-eq e)) ∙ (read-Keeps u size nmemb).2)
          (beside_of hb x.held y (body_asked q size nmemb) at) at
    event-Stays (checked ms) aside known free at = checked-Stays ms known free at
