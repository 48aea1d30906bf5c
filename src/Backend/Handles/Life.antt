-- ===== src/Backend/Handles/Life.antt =====
-- Whole lives of the tables of quic_proxy_backend.cc together with libcurl's multi handle.
use quic_proxy.Base.{
  none-ne-some, some-eq, ap, ◌∙◌, ◌⊎◌, ℕ, ◌≡◌, ◌≢◌, refl, sym, subst, inl, inr, List, [], ◌∷◌,
  Option, none, some, Option-cases,
}
use quic_proxy.HeaderBlock.{HeaderBlock}
use quic_proxy.Backend.{Msg, check_curl_multi_info, Backend, find_key}
use quic_proxy.Backend.Linked.{easy_at}
use quic_proxy.Backend.Events.{
  Event, stream_opened, requested, stream_acked, stream_closed, stream_destroyed, head_received,
  body_received, body_asked, socket_called, checked, apply,
}
use quic_proxy.Backend.Life.{IsAllowed, apply_lem}
use quic_proxy.Backend.Handles.{Held, FreeCall, freed_calls, remove_handles, check_held}
use quic_proxy.Backend.Handles.Tables.{reported-AllKnown}
use quic_proxy.Backend.Handles.Safe.{IsHeld, Linked-Keyed, check_held_lem}
use quic_proxy.Backend.Handles.Cleaned.{AllOut, check-AllOut}
use quic_proxy.Backend.Handles.Fetched.{fetch_held_lem}
use quic_proxy.Backend.Handles.Events.{
  IsCalled, IsPermitted, beside, apply_held, run_held, AllPermitted,
}
use quic_proxy.Backend.Unmoved.{Unmoved}
use quic_proxy.Backend.Quiet.{IsQuiet, quiet-Still}
use quic_proxy.Backend.Handles.Unmoved.{handle_of, close-Unmoved, destroy-Unmoved, Unmoved-IsHeld}

module _ {Block : Type 0} where
  -- `CheckCurlMultiInfo` is that of the tables.
  pub check_of :
      (x y : Held Block) (ms : List Msg)
      → check_held x ms ≡ some y
      → check_curl_multi_info x.backend ms ≡ some y.backend
  unfolding check_held
  check_of x y ms at = elim (Option-cases (check_curl_multi_info x.backend ms)) [
    | inl fails ↦ absurd (none-ne-some (sym (rw (check_held, fails) refl) ∙ at))
    | inr (c, gives) ↦
        let its : record { backend = c; multi = remove_handles ms x.multi } ≡ y =
          some-eq (sym (rw (check_held, gives) refl) ∙ at) in
        gives ∙ ap (λ (z : Held Block). some z.backend) its
  ]

module _ {Block : Type 0} (hb : HeaderBlock Block) where
  pub beside_of :
      (x y : Held Block) (e : Event Block)
      → beside hb x e ≡ some y
      → apply hb x.backend e ≡ some y.backend
  unfolding beside
  beside_of x y e at = elim (Option-cases (apply hb x.backend e)) [
    | inl fails ↦ absurd (none-ne-some (sym (rw (beside, fails) refl) ∙ at))
    | inr (c, gives) ↦
        let its : record { backend = c; multi = x.multi } ≡ y =
          some-eq (sym (rw (beside, gives) refl) ∙ at) in
        gives ∙ ap (λ (z : Held Block). some z.backend) its
  ]

  module _ {x : Held Block} (k : IsHeld x) where
    beside_lem :
        (e : Event Block)
        → IsAllowed hb x.backend e
        → ((c : Backend Block) → apply hb x.backend e ≡ some c → Unmoved handle_of x.backend c)
        → (y : Held Block) × (beside hb x e ≡ some y) × IsHeld y
    unfolding beside
    beside_lem e allowed unmoved =
        let (c, at, l) = apply_lem hb k.linked e allowed in
        (
          record { backend = c; multi = x.multi },
          rw (at, beside) refl,
          Unmoved-IsHeld k l (unmoved c at),
        )

    is_running : (p : ℕ) → IsCalled x p → (h : ℕ) × (find_key h x.backend.hash ≡ some p)
    is_running p (h, inside) = (h, k.in_table h p inside)

    is_assigned :
        (sockp : Option ℕ)
        → (sockp ≡ none) ⊎ ((p h : ℕ) × (sockp ≡ some p) × (find_key h x.multi ≡ some p))
        → (sockp ≡ none) ⊎ ((p h : ℕ) × (sockp ≡ some p) × (find_key h x.backend.hash ≡ some p))
    is_assigned sockp (inl e) = inl e
    is_assigned sockp (inr (p, h, e, inside)) = inr (p, h, e, k.in_table h p inside)

    -- A handle that no living proxy has is not in the table.
    pub new_handle :
        (h : ℕ) → ((q : ℕ) → easy_at x.backend q ≢ some (some h)) → find_key h x.backend.hash ≡ none
    new_handle h own = elim (Option-cases (find_key h x.backend.hash)) [
      | inl new ↦ new
      | inr (p, found) ↦ absurd (own p (Linked-Keyed k.linked h p found))
    ]

    quiet_lem :
        (e : Event Block)
        → IsQuiet x.backend e
        → IsAllowed hb x.backend e
        → (y : Held Block) × (beside hb x e ≡ some y) × IsHeld y
    quiet_lem e quiet allowed =
        beside_lem e allowed
          λ c at. (quiet-Still hb handle_of (λ u v stream easy. easy) x.backend e quiet at).0

    -- What is permitted is defined and keeps the agreement.
    pub apply_held_lem :
        (e : Event Block)
        → IsPermitted hb x e
        → (y : Held Block) × (apply_held hb x e ≡ some y) × IsHeld y
    unfolding apply_held
    apply_held_lem (stream_opened s id) free = quiet_lem (stream_opened s id) free free
    apply_held_lem (requested headers body s f)
          ((st, at_s, idle), (path, has_path), (h, has_handle, own), unused) =
        let (y, e, held, found) =
          fetch_held_lem hb k headers path body s h st f at_s idle has_path has_handle
            (new_handle h own) unused own in
        (y, e, held)
    apply_held_lem (stream_acked s fin_sent rs buffered) live =
        quiet_lem (stream_acked s fin_sent rs buffered) tt live
    apply_held_lem (stream_closed s) (st, at_s) =
        beside_lem (stream_closed s) (st, at_s) (λ c. close-Unmoved k.linked s st at_s)
    apply_held_lem (stream_destroyed s) (st, at_s) =
        beside_lem (stream_destroyed s) (st, at_s) (λ c. destroy-Unmoved k.linked s st at_s)
    apply_held_lem (head_received p contents size nmemb) (called, enough) =
        quiet_lem (head_received p contents size nmemb) enough (is_running p called, enough)
    apply_held_lem (body_received p contents size nmemb) called =
        quiet_lem (body_received p contents size nmemb) tt (is_running p called)
    apply_held_lem (body_asked p size nmemb) called =
        quiet_lem (body_asked p size nmemb) tt (is_running p called)
    apply_held_lem (socket_called easy s what sockp) assigned =
        quiet_lem (socket_called easy s what sockp) tt (is_assigned sockp assigned)
    apply_held_lem (checked ms) known =
        let (y, e, held, lives) =
          check_held_lem k ms (reported-AllKnown ms x.multi x.backend.hash k.in_table known) in
        (y, e, held)

  -- What the destructors of proxies ask of libcurl at an event.
  abbrev pub freed_by : Backend Block → Event Block → List FreeCall
  freed_by b (checked ms) = freed_calls b ms
  freed_by b e = []

  -- No event cleans up a handle that the multi handle has after it.
  abbrev pub AllSafe : Held Block → List (Event Block) → Type 0
  AllSafe x [] = Unit {0}
  AllSafe x (e ∷ es) = elim (apply_held hb x e) [
    | none ↦ Unit {0}
    | some y ↦ AllOut y.multi (freed_by x.backend e) × AllSafe y es
  ]

  freed_by-AllOut :
      {x : Held Block} (k : IsHeld x) (e : Event Block) (y : Held Block)
      → apply_held hb x e ≡ some y
      → AllOut y.multi (freed_by x.backend e)
  unfolding apply_held
  freed_by-AllOut k (checked ms) y e = check-AllOut k y ms e
  freed_by-AllOut k (stream_opened s id) y e = tt
  freed_by-AllOut k (requested headers body s f) y e = tt
  freed_by-AllOut k (stream_acked s fin_sent rs buffered) y e = tt
  freed_by-AllOut k (stream_closed s) y e = tt
  freed_by-AllOut k (stream_destroyed s) y e = tt
  freed_by-AllOut k (head_received p contents size nmemb) y e = tt
  freed_by-AllOut k (body_received p contents size nmemb) y e = tt
  freed_by-AllOut k (body_asked p size nmemb) y e = tt
  freed_by-AllOut k (socket_called easy s what sockp) y e = tt

  -- A whole life of permitted events (`IsPermitted`: each request has a path and gets a handle, each line of
  -- a head has two bytes at least, and the session and libcurl keep to their contracts) is defined and keeps
  -- the agreement, and no destructor ever cleans up a handle that libcurl still has in the multi handle.
  pub run_held_lem :
      (es : List (Event Block)) {x : Held Block} (k : IsHeld x)
      → AllPermitted hb x es
      → (y : Held Block) × (run_held hb x es ≡ some y) × IsHeld y × AllSafe x es
  unfolding run_held
  run_held_lem [] {x = x} k permitted = (x, refl, k, tt)
  run_held_lem (e ∷ es) {x = x} k (now, later) =
      let (y, at, held) = apply_held_lem k e now in
      let rest : AllPermitted hb y es =
        subst
          (λ (o : Option (Held Block)). elim o [ none ↦ Unit {0} | some y ↦ AllPermitted hb y es ])
          at later in
      let (z, at', held', safe) = run_held_lem es held rest in
      (
        z,
        rw (at, run_held) at',
        held',
        subst
            (λ (o : Option (Held Block)). elim o [
              | none ↦ Unit {0}
              | some y ↦ AllOut y.multi (freed_by x.backend e) × AllSafe y es
            ])
            (sym at) (freed_by-AllOut k e y at, safe),
      )
