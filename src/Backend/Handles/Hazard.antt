-- ===== src/Backend/Handles/Hazard.antt =====
-- When the code behind quic_proxy_backend.cc and quic_proxy_curl.cc runs into undefined behaviour: what
-- the session and libcurl may do, requests without a path, a `curl_easy_init` without a handle and short
-- lines of a head included.
use quic_proxy.Base.{ℕ, ◌≡◌, ◌≢◌, ◌<◌, ◌⊎◌, List, [], ◌∷◌, ◌++◌, none, some}
use quic_proxy.Base.Bytes.{Bytes, codes}
use quic_proxy.HeaderBlock.{HeaderBlock}
use quic_proxy.Curl.{real_size}
use quic_proxy.Backend.Linked.{LiveStream, LiveProxy, easy_at}
use quic_proxy.Backend.Events.{Event, requested, head_received}
use quic_proxy.Backend.Handles.{Held}
use quic_proxy.Backend.Handles.Safe.{IsHeld}
use quic_proxy.Backend.Handles.Events.{IsCalled, IsPermitted, apply_held, run_held}

-- What the session and libcurl keep to, without regard to what a client or a backend sends, or to what
-- `curl_easy_init` answers.
abbrev pub IsWithin : {Block : Type 0} → HeaderBlock Block → Held Block → Event Block → Type 0
IsWithin hb x (requested headers body s f) =
    LiveStream x.backend s (λ st. st.proxy_curl ≡ none)
    × ((h : ℕ) → f.handle ≡ some h → (q : ℕ) → easy_at x.backend q ≢ some (some h))
    × (x.backend.heap f.ptr ≡ none)
IsWithin hb x (head_received p contents size nmemb) = IsCalled x p
IsWithin hb x e = IsPermitted hb x e

-- A request without ":path", or without a handle; and a line of fewer than two bytes for a proxy that
-- still has its stream.
abbrev pub IsHazard : {Block : Type 0} → HeaderBlock Block → Held Block → Event Block → Type 0
IsHazard hb x (requested headers body s f) =
    (hb.find headers (codes ":path") ≡ none) ⊎ (f.handle ≡ none)
IsHazard hb x (head_received p contents size nmemb) =
    LiveProxy x.backend p (λ z. z.quic_stream ≢ none) × (real_size size nmemb < 2)
IsHazard hb x e = ⊥

module _ {Block : Type 0} (hb : HeaderBlock Block) where
  -- Either the event is a hazard, and undefined; or it is none, and the agreement is kept.
  abbrev Outcome : Held Block → Event Block → Type 0
  Outcome x e =
      (IsHazard hb x e × (apply_held hb x e ≡ none))
      ⊎ ((¬ IsHazard hb x e) × ((y : Held Block) × (apply_held hb x e ≡ some y) × IsHeld y))

  -- Every event is within the contracts where it happens.
  abbrev pub AllWithin : Held Block → List (Event Block) → Type 0
  AllWithin x [] = Unit {0}
  AllWithin x (e ∷ es) =
      IsWithin hb x e × (elim (apply_held hb x e) [ none ↦ Unit {0} | some y ↦ AllWithin y es ])

  -- The events lead to a hazard, and up to it all went well.
  abbrev pub RunsInto : Held Block → List (Event Block) → Type 0
  RunsInto x es =
      (done : List (Event Block)) × (e : Event Block) × (left : List (Event Block)) × (y : Held
        Block)
      × (es ≡ done ++ (e ∷ left))
      × (run_held hb x done ≡ some y)
      × IsHeld y
      × IsHazard hb y e
