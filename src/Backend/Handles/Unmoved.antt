-- ===== src/Backend/Handles/Unmoved.antt =====
-- The calls of quic_proxy_backend.cc that neither make nor finish a request leave the handles as they
-- are.
use quic_proxy.Base.{ℕ, ◌≡◌, refl, sym, ap, subst, ◌∙◌, inl, inr, Option, some}
use quic_proxy.Curl.{Proxy}
use quic_proxy.Stream.{Stream}
use quic_proxy.Backend.{Backend, find_key, has_elem, close_backend_response_stream, destroy_stream}
use quic_proxy.Backend.Linked.{Linked}
use quic_proxy.Backend.Close.{close_cases, destroy_gives}
use quic_proxy.Backend.Unmoved.{Unmoved, refl-Unmoved}
use quic_proxy.Backend.Handles.{Held}
use quic_proxy.Backend.Handles.Safe.{IsHeld, easy_at-unlinked}

module _ {Block : Type 0} where
  abbrev pub handle_of : Proxy Block → Option ℕ
  handle_of x = x.easy

  module _ {b : Backend Block} (l : Linked b) where
    pub close-Unmoved :
        (s : ℕ) (st : Stream) {c : Backend Block}
        → b.streams s ≡ some st
        → close_backend_response_stream b s ≡ some c
        → Unmoved handle_of b c
    close-Unmoved s st at_s e = elim (close_cases l s st at_s e) [
      | inl (alone, its) ↦ subst (Unmoved handle_of b) its (refl-Unmoved handle_of b)
      | inr (p, x, at_p, to_p, to_s, its) ↦
          subst (Unmoved handle_of b) its
            (refl, refl, easy_at-unlinked l s p st x at_s at_p to_p to_s)
    ]

    pub destroy-Unmoved :
        (s : ℕ) (st : Stream) {c : Backend Block}
        → b.streams s ≡ some st
        → destroy_stream b s ≡ some c
        → Unmoved handle_of b c
    destroy-Unmoved s st at_s e =
        let (d, closes, its) = destroy_gives l s st at_s e in
        subst (Unmoved handle_of b) its (close-Unmoved s st at_s closes)

  -- What leaves these as they are keeps the agreement, if it keeps the pointers right.
  pub Unmoved-IsHeld :
      {x : Held Block} (k : IsHeld x) {c : Backend Block} (l : Linked c)
      → Unmoved handle_of x.backend c
      → IsHeld (record { backend = c; multi = x.multi })
  Unmoved-IsHeld {x} k {c} l (hash, dead, same) = record {
    linked = l;
    in_table = λ h p e. ap (find_key h) hash ∙ k.in_table h p e;
    done_out = λ p h in_dead at.
        ap (find_key h) hash
        ∙ k.done_out p h (sym (ap (has_elem p) dead) ∙ in_dead) (sym (same p) ∙ at);
  }
