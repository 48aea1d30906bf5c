-- ===== src/Backend/Unlink.antt =====
-- Cutting pointers in quic_proxy_backend.cc: each step keeps what holds between the calls.
use quic_proxy.Base.{ℕ, ◌≡◌, refl, ap, ◌∙◌, inl, inr, none, some, some-eq, arith, none-ne-some}
use quic_proxy.Curl.{Proxy}
use quic_proxy.Stream.{Stream, set_proxy_curl}
use quic_proxy.Backend.{Backend, update}
use quic_proxy.Backend.Linked.{Linked, update_cases, update_live}

module _ {Block : Type 0} {b : Backend Block} (l : Linked b) where
  -- Both pointers between a stream and its proxy become null.
  module _ (s p : ℕ) (st : Stream) (x : Proxy Block) (at_s : b.streams s ≡ some st)
      (at_p : b.heap p ≡ some x) (to_p : st.proxy_curl ≡ some p)
      (to_s : x.quic_stream ≡ some s) where
    abbrev pub unlinked : Backend Block
    unlinked = record b {
      streams = update b.streams s (some (set_proxy_curl none st));
      heap = update b.heap p (some (record x { quic_stream = none }));
    }

    cut_x : Proxy Block
    cut_x = record x { quic_stream = none }

    cut_st : Stream
    cut_st = set_proxy_curl none st

    pub unlinked-Linked : Linked unlinked
    unfolding cut_x cut_st
    unlinked-Linked = record {
      unique = l.unique;
      to_proxy = λ t q u at_t to_q. elim (update_cases b.streams s (some cut_st) t u at_t) [
        | inl (e, f) ↦ absurd (none-ne-some (ap (λ z. z.proxy_curl) (some-eq f) ∙ to_q))
        | inr (ne, at_t') ↦
            let (y, at_q, back) = l.to_proxy t q u at_t' to_q in
            update_live b.heap p cut_x (λ z. z.quic_stream ≡ some t) q y at_q back
              λ e. absurd (ne (some-eq (cc)))
      ];
      to_stream = λ q t y at_q to_t. elim (update_cases b.heap p (some cut_x) q y at_q) [
        | inl (e, f) ↦ absurd (none-ne-some (ap (λ z. z.quic_stream) (some-eq f) ∙ to_t))
        | inr (ne, at_q') ↦
            let (u, at_t, back) = l.to_stream q t y at_q' to_t in
            update_live b.streams s cut_st (λ z. z.proxy_curl ≡ some q) t u at_t back
              λ e. absurd (ne (some-eq (cc)))
      ];
      keyed = λ h q e.
          let (y, at_q, k) = l.keyed h q e in
          update_live b.heap p cut_x (λ z. z.easy ≡ some h) q y at_q k (λ e. cc);
      kept = λ q y at_q. elim (update_cases b.heap p (some cut_x) q y at_q) [
        | inl (e, f) ↦ ground (arith, l.kept p x at_p)
        | inr (ne, at_q') ↦ l.kept q y at_q'
      ];
      buried = λ q e.
          let (y, at_q, n) = l.buried q e in
          update_live b.heap p cut_x (λ z. z.quic_stream ≡ none) q y at_q n (λ e. refl);
    }
