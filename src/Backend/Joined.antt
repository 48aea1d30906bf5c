-- ===== src/Backend/Joined.antt =====
-- A new proxy in the tables of quic_proxy_backend.cc, joined with its stream.
use quic_proxy.Base.{
  ℕ, ◌≡◌, refl, sym, ap, ◌∙◌, inl, inr, true, ◌∷◌, none, some, some-eq, none-ne-some, arith, ◌==◌,
  ==_iff, Bool-cases, Option-cases,
}
use mathlib.Core.Path.{fun_ext}
use quic_proxy.Curl.{Proxy}
use quic_proxy.Stream.{Stream, set_proxy_curl}
use quic_proxy.Backend.{Backend, update, find_key, erase_key, has_value, owned, collect}
use quic_proxy.Backend.Linked.{
  Linked, update_cases, update_live, update_at, update_ne, find_key-erase_key,
  erase_key-HasUniqueKeys, has_value_of_find_key,
}

module _ {Block : Type 0} {b : Backend Block} (l : Linked b) where
  -- A new proxy under a new handle, for a stream that has none.
  module _ (s ptr h : ℕ) (st : Stream) (x : Proxy Block) (at_s : b.streams s ≡ some st)
      (idle : st.proxy_curl ≡ none) (unused : b.heap ptr ≡ none) (new : find_key h b.hash ≡ none)
      (to_s : x.quic_stream ≡ some s) (key : x.easy ≡ some h) where
    abbrev pub entered : Backend Block
    entered = record b { hash = (h, ptr) ∷ erase_key h b.hash; heap = update b.heap ptr (some x) }

    abbrev pub joined : Backend Block
    joined = record entered { streams = update b.streams s (some (set_proxy_curl (some ptr) st)) }

    other_stream : (t q : ℕ) (u : Stream) → s ≡ t → b.streams t ≡ some u → u.proxy_curl ≡ some q → ⊥
    other_stream t q u e at_t back =
        none-ne-some
          (sym idle ∙ ap (λ z. z.proxy_curl) (some-eq (sym at_s ∙ ap b.streams e ∙ at_t)) ∙ back)

    pub joined-Linked : Linked joined
    unfolding find_key
    joined-Linked = record {
      unique = (
        ground (arith, find_key-erase_key h h b.hash),
        erase_key-HasUniqueKeys h b.hash l.unique,
      );
      to_proxy = λ t q u at_t to_q. elim (update_cases b.streams s _ t u at_t) [
        | inl (e, f) ↦
            let same_p : ptr ≡ q = some-eq (ap (λ z. z.proxy_curl) (some-eq f) ∙ to_q) in
            (x, update_at b.heap ptr (some x) q same_p, to_s ∙ ap some e)
        | inr (ne, at_t') ↦
            let (y, at_q, back) = l.to_proxy t q u at_t' to_q in
            update_live b.heap ptr x (λ z. z.quic_stream ≡ some t) q y at_q back
              λ e. absurd (none-ne-some (sym unused ∙ ap b.heap e ∙ at_q))
      ];
      to_stream = λ q t y at_q to_t. elim (update_cases b.heap ptr (some x) q y at_q) [
        | inl (e, f) ↦
            let same_s : s ≡ t = some-eq (sym to_s ∙ ap (λ z. z.quic_stream) (some-eq f) ∙ to_t) in
            (set_proxy_curl (some ptr) st, update_at b.streams s _ t same_s, ap some e)
        | inr (ne, at_q') ↦
            let (u, at_t, back) = l.to_stream q t y at_q' to_t in
            (u, update_ne b.streams s _ t (λ e. other_stream t q u e at_t back) ∙ at_t, back)
      ];
      keyed = λ k q e. elim (Bool-cases (h == k)) [
        | inl same ↦
            let same_p : ptr ≡ q = some-eq (ground arith) in
            (x, update_at b.heap ptr (some x) q same_p, key ∙ ap some ((==_iff h k).0 same))
        | inr other ↦
            let (y, at_q, key') = l.keyed k q (ground (arith, find_key-erase_key h k b.hash)) in
            update_live b.heap ptr x (λ z. z.easy ≡ some k) q y at_q key'
              λ e. absurd (none-ne-some (sym unused ∙ ap b.heap e ∙ at_q))
      ];
      kept = λ q y at_q. elim (update_cases b.heap ptr (some x) q y at_q) [
        | inl (e, f) ↦ inl (h, ap (λ z. z.easy) (some-eq (sym f)) ∙ key, ground arith)
        | inr (ne, at_q') ↦ elim (l.kept q y at_q') [
          | inr d ↦ inr d
          | inl (k, key', found) ↦
              inl (k, key', ground (arith, find_key-erase_key h k b.hash, ==_iff h k))
        ]
      ];
      buried = λ q e.
          let (y, at_q, n) = l.buried q e in
          update_live b.heap ptr x (λ z. z.quic_stream ≡ none) q y at_q n
            λ e. absurd (none-ne-some (sym unused ∙ ap b.heap e ∙ at_q));
    }

    still_owned : (q : ℕ) (y : Proxy Block) → entered.heap q ≡ some y → owned entered q ≡ true
    unfolding has_value
    still_owned q y at_q = elim (update_cases b.heap ptr (some x) q y at_q) [
      | inl (e, f) ↦ ground (arith, ==_iff ptr q)
      | inr (ne, at_q') ↦ elim (l.kept q y at_q') [
        | inr d ↦ ground arith
        | inl (k, key', found) ↦
            let found' : find_key k (erase_key h b.hash) ≡ some q =
              ground (arith, find_key-erase_key h k b.hash, ==_iff h k) in
            ground (arith, has_value_of_find_key k q (erase_key h b.hash) found')
      ]
    ]

    -- Nothing is freed.
    pub collect-entered : collect entered ≡ entered
    unfolding collect
    collect-entered =
        ap (λ f. record entered { heap = f })
          (fun_ext λ q. elim (Option-cases (entered.heap q)) [
            | inl e ↦ ground arith
            | inr (y, e) ↦ rw (still_owned q y e) refl
          ])
