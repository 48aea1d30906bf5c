-- ===== src/Backend/Steps.antt =====
-- The other changes that quic_proxy_backend.cc makes to its tables, one at a time.
use quic_proxy.Base.{
  ℕ, ◌≡◌, sym, ap, ◌∙◌, inl, inr, Bool, true, false, ◌||◌, [], Option, none, some, some-eq, arith,
  ◌==◌, ==_iff, none-ne-some, if◌then◌else◌, Bool-cases,
}
use quic_proxy.Curl.{Proxy}
use quic_proxy.Stream.{Stream}
use quic_proxy.Backend.{Backend, update, find_key, has_value, has_elem, bury, collect}
use quic_proxy.Backend.Linked.{
  Linked, update_cases, update_live, update_ne, find_key-erase_key, erase_key-HasUniqueKeys,
  has_value_of_find_key, find_key_of_has_value,
}

some_of_if :
    {A : Type 0} (c : Bool) (o : Option A) (y : A) → (if c then o else none) ≡ some y → o ≡ some y
some_of_if c o y e = ground arith

module _ {Block : Type 0} {b : Backend Block} (l : Linked b) where
  -- A stream that points to no proxy goes.
  pub without_stream-Linked :
      (s : ℕ) (st : Stream)
      → b.streams s ≡ some st
      → st.proxy_curl ≡ none
      → Linked (record b { streams = update b.streams s none })
  without_stream-Linked s st at_s alone = record {
    unique = l.unique;
    to_proxy = λ t q u at_t to_q. elim (update_cases b.streams s none t u at_t) [
      | inl (e, f) ↦ absurd (none-ne-some f)
      | inr (ne, at_t') ↦ l.to_proxy t q u at_t' to_q
    ];
    to_stream = λ q t y at_q to_t.
        let (u, at_t, back) = l.to_stream q t y at_q to_t in
        (u, update_ne b.streams s none t (λ e. cc) ∙ at_t, back);
    keyed = l.keyed;
    kept = l.kept;
    buried = l.buried;
  }

  -- A stream that points to no proxy comes.
  pub with_stream-Linked :
      (s : ℕ) (st : Stream)
      → b.streams s ≡ none
      → st.proxy_curl ≡ none
      → Linked (record b { streams = update b.streams s (some st) })
  with_stream-Linked s st at_s alone = record {
    unique = l.unique;
    to_proxy = λ t q u at_t to_q. elim (update_cases b.streams s (some st) t u at_t) [
      | inl (e, f) ↦ absurd (cc)
      | inr (ne, at_t') ↦ l.to_proxy t q u at_t' to_q
    ];
    to_stream = λ q t y at_q to_t.
        let (u, at_t, back) = l.to_stream q t y at_q to_t in
        (u, update_ne b.streams s (some st) t (λ e. cc) ∙ at_t, back);
    keyed = l.keyed;
    kept = l.kept;
    buried = l.buried;
  }

  -- A stream changes, but not its pointer.
  pub changed_stream-Linked :
      (s : ℕ) (st u : Stream)
      → b.streams s ≡ some st
      → u.proxy_curl ≡ st.proxy_curl
      → Linked (record b { streams = update b.streams s (some u) })
  changed_stream-Linked s st u at_s same = record {
    unique = l.unique;
    to_proxy = λ t q w at_t to_q. elim (update_cases b.streams s (some u) t w at_t) [
      | inl (e, f) ↦ l.to_proxy t q st (cc) (cc)
      | inr (ne, at_t') ↦ l.to_proxy t q w at_t' to_q
    ];
    to_stream = λ q t y at_q to_t.
        let (w, at_t, back) = l.to_stream q t y at_q to_t in
        update_live b.streams s u (λ z. z.proxy_curl ≡ some q) t w at_t back (λ e. cc);
    keyed = l.keyed;
    kept = l.kept;
    buried = l.buried;
  }

  -- A proxy changes, but not its stream or its handle.
  pub with_proxy-Linked :
      (p : ℕ) (x y : Proxy Block)
      → b.heap p ≡ some x
      → y.quic_stream ≡ x.quic_stream
      → y.easy ≡ x.easy
      → Linked (record b { heap = update b.heap p (some y) })
  with_proxy-Linked p x y at_p same_stream same_easy = record {
    unique = l.unique;
    to_proxy = λ t q u at_t to_q.
        let (z, at_q, back) = l.to_proxy t q u at_t to_q in
        update_live b.heap p y (λ w. w.quic_stream ≡ some t) q z at_q back (λ e. cc);
    to_stream = λ q t z at_q to_t. elim (update_cases b.heap p (some y) q z at_q) [
      | inl (e, f) ↦ l.to_stream q t x (cc) (cc)
      | inr (ne, at_q') ↦ l.to_stream q t z at_q' to_t
    ];
    keyed = λ h q e.
        let (z, at_q, k) = l.keyed h q e in
        update_live b.heap p y (λ w. w.easy ≡ some h) q z at_q k (λ e. cc);
    kept = λ q z at_q. elim (update_cases b.heap p (some y) q z at_q) [
      | inl (e, f) ↦ ground (arith, l.kept p x at_p)
      | inr (ne, at_q') ↦ l.kept q z at_q'
    ];
    buried = λ q e.
        let (z, at_q, n) = l.buried q e in
        update_live b.heap p y (λ w. w.quic_stream ≡ none) q z at_q n (λ e. cc);
  }

  -- A proxy that serves no stream moves from the table to the dead list.
  pub bury-Linked :
      (h p : ℕ) (x : Proxy Block)
      → find_key h b.hash ≡ some p
      → b.heap p ≡ some x
      → x.quic_stream ≡ none
      → Linked (bury b h)
  unfolding bury has_elem
  bury-Linked h p x found at_p alone =
      rw (found, bury)
        (record {
          unique = erase_key-HasUniqueKeys h b.hash l.unique;
          to_proxy = l.to_proxy;
          to_stream = l.to_stream;
          keyed = λ k q e. l.keyed k q (ground (arith, find_key-erase_key h k b.hash));
          kept = λ q y at_q. elim (l.kept q y at_q) [
            | inr d ↦ inr (ground arith)
            | inl (k, easy, there) ↦ elim (Bool-cases (h == k)) [
              | inl same ↦ inr (ground (arith, ==_iff h k, ==_iff p q))
              | inr other ↦ inl (k, easy, ground (arith, find_key-erase_key h k b.hash))
            ]
          ];
          buried = λ q e. elim (Bool-cases (p == q)) [
            | inl same ↦ (x, sym (ap b.heap ((==_iff p q).0 same)) ∙ at_p, alone)
            | inr other ↦ l.buried q (ground arith)
          ];
        })

  serving-has_value :
      (q t : ℕ) (y : Proxy Block)
      → b.heap q ≡ some y
      → y.quic_stream ≡ some t
      → has_value q b.hash ≡ true
  serving-has_value q t y at_q to_t = elim (l.kept q y at_q) [
    | inl (h, easy, found) ↦ has_value_of_find_key h q b.hash found
    | inr d ↦ let (z, at_q', alone) = l.buried q d in absurd (cc)
  ]

  -- The dead list is cleared, and what nothing owns is freed.
  pub cleared-Linked : Linked (collect (record b { dead = [] }))
  unfolding collect has_elem
  cleared-Linked = record {
    unique = l.unique;
    to_proxy = λ t q u at_t to_q.
        let (y, at_q, back) = l.to_proxy t q u at_t to_q in
        (y, rw (serving-has_value q t y at_q back) at_q, back);
    to_stream = λ q t y at_q to_t. l.to_stream q t y (ground arith) to_t;
    keyed = λ h q e.
        let (y, at_q, k) = l.keyed h q e in (y, rw (has_value_of_find_key h q b.hash e) at_q, k);
    kept = λ q y at_q.
        let (h, found) = find_key_of_has_value q b.hash l.unique (ground arith) in
        let (z, at_q', k) = l.keyed h q found in
        inl (
          h,
          ap (λ w. w.easy)
                (some-eq (sym (some_of_if (has_value q b.hash || false) (b.heap q) y at_q) ∙ at_q'))
              ∙ k,
          found,
        );
    buried = λ q e. absurd (cc);
  }
