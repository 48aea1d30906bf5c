-- ===== src/Backend/Handles/Safe.antt =====
-- quic_proxy_backend.cc frees no proxy whose handle libcurl still works on.
use quic_proxy.Base.{
  ℕ, ◌≡◌, ◌⊎◌, refl, sym, ap, subst, ◌∙◌, inl, inr, true, false, List, [], ◌∷◌, none, some, some-eq,
  none-ne-some, ◌==◌, ==_iff, Bool-cases, Option-cases,
}
use quic_proxy.Curl.{Proxy}
use quic_proxy.Stream.{Stream}
use quic_proxy.Backend.{
  Backend, Msg, done, other, find_key, has_elem, has_value, bury, collect, check_msg, check_msgs,
  check_curl_multi_info,
}
use quic_proxy.Backend.Linked.{Linked, easy_at, has_value_of_find_key}
use quic_proxy.Backend.Unlink.{unlinked}
use quic_proxy.Backend.Done.{AllKnown, message_cases, check_msg_lem, check_lem}
use quic_proxy.Backend.Handles.{Held, remove_handles, check_held}
use quic_proxy.Backend.Handles.Tables.{
  InTable, Keyed, IsDoneOut, removed-InTable, finished-IsDoneOut,
}

-- What holds between the calls.
pub record IsHeld {Block : Type 0} (x : Held Block) : Type 0 where
  pub linked : Linked x.backend
  pub in_table : InTable x.multi x.backend.hash
  pub done_out : IsDoneOut x.backend.hash x.backend.dead (easy_at x.backend)

module _ {Block : Type 0} where
  pub Linked-Keyed : {b : Backend Block} → Linked b → Keyed b.hash (easy_at b)
  Linked-Keyed {b} l h p found =
      let (x, at_p, key) = l.keyed h p found in rw (easy_at, at_p) (ap some key)

  easy_at-none : (b : Backend Block) (p : ℕ) → b.heap p ≡ none → easy_at b p ≡ none
  easy_at-none b p e = rw (easy_at, e) refl

  easy_at-bury : (b : Backend Block) (h q : ℕ) → easy_at (bury b h) q ≡ easy_at b q
  unfolding bury
  easy_at-bury b h q = elim (Option-cases (find_key h b.hash)) [
    | inl e ↦ rw (e, bury) refl
    | inr (p, e) ↦ rw (e, bury) refl
  ]

  pub easy_at-unlinked :
      {b : Backend Block} (l : Linked b) (s p : ℕ) (st : Stream) (x : Proxy Block)
      (at_s : b.streams s ≡ some st) (at_p : b.heap p ≡ some x) (to_p : st.proxy_curl ≡ some p)
      (to_s : x.quic_stream ≡ some s) (q : ℕ)
      → easy_at (unlinked l s p st x at_s at_p to_p to_s) q ≡ easy_at b q
  easy_at-unlinked {b} l s p st x at_s at_p to_p to_s q = elim (Bool-cases (p == q)) [
    | inl same ↦
        let at_q : b.heap q ≡ some x = ap b.heap (sym ((==_iff p q).0 same)) ∙ at_p in
        rw (easy_at, same, at_q) refl
    | inr apart ↦ rw (easy_at, apart) refl
  ]

  easy_at-check_msg :
      {b c : Backend Block} (l : Linked b) (h p : ℕ)
      → find_key h b.hash ≡ some p
      → check_msg b (done h p) ≡ some c
      → (q : ℕ) → easy_at c q ≡ easy_at b q
  easy_at-check_msg {b} l h p found e q = elim (message_cases l h p found e) [
    | inl its ↦ ap (λ (z : Backend Block). easy_at z q) (sym its) ∙ easy_at-bury b h q
    | inr (s, st, x, at_s, at_p, to_p, to_s, its) ↦
        ap (λ (z : Backend Block). easy_at z q) (sym its)
        ∙ easy_at-bury (unlinked l s p st x at_s at_p to_p to_s) h q
        ∙ easy_at-unlinked l s p st x at_s at_p to_p to_s q
  ]

  pub check_msgs-done :
      (b c : Backend Block) (h p : ℕ) (ms : List Msg)
      → check_msg b (done h p) ≡ some c
      → check_msgs b (done h p ∷ ms) ≡ check_msgs c ms
  unfolding check_msgs
  check_msgs-done b c h p ms e = rw (check_msgs, e) refl

  easy_at-check_msgs :
      (ms : List Msg) {b c : Backend Block} (l : Linked b)
      → AllKnown b.hash ms
      → check_msgs b ms ≡ some c
      → (q : ℕ) → easy_at c q ≡ easy_at b q
  unfolding check_msgs
  easy_at-check_msgs [] {b} {c} l known e q =
      ap (λ (z : Backend Block). easy_at z q) (some-eq (sym e))
  easy_at-check_msgs (other ∷ ms) l known e q = easy_at-check_msgs ms l known e q
  easy_at-check_msgs (done h p ∷ ms) {b} {c} l (found, known) e q =
      let (d, at, k, hash, dead) = check_msg_lem l h p found in
      let rest : check_msgs d ms ≡ some c = sym (check_msgs-done b d h p ms at) ∙ e in
      easy_at-check_msgs ms k (subst (λ m. AllKnown m ms) (sym hash) known) rest q
      ∙ easy_at-check_msg l h p found at q

  -- The handle of a dead proxy is not in the multi handle.
  pub dead_out :
      {x : Held Block} (k : IsHeld x) (p h : ℕ)
      → has_elem p x.backend.dead ≡ true
      → easy_at x.backend p ≡ some (some h)
      → find_key h x.multi ≡ none
  dead_out {x} k p h in_dead at = elim (Option-cases (find_key h x.multi)) [
    | inl outside ↦ outside
    | inr (q, inside) ↦
        absurd (none-ne-some (sym (k.done_out p h in_dead at) ∙ k.in_table h q inside))
  ]

  -- The handles of the freed proxies, when no message was found.
  freed :
      {x : Held Block} (k : IsHeld x) (p h : ℕ)
      → easy_at x.backend p ≡ some (some h)
      → let c = collect (record x.backend { dead = [] }) in
        (easy_at c p ≡ some (some h)) ⊎ (find_key h x.multi ≡ none)
  unfolding collect has_elem
  freed {x} k p h at =
      let b : Backend Block = x.backend in
      elim (Bool-cases (has_value p b.hash)) [
        | inl owns ↦ inl (rw (easy_at, owns) at)
        | inr not_owned ↦ elim (Option-cases (b.heap p)) [
          | inl gone ↦ absurd (none-ne-some (sym (easy_at-none b p gone) ∙ at))
          | inr (z, at_p) ↦ elim (k.linked.kept p z at_p) [
            | inl (h', key', found) ↦
                let clash : true ≡ false =
                  sym (has_value_of_find_key h' p b.hash found) ∙ not_owned in
                absurd (cc)
            | inr in_dead ↦ inr (dead_out k p h in_dead at)
          ]
        ]
      ]

  pub check_collects :
      (b : Backend Block) → check_curl_multi_info b [] ≡ some (collect (record b { dead = [] }))
  unfolding check_curl_multi_info
  check_collects b = refl

  pub check_messages :
      (b : Backend Block) (m : Msg) (ms : List Msg)
      → check_curl_multi_info b (m ∷ ms) ≡ check_msgs b (m ∷ ms)
  unfolding check_curl_multi_info
  check_messages b m ms = refl

  -- The agreement holds after every `CheckCurlMultiInfo` on known messages, and a proxy that the call
  -- frees had its handle removed: after it a proxy lives, with its handle, or libcurl does not have that
  -- handle in its multi handle.
  pub check_held_lem :
      {x : Held Block} (k : IsHeld x) (ms : List Msg)
      → AllKnown x.backend.hash ms
      → (y : Held Block) × (check_held x ms ≡ some y)
        × IsHeld y
        × ((p h : ℕ)
            → easy_at x.backend p ≡ some (some h)
            → (easy_at y.backend p ≡ some (some h)) ⊎ (find_key h y.multi ≡ none))
  unfolding check_held remove_handles has_elem
  check_held_lem {x} k [] known =
      let (c, e, l, hash, dead) = check_lem [] k.linked known in
      (
        record { backend = c; multi = x.multi },
        rw (check_held, e) refl,
        record {
          linked = l;
          in_table = subst (InTable x.multi) (sym hash) k.in_table;
          done_out = λ q g in_dead at_q.
              let clash : false ≡ true = sym (ap (has_elem q) dead) ∙ in_dead in absurd (cc);
        },
        λ p h at.
            subst
              (λ (z : Backend Block). (easy_at z p ≡ some (some h)) ⊎ (find_key h x.multi ≡ none))
              (some-eq (sym (check_collects x.backend) ∙ e)) (freed k p h at),
      )
  check_held_lem {x} k (m ∷ ms) known =
      let (c, e, l, hash, dead) = check_lem (m ∷ ms) k.linked known in
      let same : (q : ℕ) → easy_at c q ≡ easy_at x.backend q =
        easy_at-check_msgs (m ∷ ms) k.linked known (sym (check_messages x.backend m ms) ∙ e) in
      (
        record { backend = c; multi = remove_handles (m ∷ ms) x.multi },
        rw (check_held, e) refl,
        record {
          linked = l;
          in_table =
              subst (InTable (remove_handles (m ∷ ms) x.multi)) (sym hash)
                (removed-InTable (m ∷ ms) x.multi x.backend.hash k.in_table);
          done_out = λ q g in_dead at_q.
              ap (find_key g) hash
              ∙ finished-IsDoneOut (m ∷ ms) x.backend.hash x.backend.dead (easy_at x.backend) known
                  (Linked-Keyed k.linked) k.done_out q g (sym (ap (has_elem q) dead) ∙ in_dead)
                  (sym (same q) ∙ at_q);
        },
        λ p h at. inl (same p ∙ at),
      )
