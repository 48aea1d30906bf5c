-- ===== src/Backend/Done.antt =====
-- `CheckCurlMultiInfo` of quic_proxy_backend.cc on the messages that libcurl has.
use quic_proxy.Base.{
  ℕ, ◌≡◌, ◌⊎◌, some-eq, refl, sym, ap, subst, ◌∙◌, inl, inr, true, false, List, [], ◌∷◌, none, some,
  if◌then◌else◌, Option-cases, none-ne-some, is_empty,
}
use quic_proxy.Curl.{Proxy}
use quic_proxy.Stream.{Stream, set_proxy_curl}
use quic_proxy.Backend.{
  Backend, Msg, done, other, update, find_key, erase_key, has_elem, bury, detach, collect,
  check_msg, check_msgs, check_curl_multi_info,
}
use quic_proxy.Backend.Linked.{Linked, update_self, store_proxy_curl_at, store_stream_at}
use quic_proxy.Backend.Unlink.{unlinked, unlinked-Linked}
use quic_proxy.Backend.Steps.{bury-Linked, cleared-Linked}

-- Each message is of a transfer in the table, names the proxy that the table has for it, and is the
-- only one of that transfer.
abbrev pub AllKnown : List (ℕ × ℕ) → List Msg → Type 0
AllKnown m [] = Unit {0}
AllKnown m (done easy p ∷ ms) = (find_key easy m ≡ some p) × AllKnown (erase_key easy m) ms
AllKnown m (other ∷ ms) = AllKnown m ms

-- The table and the dead list after the messages.
abbrev pub running : List (ℕ × ℕ) → List Msg → List (ℕ × ℕ)
running m [] = m
running m (done easy p ∷ ms) = running (erase_key easy m) ms
running m (other ∷ ms) = running m ms

abbrev pub finished : List ℕ → List Msg → List ℕ
finished d [] = d
finished d (done easy p ∷ ms) = finished (p ∷ d) ms
finished d (other ∷ ms) = finished d ms

module _ {Block : Type 0} where
  pub bury_at :
      (b : Backend Block) (h p : ℕ)
      → find_key h b.hash ≡ some p
      → bury b h ≡ record b { hash = erase_key h b.hash; dead = p ∷ b.dead }
  unfolding bury
  bury_at b h p found = rw (found, bury) refl

  check_msg_at :
      (b : Backend Block) (h p : ℕ) (x : Proxy Block)
      → b.heap p ≡ some x
      → check_msg b (done h p) ≡ detach (bury b h) p
  unfolding check_msg
  check_msg_at b h p x at_p = rw (at_p, check_msg) refl

  detach_idle :
      (b : Backend Block) (p : ℕ) (x : Proxy Block)
      → b.heap p ≡ some x
      → x.quic_stream ≡ none
      → detach b p ≡ some b
  unfolding detach
  detach_idle b p x at_p idle = rw (at_p, idle, detach) refl

  detach_serving :
      (b : Backend Block) (s p : ℕ) (st : Stream) (x : Proxy Block)
      → b.streams s ≡ some st
      → b.heap p ≡ some x
      → x.quic_stream ≡ some s
      → detach b p
        ≡ some (record b {
          streams = update b.streams s (some (set_proxy_curl none st));
          heap = update b.heap p (some (record x { quic_stream = none }));
        })
  unfolding detach
  detach_serving b s p st x at_s at_p to_s =
      rw (at_p, to_s, detach, store_proxy_curl_at b s none st at_s)
        (store_stream_at _ p none x at_p)

  -- A transfer that serves no stream.
  pub alone :
      (b : Backend Block) (h p : ℕ) (x : Proxy Block)
      → find_key h b.hash ≡ some p
      → b.heap p ≡ some x
      → x.quic_stream ≡ none
      → check_msg b (done h p) ≡ some (bury b h)
  alone b h p x found at_p idle =
      check_msg_at b h p x at_p ∙ rw (bury_at b h p found) (detach_idle _ p x at_p idle)

  -- A transfer that serves a stream: the cut and the burial commute.
  pub serving :
      {b : Backend Block} (l : Linked b) (h s p : ℕ) (st : Stream) (x : Proxy Block)
      (at_s : b.streams s ≡ some st) (at_p : b.heap p ≡ some x) (to_p : st.proxy_curl ≡ some p)
      (to_s : x.quic_stream ≡ some s)
      → find_key h b.hash ≡ some p
      → check_msg b (done h p) ≡ some (bury (unlinked l s p st x at_s at_p to_p to_s) h)
  serving {b = b} l h s p st x at_s at_p to_p to_s found =
      check_msg_at b h p x at_p
      ∙ rw (bury_at b h p found, bury_at (unlinked l s p st x at_s at_p to_p to_s) h p found)
          (detach_serving _ s p st x at_s at_p to_s)

  -- What a message leaves, read backwards.
  pub message_cases :
      {b : Backend Block} (l : Linked b) (h p : ℕ) {c : Backend Block}
      → find_key h b.hash ≡ some p
      → check_msg b (done h p) ≡ some c
      → (bury b h ≡ c)
        ⊎ ((s : ℕ) × (st : Stream) × (x : Proxy Block) × (at_s : b.streams s ≡ some st)
            × (at_p : b.heap p ≡ some x) × (to_p : st.proxy_curl ≡ some p) × (to_s : x.quic_stream
                ≡ some s)
            × (bury (unlinked l s p st x at_s at_p to_p to_s) h ≡ c))
  message_cases {b} l h p found e =
      let (x, at_p, key) = l.keyed h p found in
      elim (Option-cases x.quic_stream) [
        | inl idle ↦ inl (some-eq (sym (alone b h p x found at_p idle) ∙ e))
        | inr (s, to_s) ↦
            let (st, at_s, to_p) = l.to_stream p s x at_p to_s in
            let its = some-eq (sym (serving l h s p st x at_s at_p to_p to_s found) ∙ e) in
            inr (s, st, x, at_s, at_p, to_p, to_s, its)
      ]

  pub check_msg_lem :
      {b : Backend Block} (l : Linked b) (h p : ℕ)
      → find_key h b.hash ≡ some p
      → (c : Backend Block) × (check_msg b (done h p) ≡ some c)
        × Linked c
        × (c.hash ≡ erase_key h b.hash)
        × (c.dead ≡ p ∷ b.dead)
  check_msg_lem {b = b} l h p found =
      let (x, at_p, key) = l.keyed h p found in
      elim (Option-cases x.quic_stream) [
        | inl idle ↦ (
          bury b h,
          alone b h p x found at_p idle,
          bury-Linked l h p x found at_p idle,
          ap (λ z. z.hash) (bury_at b h p found),
          ap (λ z. z.dead) (bury_at b h p found),
        )
        | inr (s, to_s) ↦
            let (st, at_s, to_p) = l.to_stream p s x at_p to_s in
            let c : Backend Block = unlinked l s p st x at_s at_p to_p to_s in
            (
              bury c h,
              serving l h s p st x at_s at_p to_p to_s found,
              bury-Linked (unlinked-Linked l s p st x at_s at_p to_p to_s) h p _ found
                  (update_self b.heap p _) refl,
              ap (λ z. z.hash) (bury_at c h p found),
              ap (λ z. z.dead) (bury_at c h p found),
            )
      ]

  pub check_msgs_lem :
      (ms : List Msg) {b : Backend Block} (l : Linked b)
      → AllKnown b.hash ms
      → (c : Backend Block) × (check_msgs b ms ≡ some c)
        × Linked c
        × (c.hash ≡ running b.hash ms)
        × (c.dead ≡ finished b.dead ms)
  unfolding check_msgs
  check_msgs_lem [] {b = b} l known = (b, refl, l, refl, refl)
  check_msgs_lem (other ∷ ms) l known = check_msgs_lem ms l known
  check_msgs_lem (done h p ∷ ms) {b = b} l (found, known) =
      let (c, e, k, hash, dead) = check_msg_lem l h p found in
      let (d, e', k', hash', dead') =
        check_msgs_lem ms k (subst (λ m. AllKnown m ms) (sym hash) known) in
      (
        d,
        rw (e, check_msgs) e',
        k',
        hash' ∙ ap (λ m. running m ms) hash,
        dead' ∙ ap (λ m. finished m ms) dead,
      )

  empty_tables :
      {b : Backend Block} (l : Linked b) → b.hash ≡ [] → b.dead ≡ [] → (p : ℕ) → b.heap p ≡ none
  unfolding find_key has_elem
  empty_tables {b = b} l hash dead p = elim (Option-cases (b.heap p)) [
    | inl gone ↦ gone
    | inr (x, at_p) ↦ elim (l.kept p x at_p) [
      | inl (h, key, found) ↦ absurd (none-ne-some (subst (λ m. find_key h m ≡ some p) hash found))
      | inr in_dead ↦
          let clash : false ≡ true = subst (λ m. has_elem p m ≡ true) dead in_dead in absurd (cc)
    ]
  ]

  -- Between the calls the pointers hold, each transfer that libcurl reports leaves the table, its
  -- proxy waits on the dead list, and only a call without a message clears that list.
  pub check_lem :
      (ms : List Msg) {b : Backend Block} (l : Linked b)
      → AllKnown b.hash ms
      → (c : Backend Block) × (check_curl_multi_info b ms ≡ some c)
        × Linked c
        × (c.hash ≡ running b.hash ms)
        × (c.dead ≡ (if is_empty ms then [] else finished b.dead ms))
  unfolding check_curl_multi_info collect
  check_lem [] {b = b} l known =
      (collect (record b { dead = [] }), refl, cleared-Linked l, refl, refl)
  check_lem (m ∷ ms) l known = check_msgs_lem (m ∷ ms) l known

  -- All transfers are done: the next call without a message leaves no proxy.
  pub check_frees :
      (ms : List Msg) {b : Backend Block} (l : Linked b)
      → AllKnown b.hash ms
      → running b.hash ms ≡ []
      → (c d : Backend Block) × (check_curl_multi_info b ms ≡ some c)
        × (check_curl_multi_info c [] ≡ some d)
        × ((p : ℕ) → d.heap p ≡ none)
        × ((s : ℕ) (st : Stream) → d.streams s ≡ some st → st.proxy_curl ≡ none)
  check_frees ms l known none_left =
      let (c, e, k, hash, dead) = check_lem ms l known in
      let (d, e', k', hash', dead') = check_lem [] k tt in
      let freed : (p : ℕ) → d.heap p ≡ none = empty_tables k' (hash' ∙ hash ∙ none_left) dead' in
      (
        c,
        d,
        e,
        e',
        freed,
        λ s st at_s. elim (Option-cases st.proxy_curl) [
          | inl alone ↦ alone
          | inr (p, to_p) ↦
              let (x, at_p, back) = k'.to_proxy s p st at_s to_p in
              absurd (none-ne-some (sym (freed p) ∙ at_p))
        ],
      )
