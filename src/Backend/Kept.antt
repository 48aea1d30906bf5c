-- ===== src/Backend/Kept.antt =====
-- The messages that quic_proxy_backend.cc works on destroy no stream.
use quic_proxy.Base.{
  ℕ, ◌≡◌, refl, sym, ap, subst, ◌∙◌, inl, inr, List, [], ◌∷◌, none, some, some-eq,
}
use quic_proxy.Stream.{set_proxy_curl}
use quic_proxy.Backend.{
  Backend, Msg, done, other, find_key, bury, collect, check_msg, check_msgs, check_curl_multi_info,
}
use quic_proxy.Backend.Linked.{Linked}
use quic_proxy.Backend.Unlink.{unlinked}
use quic_proxy.Backend.Done.{AllKnown, bury_at, message_cases, check_msg_lem}
use quic_proxy.Backend.Unmoved.{
  KeepsStreams, same-KeepsStreams, updated-KeepsStreams, then-KeepsStreams,
}
use quic_proxy.Backend.Handles.Safe.{check_msgs-done, check_collects, check_messages}

module _ {Block : Type 0} where
  buried-KeepsStreams :
      (b : Backend Block) (h p : ℕ) → find_key h b.hash ≡ some p → KeepsStreams b (bury b h)
  buried-KeepsStreams b h p found =
      same-KeepsStreams b (bury b h) (ap (λ (z : Backend Block). z.streams) (bury_at b h p found))

  message-KeepsStreams :
      {b : Backend Block} (l : Linked b) (h p : ℕ) {c : Backend Block}
      → find_key h b.hash ≡ some p
      → check_msg b (done h p) ≡ some c
      → KeepsStreams b c
  message-KeepsStreams {b} l h p found e = elim (message_cases l h p found e) [
    | inl its ↦ subst (KeepsStreams b) its (buried-KeepsStreams b h p found)
    | inr (s, st, x, at_s, at_p, to_p, to_s, its) ↦
        let d : Backend Block = unlinked l s p st x at_s at_p to_p to_s in
        subst (KeepsStreams b) its (
          then-KeepsStreams b d (bury d h)
            (updated-KeepsStreams b d s st (set_proxy_curl none st) at_s refl (λ t. refl))
            (buried-KeepsStreams d h p found))
  ]

  messages-KeepsStreams :
      (ms : List Msg) {b c : Backend Block} (l : Linked b)
      → AllKnown b.hash ms
      → check_msgs b ms ≡ some c
      → KeepsStreams b c
  unfolding check_msgs
  messages-KeepsStreams [] {b} {c} l known e =
      subst (KeepsStreams b) (some-eq e) (same-KeepsStreams b b refl)
  messages-KeepsStreams (other ∷ ms) l known e = messages-KeepsStreams ms l known e
  messages-KeepsStreams (done h p ∷ ms) {b} {c} l (found, known) e =
      let (d, at, k, hash, dead) = check_msg_lem l h p found in
      let rest : check_msgs d ms ≡ some c = sym (check_msgs-done b d h p ms at) ∙ e in
      then-KeepsStreams b d c (message-KeepsStreams l h p found at)
        (messages-KeepsStreams ms k (subst (λ m. AllKnown m ms) (sym hash) known) rest)

  pub checked-KeepsStreams :
      (ms : List Msg) {b c : Backend Block} (l : Linked b)
      → AllKnown b.hash ms
      → check_curl_multi_info b ms ≡ some c
      → KeepsStreams b c
  unfolding collect
  checked-KeepsStreams [] {b} {c} l known e =
      let d : Backend Block = collect (record b { dead = [] }) in
      subst (KeepsStreams b) (some-eq (sym (check_collects b) ∙ e)) (same-KeepsStreams b d refl)
  checked-KeepsStreams (m ∷ ms) {b} l known e =
      messages-KeepsStreams (m ∷ ms) l known (sym (check_messages b m ms) ∙ e)
