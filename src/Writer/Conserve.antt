-- ===== src/Writer/Conserve.antt =====
-- What becomes of the datagrams given to quic_proxy_packet_writer.cc: none is lost, sent twice or
-- overtaken.
use quic_proxy.Base.{
  ◌&&◌, if◌then◌else◌, ℕ, ◌≡◌, sym, ap, ◌∙◌, List, [], ◌∷◌, ◌++◌, some, append_assoc, append-nil,
  arith, take, Bool-cases, inl, inr, is_empty, take-append-drop,
}
use quic_proxy.Base.Int.{ℤ, is_pos, nat_part, nat_part-not_pos}
use quic_proxy.Socket.{Socket, WriteResult, Packet}
use quic_proxy.Writer.{Writer, packets}
use quic_proxy.Writer.Slots.{IsValid}
use quic_proxy.Writer.History.{AllFit, run, run_refines}
use quic_proxy.Writer.Queue
use quic_proxy.Writer.Queue.{Queue, Call, writes, flushes, written, added, accepted}

take-append-erase_sent : (q : Queue) (num : ℤ) → take (nat_part num) q ++ Queue.erase_sent q num ≡ q
take-append-erase_sent q num = elim (Bool-cases (is_pos num)) [
  | inl e ↦ rw e (take-append-drop (nat_part num) q)
  | inr e ↦ rw (e, nat_part-not_pos num e)
]

module _ {K : Type 0} (s : Socket K) (fd : ℤ) where
  flush-sent :
      (q : Queue) (k : K)
      → s.sent (Queue.flush s fd q k).2 ++ (Queue.flush s fd q k).1 ≡ s.sent k ++ q
  unfolding Queue.flush
  flush-sent q k = elim (Bool-cases (is_empty q)) [
    | inl e ↦ rw e
    | inr e ↦
        rw
          (e, s.sent_lem fd q k, append_assoc, take-append-erase_sent q (s.write_multiple fd q k).1)
  ]

  send_if_full-sent :
      (len : ℕ) (q : Queue) (k : K)
      → let (_, q', k') = Queue.send_if_full s fd len q k in s.sent k' ++ q' ≡ s.sent k ++ q
  unfolding Queue.send_if_full
  send_if_full-sent len q k = ground (arith, flush-sent q k)

  write-sent :
      (q : Queue) (k : K) (p : Packet) (len : ℕ)
      → let (_, q', k') = Queue.write s fd q k p len in
        s.sent k' ++ q'
        ≡ s.sent k
          ++ q
          ++ (if Queue.is_full q && Queue.is_full (Queue.flush s fd q k).1 then [] else p ∷ [])
  unfolding Queue.write
  write-sent q k p len = elim (Bool-cases (Queue.is_full q)) [
    | inl e ↦
        let (_, q', k') = Queue.flush s fd q k in
        elim (Bool-cases (Queue.is_full q')) [
          | inl f ↦ rw (e, f) (flush-sent q k ∙ sym (append-nil (s.sent k ++ q)))
          | inr f ↦
              rw (e, f)
                (send_if_full-sent len (q' ++ (p ∷ [])) k'
                  ∙ sym (append_assoc (s.sent k') q' (p ∷ []))
                  ∙ ap (λ t. t ++ (p ∷ [])) (flush-sent q k))
        ]
    | inr e ↦
        rw e (send_if_full-sent len (q ++ (p ∷ [])) k ∙ sym (append_assoc (s.sent k) q (p ∷ [])))
  ]

  step-sent :
      (c : Call) (q : Queue) (k : K)
      → let (_, q', k') = Queue.step s fd c q k in
        s.sent k' ++ q' ≡ s.sent k ++ q ++ added s fd c q k
  unfolding Queue.step
  step-sent (writes buffer len self peer) q k = write-sent q k (written buffer len self peer) len
  step-sent flushes q k = flush-sent q k ∙ sym (append-nil (s.sent k ++ q))

  run-sent :
      (cs : List Call) (q : Queue) (k : K)
      → let (_, q', k') = Queue.run s fd cs q k in
        s.sent k' ++ q' ≡ s.sent k ++ q ++ accepted s fd cs q k
  unfolding Queue.run accepted
  run-sent [] q k = sym (append-nil (s.sent k ++ q))
  run-sent (c ∷ cs) q k =
      let (_, q', k') = Queue.step s fd c q k in
      run-sent cs q' k'
      ∙ ap (λ t. t ++ accepted s fd cs q' k') (step-sent c q k)
      ∙ append_assoc (s.sent k ++ q) (added s fd c q k) (accepted s fd cs q' k')

-- Whatever the calls, the traffic and then what the writer still holds are the earlier traffic,
-- the datagrams held before, and the datagrams accepted since, each once and in this order.
pub run_conserves :
    {K : Type 0} (s : Socket K) {mtu : ℕ} (cs : List Call) (w : Writer) (k : K)
    → IsValid mtu w
    → AllFit mtu cs
    → (rs : List WriteResult) × (w' : Writer) × (k' : K) × (run s cs w k ≡ some (rs, w', k'))
      × (s.sent k' ++ packets w' ≡ s.sent k ++ packets w ++ accepted s w.fd cs (packets w) k)
run_conserves s cs w k v f =
    let (w', r, h, _) = run_refines s cs w k v f in
    (_, w', _, r, rw h (run-sent s w.fd cs (packets w) k))
