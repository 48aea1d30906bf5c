-- ===== src/Reader/Drain.antt =====
-- The read loop of `OnEvent` in quic_proxy_server.cc comes to its end.
use quic_proxy.Base.{
  ℕ, zero, suc, ◌+◌, ◌*◌, ◌≤◌, ◌<◌, ◌≡◌, refl, ap, ◌∙◌, true, List, [], ◌∷◌, ◌++◌, map, Option,
  some, length, length-append, length-take, take, arith, inl, inr, Bool-cases,
}
use quic_proxy.Base.Int.{pos, is_pos, int_eq-eq, nat_part}
use quic_proxy.Reader.{
  reset, Slot, Net, Received, dispatch_one, dispatch, read_and_dispatch_packets, read_loop,
}

module _ {K : Type 0} (net : Net K) (port : ℕ) where
  length-dispatch_one :
      (clock : ℕ → ℕ) (st : ℕ × ℕ) (s : Slot) → length (dispatch_one net port clock st s).0 ≤ 1
  unfolding dispatch_one
  length-dispatch_one clock st s = ground arith

  length-dispatch :
      (clock : ℕ → ℕ) (st : ℕ × ℕ) (ss : List Slot)
      → length (dispatch net port clock st ss).0 ≤ length ss
  unfolding dispatch
  length-dispatch clock st [] = omega arith
  length-dispatch clock st (s ∷ ss) =
      let (out, st') = dispatch_one net port clock st s in
      let outs = (dispatch net port clock st' ss).0 in
      omega (
        arith,
        length-append out outs,
        length-dispatch_one clock st s,
        length-dispatch clock st' ss,
      )

  -- A batch takes what it hands on from the supply, and a full one takes 16.
  batch_lem :
      (slots : List Slot) (packets_dropped : Option ℕ) (k : K)
      → let (more, slots', out, packets_dropped', k') =
          read_and_dispatch_packets net port slots packets_dropped k in
        (length out + net.supply k' ≤ net.supply k)
        × (more ≡ true → 16 + net.supply k' ≤ net.supply k)
  unfolding read_and_dispatch_packets
  batch_lem slots packets_dropped k =
      let (n, slots', k') = net.recvmmsg (map (reset net) slots) k in
      let out = (dispatch net port (net.clock k') (0, 0) (take (nat_part n) slots')).0 in
      let short : length out ≤ nat_part n = omega (
        arith,
        length-dispatch (net.clock k') (0, 0) (take (nat_part n) slots'),
        length-take (nat_part n) slots',
      ) in
      let supplied = net.supply_le (map (reset net) slots) k in
      elim (Bool-cases (is_pos n)) [
        | inl e ↦ rw e (
          omega arith,
          λ full.
              let sixteen : nat_part n ≡ 16 = ap nat_part (int_eq-eq n (pos 16) full) in
              omega arith,
        )
        | inr e ↦ rw e (omega arith, λ full. absurd (cc))
      ]

  -- The loop ends: with fuel for a full batch after another until the supply is used up it has a
  -- result, and no more packets than the supply gives are handed on.
  pub drain_lem :
      (fuel : ℕ) (slots : List Slot) (packets_dropped : Option ℕ) (k : K)
      → net.supply k < 16 * fuel
      → (slots' : List Slot) × (out : List Received) × (packets_dropped' : Option ℕ) × (k' : K)
        × (read_loop net fuel port slots packets_dropped k
            ≡ some (slots', out, packets_dropped', k'))
        × (length out + net.supply k' ≤ net.supply k)
  unfolding read_loop
  drain_lem zero slots packets_dropped k enough = absurd (omega arith)
  drain_lem (suc fuel) slots packets_dropped k enough =
      let (more, slots', out, packets_dropped', k') =
        read_and_dispatch_packets net port slots packets_dropped k in
      let (taken, full) = batch_lem slots packets_dropped k in
      elim (Bool-cases more) [
        | inl e ↦
            let lower = full e in
            let (slots'', outs, d, k'', rest, left) =
              drain_lem fuel slots' packets_dropped' k' (omega arith) in
            (slots'', out ++ outs, d, k'', rw (e, rest) refl, omega (arith, length-append out outs))
        | inr e ↦ (slots', out, packets_dropped', k', rw e refl, taken)
      ]

  length-map : (ss : List Slot) → length (map (reset net) ss) ≡ length ss
  length-map [] = refl
  length-map (s ∷ ss) = ap suc (length-map ss)

  -- With the 16 slots of the constructor a call stays within its arrays: 16 slots are left, and at
  -- most 16 packets are handed on.
  read_bounds :
      (slots : List Slot) (packets_dropped : Option ℕ) (k : K)
      → length slots ≡ 16
      → let (more, slots', out, packets_dropped', k') =
          read_and_dispatch_packets net port slots packets_dropped k in
        (length slots' ≡ 16) × (length out ≤ 16)
  unfolding read_and_dispatch_packets
  read_bounds slots packets_dropped k sixteen =
      let (n, slots', k') = net.recvmmsg (map (reset net) slots) k in
      let out = (dispatch net port (net.clock k') (0, 0) (take (nat_part n) slots')).0 in
      let short : length out ≤ length slots' = omega (
        arith,
        length-dispatch (net.clock k') (0, 0) (take (nat_part n) slots'),
        length-take (nat_part n) slots',
      ) in
      let same : length slots' ≡ 16 =
        net.recvmmsg_length (map (reset net) slots) k ∙ length-map slots ∙ sixteen in
      elim (Bool-cases (is_pos n)) [
        | inl e ↦ rw e (same, omega arith)
        | inr e ↦ rw e (same, omega arith)
      ]
