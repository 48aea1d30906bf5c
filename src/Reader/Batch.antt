-- ===== src/Reader/Batch.antt =====
-- What one call of the reader in quic_proxy_packet_reader.cc hands on.
use quic_proxy.Base.{
  ℕ, ◌≡◌, ◌≢◌, refl, sym, ap, ap₂, ◌∙◌, Bool, true, false, List, [], ◌∷◌, ◌++◌, map, Option, none,
  some, ◌==◌, if◌then◌else◌, take, arith, ◌⊎◌, inl, inr, ◌↔◌, Bool-cases, ◌||◌,
}
use quic_proxy.Base.Int.{ℤ, pos, is_pos, int_eq, int_eq-eq, nat_part, nat_part-not_pos}
use quic_proxy.Reader.{
  reset, Slot, Net, Received, is_ctrunc, is_trunc, received, timestamp_of, dispatch_one, dispatch,
  read_and_dispatch_packets,
}

full_iff : (n : ℤ) → (int_eq n (pos 16) ≡ true) ↔ (n ≡ pos 16)
full_iff n = (int_eq-eq n (pos 16), λ e. ap (λ i. int_eq i (pos 16)) e)

empty_iff : (n : ℤ) → is_pos n ≡ false → (false ≡ true) ↔ (n ≡ pos 16)
empty_iff n e = (λ c. absurd (cc), λ full. sym e ∙ ap is_pos full)

module _ {K : Type 0} (net : Net K) (port : ℕ) where
  -- The packets that a reader should hand on, when the time now is `now`: those that are not empty,
  -- not cut, and have the address that they were sent to, with the time of the kernel or `now`.
  abbrev pub time_at : ℕ → Slot → ℕ
  time_at now s = if net.wall_time s == 0 then now else net.wall_to_quic_time (net.wall_time s)

  abbrev pub is_dropped : Slot → Bool
  is_dropped s = s.msg_len == 0 || is_ctrunc s || is_trunc s

  unfoldable pub packet_at : ℕ → Slot → List Received
  packet_at now s = elim (net.self_ip s) [
    | none ↦ []
    | some ip ↦ if is_dropped s then [] else received net port ip (time_at now s) s ∷ []
  ]

  unfoldable pub packets_at : ℕ → List Slot → List Received
  unfolding packet_at
  packets_at now [] = []
  packets_at now (s ∷ ss) = packet_at now s ++ packets_at now ss

  -- The clock has not been read, or once and then it gave `now`.
  abbrev pub IsRead : ℕ → ℕ × ℕ → Type 0
  IsRead now st = ((st.0 ≡ 0) × (st.1 ≡ 0)) ⊎ ((st.0 ≡ 1) × (st.1 ≡ now))

  one_lem :
      (clock : ℕ → ℕ) (reads fallback : ℕ) (s : Slot)
      → clock 0 ≢ 0
      → IsRead (clock 0) (reads, fallback)
      → let (out, st) = dispatch_one net port clock (reads, fallback) s in
        (out ≡ packet_at (clock 0) s) × IsRead (clock 0) st
  unfolding dispatch_one packet_at timestamp_of
  one_lem clock reads fallback s set (inl (a, b)) = ground arith
  one_lem clock reads fallback s set (inr (a, b)) = ground arith

  dispatch_lem :
      (ss : List Slot) (clock : ℕ → ℕ) (reads fallback : ℕ)
      → clock 0 ≢ 0
      → IsRead (clock 0) (reads, fallback)
      → (dispatch net port clock (reads, fallback) ss).0 ≡ packets_at (clock 0) ss
  unfolding dispatch packets_at
  dispatch_lem [] clock reads fallback set r = refl
  dispatch_lem (s ∷ ss) clock reads fallback set r =
      let (now, later) = one_lem clock reads fallback s set r in
      let st = (dispatch_one net port clock (reads, fallback) s).1 in
      ap₂ ◌++◌ now (dispatch_lem ss clock st.0 st.1 set later)

  -- One call hands on, of the datagrams that the kernel gave, in order, those that are not empty, not
  -- cut, and have an own address; each has the kernel's time, or else all the same reading of the
  -- clock, if that is not 0. The caller is to call again exactly if the batch was full.
  pub read_lem :
      (slots : List Slot) (packets_dropped : Option ℕ) (k : K)
      → let (n, slots', k') = net.recvmmsg (map (reset net) slots) k in
        net.clock k' 0 ≢ 0
        → let (more, slots'', out, packets_dropped', k'') =
            read_and_dispatch_packets net port slots packets_dropped k in
          ((more ≡ true) ↔ (n ≡ pos 16))
          × (out ≡ packets_at (net.clock k' 0) (take (nat_part n) slots'))
          × (k'' ≡ k')
  unfolding read_and_dispatch_packets packets_at
  read_lem slots packets_dropped k set =
      let n = (net.recvmmsg (map (reset net) slots) k).0 in
      let slots' = (net.recvmmsg (map (reset net) slots) k).1 in
      let k' = (net.recvmmsg (map (reset net) slots) k).2 in
      let out = dispatch_lem (take (nat_part n) slots') (net.clock k') 0 0 set (inl (refl, refl)) in
      elim (Bool-cases (is_pos n)) [
        | inl some_ ↦ rw some_ (full_iff n, out, refl)
        | inr none_ ↦ rw (none_, nat_part-not_pos n none_) (empty_iff n none_, refl, refl)
      ]
