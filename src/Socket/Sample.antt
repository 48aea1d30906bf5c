-- ===== src/Socket/Sample.antt =====
-- A socket whose state says how it answers: it shows that what is assumed of sockets can be met, and
-- serves the tests.
use quic_proxy.Base.{
  ◌≡◌, refl, ap, ℕ, zero, suc, Bool, true, false, List, [], ◌∷◌, ◌++◌, length, take, length-take,
  arith,
}
use quic_proxy.Base.Int.{pos}
use quic_proxy.Socket.{Socket, WriteStatus, status_ok, status_blocked, status_other, Packet}

-- The kernel takes at most `most` datagrams a call, and answers `status`.
pub record Kernel : Type 0 where
  pub traffic : List Packet
  pub most : ℕ
  pub status : WriteStatus

abbrev pub is_blocked : WriteStatus → Bool
is_blocked status_ok = false
is_blocked status_blocked = true
is_blocked (status_other n) = false

pub take-length-take : (n : ℕ) (ps : List Packet) → take n ps ≡ take (length (take n ps)) ps
take-length-take zero ps = refl
take-length-take (suc n) [] = refl
take-length-take (suc n) (p ∷ ps) = ap (λ t. p ∷ t) (take-length-take n ps)

abbrev pub socket : Socket Kernel
socket = record {
  is_write_blocked_status = is_blocked;
  write_multiple = λ fd ps k. (
    record { status = k.status; value = 0 },
    pos (length (take k.most ps)),
    record k { traffic = k.traffic ++ take k.most ps },
  );
  sent = λ k. k.traffic;
  blocked_lem = refl;
  ok_lem = refl;
  num_sent_le = λ fd ps k. omega (arith, length-take k.most ps);
  sent_lem = λ fd ps k. ap (λ t. k.traffic ++ t) (take-length-take k.most ps);
}
