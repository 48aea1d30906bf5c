-- ===== src/Reader/Sample.antt =====
-- A concrete network for the reader.
use quic_proxy.Base.{
  ℕ, ◌+◌, List, [], ◌++◌, none, some, length, length-append, length-take, length-drop, take, drop,
  arith,
}
use quic_proxy.Base.Int.{pos}
use quic_proxy.Base.Bytes.{codes}
use quic_proxy.Reader.{Slot, Net}

-- The kernel fills the slots with what is queued; the time is 1000 and goes on.
abbrev pub net : Net (List Slot)
net = record {
  recvmmsg = λ slots k. (
    pos (length (take (length slots) k)),
    take (length slots) k ++ drop (length (take (length slots) k)) slots,
    drop (length slots) k,
  );
  clock = λ k n. 1000 + n;
  cmsg_space = 4;
  self_ip = λ s. some 1;
  wall_time = λ s. 0;
  ttl = λ s. none;
  wall_to_quic_time = λ t. t;
  overflow = λ s d. d;
  supply = length;
  recvmmsg_le = λ slots k. omega (arith, length-take (length slots) k);
  recvmmsg_length = λ slots k. omega (
    arith,
    length-append (take (length slots) k) (drop (length (take (length slots) k)) slots),
    length-drop (length (take (length slots) k)) slots,
    length-take (length slots) k,
  );
  supply_le = λ slots k. omega (arith, length-take (length slots) k, length-drop (length slots) k);
}

abbrev pub datagram : ℕ → Slot
datagram flags = record {
  msg_namelen = 16;
  msg_controllen = 4;
  msg_flags = flags;
  msg_len = 3;
  raw_address = 2;
  cbuf = [];
  buf = codes "abc";
}
