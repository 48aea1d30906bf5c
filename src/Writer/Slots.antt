-- ===== src/Writer/Slots.antt =====
-- The cache of quic_proxy_packet_writer.cc as a ring: which rows the buffered writes point into.
use quic_proxy.Base.{
  ℕ, zero, suc, ◌+◌, ◌-◌, ◌%◌, ◌^◌, ◌≤◌, ◌<◌, ◌≡◌, refl, ap, ap₂, ◌∙◌, List, [], ◌∷◌, ◌++◌, map,
  arith, length, length-append, length-set, length-take, length-drop, get_or, set, take, drop,
  get_or-set_self, get_or-set_ne, take-append_left, take-take_self, map-append,
}
use quic_proxy.Writer.{BufferedWrite, Writer, packet_of, packets, next_slot, emplaced}

-- The entries point into consecutive rows, the first into row `start`, counted round the ring.
abbrev pub Slots : ℕ → List BufferedWrite → Type 0
Slots start [] = Unit {0}
Slots start (b ∷ bs) = (b.slot ≡ start % 32) × Slots (start + 1) bs

-- Every row holds `mtu` bytes.
abbrev pub AllRows : ℕ → List (List ℕ) → Type 0
AllRows mtu [] = Unit {0}
AllRows mtu (r ∷ rs) = (length r ≡ mtu) × AllRows mtu rs

-- The representation invariant.
pub record IsValid (mtu : ℕ) (w : Writer) : Type 0 where
  pub rows : length w.writes_cache ≡ 32
  pub row_size : AllRows mtu w.writes_cache
  pub bounded : length w.buffered_writes ≤ 32
  pub slots : Slots (w.writes_cache_pos + 32 - length w.buffered_writes) w.buffered_writes

pub Slots-shift : (l : List BufferedWrite) (a b : ℕ) → a % 32 ≡ b % 32 → Slots a l → Slots b l
Slots-shift [] a b e h = tt
Slots-shift (x ∷ l) a b e h = (h.0 ∙ e, Slots-shift l (a + 1) (b + 1) (omega arith) h.1)

pub Slots-drop :
    (n : ℕ) (l : List BufferedWrite) (a : ℕ) → n ≤ length l → Slots a l → Slots (a + n) (drop n l)
Slots-drop zero l a le h = Slots-shift l a (a + 0) (omega arith) h
Slots-drop (suc n) [] a le h = tt
Slots-drop (suc n) (x ∷ l) a le h =
    Slots-shift (drop n l) (a + 1 + n) (a + suc n) (omega arith)
      (Slots-drop n l (a + 1) (omega arith) h.1)

Slots-append :
    (l : List BufferedWrite) (a : ℕ) (b : BufferedWrite)
    → b.slot ≡ (a + length l) % 32
    → Slots a l
    → Slots a (l ++ (b ∷ []))
Slots-append [] a b e h = (omega arith, tt)
Slots-append (x ∷ l) a b e h = (h.0, Slots-append l (a + 1) b (omega arith) h.1)

AllRows-set :
    (mtu : ℕ) (rs : List (List ℕ)) (i : ℕ) (r : List ℕ)
    → length r ≡ mtu
    → AllRows mtu rs
    → AllRows mtu (set rs i r)
AllRows-set mtu [] i r e h = tt
AllRows-set mtu (x ∷ rs) zero r e h = (e, h.1)
AllRows-set mtu (x ∷ rs) (suc i) r e h = (h.0, AllRows-set mtu rs i r e h.1)

pub length-get_or :
    (mtu : ℕ) (rs : List (List ℕ)) (i : ℕ)
    → i < length rs
    → AllRows mtu rs
    → length (get_or rs i []) ≡ mtu
length-get_or mtu [] i lt h = elim lt [ ]
length-get_or mtu (x ∷ rs) zero lt h = h.0
length-get_or mtu (x ∷ rs) (suc i) lt h = length-get_or mtu rs i (omega arith) h.1

-- Fewer than 32 buffered writes: the row just past them is no row of theirs.
packets-set :
    (rs : List (List ℕ)) (r : List ℕ) (l : List BufferedWrite) (a i : ℕ)
    → length l < 32
    → i ≡ (a + length l) % 32
    → Slots a l
    → map (packet_of (set rs i r)) l ≡ map (packet_of rs) l
packets-set rs r [] a i lt e h = refl
packets-set rs r (b ∷ l) a i lt e h =
    ap₂ ◌∷◌
      (ap
        (λ t. record {
          payload = take b.buf_len t;
          self_address = b.self_address;
          peer_address = b.peer_address;
        })
        (get_or-set_ne rs {i = i} {j = b.slot} r [] (omega arith)))
      (packets-set rs r l (a + 1) i (omega arith) (omega arith) h.1)

-- The row after the copy.
abbrev pub copied : Writer → List ℕ → ℕ → List ℕ
copied w buffer len = take len buffer ++ drop len (get_or w.writes_cache (next_slot w) [])

module _ {mtu : ℕ} {w : Writer} (v : IsValid mtu w) (room : length w.buffered_writes < 32)
    (buffer : List ℕ) (len self peer : ℕ) (fits : len ≤ mtu) (holds : len ≤ length buffer) where
  start : ℕ
  start = w.writes_cache_pos + 32 - length w.buffered_writes

  added : BufferedWrite
  added = record { slot = next_slot w; buf_len = len; self_address = self; peer_address = peer }

  length-copied : length (copied w buffer len) ≡ mtu
  length-copied = omega (
    arith,
    length-append (take len buffer) (drop len (get_or w.writes_cache (next_slot w) [])),
    length-take len buffer,
    length-drop len (get_or w.writes_cache (next_slot w) []),
    length-get_or mtu w.writes_cache (next_slot w) (omega (arith, v.rows)) v.row_size,
  )

  pub emplaced-IsValid : IsValid mtu (emplaced w (copied w buffer len) len self peer)
  unfolding emplaced start added
  emplaced-IsValid = record {
    rows = length-set w.writes_cache (next_slot w) (copied w buffer len) ∙ v.rows;
    row_size =
        AllRows-set mtu w.writes_cache (next_slot w) (copied w buffer len) length-copied v.row_size;
    bounded = rw length-append (omega arith);
    slots = rw length-append (
        Slots-shift (w.buffered_writes ++ (added ∷ [])) start
          ((w.writes_cache_pos + 1) % 2 ^ 64 + 32 - (length w.buffered_writes + 1)) (omega arith)
          (Slots-append w.buffered_writes start added (omega arith) v.slots));
  }

  -- The buffer gains exactly the datagram that was written; the others keep their bytes.
  pub packets-emplaced :
      packets (emplaced w (copied w buffer len) len self peer)
      ≡ packets w
        ++ (record { payload = take len buffer; self_address = self; peer_address = peer } ∷ [])
  unfolding emplaced start added
  packets-emplaced = rw (
    map-append,
    packets-set w.writes_cache (copied w buffer len) w.buffered_writes start (next_slot w) room
        (omega arith) v.slots,
    get_or-set_self w.writes_cache (next_slot w) (copied w buffer len) [] (omega (arith, v.rows)),
    take-append_left len (take len buffer) (drop len (get_or w.writes_cache (next_slot w) []))
        (omega (arith, length-take len buffer)),
    take-take_self len buffer,
  )
