-- ===== src/HeaderBlock/Sample.antt =====
-- A header block as an association list: it shows that what is assumed of blocks can be met, and
-- serves the tests.
use quic_proxy.Base.{
  ℕ, ◌+◌, ◌-◌, ◌*◌, ◌≡◌, ◌≢◌, not, ◌&&◌, List, [], ◌∷◌, ◌++◌, map, Option, none, some, arith, leb,
  if◌then◌else◌, is_empty,
}
use quic_proxy.Base.Bytes.{Bytes, bytes_eq, bytes_eq_iff, bytes_eq_self}
use quic_proxy.HeaderBlock.{HeaderBlock}

abbrev pub Block : Type 0
Block = List (Bytes × Bytes)

unfoldable pub find : Block → Bytes → Option Bytes
unfolding bytes_eq
find [] j = none
find ((k, v) ∷ b) j = if bytes_eq k j then some v else find b j

unfoldable pub set : Block → Bytes → Bytes → Block
unfolding bytes_eq
set [] k v = (k, v) ∷ []
set ((j, w) ∷ b) k v = if bytes_eq j k then (j, v) ∷ b else (j, w) ∷ set b k v

-- Further values stand behind a NUL.
unfoldable pub append : Block → Bytes → Bytes → Block
unfolding bytes_eq
append [] k v = (k, v) ∷ []
append ((j, w) ∷ b) k v = if bytes_eq j k then (j, w ++ (0 ∷ v)) ∷ b else (j, w) ∷ append b k v

unfoldable pub lower : ℕ → ℕ
lower c = if leb b'A' c && leb c b'Z' then c + 32 else c

unfoldable pub decimal : ℕ → Bytes → ℕ
decimal n [] = n
decimal n (d ∷ ds) = decimal (n * 10 + (d - b'0')) ds

pub find-set_self : (b : Block) (k v : Bytes) → find (set b k v) k ≡ some v
unfolding find set
find-set_self [] k v = ground (arith, bytes_eq_self k)
find-set_self ((j, w) ∷ b) k v = ground (arith, find-set_self b k v)

pub find-set_ne : (b : Block) (k j v : Bytes) → k ≢ j → find (set b k v) j ≡ find b j
unfolding find set
find-set_ne [] k j v ne = ground (arith, bytes_eq_iff k j)
find-set_ne ((i, w) ∷ b) k j v ne =
    ground (arith, bytes_eq_iff i k, bytes_eq_iff i j, find-set_ne b k j v ne)

pub find-append_new : (b : Block) (k v : Bytes) → find b k ≡ none → find (append b k v) k ≡ some v
unfolding find append
find-append_new [] k v e = ground (arith, bytes_eq_self k)
find-append_new ((j, w) ∷ b) k v e = ground (arith, find-append_new b k v)

pub find-append_ne : (b : Block) (k j v : Bytes) → k ≢ j → find (append b k v) j ≡ find b j
unfolding find append
find-append_ne [] k j v ne = ground (arith, bytes_eq_iff k j)
find-append_ne ((i, w) ∷ b) k j v ne =
    ground (arith, bytes_eq_iff i k, bytes_eq_iff i j, find-append_ne b k j v ne)

abbrev pub sample : HeaderBlock Block
sample = record {
  empty = [];
  entries = λ b. b;
  find = find;
  set = set;
  append_value_or_add_header = append;
  moved_from = λ b. [];
  to_lower = map lower;
  string_to_size_t = λ text old. decimal 0 text;
  is_valid_header_name = λ text. not (is_empty text);
  find-set_self = find-set_self;
  find-set_ne = find-set_ne;
  find-append_new = find-append_new;
  find-append_ne = find-append_ne;
}
