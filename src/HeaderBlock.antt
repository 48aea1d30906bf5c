-- ===== src/HeaderBlock.antt =====
-- What the program uses of spdy::SpdyHeaderBlock, QuicTextUtils and net::HttpUtil, which are not in
-- this repository. A block keeps values under names, in an order; `entries` is what its iterators
-- run through.
pub mod Sample
use quic_proxy.Base.{ℕ, ◌≡◌, ◌≢◌, Bool, List, Option, none, some}
use quic_proxy.Base.Bytes.{Bytes}

pub record HeaderBlock (Block : Type 0) : Type 0 where
  pub empty : Block
  pub entries : Block → List (Bytes × Bytes)
  pub find : Block → Bytes → Option Bytes
  -- `block[name] = value`
  pub set : Block → Bytes → Bytes → Block
  pub append_value_or_add_header : Block → Bytes → Bytes → Block
  -- What is left in a block by a move out of it, which the language leaves unspecified.
  pub moved_from : Block → Block
  pub to_lower : Bytes → Bytes
  -- What `StringToSizeT(text, &out)` leaves in `out`, given what was there.
  pub string_to_size_t : Bytes → ℕ → ℕ
  pub is_valid_header_name : Bytes → Bool
  pub find-set_self : (b : Block) (k v : Bytes) → find (set b k v) k ≡ some v
  pub find-set_ne : (b : Block) (k j v : Bytes) → k ≢ j → find (set b k v) j ≡ find b j
  -- A name that is not there yet is added; other names keep their values.
  pub find-append_new :
      (b : Block) (k v : Bytes)
      → find b k ≡ none
      → find (append_value_or_add_header b k v) k ≡ some v
  pub find-append_ne :
      (b : Block) (k j v : Bytes) → k ≢ j → find (append_value_or_add_header b k v) j ≡ find b j
