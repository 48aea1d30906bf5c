-- ===== src/Curl/Keeps.antt =====
-- What the callbacks of quic_proxy_curl.cc leave of a proxy's pointers.
use quic_proxy.Base.{ℕ, ◌≡◌, ◌≤◌, refl, List, some, arith, ◌⊎◌, ◌-◌, take, [], inl, inr}
use quic_proxy.Base.Bytes.{Bytes}
use quic_proxy.HeaderBlock.{HeaderBlock}
use quic_proxy.Curl.{
  Proxy, curle_write_error, StreamCall, real_size, write_quic_callback, read_quic_callback,
  http_header_callback, status_line, field_line, end_of_head,
}

-- The stream, the handle and the socket are the same.
abbrev pub Keeps : {Block : Type 0} → (x y : Proxy Block) → Type 0
Keeps x y = (y.quic_stream ≡ x.quic_stream) × (y.easy ≡ x.easy) × (y.sockfd ≡ x.sockfd)

module _ {Block : Type 0} where
  pub write-Keeps :
      (x : Proxy Block) (contents : Bytes) (size nmemb : ℕ)
      → Keeps x (write_quic_callback x contents size nmemb).1
  unfolding write_quic_callback
  write-Keeps x contents size nmemb = ground arith

  pub read-Keeps : (x : Proxy Block) (size nmemb : ℕ) → Keeps x (read_quic_callback x size nmemb).1
  unfolding read_quic_callback
  read-Keeps x size nmemb = ground arith

module _ {Block : Type 0} (hb : HeaderBlock Block) where
  status-Keeps : (x : Proxy Block) (line : Bytes) (n : ℕ) → Keeps x (status_line hb x line n).1
  unfolding status_line
  status-Keeps x line n = ground arith

  field-Keeps : (x : Proxy Block) (line : Bytes) → Keeps x (field_line hb x line)
  unfolding field_line
  field-Keeps x line = ground arith

  end-Keeps : (x : Proxy Block) → Keeps x (end_of_head hb x).0
  unfolding end_of_head
  end-Keeps x = (refl, refl, refl)

  branches :
      (x : Proxy Block) (contents : Bytes) (size nmemb : ℕ)
      → 2 ≤ real_size size nmemb
      → let n = real_size size nmemb in
        let line = take (n - 2) contents in
        let answer = http_header_callback hb x contents size nmemb in
        (answer ≡ some (curle_write_error, x, []))
        ⊎ ((answer ≡ some (n, (end_of_head hb x).0, (end_of_head hb x).1))
            ⊎ ((answer ≡ some ((status_line hb x line n).0, (status_line hb x line n).1, []))
                ⊎ (answer ≡ some (n, field_line hb x line, []))))
  unfolding http_header_callback
  branches x contents size nmemb enough = ground arith

  -- A line of two bytes at least is read within its buffer.
  pub head-Keeps :
      (x : Proxy Block) (contents : Bytes) (size nmemb : ℕ)
      → 2 ≤ real_size size nmemb
      → (n : ℕ) × (y : Proxy Block) × (calls : List (StreamCall Block)) × (http_header_callback hb x
            contents size nmemb
          ≡ some (n, y, calls))
        × Keeps x y
  head-Keeps x contents size nmemb enough = elim (branches x contents size nmemb enough) [
    | inl e ↦ (_, _, _, e, (refl, refl, refl))
    | inr (inl e) ↦ (_, _, _, e, end-Keeps x)
    | inr (inr (inl e)) ↦ (_, _, _, e, status-Keeps x _ _)
    | inr (inr (inr e)) ↦ (_, _, _, e, field-Keeps x _)
  ]
