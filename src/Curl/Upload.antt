-- ===== src/Curl/Upload.antt =====
-- `ReadQuicCallback` of quic_proxy_curl.cc: how the request's body reaches libcurl.
use native.Mathlib.Nat.{add-zero}
use quic_proxy.Base.{
  ap₂, drop-drop, nil_of_length, ℕ, ◌+◌, ◌-◌, ◌%◌, ◌^◌, ◌≤◌, ◌<◌, ◌≡◌, refl, sym, ap, ◌∙◌, inl, inr,
  List, [], ◌∷◌, ◌++◌, append_assoc, arith, length, take, drop, ltb, Bool-cases, length-drop,
  take-append-drop, if◌then◌else◌, false, min,
}
use quic_proxy.Base.Bytes.{Bytes}
use quic_proxy.Curl.{Proxy, real_size, read_quic_callback}

-- The position lies in the body, and the body in memory.
pub record CanRead {Block : Type 0} (p : Proxy Block) : Type 0 where
  pub within : p.request_body_pos ≤ length p.request_body
  pub small : length p.request_body < 2 ^ 64

abbrev pub remaining : {Block : Type 0} → Proxy Block → Bytes
remaining p = drop p.request_body_pos p.request_body

clamp_min : (a b : ℕ) → (if ltb a b then a else b) ≡ min a b
clamp_min a b = ground arith

-- No buffer is empty.
abbrev pub AllRoom : List (ℕ × ℕ) → Type 0
AllRoom [] = Unit {0}
AllRoom (b ∷ bs) = (0 < real_size b.0 b.1) × AllRoom bs

module _ {Block : Type 0} where
  -- The bytes that a read hands over: what fits, of what is left.
  abbrev count : Proxy Block → ℕ → ℕ → ℕ
  count p size nmemb = min (real_size size nmemb) (length (remaining p))

  read_eq :
      (p : Proxy Block) (size nmemb : ℕ)
      → CanRead p
      → let n = count p size nmemb in
        read_quic_callback p size nmemb
        ≡ (n, record p { request_body_pos = p.request_body_pos + n }, take n (remaining p))
  unfolding read_quic_callback
  read_eq p size nmemb c = elim (Bool-cases (ltb 0 left)) [
    | inl e ↦ rw e (rw (left_eq, clamp_min (real_size size nmemb) (length (remaining p)), wrap))
    | inr e ↦ rw e (rw (zero_eq e, add-zero))
  ]
    where
      left : ℕ
      left = (length p.request_body + 2 ^ 64 - p.request_body_pos) % 2 ^ 64

      left_eq : left ≡ length (remaining p)
      left_eq = omega (arith, c.within, c.small, length-drop p.request_body_pos p.request_body)

      wrap :
          (p.request_body_pos + count p size nmemb) % 2 ^ 64
          ≡ p.request_body_pos + count p size nmemb
      wrap = omega (arith, c.within, c.small, length-drop p.request_body_pos p.request_body)

      zero_eq : ltb 0 left ≡ false → count p size nmemb ≡ 0
      zero_eq e = ground (arith, left_eq)

  -- One read hands over the next bytes of the body, as many as fit and are left, returns their
  -- number, and moves the position past them. So it returns 0 only for an empty buffer or at the end.
  pub read_lem :
      (p : Proxy Block) (size nmemb : ℕ)
      → CanRead p
      → let (n, p', bytes) = read_quic_callback p size nmemb in
        (n ≡ min (real_size size nmemb) (length (remaining p)))
        × (bytes ≡ take n (remaining p))
        × (remaining p' ≡ drop n (remaining p))
        × CanRead p'
  read_lem p size nmemb c =
      let n = count p size nmemb in
      rw (read_eq p size nmemb c) (
        refl,
        refl,
        sym (drop-drop p.request_body_pos n p.request_body),
        record {
          within = omega (arith, c.within, length-drop p.request_body_pos p.request_body);
          small = c.small;
        },
      )

  -- libcurl asks again and again, with buffers of its choice.
  pub reads : Proxy Block → List (ℕ × ℕ) → Proxy Block × Bytes
  reads p [] = (p, [])
  reads p ((size, nmemb) ∷ bs) =
      let (_, p', bytes) = read_quic_callback p size nmemb in
      let (q, rest) = reads p' bs in (q, bytes ++ rest)

  -- Whatever the buffers, what has been handed over and what is left are together the body.
  pub reads_conserve :
      (p : Proxy Block) (bs : List (ℕ × ℕ))
      → CanRead p
      → let (q, bytes) = reads p bs in (bytes ++ remaining q ≡ remaining p) × CanRead q
  unfolding reads
  reads_conserve p [] c = (refl, c)
  reads_conserve p ((size, nmemb) ∷ bs) c =
      let n = count p size nmemb in
      let (_, took, left, c') = read_lem p size nmemb c in
      let (joined, c'') = reads_conserve (read_quic_callback p size nmemb).1 bs c' in
      (
        append_assoc (read_quic_callback p size nmemb).2 _ _
            ∙ ap₂ ◌++◌ took (joined ∙ left)
            ∙ take-append-drop (read_quic_callback p size nmemb).0 (remaining p),
        c'',
      )

  -- As many reads as there are bytes left, into buffers that are not empty, hand over all of them.
  pub reads_all :
      (p : Proxy Block) (bs : List (ℕ × ℕ))
      → CanRead p
      → AllRoom bs
      → length (remaining p) ≤ length bs
      → (reads p bs).1 ≡ remaining p
  unfolding reads
  reads_all p [] c room enough = sym (nil_of_length (remaining p) enough)
  reads_all p ((size, nmemb) ∷ bs) c room enough =
      let (n, took, left, c') = read_lem p size nmemb c in
      let rest = reads_all (read_quic_callback p size nmemb).1 bs c' room.1 (
        omega (
          arith,
          n,
          room.0,
          enough,
          ap length left,
          length-drop (read_quic_callback p size nmemb).0 (remaining p),
        )) in
      ap₂ ◌++◌ took (rest ∙ left)
      ∙ take-append-drop (read_quic_callback p size nmemb).0 (remaining p)
