-- ===== src/Backend/Linked.antt =====
-- The pointers of quic_proxy_backend.cc: what holds between the calls.
use quic_proxy.Base.{
  ℕ, ◌≡◌, ◌≢◌, refl, subst, ◌⊎◌, inl, inr, true, List, [], ◌∷◌, Option, none, some, arith, ◌==◌,
  ==_iff, if◌then◌else◌, Bool-cases,
}
use quic_proxy.Curl.{Proxy}
use quic_proxy.Stream.{Stream, set_proxy_curl}
use quic_proxy.Backend.{
  Backend, update, find_key, erase_key, has_value, has_elem, store_proxy_curl, store_stream,
}

-- No handle stands twice in the table.
abbrev pub HasUniqueKeys : List (ℕ × ℕ) → Type 0
HasUniqueKeys [] = Unit {0}
HasUniqueKeys ((k, p) ∷ m) = (find_key k m ≡ none) × HasUniqueKeys m

-- The proxy at an address, and the stream, that fit a description.
abbrev pub LiveProxy : {Block : Type 0} → Backend Block → ℕ → (Proxy Block → Type 0) → Type 0
LiveProxy {Block} b p P = (x : Proxy Block) × (b.heap p ≡ some x) × P x

abbrev pub LiveStream : {Block : Type 0} → Backend Block → ℕ → (Stream → Type 0) → Type 0
LiveStream b s P = (st : Stream) × (b.streams s ≡ some st) × P st

pub record Linked {Block : Type 0} (b : Backend Block) : Type 0 where
  pub unique : HasUniqueKeys b.hash
  -- A stream's pointer leads to a live proxy that points back.
  pub to_proxy :
      (s p : ℕ) (st : Stream)
      → b.streams s ≡ some st
      → st.proxy_curl ≡ some p
      → LiveProxy b p (λ x. x.quic_stream ≡ some s)
  -- A proxy's pointer leads to a live stream that points back.
  pub to_stream :
      (p s : ℕ) (x : Proxy Block)
      → b.heap p ≡ some x
      → x.quic_stream ≡ some s
      → LiveStream b s (λ st. st.proxy_curl ≡ some p)
  -- The table leads to live proxies, each under its own handle.
  pub keyed : (h p : ℕ) → find_key h b.hash ≡ some p → LiveProxy b p (λ x. x.easy ≡ some h)
  -- A live proxy is in the table under its handle, or on the dead list.
  pub kept :
      (p : ℕ) (x : Proxy Block)
      → b.heap p ≡ some x
      → ((h : ℕ) × (x.easy ≡ some h) × (find_key h b.hash ≡ some p)) ⊎ (has_elem p b.dead ≡ true)
  -- The dead list leads to live proxies that serve no stream.
  pub buried : (p : ℕ) → has_elem p b.dead ≡ true → LiveProxy b p (λ x. x.quic_stream ≡ none)

module _ {A : Type 0} (f : ℕ → Option A) (k : ℕ) where
  pub update_cases :
      (v : Option A) (j : ℕ) (y : A)
      → update f k v j ≡ some y
      → ((k ≡ j) × (v ≡ some y)) ⊎ ((k ≢ j) × (f j ≡ some y))
  update_cases v j y e = ground (arith, ==_iff k j)

  pub update_self : (v : Option A) → update f k v k ≡ v
  update_self v = ground arith

  pub update_at : (v : Option A) (j : ℕ) → k ≡ j → update f k v j ≡ v
  update_at v j e = subst (λ i. update f k v i ≡ v) e (update_self v)

  pub update_ne : (v : Option A) (j : ℕ) → k ≢ j → update f k v j ≡ f j
  update_ne v j ne = ground (arith, ==_iff k j)

-- What is found at an address after a write, where the property was kept by the write.
pub update_live :
    {A : Type 0} (f : ℕ → Option A) (k : ℕ) (v : A) (P : A → Type 0) (j : ℕ) (y : A)
    → f j ≡ some y
    → P y
    → (k ≡ j → P v)
    → (z : A) × (update f k (some v) j ≡ some z) × P z
update_live f k v P j y e old new = elim (Bool-cases (k == j)) [
  | inl same ↦ (v, rw same, new ((==_iff k j).0 same))
  | inr other ↦ (y, rw other e, old)
]

pub find_key-erase_key :
    (k h : ℕ) (m : List (ℕ × ℕ))
    → find_key h (erase_key k m) ≡ (if k == h then none else find_key h m)
unfolding find_key erase_key
find_key-erase_key k h [] = ground arith
find_key-erase_key k h ((j, p) ∷ m) = ground (arith, find_key-erase_key k h m)

pub erase_key-HasUniqueKeys :
    (k : ℕ) (m : List (ℕ × ℕ)) → HasUniqueKeys m → HasUniqueKeys (erase_key k m)
unfolding erase_key
erase_key-HasUniqueKeys k [] u = tt
erase_key-HasUniqueKeys k ((j, p) ∷ m) u =
    ground (arith, erase_key-HasUniqueKeys k m u.1, find_key-erase_key k j m)

pub has_value_of_find_key :
    (h p : ℕ) (m : List (ℕ × ℕ)) → find_key h m ≡ some p → has_value p m ≡ true
unfolding find_key has_value
has_value_of_find_key h p [] e = cc
has_value_of_find_key h p ((k, q) ∷ m) e = ground (arith, has_value_of_find_key h p m)

pub find_key_of_has_value :
    (p : ℕ) (m : List (ℕ × ℕ))
    → HasUniqueKeys m
    → has_value p m ≡ true
    → (h : ℕ) × (find_key h m ≡ some p)
unfolding find_key has_value
find_key_of_has_value p [] u e = cc
find_key_of_has_value p ((k, q) ∷ m) u e = elim (Bool-cases (q == p)) [
  | inl here ↦ (k, ground (arith, ==_iff q p))
  | inr there ↦
      let (h, found) = find_key_of_has_value p m u.1 (ground arith) in
      (h, ground (arith, ==_iff k h))
]

module _ {Block : Type 0} (b : Backend Block) where
  pub store_proxy_curl_at :
      (s : ℕ) (p : Option ℕ) (st : Stream)
      → b.streams s ≡ some st
      → store_proxy_curl b s p
        ≡ some (record b { streams = update b.streams s (some (set_proxy_curl p st)) })
  unfolding store_proxy_curl
  store_proxy_curl_at s p st at_s = rw (at_s, store_proxy_curl) refl

  pub store_stream_at :
      (p : ℕ) (s : Option ℕ) (x : Proxy Block)
      → b.heap p ≡ some x
      → store_stream b p s
        ≡ some (record b { heap = update b.heap p (some (record x { quic_stream = s })) })
  unfolding store_stream
  store_stream_at p s x at_p = rw (at_p, store_stream) refl

-- The handle of the proxy at this address, if there is one.
abbrev pub easy_at : {Block : Type 0} → Backend Block → ℕ → Option (Option ℕ)
easy_at b p = elim (b.heap p) [ none ↦ none | some x ↦ some x.easy ]

-- The stream that the proxy at this address serves, if there is such a proxy.
abbrev pub stream_at : {Block : Type 0} → Backend Block → ℕ → Option (Option ℕ)
stream_at b p = elim (b.heap p) [ none ↦ none | some x ↦ some x.quic_stream ]
