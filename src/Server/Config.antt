-- ===== src/Server/Config.antt =====
-- quic_proxy/proxy_quic/quic_proxy_server.cc: the constructor with `Initialize`: what it sets of the
-- QuicConfig, the epoll server's timeout, and the backend's pointer to the server. The least flow
-- control window, `kMinimumFlowControlSendWindow`, is a constant of the QUIC library, and a parameter.
use quic_proxy.Base.{
  ℕ, zero, suc, ◌≢◌, ◌⊎◌, inl, inr, sym, ap, ◌∙◌, false, Bool-cases, ==_iff, ◌+◌, ◌-◌, ◌*◌, ◌/◌,
  ◌≤◌, ◌<◌, ◌≡◌, refl, Bool, true, arith, ◌==◌, if◌then◌else◌,
}
use quic_proxy.Base.Int.{ℤ, pos, negsuc, minus_one, int_eq, int_eq-eq}
use quic_proxy.Server
use quic_proxy.Server.{Server}

-- Times are in seconds.
pub record Config : Type 0 where
  pub max_idle : ℤ
  pub default_idle : ℤ
  pub stream_window : ℕ
  pub session_window : ℕ

pub record Built : Type 0 where
  pub server : Server
  pub config : Config
  pub timeout_in_us : ℕ
  pub backend_has_server : Bool

-- Division by 2 on `int` rounds towards 0.
abbrev pub half : ℤ → ℤ
half (pos n) = pos (n / 2)
half (negsuc n) = if suc n / 2 == 0 then pos 0 else negsuc (suc n / 2 - 1)

unfoldable pub set_idle : ℤ → Config → Config
set_idle t c = if int_eq t minus_one then c else record c { max_idle = t; default_idle = half t }

-- 1 MB for a session and 64 KB for a stream, where no window has been set.
unfoldable pub set_windows : (minimum : ℕ) → Config → Config
set_windows minimum c = record c {
  stream_window = if c.stream_window == minimum then 64 * 1024 else c.stream_window;
  session_window = if c.session_window == minimum then 1 * 1024 * 1024 else c.session_window;
}

unfoldable pub construct : (minimum : ℕ) → Config → (interval idle_network_timeout : ℤ) → Built
unfolding set_idle set_windows
construct minimum c interval idle_network_timeout = record {
  server = Server.init interval;
  config = set_windows minimum (set_idle idle_network_timeout c);
  timeout_in_us = 50 * 1000;
  backend_has_server = true;
}

-- A window that was the least one gets a size, and another one is left.
abbrev pub IsSized : (minimum size before after : ℕ) → Type 0
IsSized minimum size before after =
    ((before ≡ minimum) × (after ≡ size)) ⊎ ((before ≢ minimum) × (after ≡ before))

abbrev pub negative : ℕ → ℤ
negative zero = pos 0
negative (suc n) = negsuc n

-- The second number is the half of the first, rounded towards 0.
abbrev pub IsHalf : ℤ → ℤ → Type 0
IsHalf (pos n) d = (m : ℕ) × (d ≡ pos m) × (2 * m ≤ n) × (n ≤ 2 * m + 1)
IsHalf (negsuc n) d = (m : ℕ) × (d ≡ negative m) × (2 * m ≤ suc n) × (suc n ≤ 2 * m + 1)

half-IsHalf : (t : ℤ) → IsHalf t (half t)
half-IsHalf (pos n) = (n / 2, refl, omega arith, omega arith)
half-IsHalf (negsuc zero) = (0, ground arith, omega arith, omega arith)
half-IsHalf (negsuc (suc n)) =
    let m : ℕ = suc (suc n) / 2 - 1 in (suc m, ground arith, omega arith, omega arith)

-- With a least window under 64 KB, the constructor gives 64 KB to a stream's window and 1 MB to a
-- session's where it is the least, and leaves it where it is not, so that both are then over the least.
-- An idle timeout of -1 leaves both idle times; any other is the longest one, and the default one is its
-- half, rounded towards 0.
pub construct_bounds :
    (minimum : ℕ) (c : Config) (interval t : ℤ)
    → minimum < 64 * 1024
    → minimum ≤ c.stream_window
    → minimum ≤ c.session_window
    → let c' = (construct minimum c interval t).config in
      IsSized minimum 65_536 c.stream_window c'.stream_window
      × IsSized minimum 1_048_576 c.session_window c'.session_window
      × (minimum < c'.stream_window)
      × (minimum < c'.session_window)
      × (((t ≡ minus_one) × (c'.max_idle ≡ c.max_idle) × (c'.default_idle ≡ c.default_idle))
          ⊎ ((t ≢ minus_one) × (c'.max_idle ≡ t) × IsHalf t c'.default_idle))
unfolding construct set_windows set_idle
construct_bounds minimum c interval t small le le' = elim (Bool-cases (int_eq t minus_one)) [
  | inl e ↦ rw e (
    ground (arith, ==_iff c.stream_window minimum),
    ground (arith, ==_iff c.session_window minimum),
    ground (arith, ==_iff c.stream_window minimum),
    ground (arith, ==_iff c.session_window minimum),
    inl (int_eq-eq t minus_one e, refl, refl),
  )
  | inr e ↦ rw e (
    ground (arith, ==_iff c.stream_window minimum),
    ground (arith, ==_iff c.session_window minimum),
    ground (arith, ==_iff c.stream_window minimum),
    ground (arith, ==_iff c.session_window minimum),
    inr (
      (λ same. let clash : false ≡ true = sym e ∙ ap (λ u. int_eq u minus_one) same in absurd (cc)),
      refl,
      half-IsHalf t,
    ),
  )
]
