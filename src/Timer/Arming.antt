-- ===== src/Timer/Arming.antt =====
-- When the timers of quic_proxy_backend.cc and sendmmsgtimer.cc are armed, and for how long.
use quic_proxy.Base.{
  ℕ, ◌+◌, ◌*◌, ◌<◌, ◌≡◌, refl, ◌↔◌, ◌⊎◌, ◌≢◌, inl, inr, [], arith, ltb, ltb→lt, Bool-cases, true,
  false,
}
use quic_proxy.Base.Int.{ℤ, pos, negsuc, minus_one, nat_part, int_eq, int_eq-eq}
use quic_proxy.Socket.{Socket}
use quic_proxy.Writer.{Writer, packets}
use quic_proxy.Writer.Slots.{IsValid}
use quic_proxy.Writer.Queue
use quic_proxy.Writer.Refine.{flush-Agrees}
use quic_proxy.Timer.{
  TimerSpec, multi_timer_spec, send_timer_spec, initialize_send_timer, initialize_curl_timer,
  ReadAnswer, send_timer_on_event, would_block,
}

abbrev pub IsNat : ℤ → Type 0
IsNat (pos n) = Unit {0}
IsNat (negsuc n) = ⊥

-- The times that timerfd_settime accepts: no negative field, nanoseconds below a second.
pub record IsAccepted (t : TimerSpec) : Type 0 where
  pub interval_sec : IsNat t.interval_sec
  pub interval_nsec : IsNat t.interval_nsec × (nat_part t.interval_nsec < 1_000_000_000)
  pub value_sec : IsNat t.value_sec
  pub value_nsec : IsNat t.value_nsec × (nat_part t.value_nsec < 1_000_000_000)

-- The first expiry in nanoseconds. A timer whose first expiry is 0 is disarmed.
abbrev pub first_expiry : TimerSpec → ℕ
first_expiry t = nat_part t.value_sec * 1_000_000_000 + nat_part t.value_nsec

-- What libcurl documents of the timer callback: -1 deletes the timer, 0 is as soon as possible, and
-- a positive timeout is in milliseconds.
abbrev pub Wanted : ℤ → ℕ → Type 0
Wanted (pos timeout_ms) ns =
    (0 < ns) × ((ns ≡ timeout_ms * 1_000_000) ⊎ ((timeout_ms ≡ 0) × (ns ≡ 1)))
Wanted (negsuc n) ns = ns ≡ 0

-- For every timeout the kernel accepts the time that is set, and the timer expires when libcurl
-- wants: after exactly the timeout if that is positive, after a nanosecond if it is 0, and never
-- if it is negative.
pub multi_timer-Wanted :
    (timeout_ms : ℤ)
    → IsAccepted (multi_timer_spec timeout_ms)
      × Wanted timeout_ms (first_expiry (multi_timer_spec timeout_ms))
unfolding multi_timer_spec
multi_timer-Wanted (pos t) = elim (Bool-cases (ltb 0 t)) [
  | inl e ↦ rw e (
    record {
      interval_sec = tt;
      interval_nsec = (tt, omega arith);
      value_sec = tt;
      value_nsec = (tt, omega arith);
    },
    (omega (arith, ltb→lt 0 t e), inl (omega arith)),
  )
  | inr e ↦ rw e (
    record {
      interval_sec = tt;
      interval_nsec = (tt, omega arith);
      value_sec = tt;
      value_nsec = (tt, omega arith);
    },
    (omega arith, inr (ground arith, refl)),
  )
]
multi_timer-Wanted (negsuc n) = (omega arith, refl)

-- The time from an expiry to the next, in nanoseconds. A timer whose interval is 0 expires once.
abbrev pub period : TimerSpec → ℕ
period t = nat_part t.interval_sec * 1_000_000_000 + nat_part t.interval_nsec

-- The flush timer's time is accepted and arms the timer exactly for an interval above 0 and below a
-- second, and the timer then expires again after each such interval.
pub send_timer-IsAccepted :
    (interval : ℤ)
    → let t = send_timer_spec interval in
      ((IsAccepted t × (0 < first_expiry t))
        ↔ (IsNat interval × (0 < nat_part interval) × (nat_part interval < 1_000_000_000)))
      × (period t ≡ nat_part interval)
unfolding send_timer_spec
send_timer-IsAccepted interval = (
  (
    (λ (a, fires). (a.value_nsec.0, omega arith, a.value_nsec.1)),
    (λ (sign, fires, small). (
      record {
        interval_sec = tt;
        interval_nsec = (sign, small);
        value_sec = tt;
        value_nsec = (sign, small);
      },
      omega arith,
    )),
  ),
  omega arith,
)

not_minus_one : (i : ℤ) → i ≢ minus_one → int_eq i minus_one ≡ false
not_minus_one i ne = elim (Bool-cases (int_eq i minus_one)) [
  | inl e ↦ absurd (ne (int_eq-eq i minus_one e))
  | inr e ↦ e
]

-- A timer is created and registered once: a second call of either function asks for nothing.
initialize_twice :
    (created other interval interval' : ℤ)
    → created ≢ minus_one
    → let fd = (initialize_send_timer minus_one created interval).0 in
      let fd' = (initialize_curl_timer minus_one created).0 in
      (initialize_send_timer fd other interval' ≡ (created, []))
      × (initialize_curl_timer fd' other ≡ (created, []))
unfolding initialize_send_timer initialize_curl_timer
initialize_twice created other interval interval' ne =
    let fresh = not_minus_one created ne in
    (rw (fresh, initialize_send_timer), rw (fresh, initialize_curl_timer))

-- The flush timer does nothing when the read would block; otherwise it flushes the queue.
pub send_timer_on_event_lem :
    {K : Type 0} (s : Socket K) {mtu : ℕ} {w : Writer} (k : K) (a : ReadAnswer)
    → IsValid mtu w
    → let (w', k') = send_timer_on_event s a w k in
      let (_, q', k'') = Queue.flush s w.fd (packets w) k in
      IsValid mtu w'
      × (((would_block a ≡ true) × (w' ≡ w) × (k' ≡ k))
          ⊎ ((would_block a ≡ false) × (packets w' ≡ q') × (k' ≡ k'')))
unfolding send_timer_on_event
send_timer_on_event_lem s {w = w} k a v = elim (Bool-cases (would_block a)) [
  | inl e ↦ rw e (v, inl (refl, refl, refl))
  | inr e ↦
      let flushed = flush-Agrees s k v in
      rw e (flushed.valid, inr (refl, flushed.holds, flushed.kernel))
]
