-- ===== src/Timer/Tests.antt =====
-- The timers on concrete times.
use quic_proxy.Base.{◌≡◌, refl, ◌↔◌, ◌⊎◌, ◌<◌, ℕ, replicate, List, [], ◌∷◌, arith, true, false}
use quic_proxy.Base.Int.{pos, minus_one, nat_part}
use quic_proxy.Timer.Life.{
  curl_timer_life, send_timer_life, closed, registered, opened, tried, timer_life_lem,
}
use quic_proxy.Socket.{status_ok}
use quic_proxy.Socket.Sample.{Kernel, socket}
use quic_proxy.Writer.{Writer, packets, init}
use quic_proxy.Writer.Queue
use quic_proxy.Writer.Slots.{IsValid}
use quic_proxy.Writer.Outcomes.{init-IsValid}
use quic_proxy.Timer.{
  ReadAnswer, would_block, send_timer_on_event, multi_timer_spec, send_timer_spec,
}
use quic_proxy.Timer.Arming.{
  IsAccepted, IsNat, first_expiry, period, Wanted, multi_timer-Wanted, send_timer-IsAccepted,
  send_timer_on_event_lem,
}

odd_timeout_expiry : first_expiry (multi_timer_spec (pos 2345)) ≡ 2_345_000_000
unfolding multi_timer_spec
odd_timeout_expiry = refl

multi_timer-Wanted_example :
    IsAccepted (multi_timer_spec (pos 2345))
    × Wanted (pos 2345) (first_expiry (multi_timer_spec (pos 2345)))
multi_timer-Wanted_example = multi_timer-Wanted (pos 2345)

-- The default interval, 40 ms, is accepted.
send_timer-IsAccepted_example :
    let t = send_timer_spec (pos 40_000_000) in
    ((IsAccepted t × (0 < first_expiry t)) ↔ (
      IsNat (pos 40_000_000)
      × (0 < nat_part (pos 40_000_000))
      × (nat_part (pos 40_000_000) < 1_000_000_000)))
    × (period t ≡ nat_part (pos 40_000_000))
send_timer-IsAccepted_example = send_timer-IsAccepted (pos 40_000_000)

abbrev rows : List (List ℕ)
rows = replicate 32 (0 ∷ 0 ∷ 0 ∷ [])

abbrev idle : Writer
idle = record {
  fd = pos 5;
  write_blocked = false;
  buffered_writes = [];
  writes_cache = rows;
  writes_cache_pos = 0;
}

abbrev kernel : Kernel
kernel = record { traffic = []; most = 2; status = status_ok }

abbrev expired : ReadAnswer
expired = record { err = pos 8; errno = 0 }

idle-IsValid : IsValid 3 idle
unfolding init
idle-IsValid = init-IsValid 3 (pos 5) rows refl (omega arith)

send_timer_on_event_lem_example :
    let (w', k') = send_timer_on_event socket expired idle kernel in
    let (r, q', k'') = Queue.flush socket (pos 5) (packets idle) kernel in
    IsValid 3 w'
    × (((would_block expired ≡ true) × (w' ≡ idle) × (k' ≡ kernel))
        ⊎ ((would_block expired ≡ false) × (packets w' ≡ q') × (k' ≡ k'')))
send_timer_on_event_lem_example = send_timer_on_event_lem socket kernel expired idle-IsValid

-- The first two descriptors cannot be created.
timer_life_lem_example :
    let answers = minus_one ∷ minus_one ∷ pos 6 ∷ pos 7 ∷ [] in
    (closed (curl_timer_life minus_one answers) ≡ opened answers)
    × (registered (curl_timer_life minus_one answers) ≡ tried answers)
    × (closed (send_timer_life (pos 40_000_000) minus_one answers) ≡ opened answers)
    × (registered (send_timer_life (pos 40_000_000) minus_one answers) ≡ tried answers)
timer_life_lem_example =
    timer_life_lem (pos 40_000_000) (minus_one ∷ minus_one ∷ pos 6 ∷ pos 7 ∷ [])
