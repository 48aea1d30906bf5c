-- ===== src/Timer.antt =====
-- The two timers of the event loop: quic_proxy/proxy_quic/sendmmsgtimer.h and .cc, which flushes
-- the packet writer, and quic_curl_timer.h and .cc with `CurlMultiTimerCB` of
-- quic_proxy_backend.cc, by which libcurl asks for a timeout.
--
-- timerfd_create, timerfd_settime, read and `RegisterFD` are calls of the system and of the epoll
-- server: what the code asks of them is recorded as a list of `TimerCall`, and what they answer is
-- an argument. A time is a `struct itimerspec`, whose fields are signed.
pub mod Arming
pub mod Life
mod Tests
use quic_proxy.Base.{
  true, false, ℕ, ◌*◌, ◌/◌, ◌%◌, Bool, ◌&&◌, List, [], ◌∷◌, ltb, ◌==◌, if◌then◌else◌,
}
use quic_proxy.Base.Int.{ℤ, pos, negsuc, minus_one, int_eq}
use quic_proxy.Socket.{Socket, WriteResult}
use quic_proxy.Writer.{Writer, flush}

pub record TimerSpec : Type 0 where
  pub interval_sec : ℤ
  pub interval_nsec : ℤ
  pub value_sec : ℤ
  pub value_nsec : ℤ

-- memset to 0
abbrev pub zero_spec : TimerSpec
zero_spec = record {
  interval_sec = pos 0;
  interval_nsec = pos 0;
  value_sec = pos 0;
  value_nsec = pos 0;
}

pub data Clock : Type 0 where
  monotonic realtime : Clock

-- `settime` has the TIMER_ABSTIME flag or none. `register_fd` is for EPOLLIN | EPOLLOUT | EPOLLET.
pub data TimerCall : Type 0 where
  create : Clock → TimerCall
  settime : (fd : ℤ) (absolute : Bool) (its : TimerSpec) → TimerCall
  register_fd close : ℤ → TimerCall

-- `CurlMultiTimerCB`: the time that it sets for libcurl's `timeout_ms`.
pub multi_timer_spec : ℤ → TimerSpec
multi_timer_spec (pos timeout_ms) =
    if ltb 0 timeout_ms
    then record {
      interval_sec = pos 1;
      interval_nsec = pos 0;
      value_sec = pos (timeout_ms / 1000);
      value_nsec = pos (timeout_ms % 1000 * 1000 * 1000);
    }
    else record {
      interval_sec = pos 1;
      interval_nsec = pos 0;
      value_sec = pos 0;
      value_nsec = pos 1;
    }
multi_timer_spec (negsuc n) = zero_spec

-- `CurlMultiTimerCB` on the timer's descriptor; it returns 0.
pub curl_multi_timer_cb : (timer_fd timeout_ms : ℤ) → ℕ × List TimerCall
curl_multi_timer_cb timer_fd timeout_ms =
    (0, settime timer_fd false (multi_timer_spec timeout_ms) ∷ [])

-- `QuicCurlTimer::InitializeCurlTimer`, with the descriptor that timerfd_create returns.
unfoldable pub initialize_curl_timer : (timer_fd created : ℤ) → ℤ × List TimerCall
initialize_curl_timer timer_fd created =
    if int_eq timer_fd minus_one
    then (
      created,
      create monotonic
          ∷ settime created false (record zero_spec { interval_sec = pos 1; value_sec = pos 1 })
          ∷ register_fd created
          ∷ [],
    )
    else (timer_fd, [])

-- `QuicCurlTimer::~QuicCurlTimer`
unfoldable pub destroy_curl_timer : (timer_fd : ℤ) → ℤ × List TimerCall
destroy_curl_timer timer_fd =
    if int_eq timer_fd minus_one then (timer_fd, []) else (minus_one, close timer_fd ∷ [])

-- The time that `SendMMsgTimer::InitializeTimer` sets: the interval is in nanoseconds.
pub send_timer_spec : ℤ → TimerSpec
send_timer_spec interval = record {
  interval_sec = pos 0;
  interval_nsec = interval;
  value_sec = pos 0;
  value_nsec = interval;
}

unfoldable pub initialize_send_timer : (timer_fd created interval : ℤ) → ℤ × List TimerCall
initialize_send_timer timer_fd created interval =
    if int_eq timer_fd minus_one
    then (
      created,
      create realtime ∷ settime created true (send_timer_spec interval) ∷ register_fd created ∷ [],
    )
    else (timer_fd, [])

-- `SendMMsgTimer::~SendMMsgTimer`
unfoldable pub destroy_send_timer : (timer_fd : ℤ) → ℤ × List TimerCall
destroy_send_timer timer_fd =
    if int_eq timer_fd minus_one then (timer_fd, []) else (minus_one, close timer_fd ∷ [])

-- The answer of read(2) on a timer's descriptor: its return value, and errno.
pub record ReadAnswer : Type 0 where
  pub err : ℤ
  pub errno : ℕ

-- The early return of both `OnEvent` functions. A short read is not looked at.
abbrev pub would_block : ReadAnswer → Bool
would_block a = int_eq a.err minus_one && a.errno == 11

module _ {K : Type 0} (s : Socket K) where
  -- `SendMMsgTimer::OnEvent`
  pub send_timer_on_event : ReadAnswer → Writer → K → Writer × K
  send_timer_on_event a w k =
      let (_, w', k') = flush s w k in if would_block a then (w, k) else (w', k')
