-- ===== src/Backend/Ready.antt =====
-- The two functions through which the event loop enters libcurl: `OnEvent` of quic_proxy_curl.cc, for
-- a socket that is ready, and `OnEvent` of quic_curl_timer.cc. `curl_multi_socket_action` is a parameter,
-- given what it is told: a descriptor and the bits that say what is ready. What it does is a list of
-- callbacks, the number that it writes to `still_running_`, and the messages that it leaves.
use quic_proxy.Base.{
  ◌≡◌, false, List, [], ◌∷◌, Option, none, some, ℕ, ◌+◌, if◌then◌else◌, length, ◌%◌, ◌/◌, ◌==◌,
}
use quic_proxy.Base.Int.{ℤ, pos, minus_one, is_pos}
use quic_proxy.HeaderBlock.{HeaderBlock}
use quic_proxy.Timer.{TimerCall, settime, zero_spec, ReadAnswer, would_block}
use quic_proxy.Backend.{Msg}
use quic_proxy.Backend.Events.{Event}
use quic_proxy.Backend.Done.{AllKnown, running}
use quic_proxy.Backend.Handles.{Held, check_held, remove_handles}
use quic_proxy.Backend.Handles.Safe.{IsHeld}
use quic_proxy.Backend.Handles.Events.{run_held, AllPermitted}

-- What libcurl does in a call of `curl_multi_socket_action`.
pub record Reaction (Block : Type 0) : Type 0 where
  pub callbacks : List (Event Block)
  pub still_running : ℤ
  pub messages : List Msg

-- EPOLLIN is 1 and EPOLLOUT is 4; CURL_CSELECT_IN is 1 and CURL_CSELECT_OUT is 2.
abbrev pub select_bits : (in_events : ℕ) → ℕ
select_bits in_events =
    (if in_events % 2 == 1 then 1 else 0) + (if in_events / 4 % 2 == 1 then 2 else 0)

module _ {Block : Type 0} (hb : HeaderBlock Block) where
  -- `curl_multi_socket_action` and `CheckCurlMultiInfo`
  unfoldable pub socket_action : Held Block → Reaction Block → Option (Held Block)
  unfolding run_held check_held
  socket_action x r = elim (run_held hb x r.callbacks) [
    | none ↦ none
    | some y ↦ check_held y r.messages
  ]

  module _ (libcurl : ℤ → ℕ → Reaction Block) where
    -- `QuicProxyCurl::OnEvent`: with no transfer left the timer is disarmed.
    unfoldable pub curl_on_event :
        (timer_fd fd : ℤ) (in_events : ℕ) → Held Block → Option (Held Block × List TimerCall)
    unfolding socket_action
    curl_on_event timer_fd fd in_events x =
        let r = libcurl fd (select_bits in_events) in
        elim (socket_action x r) [
          | none ↦ none
          | some y ↦
              some
                (y, (if is_pos r.still_running then [] else settime timer_fd false zero_spec ∷ []))
        ]

    -- `QuicCurlTimer::OnEvent`. CURL_SOCKET_TIMEOUT is -1.
    unfoldable pub curl_timer_on_event : ReadAnswer → Held Block → Option (Held Block)
    unfolding socket_action
    curl_timer_on_event a x =
        if would_block a then some x else socket_action x (libcurl minus_one 0)

  -- What libcurl keeps to in a call: its callbacks are permitted, its messages are of handles that the
  -- multi handle has then, and it counts the handles of which it has not reported that they are done.
  abbrev pub IsKept : Held Block → Reaction Block → Type 0
  IsKept x r =
      AllPermitted hb x r.callbacks
      × ((y : Held Block)
          → run_held hb x r.callbacks ≡ some y
          → AllKnown y.multi r.messages
            × (r.still_running ≡ pos (length (remove_handles r.messages y.multi))))

  -- After the callbacks exactly the transfers that were reported are out of the table and of the multi
  -- handle, and these agree.
  abbrev pub IsServed : Held Block → Reaction Block → Held Block → Type 0
  IsServed x r z =
      IsHeld z
      × ((y : Held Block) × (run_held hb x r.callbacks ≡ some y)
          × (z.backend.hash ≡ running y.backend.hash r.messages)
          × (z.multi ≡ remove_handles r.messages y.multi))
