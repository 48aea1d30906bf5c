-- ===== src/Timer/Life.antt =====
-- The life of a timer of sendmmsgtimer.cc or quic_curl_timer.cc: its constructor, any number of calls of
-- its Initialize function, and its destructor.
use quic_proxy.Base.{◌≡◌, refl, ap, inl, inr, false, List, [], ◌∷◌, ◌++◌, if◌then◌else◌, Bool-cases}
use quic_proxy.Base.Int.{ℤ, minus_one, int_eq, int_eq-eq}
use quic_proxy.Timer.{
  TimerCall, create, settime, register_fd, close, initialize_curl_timer, destroy_curl_timer,
  initialize_send_timer, destroy_send_timer,
}

-- The calls, for what timerfd_create answers each time that it might be asked.
unfoldable pub curl_timer_life : (timer_fd : ℤ) → List ℤ → List TimerCall
unfolding destroy_curl_timer initialize_curl_timer
curl_timer_life timer_fd [] = (destroy_curl_timer timer_fd).1
curl_timer_life timer_fd (a ∷ answers) =
    let (fd, calls) = initialize_curl_timer timer_fd a in calls ++ curl_timer_life fd answers

unfoldable pub send_timer_life : (interval timer_fd : ℤ) → List ℤ → List TimerCall
unfolding destroy_send_timer initialize_send_timer
send_timer_life interval timer_fd [] = (destroy_send_timer timer_fd).1
send_timer_life interval timer_fd (a ∷ answers) =
    let (fd, calls) = initialize_send_timer timer_fd a interval in
    calls ++ send_timer_life interval fd answers

-- The descriptors that are closed, and those that the event loop is to watch.
unfoldable pub closed : List TimerCall → List ℤ
closed [] = []
closed (create c ∷ cs) = closed cs
closed (settime fd a its ∷ cs) = closed cs
closed (register_fd fd ∷ cs) = closed cs
closed (close fd ∷ cs) = fd ∷ closed cs

unfoldable pub registered : List TimerCall → List ℤ
registered [] = []
registered (create c ∷ cs) = registered cs
registered (settime fd a its ∷ cs) = registered cs
registered (register_fd fd ∷ cs) = fd ∷ registered cs
registered (close fd ∷ cs) = registered cs

-- The first answer that is a descriptor, and the answers up to it.
unfoldable pub opened : List ℤ → List ℤ
opened [] = []
opened (a ∷ answers) = let rest = opened answers in if int_eq a minus_one then rest else a ∷ []

unfoldable pub tried : List ℤ → List ℤ
tried [] = []
tried (a ∷ answers) = let rest = tried answers in a ∷ (if int_eq a minus_one then rest else [])

module _ (interval : ℤ) where
  -- A timer with a descriptor keeps it, and its destructor closes it.
  armed_life :
      (fd : ℤ) (answers : List ℤ)
      → int_eq fd minus_one ≡ false
      → (curl_timer_life fd answers ≡ close fd ∷ [])
        × (send_timer_life interval fd answers ≡ close fd ∷ [])
  unfolding curl_timer_life send_timer_life initialize_curl_timer initialize_send_timer
      destroy_curl_timer destroy_send_timer
  armed_life fd [] e = (rw (e, curl_timer_life) refl, rw (e, send_timer_life) refl)
  armed_life fd (a ∷ answers) e =
      let (c, s) = armed_life fd answers e in (rw (e, curl_timer_life) c, rw (e, send_timer_life) s)

  -- However often a timer is initialized, and whatever timerfd_create answers: its destructor closes
  -- the one descriptor that was created, if one was; the event loop is asked to watch that one, and
  -- before it -1 for each time that none could be created.
  pub timer_life_lem :
      (answers : List ℤ)
      → (closed (curl_timer_life minus_one answers) ≡ opened answers)
        × (registered (curl_timer_life minus_one answers) ≡ tried answers)
        × (closed (send_timer_life interval minus_one answers) ≡ opened answers)
        × (registered (send_timer_life interval minus_one answers) ≡ tried answers)
  unfolding curl_timer_life send_timer_life initialize_curl_timer initialize_send_timer
      destroy_curl_timer destroy_send_timer closed registered opened tried
  timer_life_lem [] = (refl, refl, refl, refl)
  timer_life_lem (a ∷ answers) = elim (Bool-cases (int_eq a minus_one)) [
    | inl e ↦
        let none_yet : a ≡ minus_one = int_eq-eq a minus_one e in
        let (c, r, c', r') = timer_life_lem answers in
        rw none_yet (c, ap (λ fds. minus_one ∷ fds) r, c', ap (λ fds. minus_one ∷ fds) r')
    | inr e ↦ let (c, s) = armed_life a answers e in rw (e, c, s) (refl, refl, refl, refl)
  ]
