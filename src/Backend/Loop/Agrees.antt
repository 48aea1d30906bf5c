-- ===== src/Backend/Loop/Agrees.antt =====
-- `CurlSockCB` of quic_proxy_backend.cc has the event loop watch what libcurl uses, and nothing else.
use quic_proxy.Base.{
  ℕ, ◌≡◌, ◌≢◌, refl, sym, ap, subst, ◌∙◌, inl, inr, true, false, List, Option, none, some, some-eq,
  ◌==◌, ==_iff, beq_ne, Bool-cases, fun_ext,
}
use quic_proxy.Base.Int.{ℤ, minus_one, int_eq, int_eq-eq}
use quic_proxy.Curl.{Proxy}
use quic_proxy.Backend.{Backend, find_key}
use quic_proxy.Backend.Sockets.{SocketCall, curl_poll_remove, curl_sock_cb}
use quic_proxy.Backend.Watched.{cb_add, cb_set, cb_nothing, other_fd}
use quic_proxy.Backend.Events.{socket_called}
use quic_proxy.Backend.Loop.{Registry, set_fd, take_calls, wanted, Loop, IsOrderly, IsLooped}
use quic_proxy.Backend.Loop.Socket.{
  release, cb_release, at_remove, take_calls-set_only, take_calls-add,
}

-- What is there already is put there again.
set_fd-same : (f : Registry) (s : ℤ) (v : Option ℕ) → f s ≡ v → f ≡ set_fd f s v
set_fd-same f s v has = fun_ext λ fd. elim (Bool-cases (int_eq s fd)) [
  | inl its ↦ ap f (sym (int_eq-eq s fd its)) ∙ has ∙ sym (rw its refl)
  | inr apart ↦ sym (rw apart refl)
]

module _ {Block : Type 0} {x : Loop Block} (k : IsLooped x) (easy : ℕ) (s : ℤ) (what : ℕ) where
  abbrev Agreed : List SocketCall → Type 0
  Agreed calls = take_calls calls x.registry ≡ set_fd x.registry s (wanted x.held easy what)

  wanted_open : what ≢ curl_poll_remove → wanted x.held easy what ≡ find_key easy x.held.multi
  unfolding wanted
  wanted_open open_ = rw (beq_ne what curl_poll_remove open_) refl

  wanted_removed : what ≡ curl_poll_remove → wanted x.held easy what ≡ none
  unfolding wanted
  wanted_removed removes = rw ((==_iff what curl_poll_remove).1 removes) refl

  -- What `CurlSockCB` gives is what is known of it.
  answered-Agreed :
      {b c : Backend Block} {calls calls' : List SocketCall} (sockp : Option ℕ)
      → curl_sock_cb x.held.backend easy s what sockp ≡ some (b, calls')
      → curl_sock_cb x.held.backend easy s what sockp ≡ some (c, calls)
      → Agreed calls'
      → Agreed calls
  answered-Agreed sockp gives e =
      subst (λ (r : Backend Block × List SocketCall). Agreed r.1) (some-eq (sym gives ∙ e))

  -- The socket of a proxy is released.
  take_calls-release :
      (z : Proxy Block)
      → z.sockfd ≡ s
      → s ≢ minus_one
      → take_calls (release x.held.backend easy s z) x.registry ≡ set_fd x.registry s none
  unfolding take_calls release
  take_calls-release z its real = rw (its, other_fd s minus_one real) refl

  assigned-Agreed :
      (p : ℕ) {c : Backend Block} {calls : List SocketCall}
      → x.registry s ≡ some p
      → find_key easy x.held.multi ≡ some p
      → s ≢ minus_one
      → curl_sock_cb x.held.backend easy s what (some p) ≡ some (c, calls)
      → Agreed calls
  assigned-Agreed p has inside real e =
      let ((z, at_p, sock), called) = k.called s p has in
      elim (Bool-cases (what == curl_poll_remove)) [
        | inl is_remove ↦
            let removes : what ≡ curl_poll_remove = (==_iff what curl_poll_remove).0 is_remove in
            answered-Agreed (some p)
              (at_remove k easy s what (some p) _ removes
                (cb_release x.held.backend easy s p z at_p))
              e
              (take_calls-release z sock real
                ∙ ap (set_fd x.registry s) (sym (wanted_removed removes)))
        | inr open_ ↦
            let ne : what ≢ curl_poll_remove = λ same.
              let clash : true ≡ false = sym ((==_iff what curl_poll_remove).1 same) ∙ open_ in
              absurd (cc) in
            answered-Agreed (some p) (cb_set x.held.backend easy s what p ne) e (
              take_calls-set_only s what x.registry
              ∙ set_fd-same x.registry s _ (has ∙ sym (wanted_open ne ∙ inside)))
      ]

  pub socket-Agreed :
      (sockp : Option ℕ) {c : Backend Block} {calls : List SocketCall}
      → IsOrderly x.held x.registry (socket_called easy s what sockp)
      → curl_sock_cb x.held.backend easy s what sockp ≡ some (c, calls)
      → take_calls calls x.registry ≡ set_fd x.registry s (wanted x.held easy what)
  unfolding take_calls
  socket-Agreed sockp {c} {calls} (inl (new, open_, (p, inside, free))) e =
      let found : find_key easy x.held.backend.hash ≡ some p = k.held.in_table easy p inside in
      let (z, at_p, key) = k.held.linked.keyed easy p found in
      let e' : curl_sock_cb x.held.backend easy s what none ≡ some (c, calls) =
        ap (curl_sock_cb x.held.backend easy s what) (sym new) ∙ e in
      answered-Agreed none (cb_add x.held.backend easy s what p z open_ found at_p) e' (
        take_calls-add s what p x.registry
        ∙ ap (set_fd x.registry s) (sym (wanted_open open_ ∙ inside)))
  socket-Agreed sockp (inr (inl (p, assigned, has, inside, real))) e =
      assigned-Agreed p has inside real
        (ap (curl_sock_cb x.held.backend easy s what) (sym assigned) ∙ e)
  socket-Agreed sockp {c} {calls} (inr (inr (new, removes, free))) e =
      let e' : curl_sock_cb x.held.backend easy s what none ≡ some (c, calls) =
        ap (curl_sock_cb x.held.backend easy s what) (sym new) ∙ e in
      answered-Agreed none
        (at_remove k easy s what none _ removes (cb_nothing k.held.linked easy s)) e'
        (set_fd-same x.registry s _ (free ∙ sym (wanted_removed removes)))
