-- ===== src/Backend/Loop/Socket.antt =====
-- `CurlSockCB` of quic_proxy_backend.cc and the registrations of the event loop.
use quic_proxy.Base.{
  ℕ, ◌≡◌, ◌≢◌, refl, sym, ap, subst, ◌∙◌, inl, inr, true, false, List, [], ◌∷◌, ◌++◌, Option, none,
  some, some-eq, none-ne-some, ◌==◌, ==_iff, if◌then◌else◌, arith, Bool-cases,
}
use quic_proxy.Base.Int.{ℤ, minus_one, int_eq, int_eq-eq}
use quic_proxy.Curl.{Proxy}
use quic_proxy.Backend.{Backend, update, find_key}
use quic_proxy.Backend.Linked.{LiveProxy, update_self, update_ne}
use quic_proxy.Backend.Sockets.{
  SocketCall, register, multi_assign, unregister, curl_poll_remove, curl_sock_cb, curl_set_sock,
  curl_remove_sock,
}
use quic_proxy.Backend.Watched.{cb_add, cb_set, cb_nothing}
use quic_proxy.Backend.Events.{socket_called}
use quic_proxy.Backend.Handles.Events.{IsCalled}
use quic_proxy.Backend.Loop.{Registry, set_fd, take_calls, Loop, IsUnwatched, IsOrderly, IsLooped}

-- `CurlSetSock` registers nothing.
take_calls-set :
    (s : ℤ) (act : ℕ) (cs : List SocketCall) (f : Registry)
    → take_calls (curl_set_sock s act ++ cs) f ≡ take_calls cs f
unfolding take_calls curl_set_sock
take_calls-set s act cs f = ground arith

pub take_calls-set_only : (s : ℤ) (act : ℕ) (f : Registry) → take_calls (curl_set_sock s act) f ≡ f
unfolding take_calls curl_set_sock
take_calls-set_only s act f = ground arith

pub take_calls-add :
    (s : ℤ) (act p : ℕ) (f : Registry)
    → take_calls (register s p ∷ (curl_set_sock s act ++ (multi_assign s p ∷ []))) f
      ≡ set_fd f s (some p)
unfolding take_calls
take_calls-add s act p f = take_calls-set s act (multi_assign s p ∷ []) (set_fd f s (some p))

module _ {Block : Type 0} (b : Backend Block) (easy : ℕ) (s : ℤ) where
  unfoldable pub release : (x : Proxy Block) → List SocketCall
  release x = if int_eq x.sockfd minus_one then [] else unregister x.sockfd ∷ []

  pub cb_release :
      (p : ℕ) (x : Proxy Block)
      → b.heap p ≡ some x
      → curl_sock_cb b easy s curl_poll_remove (some p) ≡ some (b, release x)
  unfolding curl_sock_cb curl_remove_sock release
  cb_release p x at_p = rw at_p refl

  -- A release watches no other socket.
  released :
      (x : Proxy Block) (f : Registry) (fd : ℤ) (q : ℕ)
      → take_calls (release x) f fd ≡ some q
      → f fd ≡ some q
  unfolding take_calls release
  released x f fd q e = elim (Bool-cases (int_eq x.sockfd minus_one)) [
    | inl none_yet ↦ sym (rw none_yet refl) ∙ e
    | inr real ↦ elim (Bool-cases (int_eq x.sockfd fd)) [
      | inl its ↦ absurd (none-ne-some (sym (rw (real, its) refl) ∙ e))
      | inr apart ↦ sym (rw (real, apart) refl) ∙ e
    ]
  ]

-- Whom the event loop calls is live and has the socket.
abbrev pub AllCalled : {Block : Type 0} → Loop Block → Backend Block → Registry → Type 0
AllCalled x c f =
    (fd : ℤ) (p : ℕ) → f fd ≡ some p → LiveProxy c p (λ z. z.sockfd ≡ fd) × IsCalled x.held p

-- A proxy has another socket.
abbrev with_socket : {Block : Type 0} → Backend Block → ℕ → Proxy Block → ℤ → Backend Block
with_socket b p z s = record b { heap = update b.heap p (some (record z { sockfd = s })) }

module _ {Block : Type 0} {x : Loop Block} (k : IsLooped x) (easy : ℕ) (s : ℤ) (what : ℕ) where
  -- A transfer gets its socket.
  added-AllCalled :
      (p : ℕ) (z : Proxy Block)
      → find_key easy x.held.multi ≡ some p
      → IsUnwatched x.registry p
      → x.held.backend.heap p ≡ some z
      → AllCalled x (with_socket x.held.backend p z s) (set_fd x.registry s (some p))
  added-AllCalled p z inside free at_p fd q e = elim (Bool-cases (int_eq s fd)) [
    | inl its ↦
        let same : some p ≡ some q = sym (rw its refl) ∙ e in
        let here : p ≡ q = some-eq same in
        subst
          (λ r.
            LiveProxy (with_socket x.held.backend p z s) r (λ y. y.sockfd ≡ fd) × IsCalled x.held r)
          here
          (
            (record z { sockfd = s }, update_self x.held.backend.heap p _, int_eq-eq s fd its),
            (easy, inside),
          )
    | inr apart ↦
        let before : x.registry fd ≡ some q = sym (rw apart refl) ∙ e in
        let ((y, at_q, sock), called) = k.called fd q before in
        let ne : p ≢ q = λ same. free fd (before ∙ ap some (sym same)) in
        ((y, update_ne x.held.backend.heap p _ q ne ∙ at_q, sock), called)
  ]

  -- What `CurlSockCB` gives is what is known of it.
  answered-AllCalled :
      {b c : Backend Block} {calls calls' : List SocketCall} (sockp : Option ℕ)
      → curl_sock_cb x.held.backend easy s what sockp ≡ some (b, calls')
      → curl_sock_cb x.held.backend easy s what sockp ≡ some (c, calls)
      → AllCalled x b (take_calls calls' x.registry)
      → AllCalled x c (take_calls calls x.registry)
  answered-AllCalled sockp gives e =
      subst (λ (r : Backend Block × List SocketCall). AllCalled x r.0 (take_calls r.1 x.registry))
        (some-eq (sym gives ∙ e))

  released-AllCalled :
      (z : Proxy Block)
      → AllCalled x x.held.backend (take_calls (release x.held.backend easy s z) x.registry)
  released-AllCalled z fd q e = k.called fd q (released x.held.backend easy s z x.registry fd q e)

  pub at_remove :
      (sockp : Option ℕ) (r : Backend Block × List SocketCall)
      → what ≡ curl_poll_remove
      → curl_sock_cb x.held.backend easy s curl_poll_remove sockp ≡ some r
      → curl_sock_cb x.held.backend easy s what sockp ≡ some r
  at_remove sockp r removes gives =
      ap (λ w. curl_sock_cb x.held.backend easy s w sockp) removes ∙ gives

  assigned-AllCalled :
      (p : ℕ) {c : Backend Block} {calls : List SocketCall}
      → x.registry s ≡ some p
      → curl_sock_cb x.held.backend easy s what (some p) ≡ some (c, calls)
      → AllCalled x c (take_calls calls x.registry)
  assigned-AllCalled p has e =
      let ((z, at_p, sock), called) = k.called s p has in
      elim (Bool-cases (what == curl_poll_remove)) [
        | inl removes ↦
            answered-AllCalled (some p)
              (at_remove (some p) _ ((==_iff what curl_poll_remove).0 removes)
                (cb_release x.held.backend easy s p z at_p))
              e (released-AllCalled z)
        | inr open_ ↦
            let ne : what ≢ curl_poll_remove = λ same.
              let clash : true ≡ false = sym ((==_iff what curl_poll_remove).1 same) ∙ open_ in
              absurd (cc) in
            answered-AllCalled (some p) (cb_set x.held.backend easy s what p ne) e (
              subst (AllCalled x x.held.backend) (sym (take_calls-set_only s what x.registry))
                k.called)
      ]

  pub socket-AllCalled :
      (sockp : Option ℕ) {c : Backend Block} {calls : List SocketCall}
      → IsOrderly x.held x.registry (socket_called easy s what sockp)
      → curl_sock_cb x.held.backend easy s what sockp ≡ some (c, calls)
      → AllCalled x c (take_calls calls x.registry)
  unfolding take_calls
  socket-AllCalled sockp {c} {calls} (inl (new, open_, (p, inside, free))) e =
      let found : find_key easy x.held.backend.hash ≡ some p = k.held.in_table easy p inside in
      let (z, at_p, key) = k.held.linked.keyed easy p found in
      let e' : curl_sock_cb x.held.backend easy s what none ≡ some (c, calls) =
        ap (curl_sock_cb x.held.backend easy s what) (sym new) ∙ e in
      answered-AllCalled none (cb_add x.held.backend easy s what p z open_ found at_p) e' (
        subst (AllCalled x (with_socket x.held.backend p z s))
          (sym (take_calls-add s what p x.registry)) (added-AllCalled p z inside free at_p))
  socket-AllCalled sockp {c} {calls} (inr (inl (p, assigned, has, inside, real))) e =
      assigned-AllCalled p has (ap (curl_sock_cb x.held.backend easy s what) (sym assigned) ∙ e)
  socket-AllCalled sockp {c} {calls} (inr (inr (new, removes, free))) e =
      let e' : curl_sock_cb x.held.backend easy s what none ≡ some (c, calls) =
        ap (curl_sock_cb x.held.backend easy s what) (sym new) ∙ e in
      answered-AllCalled none (at_remove none _ removes (cb_nothing k.held.linked easy s)) e'
        k.called
