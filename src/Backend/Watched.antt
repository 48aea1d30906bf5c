-- ===== src/Backend/Watched.antt =====
-- What the event loop is asked to watch, by `CurlSockCB` of quic_proxy_backend.cc.
use quic_proxy.Base.{
  ℕ, ◌≡◌, ◌≢◌, refl, sym, subst, ◌∙◌, Bool, true, false, List, [], ◌∷◌, ◌++◌, Option, none, some,
  ◌⊎◌, inl, inr, arith, ◌==◌, ==_iff, beq_ne, if◌then◌else◌, Bool-cases, Option-cases,
}
use quic_proxy.Base.Int.{ℤ, minus_one, int_eq, int_eq_self, int_eq-eq}
use quic_proxy.Curl.{Proxy}
use quic_proxy.Backend.{Backend, update, find_key}
use quic_proxy.Backend.Linked.{Linked, update_self}
use quic_proxy.Backend.Steps.{with_proxy-Linked}
use quic_proxy.Backend.Sockets.{
  SocketCall, register, unregister, start_read, stop_read, start_write, stop_write, multi_assign,
  curl_poll_remove, has_in, has_out, curl_set_sock, curl_add_sock, curl_remove_sock, curl_sock_cb,
}

-- Whether a socket is watched for reading, after one call and after a list of them: the last request
-- counts. And whether it is for writing.
unfoldable pub reading : ℤ → Bool → SocketCall → Bool
reading s r (register fd p) = if int_eq fd s then true else r
reading s r (multi_assign fd p) = r
reading s r (unregister fd) = if int_eq fd s then false else r
reading s r (start_read fd) = if int_eq fd s then true else r
reading s r (stop_read fd) = if int_eq fd s then false else r
reading s r (start_write fd) = r
reading s r (stop_write fd) = r

unfoldable pub writing : ℤ → Bool → SocketCall → Bool
writing s w (register fd p) = if int_eq fd s then true else w
writing s w (multi_assign fd p) = w
writing s w (unregister fd) = if int_eq fd s then false else w
writing s w (start_read fd) = w
writing s w (stop_read fd) = w
writing s w (start_write fd) = if int_eq fd s then true else w
writing s w (stop_write fd) = if int_eq fd s then false else w

abbrev pub after : (ℤ → Bool → SocketCall → Bool) → ℤ → Bool → List SocketCall → Bool
after f s r [] = r
after f s r (c ∷ cs) = after f s (f s r c) cs

-- The socket is watched as the action says, and no other socket otherwise than before.
abbrev pub Watches : ℤ → ℕ → List SocketCall → Type 0
Watches s action calls =
    ((r : Bool) → after reading s r calls ≡ has_in action)
    × ((w : Bool) → after writing s w calls ≡ has_out action)
    × ((t : ℤ) (r : Bool) → s ≢ t → after reading t r calls ≡ r)
    × ((t : ℤ) (w : Bool) → s ≢ t → after writing t w calls ≡ w)

pub other_fd : (s t : ℤ) → s ≢ t → int_eq s t ≡ false
other_fd s t ne = elim (Bool-cases (int_eq s t)) [
  | inl e ↦ absurd (ne (int_eq-eq s t e))
  | inr e ↦ e
]

set-Watches : (s : ℤ) (act : ℕ) → Watches s act (curl_set_sock s act)
unfolding curl_set_sock reading writing
set-Watches s act = (
  λ r. ground (arith, int_eq_self s),
  λ w. ground (arith, int_eq_self s),
  λ t r ne. ground (arith, other_fd s t ne),
  λ t w ne. ground (arith, other_fd s t ne),
)

add-Watches :
    (s : ℤ) (act p : ℕ)
    → Watches s act (register s p ∷ (curl_set_sock s act ++ (multi_assign s p ∷ [])))
unfolding curl_set_sock reading writing
add-Watches s act p = (
  λ r. ground (arith, int_eq_self s),
  λ w. ground (arith, int_eq_self s),
  λ t r ne. ground (arith, other_fd s t ne),
  λ t w ne. ground (arith, other_fd s t ne),
)

module _ {Block : Type 0} (b : Backend Block) (easy : ℕ) (s : ℤ) (what : ℕ) where
  pub cb_add :
      (p : ℕ) (x : Proxy Block)
      → what ≢ curl_poll_remove
      → find_key easy b.hash ≡ some p
      → b.heap p ≡ some x
      → curl_sock_cb b easy s what none
        ≡ some (
          record b { heap = update b.heap p (some (record x { sockfd = s })) },
          register s p ∷ (curl_set_sock s what ++ (multi_assign s p ∷ [])),
        )
  unfolding curl_sock_cb curl_add_sock
  cb_add p x open_ found at_p =
      rw (beq_ne what curl_poll_remove open_, curl_sock_cb, found, curl_add_sock, at_p) refl

  pub cb_set :
      (p : ℕ)
      → what ≢ curl_poll_remove
      → curl_sock_cb b easy s what (some p) ≡ some (b, curl_set_sock s what)
  unfolding curl_sock_cb
  cb_set p open_ = rw (beq_ne what curl_poll_remove open_, curl_sock_cb) refl

  cb_remove :
      (p : ℕ) (x : Proxy Block)
      → b.heap p ≡ some x
      → x.sockfd ≢ minus_one
      → curl_sock_cb b easy s curl_poll_remove (some p) ≡ some (b, unregister x.sockfd ∷ [])
  unfolding curl_sock_cb curl_remove_sock
  cb_remove p x at_p ne = rw (at_p, other_fd x.sockfd minus_one ne) refl

module _ {Block : Type 0} {b : Backend Block} (l : Linked b) (easy p : ℕ) where
  -- For a socket of a transfer in the table, or one that was assigned to a proxy, the event loop is
  -- asked to watch it exactly for what libcurl wants, and to watch no other socket otherwise; the
  -- pointers stay right.
  pub sock_cb_lem :
      (s : ℤ) (what : ℕ) (sockp : Option ℕ)
      → what ≢ curl_poll_remove
      → find_key easy b.hash ≡ some p
      → (sockp ≡ none) ⊎ (sockp ≡ some p)
      → (c : Backend Block) × (calls : List SocketCall) × (curl_sock_cb b easy s what sockp
          ≡ some (c, calls))
        × Linked c
        × Watches s what calls
  sock_cb_lem s what sockp open_ found (inl new) =
      let (x, at_p, key) = l.keyed easy p found in
      (
        record b { heap = update b.heap p (some (record x { sockfd = s })) },
        register s p ∷ (curl_set_sock s what ++ (multi_assign s p ∷ [])),
        rw new (cb_add b easy s what p x open_ found at_p),
        with_proxy-Linked l p x (record x { sockfd = s }) at_p refl refl,
        add-Watches s what p,
      )
  sock_cb_lem s what sockp open_ found (inr old) =
      (b, curl_set_sock s what, rw old (cb_set b easy s what p open_), l, set-Watches s what)

  -- One transfer waits on two sockets, one after the other; when libcurl is done with the first, it
  -- is the second that the event loop no longer watches.
  pub remove_lem :
      (s s' : ℤ) (what what' : ℕ)
      → what ≢ curl_poll_remove
      → what' ≢ curl_poll_remove
      → s' ≢ minus_one
      → find_key easy b.hash ≡ some p
      → (c d : Backend Block) × (calls calls' : List SocketCall) × (curl_sock_cb b easy s what none
          ≡ some (c, calls))
        × (curl_sock_cb c easy s' what' none ≡ some (d, calls'))
        × (curl_sock_cb d easy s curl_poll_remove (some p) ≡ some (d, unregister s' ∷ []))
  remove_lem s s' what what' open_ open' real found =
      let (x, at_p, key) = l.keyed easy p found in
      let c : Backend Block = record b {
        heap = update b.heap p (some (record x { sockfd = s }));
      } in
      let d : Backend Block = record c {
        heap = update c.heap p (some (record x { sockfd = s' }));
      } in
      (
        c,
        d,
        _,
        _,
        cb_add b easy s what p x open_ found at_p,
        cb_add c easy s' what' p (record x { sockfd = s }) open' found (update_self b.heap p _),
        cb_remove d easy s what p (record x { sockfd = s' }) (update_self c.heap p _) real,
      )

module _ {Block : Type 0} {b : Backend Block} (l : Linked b) (easy : ℕ) (s : ℤ) where
  cb_unknown :
      (what : ℕ)
      → find_key easy b.hash ≡ none
      → what ≢ curl_poll_remove
      → curl_sock_cb b easy s what none ≡ some (b, [])
  unfolding curl_sock_cb curl_add_sock
  cb_unknown what lost open_ =
      rw (beq_ne what curl_poll_remove open_, curl_sock_cb, lost, curl_add_sock) refl

  pub cb_nothing : curl_sock_cb b easy s curl_poll_remove none ≡ some (b, [])
  unfolding curl_sock_cb curl_remove_sock
  cb_nothing = refl

  removed :
      (sockp : Option ℕ)
      → (sockp ≡ none) ⊎ ((p h : ℕ) × (sockp ≡ some p) × (find_key h b.hash ≡ some p))
      → (calls : List SocketCall) × (curl_sock_cb b easy s curl_poll_remove sockp ≡ some (b, calls))
  unfolding curl_sock_cb curl_remove_sock
  removed sockp (inl e) = ([], rw e cb_nothing)
  removed sockp (inr (p, h, e, found)) =
      let (x, at_p, key) = l.keyed h p found in
      (if int_eq x.sockfd minus_one then [] else unregister x.sockfd ∷ [], rw (e, at_p) refl)

  clash : false ≡ true → ⊥
  clash e = cc

  watched :
      (what : ℕ) (sockp : Option ℕ)
      → (sockp ≡ none) ⊎ ((p h : ℕ) × (sockp ≡ some p) × (find_key h b.hash ≡ some p))
      → what ≢ curl_poll_remove
      → (c : Backend Block) × (calls : List SocketCall) × (curl_sock_cb b easy s what sockp
          ≡ some (c, calls))
        × Linked c
  watched what sockp (inl e) open_ = elim (Option-cases (find_key easy b.hash)) [
    | inl lost ↦ (b, [], rw e (cb_unknown what lost open_), l)
    | inr (p, found) ↦
        let (c, calls, done, k, w) = sock_cb_lem l easy p s what sockp open_ found (inl e) in
        (c, calls, done, k)
  ]
  watched what sockp (inr (p, h, e, found)) open_ =
      (b, curl_set_sock s what, rw e (cb_set b easy s what p open_), l)

  -- Every call of the socket callback that libcurl may make is defined.
  pub sock_defined :
      (what : ℕ) (sockp : Option ℕ)
      → (sockp ≡ none) ⊎ ((p h : ℕ) × (sockp ≡ some p) × (find_key h b.hash ≡ some p))
      → (c : Backend Block) × (calls : List SocketCall) × (curl_sock_cb b easy s what sockp
          ≡ some (c, calls))
        × Linked c
  sock_defined what sockp k = elim (Bool-cases (what == curl_poll_remove)) [
    | inl e ↦
        let same : what ≡ curl_poll_remove = (==_iff what curl_poll_remove).0 e in
        let (calls, done) = removed sockp k in
        (b, calls, subst (λ w. curl_sock_cb b easy s w sockp ≡ some (b, calls)) (sym same) done, l)
    | inr e ↦
        let open_ : what ≢ curl_poll_remove =
          λ same. clash (sym e ∙ (==_iff what curl_poll_remove).1 same) in
        watched what sockp k open_
  ]
