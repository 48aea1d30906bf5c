-- ===== src/Session/Site/Served.antt =====
-- What happens to one session leaves all sessions and the backend sound.
use quic_proxy.Base.{
  ℕ, ◌≡◌, ◌≢◌, refl, sym, ap, ◌∙◌, subst, inl, inr, List, [], ◌∷◌, Option, none, some, some-eq,
  true, false, none-ne-some, ◌==◌, ==_iff, if◌then◌else◌, arith, Bool-cases, Option-cases,
}
use quic_proxy.Stream
use quic_proxy.Stream.{Stream, init_alone}
use quic_proxy.Backend.{Backend, update}
use quic_proxy.Backend.Linked.{update_cases, update_ne}
use quic_proxy.Backend.Steps.{with_stream-Linked}
use quic_proxy.Backend.Unmoved.{KeepsStreams}
use quic_proxy.Backend.Handles.{Held}
use quic_proxy.Backend.Handles.Safe.{IsHeld}
use quic_proxy.Backend.Handles.Unmoved.{Unmoved-IsHeld}
use quic_proxy.Session.{Session, Active, StreamType, activate, create_quic_session}
use quic_proxy.Session.Create.{Request, wanted, create_of_none, create_of_some}
use quic_proxy.Session.Site.{Site, find_active, erase_active, HasStream, IsServed, made_stream}

find_active-erase_active :
    (a b : ℕ) (xs : List Active)
    → find_active b (erase_active a xs) ≡ (if a == b then none else find_active b xs)
unfolding find_active erase_active
find_active-erase_active a b [] = ground arith
find_active-erase_active a b (x ∷ xs) =
    ground
      (arith, ==_iff x.address a, ==_iff x.address b, ==_iff a b, find_active-erase_active a b xs)

module _ {Block : Type 0} {w : Site Block} (k : IsServed w) where
  -- The backend moves on under the same sessions, and no stream goes.
  pub kept-IsServed :
      (y : Held Block)
      → IsHeld y
      → KeepsStreams w.held.backend y.backend
      → IsServed (record { sessions = w.sessions; held = y })
  kept-IsServed y held keeps = record {
    held = held;
    live = λ n a s x has.
        let (st, at_a, id) = k.live n a s x has in
        let (u, at_a', same) = keeps a st at_a in (u, at_a', same ∙ id);
    apart = k.apart;
  }

  -- One session has other streams, each of them its own, and live.
  changed-IsServed :
      (y : Held Block) (n : ℕ) (s' : Session)
      → IsHeld y
      → ((a : ℕ) (x : Active)
          → find_active a s'.streams ≡ some x
          → (st : Stream) × (y.backend.streams a ≡ some st) × (st.id ≡ x.id))
      → ((a m : ℕ) (x : Active) (t : Session) (z : Active)
          → find_active a s'.streams ≡ some x
          → n ≢ m
          → HasStream w m a t z
          → ⊥)
      → ((a m : ℕ) (t : Session) (z : Active)
          → n ≢ m
          → HasStream w m a t z
          → (st : Stream) × (y.backend.streams a ≡ some st) × (st.id ≡ z.id))
      → IsServed (record { sessions = update w.sessions n (some s'); held = y })
  changed-IsServed y n s' held mine alone theirs = record {
    held = held;
    live = λ m a t x (at_m, found). elim (update_cases w.sessions n (some s') m t at_m) [
      | inl (same, is) ↦
          mine a x (ap (λ (z : Session). find_active a z.streams) (some-eq is) ∙ found)
      | inr (ne, at_m') ↦ theirs a m t x ne (at_m', found)
    ];
    apart = λ m p a t u x z (at_m, found) (at_p, found').
        elim (update_cases w.sessions n (some s') m t at_m) [
          | inl (same, is) ↦ elim (update_cases w.sessions n (some s') p u at_p) [
            | inl (same', is') ↦ sym same ∙ same'
            | inr (ne', at_p') ↦ absurd (
                alone a p x u z (ap (λ (v : Session). find_active a v.streams) (some-eq is) ∙ found)
                  ne' (at_p', found'))
          ]
          | inr (ne, at_m') ↦ elim (update_cases w.sessions n (some s') p u at_p) [
            | inl (same', is') ↦ absurd (
                alone a m z t x
                  (ap (λ (v : Session). find_active a v.streams) (some-eq is') ∙ found') ne
                  (at_m', found))
            | inr (ne', at_p') ↦ k.apart m p a t u x z (at_m', found) (at_p', found')
          ]
        ];
  }

  pub session_made-IsServed :
      (n connection_id client_address version : ℕ)
      → IsServed (record {
        sessions =
            update w.sessions n (some (create_quic_session connection_id client_address version));
        held = w.held;
      })
  unfolding create_quic_session find_active
  session_made-IsServed n connection_id client_address version =
      changed-IsServed w.held n (create_quic_session connection_id client_address version) k.held
        (λ a x found. absurd (none-ne-some found)) (λ a m x t z found ne has. none-ne-some found)
        (λ a m t z ne has. k.live m a t z has)

  pub session_gone-IsServed :
      (n : ℕ) → IsServed (record { sessions = update w.sessions n none; held = w.held })
  session_gone-IsServed n = record {
    held = k.held;
    live = λ m a t x (at_m, found). k.live m a t x (left m t at_m, found);
    apart = λ m p a t u x z (at_m, found) (at_p, found').
        k.apart m p a t u x z (left m t at_m, found) (left p u at_p, found');
  }
    where
      left : (m : ℕ) (t : Session) → update w.sessions n none m ≡ some t → w.sessions m ≡ some t
      left m t e = elim (update_cases w.sessions n none m t e) [
        | inl (same, is) ↦ absurd (none-ne-some is)
        | inr (ne, at_m) ↦ at_m
      ]

  -- A session takes a stream for which the memory was free.
  activated-IsServed :
      (n a id : ℕ) (kind : StreamType) (s : Session)
      → w.sessions n ≡ some s
      → w.held.backend.streams a ≡ none
      → let (r, s', b) = activate kind id a s w.held.backend in
        IsServed (record {
          sessions = update w.sessions n (some s');
          held = record w.held { backend = b };
        })
  unfolding activate find_active Stream.init
  activated-IsServed n a id kind s at_n free =
      let streams = w.held.backend.streams in
      let b : Backend Block = record w.held.backend {
        streams = update streams a (some (Stream.init id));
      } in
      let s' = (activate kind id a s w.held.backend).1 in
      let other_one : (c : ℕ) (st : Stream) → streams c ≡ some st → a ≢ c =
        λ c st at_c e. none-ne-some (sym free ∙ ap streams e ∙ at_c) in
      let still : (c id' : ℕ)
          → ((st : Stream) × (streams c ≡ some st) × (st.id ≡ id'))
          → (st : Stream) × (b.streams c ≡ some st) × (st.id ≡ id') =
        λ c id' (st, at_c, same).
          (st, update_ne streams a (some (Stream.init id)) c (other_one c st at_c) ∙ at_c, same) in
      changed-IsServed (record w.held { backend = b }) n s'
        (Unmoved-IsHeld k.held
          (with_stream-Linked k.held.linked a (Stream.init id) free (init_alone id))
          (refl, refl, λ q. refl))
        (λ c x found. elim (Bool-cases (a == c)) [
          | inl its ↦
              let new : Active = record { id = id; address = a; stream_type = kind } in
              let is : some new ≡ some x = sym (rw its refl) ∙ found in
              (Stream.init id, rw its refl, ap (λ (z : Active). z.id) (some-eq is))
          | inr apart ↦ still c x.id (k.live n c s x (at_n, sym (rw apart refl) ∙ found))
        ])
        (λ c m x t z found ne has. elim (Bool-cases (a == c)) [
          | inl its ↦
              let (st, at_c, same) = k.live m c t z has in other_one c st at_c ((==_iff a c).0 its)
          | inr apart ↦ ne (k.apart n m c s t x z (at_n, sym (rw apart refl) ∙ found) has)
        ])
        (λ c m t z ne has. still c z.id (k.live m c t z has))

  pub stream_made-IsServed :
      (n a : ℕ) (q : Request) (s : Session)
      → w.sessions n ≡ some s
      → w.held.backend.streams a ≡ none
      → IsServed (made_stream w n q a s)
  stream_made-IsServed n a q s at_n free = elim (Option-cases (wanted q)) [
    | inl e ↦ subst Left (sym (create_of_none q a s w.held.backend e)) (
        changed-IsServed w.held n s k.held (λ c x found. k.live n c s x (at_n, found))
          (λ c m x t z found ne has. ne (k.apart n m c s t x z (at_n, found) has))
          (λ c m t z ne has. k.live m c t z has))
    | inr (z, e) ↦
        subst Left (sym (create_of_some q a s w.held.backend z e))
          (activated-IsServed n a z.0 z.1 s at_n free)
  ]
    where
      Left : Option ℕ × Session × Backend Block → Type 0
      Left (r, s', b) = IsServed (record {
        sessions = update w.sessions n (some s');
        held = record w.held { backend = b };
      })

  pub freed-IsServed :
      (n a : ℕ) (s : Session) (x : Active) (y : Held Block)
      → HasStream w n a s x
      → IsHeld y
      → ((t : ℕ) → a ≢ t → y.backend.streams t ≡ w.held.backend.streams t)
      → IsServed (record {
        sessions = update w.sessions n (some (record s { streams = erase_active a s.streams }));
        held = y;
      })
  freed-IsServed n a s x y (at_n, at_a) held others =
      let before : (c : ℕ) (z : Active)
          → find_active c (erase_active a s.streams) ≡ some z
          → (a ≢ c) × (find_active c s.streams ≡ some z) =
        λ c z found. elim (Bool-cases (a == c)) [
          | inl its ↦
              let gone : find_active c (erase_active a s.streams) ≡ none =
                find_active-erase_active a c s.streams ∙ rw its refl in
              absurd (none-ne-some (sym gone ∙ found))
          | inr apart ↦ (
            λ e. let clash : true ≡ false = sym ((==_iff a c).1 e) ∙ apart in absurd (cc),
            sym (
                  find_active-erase_active a c s.streams
                  ∙ ap (λ v. if v then none else find_active c s.streams) apart)
                ∙ found,
          )
        ] in
      let still : (c id : ℕ)
          → a ≢ c
          → ((st : Stream) × (w.held.backend.streams c ≡ some st) × (st.id ≡ id))
          → (st : Stream) × (y.backend.streams c ≡ some st) × (st.id ≡ id) =
        λ c id ne (st, at_c, same). (st, others c ne ∙ at_c, same) in
      changed-IsServed y n (record s { streams = erase_active a s.streams }) held
        (λ c z found.
          let (ne, found') = before c z found in still c z.id ne (k.live n c s z (at_n, found')))
        (λ c m z t v found ne has.
          let (ne', found') = before c z found in ne (k.apart n m c s t z v (at_n, found') has))
        (λ c m t z ne has.
          still c z.id
            (λ e.
              ne (
                k.apart n m c s t x z (at_n, ap (λ v. find_active v s.streams) (sym e) ∙ at_a) has))
            (k.live m c t z has))
