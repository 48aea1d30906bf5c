-- ===== src/Session/Create.antt =====
-- What the sessions of quic_proxy_session.cc do to the tables of the backend that they share.
use quic_proxy.Base.{
  ℕ, ◌≡◌, ◌⊎◌, subst, some-eq, Option-cases, inl, inr, refl, sym, ap, ◌∙◌, Bool, true, false, List,
  [], ◌∷◌, Option, none, some, none-ne-some, if◌then◌else◌,
}
use quic_proxy.Stream
use quic_proxy.Stream.{Stream, init_alone}
use quic_proxy.Backend.{Backend, update}
use quic_proxy.Backend.Linked.{Linked, update_ne, update_self}
use quic_proxy.Backend.Steps.{with_stream-Linked}
use quic_proxy.Session.{
  Session, Active, StreamType, bidirectional, write_unidirectional, activate,
  create_incoming_stream, create_pending_stream, create_outgoing_bidirectional_stream,
  create_outgoing_unidirectional_stream,
}

-- A call of one of the four functions, with what the base class answers.
pub data Request : Type 0 where
  incoming outgoing_unidirectional : (should_create : Bool) (id : ℕ) → Request
  pending : (id : ℕ) → Request
  outgoing_bidirectional : Request

-- The id and the type of the stream that a call is to make, or that it makes none.
abbrev pub wanted : Request → Option (ℕ × StreamType)
wanted (incoming should_create id) = if should_create then some (id, bidirectional) else none
wanted (outgoing_unidirectional should_create id) =
    if should_create then some (id, write_unidirectional) else none
wanted (pending id) = some (id, bidirectional)
wanted outgoing_bidirectional = none

module _ {Block : Type 0} where
  abbrev pub create :
      Request → (address : ℕ) → Session → Backend Block → Option ℕ × Session × Backend Block
  create (incoming should_create id) a s b = create_incoming_stream should_create id a s b
  create (outgoing_unidirectional should_create id) a s b =
      create_outgoing_unidirectional_stream should_create id a s b
  create (pending id) a s b = create_pending_stream id a s b
  create outgoing_bidirectional a s b = create_outgoing_bidirectional_stream s b

  -- Each active stream is live in the backend's table, under its id.
  abbrev pub AllLive : List Active → Backend Block → Type 0
  AllLive [] b = Unit {0}
  AllLive (x ∷ xs) b =
      ((st : Stream) × (b.streams x.address ≡ some st) × (st.id ≡ x.id)) × AllLive xs b

  abbrev with_stream : Backend Block → (address id : ℕ) → Backend Block
  with_stream b a id = record b { streams = update b.streams a (some (Stream.init id)) }

  AllLive-kept :
      (xs : List Active) (b : Backend Block) (a id : ℕ)
      → b.streams a ≡ none
      → AllLive xs b
      → AllLive xs (with_stream b a id)
  AllLive-kept [] b a id free live = tt
  AllLive-kept (x ∷ xs) b a id free ((st, at, same), live) = (
    (
      st,
      update_ne b.streams a (some (Stream.init id)) x.address
            (λ e. none-ne-some (sym free ∙ ap b.streams e ∙ at))
          ∙ at,
      same,
    ),
    AllLive-kept xs b a id free live,
  )

  pub create_of_none :
      (q : Request) (a : ℕ) (s : Session) (b : Backend Block)
      → wanted q ≡ none
      → create q a s b ≡ (none, s, b)
  unfolding create_incoming_stream create_outgoing_unidirectional_stream
      create_outgoing_bidirectional_stream
  create_of_none (incoming true id) a s b e = absurd (none-ne-some (sym e))
  create_of_none (incoming false id) a s b e = refl
  create_of_none (outgoing_unidirectional true id) a s b e = absurd (none-ne-some (sym e))
  create_of_none (outgoing_unidirectional false id) a s b e = refl
  create_of_none (pending id) a s b e = absurd (none-ne-some (sym e))
  create_of_none outgoing_bidirectional a s b e = refl

  pub create_of_some :
      (q : Request) (a : ℕ) (s : Session) (b : Backend Block) (x : ℕ × StreamType)
      → wanted q ≡ some x
      → create q a s b ≡ activate x.1 x.0 a s b
  unfolding create_incoming_stream create_outgoing_unidirectional_stream create_pending_stream
  create_of_some (incoming true id) a s b x e =
      ap (λ (y : ℕ × StreamType). activate y.1 y.0 a s b) (some-eq e)
  create_of_some (incoming false id) a s b x e = absurd (none-ne-some e)
  create_of_some (outgoing_unidirectional true id) a s b x e =
      ap (λ (y : ℕ × StreamType). activate y.1 y.0 a s b) (some-eq e)
  create_of_some (outgoing_unidirectional false id) a s b x e = absurd (none-ne-some e)
  create_of_some (pending id) a s b x e =
      ap (λ (y : ℕ × StreamType). activate y.1 y.0 a s b) (some-eq e)
  create_of_some outgoing_bidirectional a s b x e = absurd (none-ne-some e)

  -- What a call returns, with the session and the backend that it leaves: the tables are consistent,
  -- the streams of this session and of another are live, and the call has changed nothing or made the
  -- stream that is wanted.
  abbrev pub Outcome :
      Request
      → (address : ℕ) → Session
      → Session
      → Backend Block
      → Option ℕ × Session × Backend Block
      → Type 0
  Outcome q a s t b (r, s', b') =
      Linked b'
      × AllLive s'.streams b'
      × AllLive t.streams b'
      × (((wanted q ≡ none) × (r ≡ none) × (s' ≡ s) × (b' ≡ b))
          ⊎ ((id : ℕ) × (kind : StreamType) × (wanted q ≡ some (id, kind))
              × (r ≡ some a)
              × (s'.streams ≡ record { id = id; address = a; stream_type = kind } ∷ s.streams)
              × (b'.streams a ≡ some (Stream.init id))))

  -- A session that is asked for a stream makes it, of the type that the call says, exactly if it may,
  -- and for an outgoing bidirectional one never; else the result is null and nothing changes. As long
  -- as memory that is not in use is given, the backend's tables stay consistent, and the active streams
  -- of this session and of any other stay live under their ids.
  pub create_lem :
      {b : Backend Block}
      → Linked b
      → (q : Request) (a : ℕ) (s t : Session) → b.streams a ≡ none
      → AllLive s.streams b
      → AllLive t.streams b
      → Outcome q a s t b (create q a s b)
  unfolding activate Stream.init
  create_lem {b} l q a s t free mine theirs = elim (Option-cases (wanted q)) [
    | inl e ↦
        subst (Outcome q a s t b) (sym (create_of_none q a s b e))
          (l, mine, theirs, inl (e, refl, refl, refl))
    | inr (x, e) ↦
        let made = activate x.1 x.0 a s b in
        subst (Outcome q a s t b) (sym (create_of_some q a s b x e)) (
          with_stream-Linked l a (Stream.init x.0) free (init_alone x.0),
          (
            (Stream.init x.0, update_self b.streams a (some (Stream.init x.0)), refl),
            AllLive-kept s.streams b a x.0 free mine,
          ),
          AllLive-kept t.streams b a x.0 free theirs,
          inr (x.0, x.1, e, refl, refl, update_self b.streams a (some (Stream.init x.0))),
        )
  ]
