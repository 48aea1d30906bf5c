-- ===== src/Backend/Handles/Fetched.antt =====
-- A request of quic_proxy_backend.cc keeps the agreement of the tables on handles.
use quic_proxy.Base.{
  ℕ, ◌≡◌, ◌≢◌, refl, sym, ap, subst, ◌∙◌, inl, inr, Bool, true, false, List, ◌∷◌, none, some,
  none-ne-some, ◌==◌, ==_iff, beq_ne, if◌then◌else◌, arith, Bool-cases, Option-cases,
}
use quic_proxy.Base.Bytes.{Bytes, codes}
use quic_proxy.HeaderBlock.{HeaderBlock}
use quic_proxy.Stream.{Stream}
use quic_proxy.Backend.{Backend, find_key, erase_key, has_elem}
use quic_proxy.Backend.Requests.{Fresh, fetch_response_from_backend}
use quic_proxy.Backend.Linked.{easy_at, find_key-erase_key}
use quic_proxy.Backend.Handles.{Held, add_handle, fetch_held}
use quic_proxy.Backend.Handles.Tables.{InTable}
use quic_proxy.Base.{◌++◌, drop}
use quic_proxy.Curl.{or_empty, init}
use quic_proxy.Curl.Start.{start_http, EasyOption}
use quic_proxy.Curl.Request.{start_http_options, start_http_invalid}
use quic_proxy.Backend.Fetch.{created, fetch_tables}
use quic_proxy.Backend.Handles.Safe.{IsHeld}

pub find_key_entered :
    (h p g : ℕ) (m : List (ℕ × ℕ))
    → find_key g ((h, p) ∷ erase_key h m) ≡ (if h == g then some p else find_key g m)
unfolding find_key
find_key_entered h p g m = ground (arith, find_key-erase_key h g m)

entered-InTable :
    (h p : ℕ) (added : Bool) (multi m : List (ℕ × ℕ))
    → find_key h m ≡ none
    → InTable multi m
    → InTable (add_handle (some h) p added multi) ((h, p) ∷ erase_key h m)
unfolding find_key
entered-InTable h p added multi m new i g q e = elim (Bool-cases (h == g)) [
  | inl same ↦
      let out : find_key g m ≡ none = ap (λ z. find_key z m) (sym ((==_iff h g).0 same)) ∙ new in
      elim (Bool-cases added) [
        | inl entered ↦
            let its : some p ≡ some q = sym (rw (entered, find_key, same) refl) ∙ e in
            find_key_entered h p g m ∙ rw same its
        | inr left_out ↦
            let before : find_key g multi ≡ some q = sym (rw left_out refl) ∙ e in
            absurd (none-ne-some (sym out ∙ i g q before))
      ]
  | inr apart ↦
      let before : find_key g multi ≡ some q = ground arith in
      find_key_entered h p g m ∙ ap (λ c. if c then some p else find_key g m) apart ∙ i g q before
]

module _ {Block : Type 0} (hb : HeaderBlock Block) where
  method_added :
      (url : Bytes) (s h : ℕ) (headers : Block) (body peer_ip : Bytes)
      → (start_http hb (created hb url s h) headers body peer_ip).2
        ≡ hb.is_valid_header_name (or_empty (hb.find headers (codes ":method")))
  unfolding init
  method_added url s h headers body peer_ip =
      elim (Bool-cases (hb.is_valid_header_name (or_empty (hb.find headers (codes ":method"))))) [
        | inl valid ↦
            let all = start_http_options hb (created hb url s h) headers body peer_ip refl valid in
            all.0 ∙ sym valid
        | inr bad ↦
            let (no_options, not_added, same) =
              start_http_invalid hb (created hb url s h) headers body peer_ip bad in
            not_added ∙ sym bad
      ]

find_key_added :
    (h p : ℕ) (added : Bool) (multi : List (ℕ × ℕ))
    → find_key h multi ≡ none
    → find_key h (add_handle (some h) p added multi) ≡ (if added then some p else none)
unfolding find_key
find_key_added h p true multi e = ground (arith, ==_iff h h)
find_key_added h p false multi e = e

module _ {Block : Type 0} {x : Held Block} (k : IsHeld x) where
  pub not_held : (h : ℕ) → find_key h x.backend.hash ≡ none → find_key h x.multi ≡ none
  not_held h new = elim (Option-cases (find_key h x.multi)) [
    | inl outside ↦ outside
    | inr (p, inside) ↦ absurd (none-ne-some (sym new ∙ k.in_table h p inside))
  ]

  still_out :
      (ptr h q g : ℕ)
      → x.backend.heap ptr ≡ none
      → ((q : ℕ) → easy_at x.backend q ≢ some (some h))
      → has_elem q x.backend.dead ≡ true
      → (if ptr == q then some (some h) else easy_at x.backend q) ≡ some (some g)
      → (if h == g then some ptr else find_key g x.backend.hash) ≡ none
  still_out ptr h q g unused own in_dead at = elim (Bool-cases (ptr == q)) [
    | inl same ↦
        let (z, at_z, alone) = k.linked.buried q in_dead in
        absurd (none-ne-some (sym unused ∙ ap x.backend.heap ((==_iff ptr q).0 same) ∙ at_z))
    | inr apart ↦
        let at' : easy_at x.backend q ≡ some (some g) =
          sym (ap (λ c. if c then some (some h) else easy_at x.backend q) apart) ∙ at in
        let ne : h ≢ g = λ e. own q (at' ∙ ap (λ v. some (some v)) (sym e)) in
        ap (λ c. if c then some ptr else find_key g x.backend.hash) (beq_ne h g ne)
        ∙ k.done_out q g in_dead at'
  ]

module _ {Block : Type 0} (hb : HeaderBlock Block) where
  pub fetch_held_at :
      (x : Held Block) (headers : Block) (body : Bytes) (s : ℕ) (f : Fresh) {c : Backend Block}
      {options : List EasyOption} {added : Bool}
      → fetch_response_from_backend hb x.backend headers body s f ≡ some (c, options, added)
      → fetch_held hb x headers body s f
        ≡ some (record { backend = c; multi = add_handle f.handle f.ptr added x.multi })
  unfolding fetch_held
  fetch_held_at x headers body s f e = rw (fetch_held, e) refl

  -- The agreement holds after every request under the conditions of `FetchResponseFromBackend`, with a
  -- handle that no living proxy has; and the multi handle has it then exactly if the method is valid.
  pub fetch_held_lem :
      {x : Held Block} (k : IsHeld x) (headers : Block) (path body : Bytes) (s h : ℕ) (st : Stream)
      (f : Fresh)
      → x.backend.streams s ≡ some st
      → st.proxy_curl ≡ none
      → hb.find headers (codes ":path") ≡ some path
      → f.handle ≡ some h
      → find_key h x.backend.hash ≡ none
      → x.backend.heap f.ptr ≡ none
      → ((q : ℕ) → easy_at x.backend q ≢ some (some h))
      → (y : Held Block) × (fetch_held hb x headers body s f ≡ some y)
        × IsHeld y
        × (find_key h y.multi ≡ (
            if hb.is_valid_header_name (or_empty (hb.find headers (codes ":method")))
            then some f.ptr
            else none))
  fetch_held_lem {x} k headers path body s h st f at_s idle has_path has_handle new unused own =
      let b : Backend Block = x.backend in
      let (c, e, l, found, at_p, at_s', hash, dead, easy, stream, lives, others) =
        fetch_tables hb k.linked headers path body s h st f at_s idle has_path has_handle new
          unused in
      let url = b.backend_url ++ drop 1 path in
      let added : Bool = (start_http hb (created hb url s h) headers body f.peer_ip).2 in
      (
        record { backend = c; multi = add_handle (some h) f.ptr added x.multi },
        fetch_held_at x headers body s f e
            ∙ ap (λ v. some (record { backend = c; multi = add_handle v f.ptr added x.multi }))
                has_handle,
        record {
          linked = l;
          in_table =
              subst (InTable (add_handle (some h) f.ptr added x.multi)) (sym hash)
                (entered-InTable h f.ptr added x.multi b.hash new k.in_table);
          done_out = λ q g in_dead at_q.
              let in_dead' : has_elem q b.dead ≡ true = sym (ap (has_elem q) dead) ∙ in_dead in
              ap (find_key g) hash
              ∙ find_key_entered h f.ptr g b.hash
              ∙ still_out k f.ptr h q g unused own in_dead' (sym (easy q) ∙ at_q);
        },
        find_key_added h f.ptr added x.multi (not_held k h new)
            ∙ ap (λ c. if c then some f.ptr else none)
                (method_added hb url s h headers body f.peer_ip),
      )
