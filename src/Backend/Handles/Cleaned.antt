-- ===== src/Backend/Handles/Cleaned.antt =====
-- The destructors of proxies that run in quic_proxy_backend.cc clean up no handle that libcurl still
-- works on.
use quic_proxy.Base.{
  ℕ, ◌≡◌, ◌⊎◌, refl, sym, ap, subst, ◌∙◌, inl, inr, Bool, true, false, ◌||◌, List, [], ◌∷◌, ◌++◌,
  Option, none, some, none-ne-some, some-eq, ==_iff, if◌then◌else◌, arith, Option-cases, is_empty,
}
use quic_proxy.Curl.{Proxy}
use quic_proxy.Backend.{Msg, find_key, has_elem, has_value, check_curl_multi_info}
use quic_proxy.Backend.Linked.{easy_at}
use quic_proxy.Backend.Done.{AllKnown}
use quic_proxy.Backend.Handles.{
  Held, FreeCall, easy_cleanup, slist_free_all, destroy, destroy_dead, freed_calls, check_held,
  remove_handles,
}
use quic_proxy.Backend.Handles.Tables.{reported-AllKnown}
use quic_proxy.Backend.Handles.Safe.{IsHeld, dead_out, check_held_lem}

-- No handle that is cleaned up is in the multi handle.
abbrev pub AllOut : List (ℕ × ℕ) → List FreeCall → Type 0
AllOut multi [] = Unit {0}
AllOut multi (easy_cleanup h ∷ cs) = (find_key h multi ≡ none) × AllOut multi cs
AllOut multi (slist_free_all ∷ cs) = AllOut multi cs

AllOut-append :
    (multi : List (ℕ × ℕ)) (xs ys : List FreeCall)
    → AllOut multi xs
    → AllOut multi ys
    → AllOut multi (xs ++ ys)
AllOut-append multi [] ys o o' = o'
AllOut-append multi (easy_cleanup h ∷ xs) ys (out, o) o' = (out, AllOut-append multi xs ys o o')
AllOut-append multi (slist_free_all ∷ xs) ys o o' = AllOut-append multi xs ys o o'

module _ {Block : Type 0} {x : Held Block} (k : IsHeld x) where
  easy_out :
      (p : ℕ) (easy : Option ℕ)
      → has_elem p x.backend.dead ≡ true
      → easy_at x.backend p ≡ some easy
      → AllOut x.multi (elim easy [ none ↦ [] | some h ↦ easy_cleanup h ∷ [] ])
  easy_out p none in_dead at = tt
  easy_out p (some h) in_dead at = (dead_out k p h in_dead at, tt)

  list_out : (c : Bool) → AllOut x.multi (if c then [] else slist_free_all ∷ [])
  list_out true = tt
  list_out false = tt

  destroy-AllOut :
      (p : ℕ) (z : Proxy Block)
      → has_elem p x.backend.dead ≡ true
      → x.backend.heap p ≡ some z
      → AllOut x.multi (destroy z)
  unfolding destroy
  destroy-AllOut p z in_dead at_p =
      AllOut-append x.multi (elim z.easy [ none ↦ [] | some h ↦ easy_cleanup h ∷ [] ])
        (if is_empty z.request_header_list then [] else slist_free_all ∷ [])
        (easy_out p z.easy in_dead (rw (easy_at, at_p) refl))
        (list_out (is_empty z.request_header_list))

  head_out :
      (p : ℕ) (c : Bool) (o : Option (Proxy Block))
      → has_elem p x.backend.dead ≡ true
      → x.backend.heap p ≡ o
      → AllOut x.multi (if c then [] else (elim o [ none ↦ [] | some z ↦ destroy z ]))
  head_out p true o in_dead at_p = tt
  head_out p false none in_dead at_p = tt
  head_out p false (some z) in_dead at_p = destroy-AllOut p z in_dead at_p

  destroy_dead-AllOut :
      (ps : List ℕ)
      → ((p : ℕ) → has_elem p ps ≡ true → has_elem p x.backend.dead ≡ true)
      → AllOut x.multi (destroy_dead x.backend ps)
  unfolding destroy_dead has_elem
  destroy_dead-AllOut [] sub = tt
  destroy_dead-AllOut (p ∷ ps) sub =
      AllOut-append x.multi
        (if has_value p x.backend.hash || has_elem p ps
          then []
          else (elim (x.backend.heap p) [ none ↦ [] | some z ↦ destroy z ]))
        (destroy_dead x.backend ps)
        (head_out p (has_value p x.backend.hash || has_elem p ps) (x.backend.heap p)
          (sub p (ground (arith, ==_iff p p))) refl)
        (destroy_dead-AllOut ps (λ q e. sub q (ground arith)))

  pub check_held-multi :
      (y : Held Block) (ms : List Msg)
      → check_held x ms ≡ some y
      → y.multi ≡ remove_handles ms x.multi
  unfolding check_held
  check_held-multi y ms e = elim (Option-cases (check_curl_multi_info x.backend ms)) [
    | inl fails ↦
        let broken : check_held x ms ≡ none = rw (check_held, fails) refl in
        absurd (none-ne-some (sym broken ∙ e))
    | inr (c, gives) ↦
        let made : check_held x ms
            ≡ some (record { backend = c; multi = remove_handles ms x.multi }) =
          rw (check_held, gives) refl in
        ap (λ (z : Held Block). z.multi) (some-eq (sym e ∙ made))
  ]

  pub check-AllOut :
      (y : Held Block) (ms : List Msg)
      → check_held x ms ≡ some y
      → AllOut y.multi (freed_calls x.backend ms)
  unfolding remove_handles
  check-AllOut y [] e =
      subst (λ multi. AllOut multi (destroy_dead x.backend x.backend.dead))
        (sym (check_held-multi y [] e)) (destroy_dead-AllOut x.backend.dead (λ q d. d))
  check-AllOut y (m ∷ ms) e = tt

  -- `CheckCurlMultiInfo` on messages of handles in the multi handle, each with its pointer, keeps the
  -- agreement of table, dead list and multi handle.
  -- A proxy that has a handle lives on with it, or the multi handle does not have it afterwards; and the
  -- destructors that run clean up no handle that the multi handle has.
  pub cleaned_lem :
      (ms : List Msg) (p h : ℕ)
      → AllKnown x.multi ms
      → easy_at x.backend p ≡ some (some h)
      → (y : Held Block) × (check_held x ms ≡ some y)
        × IsHeld y
        × ((easy_at y.backend p ≡ some (some h)) ⊎ (find_key h y.multi ≡ none))
        × AllOut y.multi (freed_calls x.backend ms)
  cleaned_lem ms p h known at =
      let (y, e, held, lives) =
        check_held_lem k ms (reported-AllKnown ms x.multi x.backend.hash k.in_table known) in
      (y, e, held, lives p h at, check-AllOut y ms e)
