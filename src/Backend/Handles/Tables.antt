-- ===== src/Backend/Handles/Tables.antt =====
-- The table of requests, the dead list and the multi handle of quic_proxy_backend.cc agree on handles.
use quic_proxy.Base.{
  ℕ, ◌≡◌, refl, sym, ap, ◌∙◌, inl, inr, true, List, [], ◌∷◌, Option, none, some, some-eq,
  none-ne-some, ◌==◌, ==_iff, if◌then◌else◌, arith, Bool-cases,
}
use quic_proxy.Backend.{Msg, done, other, find_key, erase_key, has_elem}
use quic_proxy.Backend.Linked.{find_key-erase_key}
use quic_proxy.Backend.Done.{AllKnown, running, finished}
use quic_proxy.Backend.Handles.{remove_handles}

-- Each handle in the multi handle is in the table, for the proxy that libcurl has for it.
abbrev pub InTable : (multi m : List (ℕ × ℕ)) → Type 0
InTable multi m = (h p : ℕ) → find_key h multi ≡ some p → find_key h m ≡ some p

-- The table leads from each handle to the proxy that has it.
abbrev pub Keyed : List (ℕ × ℕ) → (ℕ → Option (Option ℕ)) → Type 0
Keyed m easy = (h p : ℕ) → find_key h m ≡ some p → easy p ≡ some (some h)

-- No handle of a proxy on the dead list is in the table.
abbrev pub IsDoneOut : List (ℕ × ℕ) → List ℕ → (ℕ → Option (Option ℕ)) → Type 0
IsDoneOut m dead easy =
    (p h : ℕ) → has_elem p dead ≡ true → easy p ≡ some (some h) → find_key h m ≡ none

erased-InTable :
    (k : ℕ) (multi m : List (ℕ × ℕ)) → InTable multi m → InTable (erase_key k multi) (erase_key k m)
erased-InTable k multi m i h p e = elim (Bool-cases (k == h)) [
  | inl same ↦
      let gone : find_key h (erase_key k multi) ≡ none =
        find_key-erase_key k h multi ∙ ap (λ c. if c then none else find_key h multi) same in
      absurd (none-ne-some (sym gone ∙ e))
  | inr apart ↦
      let before : find_key h multi ≡ some p =
        sym (find_key-erase_key k h multi ∙ ap (λ c. if c then none else find_key h multi) apart)
        ∙ e in
      find_key-erase_key k h m ∙ ap (λ c. if c then none else find_key h m) apart ∙ i h p before
]

erased-Keyed :
    (k : ℕ) (m : List (ℕ × ℕ)) (easy : ℕ → Option (Option ℕ))
    → Keyed m easy
    → Keyed (erase_key k m) easy
erased-Keyed k m easy keyed h p e = keyed h p (ground (arith, find_key-erase_key k h m))

buried-IsDoneOut :
    (k p : ℕ) (m : List (ℕ × ℕ)) (dead : List ℕ) (easy : ℕ → Option (Option ℕ))
    → easy p ≡ some (some k)
    → IsDoneOut m dead easy
    → IsDoneOut (erase_key k m) (p ∷ dead) easy
unfolding has_elem
buried-IsDoneOut k p m dead easy key out q h e at = elim (Bool-cases (p == q)) [
  | inl same ↦
      let key' : easy q ≡ some (some k) = ap easy (sym ((==_iff p q).0 same)) ∙ key in
      let its : k ≡ h = some-eq (some-eq (sym key' ∙ at)) in
      find_key-erase_key k h m ∙ rw ((==_iff k h).1 its) refl
  | inr apart ↦
      let gone : find_key h m ≡ none = out q h (ground arith) at in
      ground (arith, find_key-erase_key k h m)
]

-- All messages.
pub removed-InTable :
    (ms : List Msg) (multi m : List (ℕ × ℕ))
    → InTable multi m
    → InTable (remove_handles ms multi) (running m ms)
unfolding remove_handles
removed-InTable [] multi m i = i
removed-InTable (done k p ∷ ms) multi m i =
    removed-InTable ms (erase_key k multi) (erase_key k m) (erased-InTable k multi m i)
removed-InTable (other ∷ ms) multi m i = removed-InTable ms multi m i

pub finished-IsDoneOut :
    (ms : List Msg) (m : List (ℕ × ℕ)) (dead : List ℕ) (easy : ℕ → Option (Option ℕ))
    → AllKnown m ms
    → Keyed m easy
    → IsDoneOut m dead easy
    → IsDoneOut (running m ms) (finished dead ms) easy
finished-IsDoneOut [] m dead easy known keyed out = out
finished-IsDoneOut (done k p ∷ ms) m dead easy (found, known) keyed out =
    finished-IsDoneOut ms (erase_key k m) (p ∷ dead) easy known (erased-Keyed k m easy keyed)
      (buried-IsDoneOut k p m dead easy (keyed k p found) out)
finished-IsDoneOut (other ∷ ms) m dead easy known keyed out =
    finished-IsDoneOut ms m dead easy known keyed out

-- What libcurl reports of its handles is known to the table.
pub reported-AllKnown :
    (ms : List Msg) (multi m : List (ℕ × ℕ)) → InTable multi m → AllKnown multi ms → AllKnown m ms
reported-AllKnown [] multi m i known = tt
reported-AllKnown (done k p ∷ ms) multi m i (found, known) = (
  i k p found,
  reported-AllKnown ms (erase_key k multi) (erase_key k m) (erased-InTable k multi m i) known,
)
reported-AllKnown (other ∷ ms) multi m i known = reported-AllKnown ms multi m i known
