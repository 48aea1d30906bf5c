-- ===== src/Backend/Book/Ends.antt =====
-- Transfers that end in quic_proxy_backend.cc, and their entries in the book.
use quic_proxy.Base.{
  ℕ, ◌≡◌, ◌≢◌, refl, sym, ap, subst, ◌∙◌, inl, inr, true, false, List, [], ◌∷◌, none, some, some-eq,
  ◌==◌, ==_iff, beq_ne, if◌then◌else◌, Bool-cases, Option-cases,
}
use quic_proxy.Curl.{Proxy}
use quic_proxy.Backend.{
  Backend, Msg, done, other, find_key, erase_key, has_value, has_elem, bury, collect, check_msg,
  check_msgs,
}
use quic_proxy.Backend.Linked.{Linked, stream_at, find_key-erase_key, has_value_of_find_key}
use quic_proxy.Backend.Unlink.{unlinked}
use quic_proxy.Backend.Done.{AllKnown, bury_at, message_cases, check_msg_lem}
use quic_proxy.Backend.Handles.Safe.{check_msgs-done}
use quic_proxy.Backend.Book.{Book, ends, all_end, book}

no_less : true ≡ false → ⊥
no_less e = cc

all_end-same :
    (ms : List Msg) (m n : Book) → ((g : ℕ) → m g ≡ n g) → (g : ℕ) → all_end ms m g ≡ all_end ms n g
all_end-same [] m n same g = same g
all_end-same (done h p ∷ ms) m n same g =
    all_end-same ms (ends h m) (ends h n) (λ k. ap (λ v. if h == k then none else v) (same k)) g
all_end-same (other ∷ ms) m n same g = all_end-same ms m n same g

module _ {Block : Type 0} where
  module _ {b : Backend Block} (l : Linked b) where
    -- The handle of a proxy is its only entry.
    one_entry : (h g p : ℕ) → find_key h b.hash ≡ some p → find_key g b.hash ≡ some p → h ≡ g
    one_entry h g p found found' =
        let (x, at_x, key) = l.keyed h p found in
        let (y, at_y, key') = l.keyed g p found' in
        some-eq (sym key ∙ ap (λ (z : Proxy Block). z.easy) (some-eq (sym at_x ∙ at_y)) ∙ key')

    -- A handle is buried, and no proxy's stream but its own changes.
    buried-book :
        (d : Backend Block) (h p : ℕ)
        → d.hash ≡ b.hash
        → find_key h b.hash ≡ some p
        → ((q : ℕ) → p ≢ q → stream_at d q ≡ stream_at b q)
        → (g : ℕ) → book (bury d h) g ≡ ends h (book b) g
    buried-book d h p hash found same g =
        let found' : find_key h d.hash ≡ some p = ap (find_key h) hash ∙ found in
        ap (λ (z : Backend Block). book z g) (bury_at d h p found') ∙ elim (Bool-cases (h == g)) [
          | inl its ↦
              let gone : find_key g (erase_key h d.hash) ≡ none =
                find_key-erase_key h g d.hash ∙ rw its refl in
              rw (book, gone, its) refl
          | inr apart ↦
              let left : find_key g (erase_key h d.hash) ≡ find_key g b.hash =
                find_key-erase_key h g d.hash
                ∙ ap (λ c. if c then none else find_key g d.hash) apart
                ∙ ap (find_key g) hash in
              elim (Option-cases (find_key g b.hash)) [
                | inl new ↦ rw (book, left ∙ new, apart, new) refl
                | inr (q, at_g) ↦
                    let ne : p ≢ q = λ e. no_less (
                      sym ((==_iff h g).1 (one_entry h g p found (at_g ∙ ap some (sym e))))
                      ∙ apart) in
                    rw (book, left ∙ at_g, apart, at_g) (same q ne)
              ]
        ]

    pub check_msg-book :
        (h p : ℕ) {c : Backend Block}
        → find_key h b.hash ≡ some p
        → check_msg b (done h p) ≡ some c
        → (g : ℕ) → book c g ≡ ends h (book b) g
    check_msg-book h p found e g = elim (message_cases l h p found e) [
      | inl its ↦
          ap (λ (z : Backend Block). book z g) (sym its)
          ∙ buried-book b h p refl found (λ q ne. refl) g
      | inr (s, st, x, at_s, at_p, to_p, to_s, its) ↦
          let d : Backend Block = unlinked l s p st x at_s at_p to_p to_s in
          ap (λ (z : Backend Block). book z g) (sym its)
          ∙ buried-book d h p refl found (λ q ne. rw (stream_at, beq_ne p q ne) refl) g
    ]

    -- Only proxies without an entry are freed.
    pub collect-book : (g : ℕ) → book (collect (record b { dead = [] })) g ≡ book b g
    unfolding collect has_elem
    collect-book g = elim (Option-cases (find_key g b.hash)) [
      | inl new ↦ rw (book, new) refl
      | inr (p, found) ↦
          let owns : has_value p b.hash ≡ true = has_value_of_find_key g p b.hash found in
          rw (book, found, stream_at, owns) refl
    ]

  pub check_msgs-book :
      (ms : List Msg) {b c : Backend Block} (l : Linked b)
      → AllKnown b.hash ms
      → check_msgs b ms ≡ some c
      → (g : ℕ) → book c g ≡ all_end ms (book b) g
  unfolding check_msgs
  check_msgs-book [] {b} {c} l known e g = ap (λ (z : Backend Block). book z g) (some-eq (sym e))
  check_msgs-book (other ∷ ms) l known e g = check_msgs-book ms l known e g
  check_msgs-book (done h p ∷ ms) {b} {c} l (found, known) e g =
      let (d, at, k, hash, dead) = check_msg_lem l h p found in
      let rest : check_msgs d ms ≡ some c = sym (check_msgs-done b d h p ms at) ∙ e in
      check_msgs-book ms k (subst (λ m. AllKnown m ms) (sym hash) known) rest g
      ∙ all_end-same ms (book d) (ends h (book b)) (check_msg-book l h p found at) g
