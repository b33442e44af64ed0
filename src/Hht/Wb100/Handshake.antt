-- ===== src/Hht/Wb100/Handshake.antt =====
-- The handshake of hht_wb100.c: what a session is verified for, and which answers open it.
use miri_tool_v.Base.{
  ℕ, zero, suc, ◌+◌, ◌-◌, ◌≤◌, ◌≡◌, refl, sym, ap, ap₂, subst, ◌∙◌, Bool, true, false, ◌&&◌, Bytes,
  List, [], ◌∷◌, ◌++◌, append-nil, append_assoc, length, length-append, get_or, take_all, leb, ◌==◌,
  ==_refl, ==_iff, arith, Bool-cases, inl, inr,
}
use miri_tool_v.Hht.Wb100.{
  make_seed, make_session, verify_session, read_session, wb100_session_open, session_retry_max, ok,
}

-- the two bytes of `make_seed`
abbrev hi : ℕ → ℕ → ℕ
hi a b = get_or (make_seed a b) 0 0

abbrev lo : ℕ → ℕ → ℕ
lo a b = get_or (make_seed a b) 1 0

make_seed_pair : (a b : ℕ) → make_seed a b ≡ hi a b ∷ lo a b ∷ []
unfolding make_seed
make_seed_pair a b = refl

session_bytes :
    (a b c d : ℕ) → make_session a b c d ≡ a ∷ b ∷ hi a b ∷ lo a b ∷ c ∷ d ∷ hi c d ∷ lo c d ∷ []
unfolding make_session
session_bytes a b c d =
    ap₂ (λ x y. a ∷ b ∷ (x ++ c ∷ d ∷ y)) (make_seed_pair a b) (make_seed_pair c d)

verify_session-make_session : (a b c d : ℕ) → verify_session (make_session a b c d) ≡ true
unfolding verify_session
verify_session-make_session a b c d =
    subst (λ buf. verify_session buf ≡ true) (sym (session_bytes a b c d))
      (rw (==_refl (hi a b), ==_refl (lo a b), ==_refl (hi c d), ==_refl (lo c d)))

all_true :
    (p q r s : Bool) → (p && q && r && s) ≡ true → (p ≡ true) × (q ≡ true) × (r ≡ true) × (s ≡ true)
all_true true true true true h = (refl, refl, refl, refl)
all_true false q r s h = absurd (grind arith)
all_true true false r s h = absurd (grind arith)
all_true true true false s h = absurd (grind arith)
all_true true true true false h = absurd (grind arith)

verified :
    (a b c d e f g h : ℕ)
    → verify_session (a ∷ b ∷ c ∷ d ∷ e ∷ f ∷ g ∷ h ∷ []) ≡ true
    → a ∷ b ∷ c ∷ d ∷ e ∷ f ∷ g ∷ h ∷ [] ≡ make_session a b e f
unfolding verify_session
verified a b c d e f g h v =
    let t = all_true (c == hi a b) (d == lo a b) (g == hi e f) (h == lo e f) v in
    ap₂ (λ x y. a ∷ b ∷ x ∷ y ∷ e ∷ f ∷ g ∷ h ∷ []) ((==_iff c (hi a b)).0 t.0)
      ((==_iff d (lo a b)).0 t.1)
    ∙ ap₂ (λ x y. a ∷ b ∷ hi a b ∷ lo a b ∷ e ∷ f ∷ x ∷ y ∷ []) ((==_iff g (hi e f)).0 t.2)
        ((==_iff h (lo e f)).0 t.3)
    ∙ sym (session_bytes a b e f)

-- Of the answers with eight bytes, `verify_session` accepts those that `make_session` makes of
-- their digits, and no others.
verify_session-eight :
    (buf : Bytes)
    → length buf ≡ 8
    → verify_session buf ≡ true
    → (a b c d : ℕ) × (buf ≡ make_session a b c d)
verify_session-eight (a ∷ b ∷ c ∷ d ∷ e ∷ f ∷ g ∷ h ∷ []) n v =
    (a, b, e, f, verified a b c d e f g h v)
verify_session-eight _ n v = absurd (omega arith)

abbrev pub concat : List Bytes → Bytes
concat [] = []
concat (xs ∷ xss) = xs ++ concat xss

-- The reads take all that they find, while that is eight bytes at most.
read_session-concat :
    (left : ℕ) (reads : List Bytes) (got : Bytes)
    → length reads ≤ left
    → length got + length (concat reads) ≤ 8
    → read_session left reads got ≡ got ++ concat reads
unfolding read_session
read_session-concat zero [] got h k = sym (append-nil got)
read_session-concat zero (found ∷ reads) got h k = absurd (omega arith)
read_session-concat (suc left) [] got h k = sym (append-nil got)
read_session-concat (suc left) (found ∷ reads) got h k =
    let n = length-append found (concat reads) in
    let m = length-append got found in
    rw (take_all (8 - length got) found (omega arith))
      (elim (Bool-cases (leb 8 (length (got ++ found)))) [
        | inl full ↦
            let none_left : length (concat reads) ≡ 0 = ground arith in
            rw (full, length_zero (concat reads) none_left, append-nil)
        | inr part ↦
            rw (part, read_session-concat left reads (got ++ found) (omega arith) (omega arith))
              (append_assoc got found (concat reads))
      ])
  where
    length_zero : (xs : Bytes) → length xs ≡ 0 → xs ≡ []
    length_zero [] e = refl
    length_zero (x ∷ xs) e = absurd (omega arith)

make_session-length : (a b c d : ℕ) → length (make_session a b c d) ≡ 8
make_session-length a b c d = ap (λ (xs : Bytes). length xs) (session_bytes a b c d)

answered-ok :
    (reads : List Bytes) (a b c d : ℕ)
    → read_session session_retry_max reads [] ≡ make_session a b c d
    → wb100_session_open true reads ≡ ok
unfolding wb100_session_open
answered-ok reads a b c d e =
    let eight : (length (make_session a b c d) == 8) ≡ true = rw (make_session-length a b c d) in
    rw (e, eight, verify_session-make_session a b c d)

opened :
    (wrote : Bool) (reads : List Bytes)
    → wb100_session_open wrote reads ≡ ok
    → (length (read_session session_retry_max reads []) ≡ 8)
      × (verify_session (read_session session_retry_max reads []) ≡ true)
unfolding wb100_session_open
opened wrote reads e = grind arith

-- A session opens on an answer that `make_session` could have made, in five reads at most, however
-- it is cut between them; and when it opens, the eight bytes that were read are such an answer.
pub wb100_session_open-make_session :
    (reads : List Bytes)
    → ((a b c d : ℕ)
        → length reads ≤ 5
        → concat reads ≡ make_session a b c d
        → wb100_session_open true reads ≡ ok)
      × (wb100_session_open true reads ≡ ok
          → (a b c d : ℕ) × (read_session session_retry_max reads [] ≡ make_session a b c d))
wb100_session_open-make_session reads = (
  λ a b c d n e. answered-ok reads a b c d (
      read_session-concat 5 reads [] n
        (omega (arith, make_session-length a b c d, ap (λ (xs : Bytes). length xs) e))
      ∙ e),
  λ e.
      let t = opened true reads e in
      verify_session-eight (read_session session_retry_max reads []) t.0 t.1,
)
