-- ===== src/Manager/Names.antt =====
-- File names that are put together and split.
use miri_tool_v.Base.{
  ℕ, suc, ◌-◌, ◌<◌, ◌≡◌, ◌≢◌, refl, false, Bytes, [], ◌∷◌, ◌++◌, All, Option, none, some, length,
  take-append, take_all, drop, ◌==◌, min, arith,
}
use miri_tool_v.Manager.{last_dot, split_name_type}

-- no dot in a text
abbrev pub Dotless : Bytes → Type 0
Dotless = All (λ c. c ≢ b'.')

last_dot-Dotless : (xs : Bytes) → Dotless xs → last_dot xs ≡ none
unfolding last_dot
last_dot-Dotless [] h = refl
last_dot-Dotless (x ∷ xs) h =
    let other : (x == b'.') ≡ false = ground arith in rw (last_dot-Dotless xs h.1, other)

last_dot-append : (xs ys : Bytes) → Dotless ys → last_dot (xs ++ b'.' ∷ ys) ≡ some (length xs)
unfolding last_dot
last_dot-append [] ys h = rw (last_dot-Dotless ys h)
last_dot-append (x ∷ xs) ys h = rw (last_dot-append xs ys h)

drop_past : (xs ys : Bytes) (y : ℕ) → drop (suc (length xs)) (xs ++ y ∷ ys) ≡ ys
drop_past [] ys y = refl
drop_past (x ∷ xs) ys y = drop_past xs ys y

-- A name and a type without dots, not empty, that fit their buffers are split at the dot between
-- them, whatever type is given beside.
split_name_type-append :
    (name type : Bytes) (beside : Option Bytes) (name_size type_size : ℕ)
    → Dotless type
    → 0 < length type
    → length name < name_size
    → length type < type_size
    → split_name_type (name ++ b'.' ∷ type) beside name_size type_size
      ≡ record { name = name; type = type }
unfolding split_name_type
split_name_type-append name type beside name_size type_size h some_type n t =
    let at_dot = last_dot-append name type h in
    let past = drop_past name type b'.' in
    let not_empty : (length type == 0) ≡ false = ground arith in
    let m : min (length name) (name_size - 1) ≡ length name = ground arith in
    rw (
      at_dot,
      past,
      not_empty,
      m,
      take-append name (b'.' ∷ type),
      take_all (type_size - 1) type (omega arith),
    )
