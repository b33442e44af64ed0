-- ===== src/Convert/Image.antt =====
-- What the image holds at each address.
use miri_tool_v.Base.{
  ℕ, zero, suc, ◌+◌, ◌-◌, ◌≤◌, ◌<◌, ◌≡◌, ◌⊎◌, inl, inr, refl, ap, sym, ◌∙◌, Bool, true, false, ◌&&◌,
  Bytes, List, [], ◌∷◌, ◌++◌, length, length-append, length-take, length-drop, length-replicate,
  take, drop, replicate, get_or, Bool-cases, ◌||◌, ltb, leb, if◌then◌else◌, arith,
}
use miri_tool_v.Convert.{TextRecord}

-- whether a record has a byte for an address
abbrev pub covers : TextRecord → ℕ → Bool
covers r a = r.is_data && (leb r.address a && ltb a (r.address + length r.bytes))

-- whether one of the records has
abbrev pub covered : List TextRecord → ℕ → Bool
covered [] a = false
covered (r ∷ rs) a = covers r a || covered rs a

-- the byte at an address, with a record over what was there
abbrev pub byte_after : TextRecord → ℕ → ℕ → ℕ
byte_after r a v = if covers r a then get_or r.bytes (a - r.address) 0 else v

-- the byte at an address after all records: that of the last one that covers it
abbrev pub byte_at : List TextRecord → ℕ → ℕ → ℕ
byte_at [] a v = v
byte_at (r ∷ rs) a v = byte_at rs a (byte_after r a v)

-- The byte at an address that is covered does not depend on what was there.
pub byte_at-covered :
    (rs : List TextRecord) (a v w : ℕ) → covered rs a ≡ true → byte_at rs a v ≡ byte_at rs a w
byte_at-covered [] a v w h = absurd (grind arith)
byte_at-covered (r ∷ rs) a v w h = elim (Bool-cases (covers r a)) [
  | inl on ↦ rw on refl
  | inr off ↦ byte_at-covered rs a (byte_after r a v) (byte_after r a w) (rest off)
]
  where
    rest : covers r a ≡ false → covered rs a ≡ true
    rest off = sym (ap (λ b. b || covered rs a) off) ∙ h

-- the byte that an image has for an address, 0 outside
abbrev pub value : ℕ → Bytes → ℕ → ℕ
value base content a = if leb base a then get_or content (a - base) 0 else 0

pub get_or-append_lt :
    (xs ys : Bytes) (i : ℕ) → i < length xs → get_or (xs ++ ys) i 0 ≡ get_or xs i 0
get_or-append_lt [] ys i h = absurd (omega arith)
get_or-append_lt (x ∷ xs) ys zero h = refl
get_or-append_lt (x ∷ xs) ys (suc i) h = get_or-append_lt xs ys i (omega arith)

get_or-append_ge :
    (xs ys : Bytes) (i : ℕ) → length xs ≤ i → get_or (xs ++ ys) i 0 ≡ get_or ys (i - length xs) 0
get_or-append_ge [] ys i h = let e : i - 0 ≡ i = omega arith in rw e
get_or-append_ge (x ∷ xs) ys zero h = absurd (omega arith)
get_or-append_ge (x ∷ xs) ys (suc i) h =
    let e : suc i - suc (length xs) ≡ i - length xs = omega arith in
    rw e (get_or-append_ge xs ys i (omega arith))

get_or_past : (xs : Bytes) (i : ℕ) → length xs ≤ i → get_or xs i 0 ≡ 0
get_or_past [] i h = refl
get_or_past (x ∷ xs) zero h = absurd (omega arith)
get_or_past (x ∷ xs) (suc i) h = get_or_past xs i (omega arith)

abbrev zeros : ℕ → Bytes
zeros n = replicate n 0

get_or-zeros : (n i : ℕ) → get_or (zeros n) i 0 ≡ 0
get_or-zeros zero i = refl
get_or-zeros (suc n) zero = refl
get_or-zeros (suc n) (suc i) = get_or-zeros n i

get_or-take : (n : ℕ) (xs : Bytes) (i : ℕ) → i < n → get_or (take n xs) i 0 ≡ get_or xs i 0
get_or-take zero xs i h = absurd (omega arith)
get_or-take (suc n) [] i h = refl
get_or-take (suc n) (x ∷ xs) zero h = refl
get_or-take (suc n) (x ∷ xs) (suc i) h = get_or-take n xs i (omega arith)

get_or-drop : (n : ℕ) (xs : Bytes) (i : ℕ) → get_or (drop n xs) i 0 ≡ get_or xs (n + i) 0
get_or-drop zero xs i = let e : 0 + i ≡ i = omega arith in rw e
get_or-drop (suc n) [] i = refl
get_or-drop (suc n) (x ∷ xs) i =
    let e : suc n + i ≡ suc (n + i) = omega arith in rw e (get_or-drop n xs i)

pub le_or_lt : (m n : ℕ) → (m ≤ n) ⊎ (n < m)
le_or_lt m n = ground arith

pub value_in : (base : ℕ) (xs : Bytes) (a : ℕ) → base ≤ a → value base xs a ≡ get_or xs (a - base) 0
value_in base xs a h = let e : leb base a ≡ true = ground arith in rw e refl

pub value_out : (base : ℕ) (xs : Bytes) (a : ℕ) → a < base → value base xs a ≡ 0
value_out base xs a h = let e : leb base a ≡ false = ground arith in rw e refl

pub value-nil : (base a : ℕ) → value base [] a ≡ 0
value-nil base a = ground arith

-- Room at the front and at the end is zeros, which the image has already outside.
pub value-front :
    (base new : ℕ) (xs : Bytes) (a : ℕ)
    → new ≤ base
    → value new (zeros (base - new) ++ xs) a ≡ value base xs a
value-front base new xs a h = elim (le_or_lt base a) [
  | inl in_old ↦
      let n : length (zeros (base - new)) ≡ base - new = length-replicate (base - new) 0 in
      let e : a - new - length (zeros (base - new)) ≡ a - base = omega arith in
      value_in new (zeros (base - new) ++ xs) a (omega arith)
      ∙ get_or-append_ge (zeros (base - new)) xs (a - new) (omega arith)
      ∙ ap (λ i. get_or xs i 0) e
      ∙ sym (value_in base xs a in_old)
  | inr before ↦ elim (le_or_lt new a) [
    | inl in_new ↦
        let n : length (zeros (base - new)) ≡ base - new = length-replicate (base - new) 0 in
        value_in new (zeros (base - new) ++ xs) a in_new
        ∙ get_or-append_lt (zeros (base - new)) xs (a - new) (omega arith)
        ∙ get_or-zeros (base - new) (a - new)
        ∙ sym (value_out base xs a before)
    | inr out ↦ value_out new (zeros (base - new) ++ xs) a out ∙ sym (value_out base xs a before)
  ]
]

get_or-pad : (xs : Bytes) (n i : ℕ) → get_or (xs ++ replicate n 0) i 0 ≡ get_or xs i 0
get_or-pad xs n i = elim (le_or_lt (length xs) i) [
  | inl past ↦
      get_or-append_ge xs (replicate n 0) i past
      ∙ get_or-zeros n (i - length xs)
      ∙ sym (get_or_past xs i past)
  | inr inside ↦ get_or-append_lt xs (replicate n 0) i inside
]

pub value-pad :
    (base : ℕ) (xs : Bytes) (n a : ℕ) → value base (xs ++ replicate n 0) a ≡ value base xs a
value-pad base xs n a = ap (λ v. if leb base a then v else 0) (get_or-pad xs n (a - base))

-- the image with bytes over it
abbrev pub over : ℕ → Bytes → Bytes → Bytes
over offset bytes xs = take offset xs ++ (bytes ++ drop (offset + length bytes) xs)

pub length-over :
    (offset : ℕ) (bytes xs : Bytes)
    → offset + length bytes ≤ length xs
    → length (over offset bytes xs) ≡ length xs
length-over offset bytes xs h = omega (
  arith,
  length-append (take offset xs) (bytes ++ drop (offset + length bytes) xs),
  length-append bytes (drop (offset + length bytes) xs),
  length-take offset xs (omega arith),
  length-drop (offset + length bytes) xs,
)

pub get_or-over_before :
    (offset : ℕ) (bytes xs : Bytes) (i : ℕ)
    → offset ≤ length xs
    → i < offset
    → get_or (over offset bytes xs) i 0 ≡ get_or xs i 0
get_or-over_before offset bytes xs i h k =
    get_or-append_lt (take offset xs) (bytes ++ drop (offset + length bytes) xs) i
      (omega (arith, length-take offset xs h))
    ∙ get_or-take offset xs i k

pub get_or-over_from :
    (offset : ℕ) (bytes xs : Bytes) (i : ℕ)
    → offset ≤ length xs
    → offset ≤ i
    → get_or (over offset bytes xs) i 0
      ≡ get_or (bytes ++ drop (offset + length bytes) xs) (i - offset) 0
get_or-over_from offset bytes xs i h k =
    let n = length-take offset xs h in
    let e : i - length (take offset xs) ≡ i - offset = omega arith in
    get_or-append_ge (take offset xs) (bytes ++ drop (offset + length bytes) xs) i (omega arith)
    ∙ ap (λ j. get_or (bytes ++ drop (offset + length bytes) xs) j 0) e

pub get_or-over_after :
    (offset : ℕ) (bytes xs : Bytes) (i : ℕ)
    → offset ≤ length xs
    → offset + length bytes ≤ i
    → get_or (over offset bytes xs) i 0 ≡ get_or xs i 0
get_or-over_after offset bytes xs i h k =
    let e : offset + length bytes + (i - offset - length bytes) ≡ i = omega arith in
    get_or-over_from offset bytes xs i h (omega arith)
    ∙ get_or-append_ge bytes (drop (offset + length bytes) xs) (i - offset) (omega arith)
    ∙ get_or-drop (offset + length bytes) xs (i - offset - length bytes)
    ∙ ap (λ j. get_or xs j 0) e

pub covers_no :
    (r : TextRecord) (a v : ℕ)
    → (a < r.address) ⊎ (r.address + length r.bytes ≤ a)
    → byte_after r a v ≡ v
covers_no r a v (inl h) = let e : leb r.address a ≡ false = ground arith in rw e (off r.is_data)
  where
    off :
        (b : Bool)
        → (if b && (false && ltb a (r.address + length r.bytes))
            then get_or r.bytes (a - r.address) 0
            else v)
          ≡ v
    off true = refl
    off false = refl
covers_no r a v (inr h) =
    let e : ltb a (r.address + length r.bytes) ≡ false = ground arith in
    rw e (off r.is_data (leb r.address a))
  where
    off : (b k : Bool) → (if b && (k && false) then get_or r.bytes (a - r.address) 0 else v) ≡ v
    off true true = refl
    off true false = refl
    off false k = refl

pub covers_yes :
    (r : TextRecord) (a v : ℕ)
    → r.is_data ≡ true
    → r.address ≤ a
    → a < r.address + length r.bytes
    → byte_after r a v ≡ get_or r.bytes (a - r.address) 0
covers_yes r a v d h k =
    let e : leb r.address a ≡ true = ground arith in
    let f : ltb a (r.address + length r.bytes) ≡ true = ground arith in rw (d, e, f) refl
