-- ===== src/Storage/Metadata/Fields.antt =====
-- The fields of metadata, found again in the JSON object that is made of them.
use miri_tool_v.Base.{
  ℕ, ◌≤◌, ◌≡◌, refl, ◌∙◌, true, false, Bytes, List, [], ◌∷◌, ◌++◌, none, length, All, take_all, ltb,
  arith, Bool-cases, inl, inr,
}
use miri_tool_v.FwTypes.{strcasecmp_equal}
use miri_tool_v.Storage.Metadata.{
  string, number, Object, get_item, string_field, number_field, string_or, number_or_zero,
}

-- A field that is written only if it is not empty.
pub data Field : Type 0 where
  string_of : Bytes → Bytes → Field
  number_of : Bytes → ℕ → Field

abbrev pub key_of : Field → Bytes
key_of (string_of k s) = k
key_of (number_of k n) = k

abbrev pub piece : Field → Object
piece (string_of k s) = string_field k s
piece (number_of k n) = number_field k n

-- Fields one behind the other, before the rest of an object.
abbrev pub fields : List Field → Object → Object
fields [] rest = rest
fields (f ∷ fs) rest = piece f ++ fields fs rest

abbrev pub Others : Bytes → List Field → Type 0
Others key = All (λ f. strcasecmp_equal (key_of f) key ≡ false)

-- A field is not found under another name.
skip_piece :
    (key : Bytes) (f : Field) (rest : Object)
    → strcasecmp_equal (key_of f) key ≡ false
    → get_item key (piece f ++ rest) ≡ get_item key rest
skip_piece key (string_of k []) rest h = refl
skip_piece key (string_of k (c ∷ cs)) rest h = rw h
skip_piece key (number_of k n) rest h = elim (Bool-cases (ltb 0 n)) [
  | inl positive ↦ rw (positive, h)
  | inr zero_ ↦ rw zero_
]

pub skip_fields :
    (key : Bytes) (fs : List Field) (rest : Object)
    → Others key fs
    → get_item key (fields fs rest) ≡ get_item key rest
skip_fields key [] rest h = refl
skip_fields key (f ∷ fs) rest h =
    skip_piece key f (fields fs rest) h.0 ∙ skip_fields key fs rest h.1

-- A field is read back, empty or not, from behind others and before others.
module _ (key : Bytes) (before after : List Field) (rest : Object) (b : Others key before)
    (a : Others key after) (r : get_item key rest ≡ none)
    (same : strcasecmp_equal key key ≡ true) where
  pub read_string :
      (s : Bytes) (size : ℕ)
      → length s ≤ size
      → string_or (get_item key (fields before (string_field key s ++ fields after rest))) size []
        ≡ s
  read_string [] size f =
      rw (skip_fields key before (fields after rest) b, skip_fields key after rest a, r)
        (take_all size [] f)
  read_string (c ∷ cs) size f =
      rw (skip_fields key before ((key, string (c ∷ cs)) ∷ fields after rest) b, same)
        (take_all size (c ∷ cs) f)

  pub read_number :
      (n : ℕ)
      → number_or_zero (get_item key (fields before (number_field key n ++ fields after rest))) ≡ n
  read_number n = elim (Bool-cases (ltb 0 n)) [
    | inl positive ↦
        rw (positive, skip_fields key before ((key, number n) ∷ fields after rest) b, same)
    | inr zero_ ↦
        rw (zero_, skip_fields key before (fields after rest) b, skip_fields key after rest a, r)
          (ground arith)
  ]
