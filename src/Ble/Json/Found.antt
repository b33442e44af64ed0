-- ===== src/Ble/Json/Found.antt =====
-- A string that is found again under its key.
use miri_tool_v.Base.{
  ℕ, ◌-◌, ◌≡◌, ◌≢◌, refl, true, false, Bytes, [], ◌∷◌, ◌++◌, All, some, length, length-append, take,
  take-append, ◌==◌, ==_refl, Bool-cases, inl, inr, arith,
}
use miri_tool_v.FwState.{text}
use miri_tool_v.Hht.Report.{strstr, starts_with}
use miri_tool_v.Ble.Json.{strchr, skip_blanks, string_at, json_get_string}

-- characters that can stand in a string as they are
abbrev pub Unquoted : Bytes → Type 0
Unquoted = All (λ c. c ≢ b'"')

-- `"key":"value"` before the rest of an object
abbrev pub member : Bytes → Bytes → Bytes → Bytes
member key value rest = b'"' ∷ (key ++ (b'"' ∷ b':' ∷ b'"' ∷ (value ++ (b'"' ∷ rest))))

strchr-quote :
    (value rest : Bytes) → Unquoted value → strchr b'"' (value ++ b'"' ∷ rest) ≡ some (b'"' ∷ rest)
unfolding strchr
strchr-quote [] rest h = refl
strchr-quote (c ∷ cs) rest h =
    let other : (c == b'"') ≡ false = ground arith in rw other (strchr-quote cs rest h.1)

strchr-colon :
    (key rest : Bytes)
    → All (λ c. c ≢ b':') key
    → strchr b':' (key ++ b':' ∷ rest) ≡ some (b':' ∷ rest)
unfolding strchr
strchr-colon [] rest h = refl
strchr-colon (c ∷ cs) rest h =
    let other : (c == b':') ≡ false = ground arith in rw other (strchr-colon cs rest h.1)

-- The string behind the quote, as much as the buffer takes.
string_at-value :
    (value rest : Bytes) (out_size : ℕ)
    → Unquoted value
    → string_at out_size (b'"' ∷ (value ++ b'"' ∷ rest)) ≡ some (take (out_size - 1) value)
string_at-value value rest out_size h =
    let n : length (value ++ b'"' ∷ rest) - length (b'"' ∷ rest) ≡ length value =
      omega (arith, length-append value (b'"' ∷ rest)) in
    rw (strchr-quote value rest h, n, take-append value (b'"' ∷ rest))

starts_with-append : (needle rest : Bytes) → starts_with needle (needle ++ rest) ≡ true
unfolding starts_with
starts_with-append [] [] = refl
starts_with-append [] (x ∷ rest) = refl
starts_with-append (x ∷ xs) rest = rw (==_refl x) (starts_with-append xs rest)

-- The needle for a key: it begins with a quote, so that the characters of a string are passed over.
module _ (k : Bytes) where
  strstr-pass : (xs ys : Bytes) → Unquoted xs → strstr (b'"' ∷ k) (xs ++ ys) ≡ strstr (b'"' ∷ k) ys
  unfolding strstr starts_with
  strstr-pass [] ys h = refl
  strstr-pass (c ∷ cs) ys h =
      let other : (b'"' == c) ≡ false = ground arith in rw other (strstr-pass cs ys h.1)

  strstr-hit : (ys : Bytes) → strstr (b'"' ∷ k) (b'"' ∷ (k ++ ys)) ≡ some (b'"' ∷ (k ++ ys))
  unfolding strstr starts_with
  strstr-hit ys = rw (starts_with-append k ys)

  strstr-miss :
      (ys : Bytes) → starts_with k ys ≡ false → strstr (b'"' ∷ k) (b'"' ∷ ys) ≡ strstr (b'"' ∷ k) ys
  unfolding strstr starts_with
  strstr-miss ys h = rw h

-- Only the key itself is taken for the key.
starts_with-key :
    (key value rest : Bytes)
    → Unquoted key
    → Unquoted value
    → starts_with (key ++ b'"' ∷ []) (value ++ b'"' ∷ rest) ≡ true
    → value ≡ key
unfolding starts_with
starts_with-key [] [] rest h k s = refl
starts_with-key [] (v ∷ vs) rest h k s = absurd (k.0 (ground arith))
starts_with-key (c ∷ cs) [] rest h k s = absurd (h.0 (ground arith))
starts_with-key (c ∷ cs) (v ∷ vs) rest h k s = ground (arith, starts_with-key cs vs rest h.1 k.1)

abbrev name_key : Bytes
name_key = text "file_name"

abbrev type_key : Bytes
type_key = text "file_type"

-- What the phone sends to name a file.
abbrev pub file_object : Bytes → Bytes → Bytes
file_object name type = b'{' ∷ member name_key name (b',' ∷ member type_key type (b'}' ∷ []))

-- The name that the phone sends is read back, as much as the buffer takes.
pub json_get_string-file_name :
    (name type : Bytes) (out_size : ℕ)
    → Unquoted name
    → json_get_string (file_object name type) name_key out_size ≡ some (take (out_size - 1) name)
unfolding json_get_string strstr starts_with strchr skip_blanks
json_get_string-file_name name type out_size h =
    string_at-value name (b',' ∷ member type_key type (b'}' ∷ [])) out_size h

-- The name `file_type` is found before the key, and the same colon behind both.
type_named_type :
    (type : Bytes) (out_size : ℕ)
    → Unquoted type
    → json_get_string (file_object type_key type) type_key out_size
      ≡ some (take (out_size - 1) type)
unfolding json_get_string strstr starts_with strchr skip_blanks
type_named_type type out_size k = string_at-value type (b'}' ∷ []) out_size k

type_behind_name :
    (name type : Bytes) (out_size : ℕ)
    → Unquoted name
    → starts_with (type_key ++ b'"' ∷ []) (name ++ b'"' ∷ b',' ∷ member type_key type (b'}' ∷ []))
      ≡ false
    → Unquoted type
    → json_get_string (file_object name type) type_key out_size ≡ some (take (out_size - 1) type)
unfolding json_get_string strstr starts_with strchr skip_blanks
type_behind_name name type out_size h miss k =
    let rest = b',' ∷ member type_key type (b'}' ∷ []) in
    let pass = strstr-pass (type_key ++ b'"' ∷ []) name (b'"' ∷ rest) h in
    rw (miss, pass) (string_at-value type (b'}' ∷ []) out_size k)

-- The type is read back too, as much as the buffer takes.
pub json_get_string-file_type :
    (name type : Bytes) (out_size : ℕ)
    → Unquoted name
    → Unquoted type
    → json_get_string (file_object name type) type_key out_size ≡ some (take (out_size - 1) type)
json_get_string-file_type name type out_size h k =
    let rest = b',' ∷ member type_key type (b'}' ∷ []) in
    elim (Bool-cases (starts_with (type_key ++ b'"' ∷ []) (name ++ b'"' ∷ rest))) [
      | inl same ↦
          let e = starts_with-key type_key name rest (search (arith)) h same in
          rw e (type_named_type type out_size k)
      | inr miss ↦ type_behind_name name type out_size h miss k
    ]
