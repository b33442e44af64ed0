-- ===== src/Ble/Json.antt =====
-- main/protocol/ble_cmd_parser.c: a string of a JSON text, and the JSON texts that are sent.
pub mod Found
use miri_tool_v.Base.{
  ℕ, zero, suc, ◌+◌, ◌-◌, ◌/◌, ◌%◌, Bool, true, false, ◌&&◌, ◌||◌, Bytes, List, [], ◌∷◌, ◌++◌,
  Option, none, some, length, take, drop, ltb, leb, ◌==◌, if◌then◌else◌,
}
use miri_tool_v.FwState.{text}
use miri_tool_v.Hht.Report.{strstr, then_some}

-- `strchr`: what stands from the character on.
unfoldable pub strchr : ℕ → Bytes → Option Bytes
strchr c [] = none
strchr c (x ∷ xs) = let later = strchr c xs in if x == c then some (x ∷ xs) else later

-- The loop past blanks and tabs.
unfoldable pub skip_blanks : Bytes → Bytes
skip_blanks [] = []
skip_blanks (c ∷ cs) = let rest = skip_blanks cs in if c == b' ' || c == b'\t' then rest else c ∷ cs

-- The characters before the closing quote, as many as the buffer takes.
abbrev pub until_quote : Bytes → ℕ → Option Bytes → Option Bytes
until_quote p out_size none = none
until_quote p out_size (some end) = some (take (out_size - 1) (take (length p - length end) p))

abbrev pub string_at : ℕ → Bytes → Option Bytes
string_at out_size [] = none
string_at out_size (c ∷ p) = if c == b'"' then until_quote p out_size (strchr b'"' p) else none

-- `json_get_string`; a key of at most 61 characters stands in `needle` as a whole.
unfoldable pub json_get_string : Bytes → Bytes → ℕ → Option Bytes
json_get_string json key out_size =
    then_some (strstr (take 63 (b'"' ∷ (key ++ b'"' ∷ []))) json)
      λ p. then_some (strchr b':' p) λ q. string_at out_size (skip_blanks (drop 1 q))

-- The digits of a number, `%d`, on fuel of at least the number.
unfoldable pub digits : ℕ → ℕ → Bytes
digits zero n = (b'0' + n % 10) ∷ []
digits (suc fuel) n =
    let before = digits fuel (n / 10) in
    if ltb n 10 then (b'0' + n) ∷ [] else before ++ (b'0' + n % 10) ∷ []

abbrev pub decimal : ℕ → Bytes
decimal n = digits n n
