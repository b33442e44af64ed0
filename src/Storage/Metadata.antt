-- ===== src/Storage/Metadata.antt =====
-- main/core/firmware_upload/fw_upload_storage.c: the metadata of a file, stored beside it as a JSON
-- text. The texts are made and read by cJSON.
pub mod Fields
pub mod Kept
use miri_tool_v.Base.{
  ℕ, Bool, true, false, Bytes, List, [], ◌∷◌, ◌++◌, Option, none, some, length, take, ltb, ◌==◌,
  if◌then◌else◌, Outcome, done, failed, esp_fail, invalid_arg,
}
use miri_tool_v.FwState.{text}
use miri_tool_v.FwTypes.{
  strcasecmp_equal, format_to_str, format_from_str, exec_to_str, exec_from_str,
}
use miri_tool_v.Meta.{FwMeta, zeroed}
use miri_tool_v.Card.{Files, content_of, store, build_meta_path}

-- The kinds of items that are read and written: a number stands for a double that is whole.
pub data Item : Type 0 where
  string : Bytes → Item
  number : ℕ → Item
  boolean : Bool → Item

abbrev pub Object : Type 0
Object = List (Bytes × Item)

-- cJSON_PrintUnformatted and cJSON_Parse on objects.
pub record Cjson : Type 0 where
  pub print : Object → Bytes
  pub parse : Bytes → Option Object

-- `cJSON_GetObjectItem`: the first item of the name, whatever the case of its letters.
abbrev pub get_item : Bytes → Object → Option Item
get_item key [] = none
get_item key ((k, item) ∷ object) =
    let later = get_item key object in if strcasecmp_equal k key then some item else later

-- The fields that are written only if they are not empty.
abbrev pub string_field : Bytes → Bytes → Object
string_field key [] = []
string_field key (c ∷ cs) = (key, string (c ∷ cs)) ∷ []

abbrev pub number_field : Bytes → ℕ → Object
number_field key n = if ltb 0 n then (key, number n) ∷ [] else []

unfoldable pub object_of : FwMeta → Object
object_of m =
    (text "file_name", string m.file_name)
    ∷ (text "file_type", string m.file_type)
    ∷ (text "format", string (format_to_str m.format))
    ∷ (text "exec", string (exec_to_str m.exec))
    ∷ (text "exec_override", boolean m.exec_override)
    ∷ (string_field (text "target_board") m.target_board
        ++ (string_field (text "target_id") m.target_id
            ++ (number_field (text "can_bitrate") m.can_bitrate
                ++ (number_field (text "uart_baud") m.uart_baud
                    ++ (number_field (text "swd_clock_khz") m.swd_clock_khz
                        ++ (number_field (text "jtag_clock_khz") m.jtag_clock_khz
                            ++ (string_field (text "meta_json") m.meta_json
                                ++ ((text "encrypted", boolean m.encrypted)
                                    ∷ (text "size", number m.original_size)
                                    ∷ []))))))))

-- `strncpy` of a string item into a field of `size` bytes that is zeroed before.
abbrev pub string_or : Option Item → ℕ → Bytes → Bytes
string_or (some (string s)) size other = take size s
string_or _ size other = take size other

abbrev pub name_or : Option Item → Option Bytes
name_or (some (string s)) = some s
name_or _ = none

abbrev pub number_or_zero : Option Item → ℕ
number_or_zero (some (number n)) = n
number_or_zero _ = 0

abbrev pub boolean_or_false : Option Item → Bool
boolean_or_false (some (boolean b)) = b
boolean_or_false _ = false

-- The metadata that the items make.
unfoldable pub meta_of : Bytes → Bytes → Object → FwMeta
meta_of name type o = record zeroed {
  file_name = string_or (get_item (text "file_name") o) 63 name;
  file_type = string_or (get_item (text "file_type") o) 7 type;
  format = format_from_str (name_or (get_item (text "format") o));
  exec = exec_from_str (name_or (get_item (text "exec") o));
  exec_override = boolean_or_false (get_item (text "exec_override") o);
  target_board = string_or (get_item (text "target_board") o) 31 [];
  target_id = string_or (get_item (text "target_id") o) 15 [];
  can_bitrate = number_or_zero (get_item (text "can_bitrate") o);
  uart_baud = number_or_zero (get_item (text "uart_baud") o);
  swd_clock_khz = number_or_zero (get_item (text "swd_clock_khz") o);
  jtag_clock_khz = number_or_zero (get_item (text "jtag_clock_khz") o);
  meta_json = string_or (get_item (text "meta_json") o) 255 [];
  encrypted = boolean_or_false (get_item (text "encrypted") o);
  original_size = number_or_zero (get_item (text "size") o);
}

module _ (cjson : Cjson) where
  abbrev pub written_at : Bool → FwMeta → Files → Option Bytes → Outcome Files
  written_at opens m files none = failed invalid_arg files
  written_at opens m files (some path) =
      if opens then done (store path (cjson.print (object_of m)) files) else failed esp_fail files

  -- `fw_storage_meta_write`; the flags say whether the card is ready and the file opens. The memory
  -- that cJSON asks for is there.
  unfoldable pub meta_write : Bool → Bool → FwMeta → Files → Outcome Files
  meta_write ready opens m files =
      if ready
      then written_at opens m files (build_meta_path m.file_name m.file_type)
      else failed esp_fail files

  abbrev pub parsed : Bytes → Bytes → Option Object → Option FwMeta
  parsed name type none = none
  parsed name type (some o) = some (meta_of name type o)

  -- `json_buf` takes 511 bytes of the file.
  abbrev pub read_json : Bytes → Bytes → Option Bytes → Option FwMeta
  read_json name type none = none
  read_json name type (some content) =
      if length (take 511 content) == 0
      then none
      else parsed name type (cjson.parse (take 511 content))

  abbrev pub content_at : Files → Option Bytes → Option Bytes
  content_at files none = none
  content_at files (some path) = content_of path files

  -- `fw_storage_meta_read`; `none` is any of its errors.
  unfoldable pub meta_read : Bytes → Bytes → Files → Option FwMeta
  meta_read name type files = read_json name type (content_at files (build_meta_path name type))
