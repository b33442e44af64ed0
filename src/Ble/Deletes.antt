-- ===== src/Ble/Deletes.antt =====
-- The file that the phone names in a command, and its removal.
use miri_tool_v.Base.{
  ◌≤◌, ◌≡◌, ◌≢◌, refl, ap, ap₂, ◌∙◌, true, false, Bytes, [], ◌∷◌, ◌++◌, All, none, some, length,
  length-append, take, take_all, ◌==◌, arith,
}
use miri_tool_v.FwState.{text}
use miri_tool_v.Hht.Display.{c_string}
use miri_tool_v.Hht.Report.Lines.{c_string-append}
use miri_tool_v.Card.{content_of, remove, mount}
use miri_tool_v.Card.Laws.{content_of-remove, content_of-remove_ne}
use miri_tool_v.Ble.{is_valid_type, is_hht_action, is_start, is_stop, normalize_compat}
use miri_tool_v.Ble.Codes.{cmd_sdmmc_delete_file, ack_sdmmc_delete_file}
use miri_tool_v.Ble.Json.{json_get_string}
use miri_tool_v.Ble.Json.Found.{
  Unquoted, file_object, json_get_string-file_name, json_get_string-file_type,
}
use miri_tool_v.Ble.Device.{Device, Env, send_cmd}
use miri_tool_v.Ble.Handler.{named_in, both, copied, path_in, handle_sdmmc_delete, result_ok}
use miri_tool_v.Ble.Commands.{
  handle_with_payload, dispatch, handle_other, handle_info, handle_program, handle_storage,
}

-- A text that can stand in a JSON string as it is.
abbrev pub Plain : Bytes → Type 0
Plain = All (λ c. (c ≢ b'"') × (c ≢ 0))

Plain-Unquoted : (xs : Bytes) → Plain xs → Unquoted xs
Plain-Unquoted [] h = tt
Plain-Unquoted (x ∷ xs) h = (h.0.0, Plain-Unquoted xs h.1)

Plain-nonzero : (xs : Bytes) → Plain xs → All (λ c. c ≢ 0) xs
Plain-nonzero [] h = tt
Plain-nonzero (x ∷ xs) h = (h.0.1, Plain-nonzero xs h.1)

c_string-file_object :
    (name type : Bytes)
    → Plain name
    → Plain type
    → c_string (file_object name type) ≡ file_object name type
unfolding c_string
c_string-file_object name type n t = rw (
  c_string-append name (text "\",\"file_type\":\"" ++ (type ++ text "\"}")) (Plain-nonzero name n),
  c_string-append type (text "\"}") (Plain-nonzero type t),
)

named_in_nonempty :
    (p : Bytes)
    → (length p == 0) ≡ false
    → named_in p
      ≡ both
          (json_get_string (copied 255 p) (text "file_name") 64)
          (json_get_string (copied 255 p) (text "file_type") 32)
unfolding named_in
named_in_nonempty p e = rw e refl

file_object_nonempty : (name type : Bytes) → (length (file_object name type) == 0) ≡ false
file_object_nonempty name type = ground arith

-- A command that names a file: the name and the type are found in its payload.
named_in-file_object :
    (name type : Bytes)
    → Plain name
    → Plain type
    → length name ≤ 63
    → length type ≤ 31
    → named_in (file_object name type) ≡ some (record { file_name = name; file_type = type })
named_in-file_object name type n t a b =
    let l = length-append name (text "\",\"file_type\":\"" ++ (type ++ text "\"}")) in
    let m = length-append type (text "\"}") in
    let whole : take 255 (file_object name type) ≡ file_object name type =
      take_all 255 (file_object name type) (omega (arith, l, m)) in
    let u = Plain-Unquoted name n in
    let v = Plain-Unquoted type t in
    let json : copied 255 (file_object name type) ≡ file_object name type =
      ap c_string whole ∙ c_string-file_object name type n t in
    named_in_nonempty (file_object name type) (file_object_nonempty name type)
    ∙ ap
        (λ j.
          both (json_get_string j (text "file_name") 64) (json_get_string j (text "file_type") 32))
        json
    ∙ ap₂ both (json_get_string-file_name name type 64 u ∙ ap some (take_all 63 name a))
        (json_get_string-file_type name type 32 u v ∙ ap some (take_all 31 type b))

-- The path of a file on the card.
abbrev pub card_path : Bytes → Bytes → Bytes
card_path name type = path_in mount (record { file_name = name; file_type = type })

-- A file of a known type that is on the card is deleted by the phone: it is gone, the other files
-- are as before, and the phone is told so in one frame.
pub handle_with_payload-delete :
    (env : Env) (name type content : Bytes) (d : Device)
    → Plain name
    → Plain type
    → length name ≤ 63
    → length type ≤ 31
    → is_valid_type type ≡ true
    → content_of (card_path name type) d.worker.files ≡ some content
    → let e = handle_with_payload env cmd_sdmmc_delete_file (file_object name type) d in
      (content_of (card_path name type) e.worker.files ≡ none)
      × ((other : Bytes)
          → card_path name type ≢ other
          → content_of other e.worker.files ≡ content_of other d.worker.files)
      × (e.sent ≡ d.sent ++ record { cmd = ack_sdmmc_delete_file; payload = result_ok } ∷ [])
unfolding handle_with_payload dispatch handle_other handle_info handle_program handle_storage
    handle_sdmmc_delete send_cmd normalize_compat remove is_hht_action is_stop is_start
handle_with_payload-delete env name type content d n t a b valid found =
    let path = card_path name type in
    rw (named_in-file_object name type n t a b, valid, found)
      (
        content_of-remove path d.worker.files,
        (λ other e. content_of-remove_ne path other d.worker.files e),
        refl,
      )
