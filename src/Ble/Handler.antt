-- ===== src/Ble/Handler.antt =====
-- main/protocol/ble_cmd_parser.c: what a command of the phone does.
use miri_tool_v.Base.{
  ℕ, ◌+◌, ◌*◌, ◌^◌, Bool, not, ◌&&◌, ◌||◌, Bytes, [], ◌∷◌, ◌++◌, Option, none, some, length, take,
  get_or, ltb, leb, ◌==◌, if◌then◌else◌, EspErr,
}
use miri_tool_v.FwState.{text}
use miri_tool_v.Role.{hht, fw_upload, storage_upload, same_role}
use miri_tool_v.Hht.{HhtType, wb100, hht_3000, hht_100}
use miri_tool_v.Hht.Main.{set_type}
use miri_tool_v.Hht.Keys.{keys_send, keys_send_long}
use miri_tool_v.Hht.Display.{c_string}
use miri_tool_v.Card.{content_of, remove, store, mount}
use miri_tool_v.Manager.{trim_whitespace}
use miri_tool_v.Manager.Run.{run_from_sdmmc}
use miri_tool_v.Ble.{
  Key, key_from_code, hht_start_ack, hht_stop_ack, cmd_to_role, is_valid_type, is_name_valid,
}
use miri_tool_v.Ble.Codes.{
  ack_program_enter_wifi_esp32, cmd_program_stop_phone_esp32, ack_program_stop_phone_esp32,
  ack_program_start_phone_esp32, cmd_start_hht_100, ack_start_hht_100, ack_stop_hht_100,
  cmd_hht_btn, ack_hht_btn, ack_cmd_esp32_adv_rename, ack_sdmmc_program_enter, ack_sdmmc_format,
  ack_fat_format, ack_sdmmc_delete_file, ack_fat_delete_file, cmd_start_hht_wb100,
  cmd_stop_hht_wb100, cmd_start_hht_3000, cmd_stop_hht_3000, ack_start_hht_wb100,
  cmd_fw_upload_stop, ack_fw_upload_stop,
}
use miri_tool_v.Ble.Json.{json_get_string}
use miri_tool_v.Ble.Lists.{result_failed}
use miri_tool_v.Ble.Device.{
  Device, Env, send_cmd, request_role, clear_role, legacy_set_type, legacy_set_file_name,
  legacy_set_expected_size, set_pending_file, has_pending, default_ota_name, current_name,
}

abbrev pub result_ok : Bytes
result_ok = text "{\"result\":0}"

-- The copy of the payload that ends with a zero.
abbrev pub copied : ℕ → Bytes → Bytes
copied n payload = c_string (take n payload)

abbrev pub send_key : Option Key → Device → Device
send_key none d = d
send_key (some k) d =
    let pressed = if k.is_long then keys_send_long k.key d.keys else keys_send k.key d.keys in
    send_cmd ack_hht_btn []
      (record d { keys = if same_role d.roles.active hht then pressed else d.keys })

abbrev pub key_of : Bytes → Device → Device
key_of [] d = d
key_of (code ∷ _) d = send_key (key_from_code code) d

unfoldable pub handle_hht_action : ℕ → Bytes → Device → Device
handle_hht_action cmd payload d = if cmd == cmd_hht_btn then key_of payload d else d

-- The acknowledgements of a terminal that is stopped.
abbrev pub stop_acks : ℕ → Device → Device
stop_acks cmd d =
    if cmd == cmd_stop_hht_wb100
    then send_cmd (hht_stop_ack cmd) (0 ∷ []) (send_cmd ack_start_hht_wb100 (0 ∷ []) d)
    else if cmd == cmd_stop_hht_3000
    then send_cmd ack_stop_hht_100 [] (send_cmd (hht_stop_ack cmd) [] d)
    else send_cmd (hht_stop_ack cmd) [] d

unfoldable pub handle_stop : ℕ → Device → Device
handle_stop cmd d =
    if cmd == cmd_program_stop_phone_esp32
    then send_cmd ack_program_stop_phone_esp32 [] (clear_role d)
    else if cmd == cmd_fw_upload_stop
    then send_cmd ack_fw_upload_stop [] (clear_role d)
    else stop_acks cmd (clear_role d)

abbrev pub type_started : ℕ → HhtType
type_started cmd =
    if cmd == cmd_start_hht_wb100
    then wb100
    else if cmd == cmd_start_hht_3000
    then hht_3000
    else hht_100

abbrev pub with_type : HhtType → Device → Device
with_type type d = record d { roles = record d.roles { terminal = set_type type d.roles.terminal } }

-- A WB100 is acknowledged by its workflow, when its session is open.
abbrev pub start_acks : ℕ → Device → Device
start_acks cmd d =
    if cmd == cmd_start_hht_wb100
    then d
    else if cmd == cmd_start_hht_3000
    then send_cmd ack_start_hht_100 [] (send_cmd (hht_start_ack cmd) [] d)
    else send_cmd (hht_start_ack cmd) [] d

abbrev pub starts_hht : ℕ → Bool
starts_hht cmd =
    cmd == cmd_start_hht_100 || (cmd == cmd_start_hht_wb100 || cmd == cmd_start_hht_3000)

unfoldable pub handle_start : Env → ℕ → Device → Device
handle_start env cmd d =
    if starts_hht cmd
    then request_role env hht (start_acks cmd (with_type (type_started cmd) d))
    else request_role env (cmd_to_role cmd) d

-- CMD_ESP32_ADV_RENAME
abbrev pub name_answer : Bytes → Bytes → Bytes
name_answer result name =
    take 127 (text "{\"result\":" ++ (result ++ (text ",\"name\":\"" ++ (name ++ text "\"}"))))

abbrev pub reason : Bytes → Bytes
reason why = text ",\"reason\":\"" ++ (why ++ b'"' ∷ [])

abbrev pub setting_path : Bytes
setting_path = text "/c/ble_setting.txt"

abbrev pub renamed : Env → Bytes → Option Bytes → Device → Device
renamed env name (some why) d =
    send_cmd ack_cmd_esp32_adv_rename (name_answer (text "-1" ++ reason why) (current_name env d)) d
renamed env name none d =
    send_cmd ack_cmd_esp32_adv_rename (name_answer (text "0") name)
      (record d { alias = name; fat_files = store setting_path name d.fat_files })

unfoldable pub handle_rename : Env → Bytes → Device → Device
handle_rename env payload d =
    let name = trim_whitespace (copied 31 payload) in
    if length payload == 0
    then send_cmd ack_cmd_esp32_adv_rename
        (name_answer (text "-2" ++ reason (text "no_payload")) (current_name env d)) d
    else if is_name_valid name
    then renamed env name env.rename_error d
    else send_cmd ack_cmd_esp32_adv_rename
        (name_answer (text "-3" ++ reason (text "invalid_format")) (current_name env d)) d

abbrev pub length_of : Bytes → ℕ
length_of payload = get_or payload 0 0 + get_or payload 1 0 * 2 ^ 8 + get_or payload 2 0 * 2 ^ 16

-- With a type known and no file to come, the file gets a name of its own.
abbrev pub name_pending : Env → Device → Device
name_pending env d =
    if not (has_pending d.pending) && not (length d.last_fw_type == 0)
    then record d {
      pending = set_pending_file (default_ota_name env) d.last_fw_type d.pending;
      legacy = legacy_set_file_name (default_ota_name env) d.legacy;
    }
    else d

abbrev pub expect : ℕ → Device → Device
expect size d = record d {
  pending = record d.pending { expected = size };
  legacy = legacy_set_expected_size size d.legacy;
}

-- CMD_PROGRAM_ENTER_WIFI_ESP32
unfoldable pub handle_enter_wifi : Env → Bytes → Device → Device
handle_enter_wifi env payload d =
    if leb 3 (length payload)
    then send_cmd ack_program_enter_wifi_esp32 (0x55 ∷ [])
        (request_role env fw_upload (name_pending env (expect (length_of payload) d)))
    else send_cmd ack_program_enter_wifi_esp32 (0x56 ∷ []) (request_role env fw_upload d)

-- `ble_set_last_fw_type`
unfoldable pub set_last_fw_type : Bytes → Device → Device
set_last_fw_type payload d =
    let type = copied 3 payload in
    if ltb (length payload) 3
    then d
    else if is_valid_type type
    then record d { last_fw_type = type }
    else d

-- CMD_UPDATE_TYPE_PHONE_ESP32
abbrev pub name_update : Env → Device → Device
name_update env d = if length d.last_fw_type == 0 then d else record d {
  legacy = legacy_set_file_name (default_ota_name env) (legacy_set_type d.last_fw_type d.legacy);
}

-- The name and the type of a file in a JSON payload.
pub record Named : Type 0 where
  pub file_name : Bytes
  pub file_type : Bytes

abbrev pub both : Option Bytes → Option Bytes → Option Named
both (some name) (some type) = some (record { file_name = name; file_type = type })
both _ _ = none

unfoldable pub named_in : Bytes → Option Named
named_in payload =
    let json = copied 255 payload in
    if length payload == 0
    then none
    else both (json_get_string json (text "file_name") 64)
        (json_get_string json (text "file_type") 32)

abbrev pub path_in : Bytes → Named → Bytes
path_in at n = take 255 (at ++ (b'/' ∷ (n.file_name ++ (b'.' ∷ n.file_type))))

-- The answer to an update that was to be started.
abbrev pub run_answer : ℕ → Bytes → Option EspErr → Device → Device
run_answer ack failure none d = send_cmd ack (text "{\"result\":0,\"started\":1}") d
run_answer ack failure (some e) d = send_cmd ack failure d

abbrev pub run_file : Env → ℕ → Bytes → Named → Device → Device
run_file env ack failure n d =
    let a = run_from_sdmmc env.place n.file_name n.file_type d.worker in
    run_answer ack failure a.error (record d { worker = a.worker })

abbrev pub bad_json : Bytes
bad_json = text "{\"result\":-1,\"reason\":\"bad_json\"}"

-- CMD_PROGRAM_START_PHONE_ESP32
abbrev pub start_named : Env → Option Named → Device → Device
start_named env none d = send_cmd ack_program_start_phone_esp32 bad_json d
start_named env (some n) d =
    run_file env ack_program_start_phone_esp32 (text "{\"result\":-2,\"reason\":\"run_fail\"}") n d

unfoldable pub handle_program_start : Env → Bytes → Device → Device
handle_program_start env payload d =
    if length payload == 0
    then request_role env fw_upload (send_cmd ack_program_start_phone_esp32 [] d)
    else start_named env (named_in payload) d

-- CMD_SDMMC_PROGRAM_ENTER
abbrev pub enter_present : Env → Named → Option Bytes → Device → Device
enter_present env n none d =
    send_cmd ack_sdmmc_program_enter (text "{\"result\":-2,\"reason\":\"not_found\"}") d
enter_present env n (some content) d =
    run_file env ack_sdmmc_program_enter (text "{\"result\":-3,\"reason\":\"run_fail\"}") n d

abbrev pub enter_named : Env → Option Named → Device → Device
enter_named env none d = send_cmd ack_sdmmc_program_enter bad_json d
enter_named env (some n) d = enter_present env n (content_of (path_in mount n) d.worker.files) d

unfoldable pub handle_program_enter : Env → Bytes → Device → Device
handle_program_enter env payload d =
    enter_named env (named_in payload) (request_role env storage_upload d)

-- What `remove` returns.
abbrev pub removed_answer : ℕ → Option Bytes → Device → Device
removed_answer ack none d = send_cmd ack result_failed d
removed_answer ack (some content) d = send_cmd ack result_ok d

-- CMD_SDMMC_DELETE_FILE
abbrev pub delete_from_card : Option Named → Device → Device
delete_from_card none d = send_cmd ack_sdmmc_delete_file bad_json d
delete_from_card (some n) d =
    let path = path_in mount n in
    if is_valid_type n.file_type
    then removed_answer ack_sdmmc_delete_file (content_of path d.worker.files)
        (record d { worker = record d.worker { files = remove path d.worker.files } })
    else send_cmd ack_sdmmc_delete_file (text "{\"result\":-2,\"reason\":\"invalid_type\"}") d

unfoldable pub handle_sdmmc_delete : Bytes → Device → Device
handle_sdmmc_delete payload d = delete_from_card (named_in payload) d

-- BASE_FILESYSTEM_PATH_SPIFLASH
abbrev pub fat_mount : Bytes
fat_mount = text "/c"

-- CMD_FAT_DELETE_FILE
abbrev pub delete_from_flash : Option Named → Device → Device
delete_from_flash none d = send_cmd ack_fat_delete_file bad_json d
delete_from_flash (some n) d =
    let path = path_in fat_mount n in
    removed_answer ack_fat_delete_file (content_of path d.fat_files)
      (record d { fat_files = remove path d.fat_files })

unfoldable pub handle_fat_delete : Bytes → Device → Device
handle_fat_delete payload d = delete_from_flash (named_in payload) d

abbrev pub not_ready : Bytes
not_ready = text "{\"result\":-1,\"reason\":\"not_ready\"}"

-- CMD_SDMMC_FORMAT and CMD_FAT_FORMAT: a format that succeeds leaves no file.
unfoldable pub handle_sdmmc_format : Env → Device → Device
handle_sdmmc_format env d =
    if env.place.card_ready
    then (if env.card_formats
        then send_cmd ack_sdmmc_format result_ok
            (record d { worker = record d.worker { files = [] } })
        else send_cmd ack_sdmmc_format result_failed d)
    else send_cmd ack_sdmmc_format not_ready d

unfoldable pub handle_fat_format : Env → Device → Device
handle_fat_format env d =
    if env.fat_ready
    then (if env.fat_formats
        then send_cmd ack_fat_format result_ok (record d { fat_files = [] })
        else send_cmd ack_fat_format result_failed d)
    else send_cmd ack_fat_format not_ready d
