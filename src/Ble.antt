-- ===== src/Ble.antt =====
-- main/protocol/ble_cmd_parser.c: the commands that the phone sends over BLE.
pub mod Codes
pub mod Json
pub mod Device
pub mod Lists
pub mod Handler
pub mod Commands
pub mod Refines
pub mod Rules
pub mod Deletes
pub mod Sessions
pub mod Transport
use miri_tool_v.Base.{
  ℕ, ◌-◌, ◌<◌, Bool, true, false, ◌&&◌, ◌||◌, Bytes, List, [], ◌∷◌, ◌++◌, Option, none, some,
  length, take, drop, ltb, leb, ◌==◌, if◌then◌else◌,
}
use miri_tool_v.FwState.{text}
use miri_tool_v.FwTypes.{strncmp_equal}
use miri_tool_v.Role.{Role, no_role, hht, fw_upload, storage_upload, diag, manual}
use miri_tool_v.Manager.{filename_ext, trim_whitespace}
use miri_tool_v.Ble.Codes.*

-- A `switch` of which these cases do the same.
abbrev pub is_one_of : List ℕ → ℕ → Bool
is_one_of [] cmd = false
is_one_of (c ∷ cs) cmd = cmd == c || is_one_of cs cmd

abbrev pub start_commands : List ℕ
start_commands =
    cmd_start_hht_100 ∷ cmd_start_hht_wb100 ∷ cmd_start_hht_3000 ∷ cmd_fw_upload
    ∷ cmd_miri_diagnosis_req ∷ cmd_handle_phone_esp32 ∷ []

abbrev pub stop_commands : List ℕ
stop_commands =
    cmd_stop_hht_100 ∷ cmd_stop_hht_wb100 ∷ cmd_stop_hht_3000 ∷ cmd_program_stop_phone_esp32
    ∷ cmd_fw_upload_stop ∷ []

abbrev pub hht_action_commands : List ℕ
hht_action_commands =
    cmd_hht_btn ∷ cmd_hht_params ∷ cmd_hht_proj_100 ∷ cmd_hht_ver_cp_100 ∷ cmd_hht_ver_inv_100
    ∷ cmd_hht_prams_inv ∷ cmd_hht_fdc ∷ []

unfoldable pub is_start : ℕ → Bool
is_start cmd = is_one_of start_commands cmd

unfoldable pub is_stop : ℕ → Bool
is_stop cmd = is_one_of stop_commands cmd

unfoldable pub is_hht_action : ℕ → Bool
is_hht_action cmd = is_one_of hht_action_commands cmd

-- `ble_cmd_normalize_compat`: four commands of which the bytes are swapped.
unfoldable pub normalize_compat : ℕ → ℕ
normalize_compat cmd =
    if cmd == 0x0302
    then cmd_start_hht_3000
    else if cmd == 0x0402
    then cmd_stop_hht_3000
    else if cmd == 0x6400
    then cmd_hht_btn
    else if cmd == 0x6480
    then ack_hht_btn
    else cmd

unfoldable pub hht_start_ack : ℕ → ℕ
hht_start_ack cmd =
    if cmd == cmd_start_hht_wb100
    then ack_start_hht_wb100
    else if cmd == cmd_start_hht_3000
    then ack_start_hht_3000
    else ack_start_hht_100

unfoldable pub hht_stop_ack : ℕ → ℕ
hht_stop_ack cmd =
    if cmd == cmd_stop_hht_wb100
    then ack_stop_hht_wb100
    else if cmd == cmd_stop_hht_3000
    then ack_stop_hht_3000
    else ack_stop_hht_100

abbrev pub hht_commands : List ℕ
hht_commands =
    cmd_start_hht_100 ∷ cmd_stop_hht_100 ∷ cmd_hht_btn ∷ cmd_start_hht_wb100 ∷ cmd_stop_hht_wb100
    ∷ cmd_start_hht_3000 ∷ cmd_stop_hht_3000 ∷ cmd_hht_params ∷ cmd_hht_proj_100
    ∷ cmd_hht_ver_cp_100 ∷ cmd_hht_ver_inv_100 ∷ cmd_hht_prams_inv ∷ cmd_hht_fdc ∷ []

abbrev pub storage_commands : List ℕ
storage_commands =
    cmd_sdmmc_program_enter ∷ cmd_sdmmc_program_list ∷ cmd_fat_file_list ∷ cmd_sdmmc_format
    ∷ cmd_fat_format ∷ cmd_sdmmc_delete_file ∷ cmd_fat_delete_file ∷ []

abbrev pub program_commands : List ℕ
program_commands =
    cmd_program_start_phone_esp32 ∷ cmd_program_enter_phone_esp32 ∷ cmd_program_write_phone_esp32
    ∷ cmd_program_interface_reset_phone_esp32 ∷ cmd_program_stop_phone_esp32
    ∷ cmd_update_type_phone_esp32 ∷ cmd_program_progress_msg ∷ []

unfoldable pub cmd_to_role : ℕ → Role
cmd_to_role cmd =
    if is_one_of hht_commands cmd
    then hht
    else if cmd == cmd_fw_upload
    then fw_upload
    else if is_one_of storage_commands cmd
    then storage_upload
    else if is_one_of program_commands cmd
    then fw_upload
    else if cmd == cmd_miri_diagnosis_req
    then diag
    else if cmd == cmd_handle_phone_esp32
    then manual
    else no_role

-- A key of the terminal, and whether it is held.
pub record Key : Type 0 where
  pub key : ℕ
  pub is_long : Bool

abbrev pub short_key : ℕ → Option Key
short_key key = some (record { key = key; is_long = false })

abbrev pub long_key : ℕ → Option Key
long_key key = some (record { key = key; is_long = true })

-- `ble_hht_key_from_code`
unfoldable pub key_from_code : ℕ → Option Key
key_from_code code =
    if code == 0x00
    then short_key 0x00
    else if code == 0x01
    then short_key 0x01
    else if code == 0x02
    then short_key 0x02
    else if code == 0x03
    then short_key 0x04
    else if code == 0x04
    then short_key 0x08
    else if code == 0x05
    then short_key 0x09
    else if code == 0x06
    then short_key 0x0A
    else if code == 0x07
    then long_key 0x01
    else if code == 0x08
    then long_key 0x02
    else if code == 0x09
    then long_key 0x04
    else if code == 0x0A
    then long_key 0x08
    else none

abbrev pub program_types : List Bytes
program_types =
    text "S00"
    ∷ text "S01"
    ∷ text "A00"
    ∷ text "A01"
    ∷ text "A02"
    ∷ text "A03"
    ∷ text "A04"
    ∷ text "A05"
    ∷ text "A06"
    ∷ text "A07"
    ∷ text "A08"
    ∷ text "A09"
    ∷ text "A10"
    ∷ text "A11"
    ∷ text "A12"
    ∷ text "A13"
    ∷ text "A14"
    ∷ text "A15"
    ∷ []

abbrev pub type_among : List Bytes → Bytes → Bool
type_among [] ext = false
type_among (t ∷ ts) ext = strncmp_equal 3 ext t || type_among ts ext

unfoldable pub is_valid_type : Bytes → Bool
is_valid_type [] = false
is_valid_type (c ∷ cs) = type_among program_types (c ∷ cs)

unfoldable pub is_valid_program_file : Bytes → Bool
unfolding is_valid_type
is_valid_program_file name = if is_valid_type (filename_ext name) then length name == 40 else false

abbrev pub isxdigit : ℕ → Bool
isxdigit c = leb b'0' c && leb c b'9' || (leb b'A' c && leb c b'F' || leb b'a' c && leb c b'f')

-- The first `n` characters, each of which has to be a hexadecimal digit.
abbrev pub all_xdigits : Bytes → Bool
all_xdigits [] = true
all_xdigits (c ∷ cs) = isxdigit c && all_xdigits cs

unfoldable pub is_name_valid : Bytes → Bool
is_name_valid name =
    if length name == 9
    then strncmp_equal 5 name (text "MIRI-") && all_xdigits (take 4 (drop 5 name))
    else false
