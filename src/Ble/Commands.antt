-- ===== src/Ble/Commands.antt =====
-- main/protocol/ble_cmd_parser.c: the dispatch of a command.
use miri_tool_v.Base.{
  ℕ, ◌+◌, ◌/◌, ◌%◌, Bool, not, Bytes, [], ◌∷◌, ◌++◌, length, take, ◌==◌, if◌then◌else◌,
}
use miri_tool_v.FwState.{text}
use miri_tool_v.Role.{fw_upload}
use miri_tool_v.Ble.{is_start, is_stop, is_hht_action, normalize_compat, cmd_to_role}
use miri_tool_v.Ble.Codes.{
  cmd_program_enter_wifi_esp32, cmd_program_enter_phone_esp32, ack_program_enter_phone_esp32,
  cmd_program_write_phone_esp32, ack_program_write_phone_esp32,
  cmd_program_interface_reset_phone_esp32, ack_program_interface_reset_phone_esp32,
  cmd_program_stop_phone_esp32, ack_program_stop_phone_esp32, cmd_program_start_phone_esp32,
  cmd_update_type_phone_esp32, ack_program_status_phone_esp32, cmd_program_progress_msg,
  ack_program_progress_msg_esp32, cmd_hht_btn, ack_hht_btn, cmd_esp32_adv_rename,
  cmd_esp32_version_info, ack_cmd_esp32_version_info, cmd_mcu_version_info,
  ack_cmd_mcu_version_info, cmd_mac_bt_info, ack_mac_bt_info, cmd_miri_reboot, ack_miri_reboot,
  cmd_update_info_mobile, ack_update_info_mobile, cmd_sdmmc_program_enter, cmd_sdmmc_program_list,
  ack_sdmmc_program_list, cmd_fat_file_list, ack_fat_file_list, cmd_sdmmc_format, cmd_fat_format,
  cmd_sdmmc_delete_file, cmd_fat_delete_file,
}
use miri_tool_v.Ble.Lists.{send_sdmmc_program_list, send_file_list}
use miri_tool_v.Ble.Device.{Device, Env, send_cmd, request_role}
use miri_tool_v.Ble.Handler.{
  handle_hht_action, handle_stop, handle_start, handle_rename, handle_enter_wifi, set_last_fw_type,
  name_update, handle_program_start, handle_program_enter, handle_sdmmc_delete, handle_fat_delete,
  handle_sdmmc_format, handle_fat_format,
}

-- The cases of the `switch` that ask for the device itself; the last argument is what the other
-- cases do.
unfoldable pub handle_info : Env → ℕ → Bytes → Device → Device → Device
handle_info env cmd payload d others =
    if cmd == cmd_miri_reboot
    then (let acked = send_cmd ack_miri_reboot [] d in
        record acked { restarts = acked.restarts + 1 })
    else if cmd == cmd_esp32_version_info
    then send_cmd ack_cmd_esp32_version_info (take 63 env.version ++ 0 ∷ []) d
    else if cmd == cmd_mac_bt_info
    then send_cmd ack_mac_bt_info (take 6 env.bt_mac) d
    else if cmd == cmd_esp32_adv_rename
    then handle_rename env payload d
    else if cmd == cmd_update_info_mobile
    then (if length payload == 0 then d else send_cmd ack_update_info_mobile [] d)
    else if cmd == cmd_mcu_version_info
    then send_cmd ack_cmd_mcu_version_info (text "MCU=N/A" ++ 0 ∷ []) d
    else others

-- Those for the update of firmware.
unfoldable pub handle_program : Env → ℕ → Bytes → Device → Device → Device
handle_program env cmd payload d others =
    if cmd == cmd_program_enter_wifi_esp32
    then handle_enter_wifi env payload d
    else if cmd == cmd_program_enter_phone_esp32
    then send_cmd ack_program_enter_phone_esp32 [] (request_role env fw_upload d)
    else if cmd == cmd_program_write_phone_esp32
    then send_cmd ack_program_write_phone_esp32 [] (request_role env fw_upload d)
    else if cmd == cmd_program_interface_reset_phone_esp32
    then send_cmd ack_program_interface_reset_phone_esp32 [] d
    else if cmd == cmd_program_stop_phone_esp32
    then send_cmd ack_program_stop_phone_esp32 [] d
    else if cmd == cmd_program_start_phone_esp32
    then handle_program_start env payload d
    else if cmd == cmd_update_type_phone_esp32
    then send_cmd ack_program_status_phone_esp32 payload
        (name_update env (set_last_fw_type payload d))
    else if cmd == cmd_program_progress_msg
    then send_cmd ack_program_progress_msg_esp32 payload d
    else others

-- Those for the files.
unfoldable pub handle_storage : Env → ℕ → Bytes → Device → Device → Device
handle_storage env cmd payload d others =
    if cmd == cmd_sdmmc_program_enter
    then handle_program_enter env payload d
    else if cmd == cmd_sdmmc_program_list
    then send_sdmmc_program_list ack_sdmmc_program_list env.place.entries d
    else if cmd == cmd_fat_file_list
    then send_file_list ack_fat_file_list env.fat_entries d
    else if cmd == cmd_sdmmc_format
    then handle_sdmmc_format env d
    else if cmd == cmd_fat_format
    then handle_fat_format env d
    else if cmd == cmd_sdmmc_delete_file
    then handle_sdmmc_delete payload d
    else if cmd == cmd_fat_delete_file
    then handle_fat_delete payload d
    else others

unfoldable pub handle_other : Env → ℕ → Bytes → Device → Device
handle_other env cmd payload d = handle_info env cmd payload d (
    handle_program env cmd payload d
      (handle_storage env cmd payload d (request_role env (cmd_to_role cmd) d)))

-- The key that some phones send as an acknowledgement.
abbrev pub accepted_cmd : ℕ → ℕ
accepted_cmd cmd = if cmd == ack_hht_btn then cmd_hht_btn else cmd

-- An acknowledgement, by its highest bit.
abbrev pub is_ack : ℕ → Bool
is_ack cmd = not (cmd / 0x8000 % 2 == 0)

unfoldable pub dispatch : Env → ℕ → Bytes → Device → Device
dispatch env cmd payload d =
    if is_ack cmd
    then d
    else if is_hht_action cmd
    then handle_hht_action cmd payload d
    else if is_stop cmd
    then handle_stop cmd d
    else if is_start cmd
    then handle_start env cmd d
    else handle_other env cmd payload d

-- `ble_cmd_handle_with_payload`, in a build with BLE. A missing payload is an empty one.
unfoldable pub handle_with_payload : Env → ℕ → Bytes → Device → Device
handle_with_payload env cmd payload d = dispatch env (accepted_cmd (normalize_compat cmd)) payload d
