-- ===== src/Ble/Codes.antt =====
-- main/protocol/ble_cmd_parser.h: the commands of the phone and their acknowledgements.
use miri_tool_v.Base.{ℕ}

abbrev pub cmd_handle_phone_esp32 : ℕ
cmd_handle_phone_esp32 = 0x0005

abbrev pub cmd_program_enter_wifi_esp32 : ℕ
cmd_program_enter_wifi_esp32 = 0x0040

abbrev pub ack_program_enter_wifi_esp32 : ℕ
ack_program_enter_wifi_esp32 = 0x8040

abbrev pub cmd_program_enter_phone_esp32 : ℕ
cmd_program_enter_phone_esp32 = 0x0050

abbrev pub ack_program_enter_phone_esp32 : ℕ
ack_program_enter_phone_esp32 = 0x8050

abbrev pub cmd_program_write_phone_esp32 : ℕ
cmd_program_write_phone_esp32 = 0x0051

abbrev pub ack_program_write_phone_esp32 : ℕ
ack_program_write_phone_esp32 = 0x8051

abbrev pub cmd_program_interface_reset_phone_esp32 : ℕ
cmd_program_interface_reset_phone_esp32 = 0x0052

abbrev pub ack_program_interface_reset_phone_esp32 : ℕ
ack_program_interface_reset_phone_esp32 = 0x8052

abbrev pub cmd_program_stop_phone_esp32 : ℕ
cmd_program_stop_phone_esp32 = 0x0053

abbrev pub ack_program_stop_phone_esp32 : ℕ
ack_program_stop_phone_esp32 = 0x8053

abbrev pub cmd_program_start_phone_esp32 : ℕ
cmd_program_start_phone_esp32 = 0x0054

abbrev pub ack_program_start_phone_esp32 : ℕ
ack_program_start_phone_esp32 = 0x8054

abbrev pub cmd_update_type_phone_esp32 : ℕ
cmd_update_type_phone_esp32 = 0x0055

abbrev pub ack_program_status_phone_esp32 : ℕ
ack_program_status_phone_esp32 = 0x8056

abbrev pub cmd_program_progress_msg : ℕ
cmd_program_progress_msg = 0x0057

abbrev pub ack_program_progress_msg_esp32 : ℕ
ack_program_progress_msg_esp32 = 0x8057

abbrev pub cmd_start_hht_100 : ℕ
cmd_start_hht_100 = 0x0061

abbrev pub ack_start_hht_100 : ℕ
ack_start_hht_100 = 0x8061

abbrev pub cmd_stop_hht_100 : ℕ
cmd_stop_hht_100 = 0x0062

abbrev pub ack_stop_hht_100 : ℕ
ack_stop_hht_100 = 0x8062

abbrev pub cmd_hht_msg_100 : ℕ
cmd_hht_msg_100 = 0x8063

abbrev pub cmd_hht_btn : ℕ
cmd_hht_btn = 0x0064

abbrev pub ack_hht_btn : ℕ
ack_hht_btn = 0x8064

abbrev pub cmd_hht_params : ℕ
cmd_hht_params = 0x0065

abbrev pub cmd_hht_proj_100 : ℕ
cmd_hht_proj_100 = 0x0066

abbrev pub cmd_hht_ver_cp_100 : ℕ
cmd_hht_ver_cp_100 = 0x0067

abbrev pub cmd_hht_ver_inv_100 : ℕ
cmd_hht_ver_inv_100 = 0x0068

abbrev pub cmd_hht_prams_inv : ℕ
cmd_hht_prams_inv = 0x0069

abbrev pub cmd_esp32_adv_rename : ℕ
cmd_esp32_adv_rename = 0x0071

abbrev pub ack_cmd_esp32_adv_rename : ℕ
ack_cmd_esp32_adv_rename = 0x8071

abbrev pub cmd_esp32_version_info : ℕ
cmd_esp32_version_info = 0x0072

abbrev pub ack_cmd_esp32_version_info : ℕ
ack_cmd_esp32_version_info = 0x0072

abbrev pub cmd_mcu_version_info : ℕ
cmd_mcu_version_info = 0x0073

abbrev pub ack_cmd_mcu_version_info : ℕ
ack_cmd_mcu_version_info = 0x0073

abbrev pub cmd_miri_diagnosis_req : ℕ
cmd_miri_diagnosis_req = 0x0074

abbrev pub cmd_mac_bt_info : ℕ
cmd_mac_bt_info = 0x0075

abbrev pub ack_mac_bt_info : ℕ
ack_mac_bt_info = 0x8075

abbrev pub cmd_miri_reboot : ℕ
cmd_miri_reboot = 0x0100

abbrev pub ack_miri_reboot : ℕ
ack_miri_reboot = 0x8100

abbrev pub cmd_update_info_mobile : ℕ
cmd_update_info_mobile = 0x0103

abbrev pub ack_update_info_mobile : ℕ
ack_update_info_mobile = 0x8103

abbrev pub cmd_sdmmc_program_enter : ℕ
cmd_sdmmc_program_enter = 0x0104

abbrev pub ack_sdmmc_program_enter : ℕ
ack_sdmmc_program_enter = 0x8104

abbrev pub cmd_sdmmc_program_list : ℕ
cmd_sdmmc_program_list = 0x0105

abbrev pub ack_sdmmc_program_list : ℕ
ack_sdmmc_program_list = 0x8105

abbrev pub cmd_fat_file_list : ℕ
cmd_fat_file_list = 0x0106

abbrev pub ack_fat_file_list : ℕ
ack_fat_file_list = 0x8106

abbrev pub cmd_sdmmc_format : ℕ
cmd_sdmmc_format = 0x0107

abbrev pub ack_sdmmc_format : ℕ
ack_sdmmc_format = 0x8107

abbrev pub cmd_fat_format : ℕ
cmd_fat_format = 0x0108

abbrev pub ack_fat_format : ℕ
ack_fat_format = 0x8108

abbrev pub cmd_sdmmc_delete_file : ℕ
cmd_sdmmc_delete_file = 0x0109

abbrev pub ack_sdmmc_delete_file : ℕ
ack_sdmmc_delete_file = 0x8109

abbrev pub cmd_fat_delete_file : ℕ
cmd_fat_delete_file = 0x0110

abbrev pub ack_fat_delete_file : ℕ
ack_fat_delete_file = 0x8110

abbrev pub cmd_hht_fdc : ℕ
cmd_hht_fdc = 0x0121

abbrev pub cmd_start_hht_wb100 : ℕ
cmd_start_hht_wb100 = 0x0201

abbrev pub cmd_stop_hht_wb100 : ℕ
cmd_stop_hht_wb100 = 0x0202

abbrev pub cmd_start_hht_3000 : ℕ
cmd_start_hht_3000 = 0x0203

abbrev pub cmd_stop_hht_3000 : ℕ
cmd_stop_hht_3000 = 0x0204

abbrev pub ack_start_hht_wb100 : ℕ
ack_start_hht_wb100 = 0x8201

abbrev pub ack_stop_hht_wb100 : ℕ
ack_stop_hht_wb100 = 0x8202

abbrev pub ack_start_hht_3000 : ℕ
ack_start_hht_3000 = 0x8203

abbrev pub ack_stop_hht_3000 : ℕ
ack_stop_hht_3000 = 0x8204

abbrev pub cmd_fw_upload : ℕ
cmd_fw_upload = 0x0600

abbrev pub cmd_fw_upload_stop : ℕ
cmd_fw_upload_stop = 0x0601

abbrev pub ack_fw_upload_stop : ℕ
ack_fw_upload_stop = 0x8601
