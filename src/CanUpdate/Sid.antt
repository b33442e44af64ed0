-- ===== src/CanUpdate/Sid.antt =====
-- The SID_TARGET_ service ids of can_fw_update.c.
use miri_tool_v.Base.{ℕ}

abbrev pub download_start : ℕ
download_start = 0x10

abbrev pub boot_run_check : ℕ
boot_run_check = 0x11

abbrev pub download_finish : ℕ
download_finish = 0x12

abbrev pub flash_erase : ℕ
flash_erase = 0x20

abbrev pub user_sw_data_send : ℕ
user_sw_data_send = 0x21

abbrev pub flash_write : ℕ
flash_write = 0x22
