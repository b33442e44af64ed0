-- ===== src/Meta.antt =====
-- main/core/firmware_upload/fw_upload_types.h and fw_upload_meta_defaults.c: the metadata of a
-- stored firmware file and their values for each file type.
pub mod Defaults
use miri_tool_v.Base.{ℕ, Bool, true, false, Bytes, List, [], ◌∷◌, ◌++◌, if◌then◌else◌}
use miri_tool_v.FwState.{text}
use miri_tool_v.Packaging.{Format, bin, ihex, coff, unknown}
use miri_tool_v.FwTypes.{Exec, esp32_ota, uart_isp, swd, stm32_uart, no_exec, strncmp_equal}

-- fw_meta_t; the texts are held without their terminating zeros.
pub record FwMeta : Type 0 where
  pub file_name : Bytes
  pub file_type : Bytes
  pub format : Format
  pub exec : Exec
  pub exec_format : Format
  pub exec_override : Bool
  pub target_board : Bytes
  pub target_id : Bytes
  pub can_bitrate : ℕ
  pub uart_baud : ℕ
  pub swd_clock_khz : ℕ
  pub jtag_clock_khz : ℕ
  pub meta_json : Bytes
  pub encrypted : Bool
  pub save_only : Bool
  pub original_size : ℕ

-- What `memset` leaves of one: the first format and the first executor have the value 0.
abbrev pub zeroed : FwMeta
zeroed = record {
  file_name = [];
  file_type = [];
  format = bin;
  exec = esp32_ota;
  exec_format = bin;
  exec_override = false;
  target_board = [];
  target_id = [];
  can_bitrate = 0;
  uart_baud = 0;
  swd_clock_khz = 0;
  jtag_clock_khz = 0;
  meta_json = [];
  encrypted = false;
  save_only = false;
  original_size = 0;
}

-- FW_STORAGE_ENABLE_ENCRYPT
module _ (encrypting : Bool) where
  -- An entry of the table: its type stands in the metadata too, and the other fields are 0.
  abbrev pub entry : Bytes → Format → Exec → ℕ → FwMeta
  entry file_type format exec uart_baud = record zeroed {
    file_type = file_type;
    format = format;
    exec = exec;
    uart_baud = uart_baud;
    encrypted = encrypting;
  }

  -- The entries of k_fw_meta_defaults, six at a time.
  abbrev pub s00_to_a03 : List FwMeta
  s00_to_a03 =
      entry (text "S00") bin esp32_ota 0
      ∷ entry (text "S01") bin stm32_uart 115200
      ∷ entry (text "A00") unknown no_exec 0
      ∷ entry (text "A01") unknown no_exec 0
      ∷ entry (text "A02") coff uart_isp 0
      ∷ entry (text "A03") ihex uart_isp 0
      ∷ []

  abbrev pub a04_to_a09 : List FwMeta
  a04_to_a09 =
      entry (text "A04") coff uart_isp 0
      ∷ entry (text "A05") coff uart_isp 0
      ∷ entry (text "A06") ihex swd 0
      ∷ entry (text "A07") coff uart_isp 0
      ∷ entry (text "A08") unknown no_exec 0
      ∷ entry (text "A09") unknown no_exec 0
      ∷ []

  abbrev pub a10_to_a15 : List FwMeta
  a10_to_a15 =
      entry (text "A10") ihex uart_isp 115200
      ∷ entry (text "A11") ihex uart_isp 115200
      ∷ entry (text "A12") ihex uart_isp 57600
      ∷ entry (text "A13") ihex uart_isp 57600
      ∷ entry (text "A14") ihex uart_isp 57600
      ∷ entry (text "A15") ihex swd 57600
      ∷ []

  unfoldable pub fw_meta_defaults : List FwMeta
  fw_meta_defaults = s00_to_a03 ++ (a04_to_a09 ++ a10_to_a15)

  -- The values where no entry has the type.
  abbrev pub safe_defaults : FwMeta → FwMeta
  safe_defaults meta = record zeroed {
    file_name = meta.file_name;
    file_type = meta.file_type;
    exec = no_exec;
    encrypted = encrypting;
  }

  -- The loop over the table.
  unfoldable pub init_from : List FwMeta → FwMeta → FwMeta
  init_from [] meta = safe_defaults meta
  init_from (base ∷ entries) meta =
      let later = init_from entries meta in
      if strncmp_equal 3 meta.file_type base.file_type
      then record base { file_name = meta.file_name }
      else later

  unfoldable pub meta_init_defaults : FwMeta → FwMeta
  unfolding init_from fw_meta_defaults
  meta_init_defaults meta = init_from fw_meta_defaults meta
