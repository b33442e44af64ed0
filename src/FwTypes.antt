-- ===== src/FwTypes.antt =====
-- main/core/firmware_upload/fw_upload_types.c and fw_upload_registry.c: the names of formats and
-- executors, and the route of each file type.
pub mod Names
use miri_tool_v.Base.{
  ℕ, zero, suc, ◌+◌, ◌-◌, Bool, true, false, ◌&&◌, Bytes, List, [], ◌∷◌, Option, none, some, get_or,
  ltb, leb, ◌==◌, if◌then◌else◌,
}
use miri_tool_v.FwState.{text}
use miri_tool_v.Packaging.{Format, bin, ihex, coff, elf, unknown}

-- fw_exec_t
pub data Exec : Type 0 where
  esp32_ota uart_isp can swd jtag bootloader stm32_uart no_exec : Exec

-- `tolower` in the C locale.
abbrev pub tolower : ℕ → ℕ
tolower c = if leb b'A' c && leb c b'Z' then c + 32 else c

abbrev pub lowered : Bytes → Bytes
lowered [] = []
lowered (c ∷ cs) = tolower c ∷ lowered cs

abbrev pub same_text : Bytes → Bytes → Bool
same_text [] [] = true
same_text (x ∷ xs) (y ∷ ys) = x == y && same_text xs ys
same_text _ _ = false

-- `strcasecmp(…) == 0` on strings without their terminating zeros.
abbrev pub strcasecmp_equal : Bytes → Bytes → Bool
strcasecmp_equal xs ys = same_text (lowered xs) (lowered ys)

unfoldable pub format_to_str : Format → Bytes
format_to_str bin = text "BIN"
format_to_str ihex = text "IHEX"
format_to_str coff = text "COFF"
format_to_str elf = text "ELF"
format_to_str unknown = text "UNKNOWN"

-- `none` is the null pointer.
unfoldable pub format_from_str : Option Bytes → Format
format_from_str none = unknown
format_from_str (some str) =
    if strcasecmp_equal str (text "BIN")
    then bin
    else if strcasecmp_equal str (text "IHEX")
    then ihex
    else if strcasecmp_equal str (text "HEX")
    then ihex
    else if strcasecmp_equal str (text "COFF")
    then coff
    else if strcasecmp_equal str (text "ELF")
    then elf
    else unknown

unfoldable pub exec_to_str : Exec → Bytes
exec_to_str esp32_ota = text "ESP32_OTA"
exec_to_str uart_isp = text "UART_ISP"
exec_to_str can = text "CAN"
exec_to_str swd = text "SWD"
exec_to_str jtag = text "JTAG"
exec_to_str bootloader = text "BOOTLOADER"
exec_to_str stm32_uart = text "STM32_UART"
exec_to_str no_exec = text "UNKNOWN"

unfoldable pub exec_from_str : Option Bytes → Exec
exec_from_str none = no_exec
exec_from_str (some str) =
    if strcasecmp_equal str (text "ESP32_OTA")
    then esp32_ota
    else if strcasecmp_equal str (text "UART_ISP")
    then uart_isp
    else if strcasecmp_equal str (text "CAN")
    then can
    else if strcasecmp_equal str (text "SWD")
    then swd
    else if strcasecmp_equal str (text "JTAG")
    then jtag
    else if strcasecmp_equal str (text "BOOTLOADER")
    then bootloader
    else if strcasecmp_equal str (text "STM32_UART")
    then stm32_uart
    else no_exec

-- fw_route_t
pub record Route : Type 0 where
  pub file_type : Bytes
  pub format : Format
  pub exec : Exec
  pub exec_format : Format

abbrev pub route : Bytes → Format → Exec → Route
route file_type format exec = record {
  file_type = file_type;
  format = format;
  exec = exec;
  exec_format = bin;
}

unfoldable pub fw_routes : List Route
fw_routes =
    route (text "S00") bin esp32_ota
    ∷ route (text "S01") bin stm32_uart
    ∷ route (text "A00") unknown no_exec
    ∷ route (text "A01") unknown no_exec
    ∷ route (text "A02") coff uart_isp
    ∷ route (text "A03") ihex uart_isp
    ∷ route (text "A04") coff uart_isp
    ∷ route (text "A05") coff uart_isp
    ∷ route (text "A06") ihex swd
    ∷ route (text "A07") coff uart_isp
    ∷ route (text "A08") unknown no_exec
    ∷ route (text "A09") unknown no_exec
    ∷ route (text "A10") ihex uart_isp
    ∷ route (text "A11") ihex uart_isp
    ∷ route (text "A12") ihex uart_isp
    ∷ route (text "A13") ihex uart_isp
    ∷ route (text "A14") ihex uart_isp
    ∷ route (text "A15") ihex swd
    ∷ []

-- `strncmp(…, n) == 0`; a terminating zero stands behind each text.
unfoldable pub strncmp_equal : ℕ → Bytes → Bytes → Bool
strncmp_equal zero xs ys = true
strncmp_equal (suc n) [] [] = true
strncmp_equal (suc n) (x ∷ xs) (y ∷ ys) = x == y && strncmp_equal n xs ys
strncmp_equal (suc n) _ _ = false

unfoldable pub lookup_in : List Route → Bytes → Option Route
lookup_in [] file_type = none
lookup_in (r ∷ rs) file_type =
    let later = lookup_in rs file_type in
    if strncmp_equal 3 file_type r.file_type then some r else later

unfoldable pub registry_lookup : Option Bytes → Option Route
unfolding lookup_in fw_routes
registry_lookup none = none
registry_lookup (some file_type) = lookup_in fw_routes file_type
