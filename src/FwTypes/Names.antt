-- ===== src/FwTypes/Names.antt =====
-- The names of formats and executors as they are printed and read, and the routes of the table.
use miri_tool_v.Base.{◌≡◌, refl, Bytes, ◌++◌, All, some}
use miri_tool_v.Packaging.{Format, bin, ihex, coff, elf, unknown}
use miri_tool_v.FwTypes.{
  Exec, esp32_ota, uart_isp, can, swd, jtag, bootloader, stm32_uart, no_exec, lowered,
  format_to_str, format_from_str, exec_to_str, exec_from_str, fw_routes, strncmp_equal, lookup_in,
  registry_lookup,
}

-- The name of a format, in any case of its letters, is read as that format.
pub format_from_str-format_to_str :
    (format : Format) (str : Bytes)
    → lowered str ≡ lowered (format_to_str format)
    → format_from_str (some str) ≡ format
unfolding format_from_str format_to_str
format_from_str-format_to_str bin str e = rw e
format_from_str-format_to_str ihex str e = rw e
format_from_str-format_to_str coff str e = rw e
format_from_str-format_to_str elf str e = rw e
format_from_str-format_to_str unknown str e = rw e

-- The name of an executor, in any case of its letters, is read as that executor.
pub exec_from_str-exec_to_str :
    (exec : Exec) (str : Bytes)
    → lowered str ≡ lowered (exec_to_str exec)
    → exec_from_str (some str) ≡ exec
unfolding exec_from_str exec_to_str
exec_from_str-exec_to_str esp32_ota str e = rw e
exec_from_str-exec_to_str uart_isp str e = rw e
exec_from_str-exec_to_str can str e = rw e
exec_from_str-exec_to_str swd str e = rw e
exec_from_str-exec_to_str jtag str e = rw e
exec_from_str-exec_to_str bootloader str e = rw e
exec_from_str-exec_to_str stm32_uart str e = rw e
exec_from_str-exec_to_str no_exec str e = rw e

-- Every route is the one that is found for its file type, also when more characters follow it.
registry_lookup-fw_routes :
    (more : Bytes) → All (λ r. registry_lookup (some (r.file_type ++ more)) ≡ some r) fw_routes
unfolding registry_lookup lookup_in fw_routes strncmp_equal
registry_lookup-fw_routes more = (
  refl,
  (
    refl,
    (
      refl,
      (
        refl,
        (
          refl,
          (
            refl,
            (
              refl,
              (
                refl,
                (refl, (refl, (refl, (refl, (refl, (refl, (refl, (refl, (refl, (refl, tt)))))))))),
              ),
            ),
          ),
        ),
      ),
    ),
  ),
)
