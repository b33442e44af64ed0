-- ===== src/Packaging.antt =====
-- main/core/firmware_upload/fw_upload_packaging.c: the four firmware formats, read from a stored
-- file and handed to a sink in pieces, each with its address. The stored file is the list of the
-- bytes that `fw_storage_reader_read` still has to give; it gives all that is asked for, up to the
-- end of the file.
pub mod Defs
pub mod Binary
pub mod Ihex
pub mod Container
pub mod Pieces
use miri_tool_v.Base.{ℕ, Bool, Bytes, Outcome, failed, not_supported}
use Defs.{Sink}
use Binary.{process_bin}
use Ihex.{process_ihex}
use Container.{process_coff, process_elf}

-- fw_format_t
pub data Format : Type 0 where
  bin ihex coff elf unknown : Format

module _ {ℓ} {S : Type ℓ} (sink : Sink S) where
  -- `fw_packaging_process` on a file of which `original_size` is said to be `size`. The flag says
  -- whether `malloc` succeeds.
  pub fw_packaging_process : Format → Bool → ℕ → Bytes → S → Outcome S
  fw_packaging_process bin alloc size file s = process_bin sink file s
  fw_packaging_process ihex alloc size file s = process_ihex sink file s
  fw_packaging_process coff alloc size file s = process_coff sink alloc size file s
  fw_packaging_process elf alloc size file s = process_elf sink alloc size file s
  fw_packaging_process unknown alloc size file s = failed not_supported s
