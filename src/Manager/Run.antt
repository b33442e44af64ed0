-- ===== src/Manager/Run.antt =====
-- main/core/firmware_upload/fw_upload_manager.c: the metadata of an upload, a whole buffer that is
-- stored, and the update from a file on the card.
pub mod Started
pub mod Jobs
use miri_tool_v.Base.{
  ℕ, zero, suc, ◌+◌, ◌-◌, Bool, true, false, not, ◌&&◌, Bytes, List, [], ◌∷◌, ◌++◌, Option, none,
  some, length, take, ltb, ◌==◌, if◌then◌else◌, EspErr, invalid_arg, esp_fail, Outcome, done,
  failed, fault,
}
use miri_tool_v.FwState.{FwState, FwStep, set_step, text}
use miri_tool_v.FwTypes.{
  Exec, esp32_ota, uart_isp, can, swd, jtag, bootloader, stm32_uart, no_exec, Route,
  registry_lookup,
}
use miri_tool_v.Packaging.{Format, bin, ihex, coff, elf, unknown}
use miri_tool_v.Meta.{FwMeta, zeroed, meta_init_defaults}
use miri_tool_v.Card.{Files, content_of, build_path}
use miri_tool_v.Storage.{Cipher, Medium, Writer, writer_open, writer_write, writer_close}
use miri_tool_v.Storage.Metadata.{Cjson, meta_write, meta_read}
use miri_tool_v.Worker.{
  Worker, Memory, WorkerStart, Answer, worker_start, enqueue_job, report_error, same_format,
}
use miri_tool_v.Manager.{NameType, split_name_type, trim_whitespace, find_sdmmc_file}

abbrev pub with_format : Format → FwMeta → FwMeta
with_format format meta = if same_format format unknown then meta else record meta {
  format = format;
  exec_format = if same_format meta.exec_format unknown then format else meta.exec_format;
}

unfoldable pub prepare_meta : Bool → Bytes → Bytes → Format → FwMeta
prepare_meta encrypting name type format = with_format format (
    meta_init_defaults encrypting
      (record zeroed { file_name = take 63 name; file_type = take 7 type }))

-- What an update finds: the names in the directory of the card, if it opens, whether the metadata
-- can be written, and the memory for the worker.
pub record Place : Type 0 where
  pub cjson : Cjson
  pub card_ready : Bool
  pub meta_opens : Bool
  pub memory : Memory
  pub entries : Option (List Bytes)

abbrev pub route_format : Option Route → Format
route_format none = unknown
route_format (some r) = r.format

abbrev pub route_exec : Option Route → Exec
route_exec none = no_exec
route_exec (some r) = r.exec

abbrev pub size_of : Option Bytes → ℕ
size_of none = 0
size_of (some content) = length content

abbrev pub content_under : Files → Option Bytes → Option Bytes
content_under files none = none
content_under files (some path) = content_of path files

-- The metadata where none are stored; the size is that of the file of the name and type as given.
abbrev pub fresh_meta : Files → Bytes → Bytes → NameType → Option Route → FwMeta
fresh_meta files name type nt route = record zeroed {
  file_name = take 63 nt.name;
  file_type = take 7 nt.type;
  format = route_format route;
  exec = route_exec route;
  original_size = size_of (content_under files (build_path name type));
}

-- The values of the enumeration, in its order.
abbrev pub exec_value : Exec → ℕ
exec_value esp32_ota = 0
exec_value uart_isp = 1
exec_value can = 2
exec_value swd = 3
exec_value jtag = 4
exec_value bootloader = 5
exec_value stm32_uart = 6
exec_value no_exec = 7

abbrev pub same_exec : Exec → Exec → Bool
same_exec a b = exec_value a == exec_value b

abbrev pub rerouted : Route → FwMeta → FwMeta
rerouted r meta = record meta {
  exec = if not meta.exec_override && not (same_exec meta.exec r.exec) then r.exec else meta.exec;
  format =
      if same_format meta.format unknown && not (same_format r.format unknown)
      then r.format
      else meta.format;
}

abbrev pub is_rerouted : Route → FwMeta → Bool
is_rerouted r meta =
    if not meta.exec_override && not (same_exec meta.exec r.exec)
    then true
    else same_format meta.format unknown && not (same_format r.format unknown)

-- The metadata of the update, and whether they are written.
pub record Chosen : Type 0 where
  pub meta : FwMeta
  pub write : Bool

abbrev pub choose_meta : Files → Bytes → Bytes → NameType → Option Route → Option FwMeta → Chosen
choose_meta files name type nt route none = record {
  meta = fresh_meta files name type nt route;
  write = true;
}
choose_meta files name type nt none (some meta) = record { meta = meta; write = false }
choose_meta files name type nt (some r) (some meta) = record {
  meta = rerouted r meta;
  write = is_rerouted r meta;
}

-- An error of `fw_storage_meta_write` is not looked at.
abbrev pub files_behind : Files → Outcome Files → Files
files_behind files (done after) = after
files_behind files (failed e after) = after
files_behind files fault = files

abbrev pub kept_meta : Place → Chosen → Files → Files
kept_meta place c files =
    if c.write
    then files_behind files (meta_write place.cjson place.card_ready place.meta_opens c.meta files)
    else files

-- The name and the type without white space.
abbrev pub clean : NameType → NameType
clean nt = record { name = trim_whitespace nt.name; type = trim_whitespace nt.type }

abbrev pub found_in : Option (List Bytes) → NameType → Option NameType
found_in none nt = none
found_in (some entries) nt = find_sdmmc_file entries nt.name nt.type

-- The job is given to the worker if that has started.
abbrev pub enqueue_started : FwMeta → NameType → WorkerStart → Answer
enqueue_started meta nt s = if s.is_ok then enqueue_job meta nt.name nt.type s.worker else record {
  worker = report_error (text "update task start fail") s.worker;
  error = some esp_fail;
}

abbrev pub hand_over : Memory → FwMeta → Worker → Option NameType → Answer
hand_over memory meta w none = record {
  worker = report_error (text "file not found") w;
  error = some esp_fail;
}
hand_over memory meta w (some nt) = enqueue_started meta nt (worker_start memory w)

abbrev pub run_chosen : Place → NameType → Chosen → Worker → Answer
run_chosen place nt c w =
    if same_exec c.meta.exec esp32_ota
    then hand_over place.memory c.meta w (some nt)
    else if not place.card_ready
    then record { worker = report_error (text "SDMMC not ready") w; error = some esp_fail }
    else hand_over place.memory c.meta w (found_in place.entries nt)

abbrev pub run_named : Place → Bytes → Bytes → NameType → Worker → Answer
run_named place name type nt w =
    let c =
      choose_meta w.files name type nt (registry_lookup (some nt.type))
        (meta_read place.cjson nt.name nt.type w.files) in
    run_chosen place nt c (record w { files = kept_meta place c w.files })

-- `fw_upload_run_from_sdmmc`; an update is started if no error is returned.
unfoldable pub run_from_sdmmc : Place → Bytes → Bytes → Worker → Answer
run_from_sdmmc place name type w =
    run_named place name type (clean (split_name_type name (some type) 64 8)) w

-- What `fw_upload_save_buffer` leaves: the file, if it opened, and the state of the update.
pub record Saved : Type 0 where
  pub file : Option Writer
  pub fw : FwState

module _ (cipher : Cipher) (encrypting : Bool) where
  abbrev pub saved_closed : FwState → Outcome Writer → Outcome Saved
  saved_closed fw (done w) =
      done (record { file = some w; fw = set_step FwStep.done (text "store done") fw })
  saved_closed fw (failed e w) = failed esp_fail (record { file = some w; fw = fw })
  saved_closed fw fault = fault

  -- The file is closed all the same, and the error of that is not looked at.
  abbrev pub closed_failed : FwState → Outcome Writer → Outcome Saved
  closed_failed fw (done w) = failed esp_fail (record { file = some w; fw = fw })
  closed_failed fw (failed e w) = failed esp_fail (record { file = some w; fw = fw })
  closed_failed fw fault = fault

  abbrev pub saved_written : FwState → Outcome Writer → Outcome Saved
  saved_written fw (done w) = saved_closed fw (writer_close cipher encrypting w)
  saved_written fw (failed e w) = closed_failed fw (writer_close cipher encrypting w)
  saved_written fw fault = fault

  abbrev pub saved_opened : Option Medium → Bytes → FwState → Outcome Saved
  saved_opened none bytes fw = failed esp_fail (record { file = none; fw = fw })
  saved_opened (some medium) bytes fw =
      saved_written fw (writer_write cipher encrypting bytes (writer_open medium))

  -- From the card behind the file if it opens.
  unfoldable pub save_buffer : Option Medium → Bytes → FwState → Outcome Saved
  save_buffer opens bytes fw =
      if length bytes == 0
      then failed invalid_arg (record { file = none; fw = fw })
      else saved_opened opens bytes (set_step FwStep.transfer (text "store buffer") fw)
