-- ===== src/Ble/Lists.antt =====
-- main/protocol/ble_cmd_parser.c: the lists of files that are sent to the phone, a frame for each.
use miri_tool_v.Base.{
  ℕ, suc, Bytes, List, [], ◌∷◌, ◌++◌, Option, none, some, length, take, ◌==◌, if◌then◌else◌,
}
use miri_tool_v.FwState.{text}
use miri_tool_v.Manager.{filename_ext, filename_without_extension}
use miri_tool_v.Ble.{is_valid_program_file}
use miri_tool_v.Ble.Json.{decimal}
use miri_tool_v.Ble.Device.{Device, FatEntry, send_cmd}

-- What `snprintf` into 256 bytes leaves of the line for an entry.
abbrev pub counted : ℕ → ℕ → Bytes → Bytes
counted idx total rest =
    text "{\"result\":0,\"chunk_idx\":"
    ++ (decimal idx ++ (text ",\"chunk_total\":" ++ (decimal total ++ (b',' ∷ rest))))

abbrev pub named : Bytes → Bytes → Bytes
named entry rest =
    text "\"file_name\":\""
    ++ (filename_without_extension entry 128
        ++ (text "\",\"file_type\":\"" ++ (filename_ext entry ++ (b'"' ∷ rest))))

abbrev pub program_line : ℕ → ℕ → Bytes → Bytes
program_line idx total entry = take 255 (counted idx total (named entry (b'}' ∷ [])))

abbrev pub file_line : ℕ → ℕ → FatEntry → Bytes
file_line idx total e =
    take 255
      (counted idx total (named e.name (text ",\"file_size\":" ++ (decimal e.size ++ b'}' ∷ []))))

-- The entries that are listed.
unfoldable pub programs : List Bytes → List Bytes
programs [] = []
programs (e ∷ es) = let rest = programs es in if is_valid_program_file e then e ∷ rest else rest

abbrev pub empty_list : Bytes
empty_list = text "{\"result\":0,\"chunk_idx\":0,\"chunk_total\":0}"

abbrev pub result_failed : Bytes
result_failed = text "{\"result\":-1}"

-- The second pass over the directory.
unfoldable pub send_programs : ℕ → ℕ → ℕ → List Bytes → Device → Device
send_programs ack idx total [] d = d
send_programs ack idx total (e ∷ es) d =
    send_programs ack (suc idx) total es (send_cmd ack (program_line idx total e) d)

unfoldable pub send_files : ℕ → ℕ → ℕ → List FatEntry → Device → Device
send_files ack idx total [] d = d
send_files ack idx total (e ∷ es) d =
    send_files ack (suc idx) total es (send_cmd ack (file_line idx total e) d)

-- `ble_send_sdmmc_program_list`, the directory being the same when it is read again.
unfoldable pub send_sdmmc_program_list : ℕ → Option (List Bytes) → Device → Device
send_sdmmc_program_list ack none d = send_cmd ack result_failed d
send_sdmmc_program_list ack (some entries) d =
    if length (programs entries) == 0
    then send_cmd ack empty_list d
    else send_programs ack 0 (length (programs entries)) (programs entries) d

-- `ble_send_file_list`
unfoldable pub send_file_list : ℕ → Option (List FatEntry) → Device → Device
send_file_list ack none d = send_cmd ack result_failed d
send_file_list ack (some entries) d =
    if length entries == 0
    then send_cmd ack empty_list d
    else send_files ack 0 (length entries) entries d
