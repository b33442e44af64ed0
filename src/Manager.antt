-- ===== src/Manager.antt =====
-- main/core/firmware_upload/fw_upload_manager.c: file names, the search for a file on the card, and
-- the session that stores an upload.
pub mod Names
pub mod Run
pub mod Search
pub mod Trim
pub mod Uploads
use miri_tool_v.Base.{
  ℕ, zero, suc, ◌+◌, ◌-◌, ◌*◌, ◌/◌, Bool, true, false, not, ◌&&◌, ◌||◌, Bytes, List, [], ◌∷◌, ◌++◌,
  Option, none, some, length, take, drop, ltb, leb, ◌==◌, if◌then◌else◌, min, u8, u32, Outcome,
  done, failed, fault, ◌>>=◌, EspErr, invalid_arg, esp_fail,
}
use miri_tool_v.FwState.{FwState, FwStep, set_step, set_progress, text}
use miri_tool_v.FwTypes.{strcasecmp_equal}
use miri_tool_v.Storage.{Cipher, Medium, Writer, writer_open, writer_write, writer_close}

abbrev or_dot : ℕ → Option ℕ → Option ℕ
or_dot c (some i) = some (suc i)
or_dot c none = if c == b'.' then some 0 else none

-- `strrchr(name, '.')`, as an index.
unfoldable pub last_dot : Bytes → Option ℕ
last_dot [] = none
last_dot (c ∷ cs) = or_dot c (last_dot cs)

abbrev stem : Bytes → Option ℕ → ℕ
stem name none = length name
stem name (some i) = i

-- `fw_get_filename_without_extension`, into a buffer of `out_size` bytes.
unfoldable pub filename_without_extension : Bytes → ℕ → Bytes
filename_without_extension name out_size =
    take (min (stem name (last_dot name)) (out_size - 1)) name

abbrev pub extension_at : Bytes → Option ℕ → Bytes
extension_at name none = []
extension_at name (some zero) = []
extension_at name (some (suc i)) = drop (suc (suc i)) name

unfoldable pub filename_ext : Bytes → Bytes
filename_ext name = extension_at name (last_dot name)

-- `isspace` in the C locale.
abbrev pub isspace : ℕ → Bool
isspace c = c == 0x20 || leb 0x09 c && leb c 0x0D

unfoldable pub skip_spaces : Bytes → Bytes
skip_spaces [] = []
skip_spaces (c ∷ cs) = let rest = skip_spaces cs in if isspace c then rest else c ∷ cs

-- A text without the white space at its end.
unfoldable pub cut_spaces : Bytes → Bytes
cut_spaces [] = []
cut_spaces (c ∷ cs) =
    let rest = cut_spaces cs in if length rest == 0 && isspace c then [] else c ∷ rest

unfoldable pub trim_whitespace : Bytes → Bytes
trim_whitespace s = cut_spaces (skip_spaces s)

-- `out_name` and `out_type`.
pub record NameType : Type 0 where
  pub name : Bytes
  pub type : Bytes

abbrev or_empty : Option Bytes → Bytes
or_empty none = []
or_empty (some t) = t

abbrev unsplit : Bytes → Option Bytes → ℕ → ℕ → NameType
unsplit name type name_size type_size = record {
  name = take (name_size - 1) name;
  type = take (type_size - 1) (or_empty type);
}

abbrev pub split_at : Bytes → Option Bytes → ℕ → ℕ → Option ℕ → NameType
split_at name type name_size type_size none = unsplit name type name_size type_size
split_at name type name_size type_size (some i) =
    if length (drop (suc i) name) == 0 then unsplit name type name_size type_size else record {
      name = take (min i (name_size - 1)) name;
      type = take (type_size - 1) (drop (suc i) name);
    }

-- `fw_split_name_type` on a name that is given, with the sizes of the buffers.
unfoldable pub split_name_type : Bytes → Option Bytes → ℕ → ℕ → NameType
split_name_type name type name_size type_size =
    split_at name type name_size type_size (last_dot name)

abbrev pub name_buf : Bytes → Bytes
name_buf entry = filename_without_extension entry 64

abbrev pub entry_found : Bytes → NameType
entry_found entry = record { name = name_buf entry; type = filename_ext entry }

abbrev pub or_first : Option NameType → NameType → Bool → Option NameType
or_first (some f) g same = some f
or_first none g same = if same then some g else none

-- The loop of `fw_find_sdmmc_file` over the names in the directory; `fallback` is the first file
-- with the name and another type.
unfoldable pub find_in : List Bytes → Bytes → Bytes → Option NameType → Option NameType
find_in [] name type fallback = fallback
find_in (entry ∷ entries) name type fallback =
    let same_name = strcasecmp_equal (name_buf entry) name in
    let exact = same_name && strcasecmp_equal (filename_ext entry) type in
    let skipped = find_in entries name type fallback in
    let later = find_in entries name type (or_first fallback (entry_found entry) same_name) in
    if not (length (filename_ext entry) == 3)
    then skipped
    else if exact
    then some (entry_found entry)
    else later

unfoldable pub find_sdmmc_file : List Bytes → Bytes → Bytes → Option NameType
find_sdmmc_file entries name type = find_in entries name type none

-- fw_upload_session_t, with the state that the update reports.
pub record UploadSession : Type 0 where
  pub original_size : ℕ
  pub received : ℕ
  pub writer : Writer
  pub fw : FwState

-- `fw_upload_session_begin`, from the card behind the file if `fw_storage_writer_open` succeeds.
abbrev pub session_opened : UploadSession → Option Medium → Outcome UploadSession
session_opened s none = failed esp_fail (record s {
  writer = record s.writer { file = []; encrypted_written = 0; buffer = []; active = false };
})
session_opened s (some medium) = done (record s { writer = writer_open medium })

unfoldable pub session_begin : Option Medium → ℕ → UploadSession → Outcome UploadSession
session_begin opens total_size s =
    if total_size == 0
    then failed invalid_arg s
    else session_opened
        (record s {
          original_size = total_size;
          received = 0;
          fw = set_progress 0 (set_step FwStep.transfer (text "store stream") s.fw);
        })
        opens

abbrev pub percent_of : ℕ → ℕ → ℕ
percent_of received size = min (u32 (received * 100) / size) 100

module _ (cipher : Cipher) (encrypting : Bool) where
  abbrev pub written : UploadSession → ℕ → Outcome Writer → Outcome UploadSession
  written s n (done w) =
      let received = u32 (s.received + n) in
      done (record s {
        received = received;
        writer = w;
        fw =
            if s.original_size == 0
            then s.fw
            else set_progress (percent_of received s.original_size) s.fw;
      })
  written s n (failed e w) = failed e (record s { writer = w })
  written s n fault = fault

  unfoldable pub session_write : Bytes → UploadSession → Outcome UploadSession
  session_write bytes s =
      if length bytes == 0
      then failed invalid_arg s
      else written s (length bytes) (writer_write cipher encrypting bytes s.writer)

  abbrev pub closed : UploadSession → Outcome Writer → Outcome UploadSession
  closed s (done w) = done (record s {
    writer = w;
    fw = set_progress 100 (set_step FwStep.done (text "store done") s.fw);
  })
  closed s (failed e w) = failed e (record s { writer = w })
  closed s fault = fault

  unfoldable pub session_finish : UploadSession → Outcome UploadSession
  session_finish s = closed s (writer_close cipher encrypting s.writer)
