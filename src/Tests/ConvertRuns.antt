-- ===== src/Tests/ConvertRuns.antt =====
-- Conversions of a few records.
use miri_tool_v.Base.{
  ◌+◌, ◌≤◌, take, drop, length-replicate, ℕ, ◌<◌, ◌≡◌, refl, arith, length, true, false, All, Bytes,
  List, [], ◌∷◌, ◌++◌, replicate, some, done, failed, esp_fail,
}
use miri_tool_v.FwState.{text}
use miri_tool_v.Packaging.{ihex}
use miri_tool_v.FwTypes.{swd}
use miri_tool_v.Meta.{zeroed}
use miri_tool_v.Card.{Files, content_of}
use miri_tool_v.Worker.{Job, Station, ready, converted_job, prepare_exec_file}
use miri_tool_v.Worker.Prepare.{path_of}
use miri_tool_v.Worker.Converted.{file_of, prepare_exec_file-ihex_file_to_file}
use miri_tool_v.Convert.{
  read_records, carry_on, ihex_data_read, srec_data_read, put, rebase, ensure_capacity,
  expand_front, image_of, TextRecord, Ctx, ihex_convert, srec_convert,
}
use miri_tool_v.Convert.Image.{covered, byte_at, value}
use miri_tool_v.Convert.Built.{IsFine}
use miri_tool_v.Convert.Converted.{ihex_convert-byte_at}
use miri_tool_v.Convert.Sink.{
  ihex_convert_to_sink, stream_records, ihex_stream_read, hand_on, rebase_stream, file_sink,
  SinkCtx, Disk, ihex_file_to_file, srec_file_to_file,
}
use miri_tool_v.Convert.Streamed.{Reaches, IsGood, AreAbove}
use miri_tool_v.Convert.ToFile.{srec_file_to_file-srec_convert}

abbrev data_at : ℕ → Bytes → TextRecord
data_at address bytes = record {
  is_data = true;
  address = address;
  bytes = bytes;
  mismatch = false;
  is_whole = true;
}

abbrev last_record : TextRecord
last_record = record { is_data = false; address = 0; bytes = []; mismatch = false; is_whole = true }

-- two bytes, one further on, and one over them
abbrev upward : List TextRecord
upward = data_at 8 (1 ∷ 2 ∷ []) ∷ data_at 12 (3 ∷ []) ∷ data_at 9 (4 ∷ []) ∷ last_record ∷ []

-- the same behind a record with a higher address
abbrev downward : List TextRecord
downward = data_at 20 (7 ∷ []) ∷ upward

IsFine-data_at :
    (address x : ℕ) (xs : Bytes)
    → address < 100
    → length xs < 10
    → IsFine (data_at address (x ∷ xs))
IsFine-data_at address x xs h k = record {
  checked = refl;
  whole = refl;
  some_bytes = λ e. omega arith;
  in_space = λ e. omega arith;
}

last_record-IsFine : IsFine last_record
last_record-IsFine = record {
  checked = refl;
  whole = refl;
  some_bytes = λ e. absurd (grind arith);
  in_space = λ e. absurd (grind arith);
}

upward-IsFine : All IsFine upward
upward-IsFine = (
  IsFine-data_at 8 1 (2 ∷ []) (omega arith) (omega arith),
  (
    IsFine-data_at 12 3 [] (omega arith) (omega arith),
    (IsFine-data_at 9 4 [] (omega arith) (omega arith), (last_record-IsFine, tt)),
  ),
)

upward-AreAbove : AreAbove false 0 upward
upward-AreAbove = (
  λ d s. omega arith,
  (λ d s. omega arith, (λ d s. omega arith, (λ d s. absurd (grind arith), tt))),
)

-- a file system that leaves 255 in what it skips
abbrev disk : Disk
disk = record { seeks = λ a. true; takes = λ a n. n; gap = λ n. replicate n 255 }

disk-IsGood : IsGood disk
disk-IsGood = record {
  seeks_all = λ a. refl;
  takes_all = λ a n. omega arith;
  gap_length = λ n. length-replicate n 255;
}

ihex_convert-byte_at_example :
    (d : Ctx) × (ihex_convert (λ n. true) downward ≡ done d)
    × ((a : ℕ) → value d.base_addr d.content a ≡ byte_at downward a 0)
ihex_convert-byte_at_example =
    ihex_convert-byte_at (λ n. true) (λ n. refl) downward
      (IsFine-data_at 20 7 [] (omega arith) (omega arith), upward-IsFine) refl

srec_file_to_file-srec_convert_example :
    (t : SinkCtx Bytes) × (d : Ctx) × (srec_file_to_file disk upward ≡ done t)
    × (srec_convert (λ n. true) upward ≡ done d)
    × ((a : ℕ)
        → covered upward a ≡ true
        → (value t.base_addr t.out a ≡ value d.base_addr d.content a) × Reaches t a)
srec_file_to_file-srec_convert_example =
    srec_file_to_file-srec_convert disk disk-IsGood (λ n. true) upward (λ n. refl) upward-IsFine
      refl upward-AreAbove

-- A reader of texts in which four bytes lie at 8 and the others at 20.
abbrev reader : Bytes → List TextRecord
reader source = data_at 8 (take 4 source) ∷ data_at 20 (drop 4 source) ∷ last_record ∷ []

abbrev station : Station
station = record {
  can_write = λ path. true;
  convert = λ source. file_of (ihex_file_to_file disk (reader source));
  no_convert = esp_fail;
}

abbrev job : Job
job = record {
  meta = record zeroed { format = ihex; exec = swd };
  file_name = text "app";
  file_type = text "A15";
}

abbrev source : Bytes
source = text ":0000001FF"

abbrev card : Files
card = (text "/sdcard/app.A15", source) ∷ []

source-IsFine : All IsFine (reader source)
source-IsFine = (
  IsFine-data_at 8 b':' (text "000") (omega arith) (omega arith),
  (IsFine-data_at 20 b'0' (text "001FF") (omega arith) (omega arith), (last_record-IsFine, tt)),
)

source-AreAbove : AreAbove false 0 (reader source)
source-AreAbove = (λ d s. omega arith, (λ d s. omega arith, (λ d s. absurd (grind arith), tt)))

prepare_exec_file-ihex_file_to_file_example :
    (after : Files) × (content : Bytes) × (base : ℕ) × (prepare_exec_file station job card
      ≡ ready (converted_job job) after)
    × (content_of (path_of (text "app" ++ text "_bin") (text "A15")) after ≡ some content)
    × ((a : ℕ)
        → covered (reader source) a ≡ true
        → (value base content a ≡ byte_at (reader source) a 0)
          × (base ≤ a)
          × (a < base + length content))
unfolding content_of
prepare_exec_file-ihex_file_to_file_example =
    prepare_exec_file-ihex_file_to_file station job card source disk reader (λ source. refl)
      disk-IsGood (record { from_ihex = refl; to_bin = refl; type_fits = omega arith })
      (omega arith) (λ path. refl) refl source-IsFine source-AreAbove

abbrev image : Ctx
image = record {
  content = 1 ∷ 4 ∷ 0 ∷ 0 ∷ 3 ∷ 0 ∷ 0 ∷ 0 ∷ 0 ∷ 0 ∷ 0 ∷ 0 ∷ 7 ∷ [];
  base_addr = 8;
  has_base = true;
  has_error = false;
}

downward_images :
    (ihex_convert (λ n. true) downward ≡ done image)
    × (srec_convert (λ n. true) downward ≡ done image)
unfolding ihex_convert srec_convert read_records carry_on ihex_data_read srec_data_read put rebase
    ensure_capacity expand_front image_of
downward_images = (refl, refl)

-- The address below the first one is refused by the conversion into a file.
downward_refused :
    ihex_file_to_file disk downward
    ≡ failed esp_fail (record { out = 7 ∷ []; base_addr = 20; has_base = true; has_error = true })
unfolding ihex_file_to_file ihex_convert_to_sink stream_records ihex_stream_read hand_on
    rebase_stream file_sink
downward_refused = refl
