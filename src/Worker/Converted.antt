-- ===== src/Worker/Converted.antt =====
-- The conversion of an Intel HEX file before an update, with the converter of the program.
use miri_tool_v.Base.{
  ℕ, ◌+◌, ◌<◌, ◌≤◌, ◌≡◌, ap, ◌∙◌, true, false, All, Bytes, List, ◌++◌, Option, none, some, length,
  Outcome, done, failed, fault,
}
use miri_tool_v.FwState.{text}
use miri_tool_v.Card.{Files, content_of}
use miri_tool_v.Worker.{Job, Station, ready, converted_job, prepare_exec_file}
use miri_tool_v.Worker.Prepare.{IsIhexJob, path_of, prepare_exec_file-convert}
use miri_tool_v.Convert.{TextRecord}
use miri_tool_v.Convert.Image.{covered, byte_at, value}
use miri_tool_v.Convert.Built.{IsFine}
use miri_tool_v.Convert.Sink.{SinkCtx, Disk, ihex_file_to_file}
use miri_tool_v.Convert.Streamed.{IsGood, AreAbove}
use miri_tool_v.Convert.ToFile.{ihex_file_to_file-byte_at}

-- the file that a conversion leaves, if it succeeds
abbrev pub file_of : Outcome (SinkCtx Bytes) → Option Bytes
file_of (done s) = some s.out
file_of (failed e s) = none
file_of fault = none

-- A name that leaves room for "_bin", a good file system, and a file whose records, as the reader
-- hands them over, are whole with none below the first: the preparation goes on with the converted
-- file, and the file under the longer name has, for every address that a record covers, counted from
-- a base, a byte, the one of the last record that covers it.
pub prepare_exec_file-ihex_file_to_file :
    (station : Station) (job : Job) (files : Files) (source : Bytes) (disk : Disk)
    (reader : Bytes → List TextRecord)
    → ((text : Bytes) → station.convert text ≡ file_of (ihex_file_to_file disk (reader text)))
    → IsGood disk
    → IsIhexJob job
    → length job.file_name ≤ 59
    → ((path : Bytes) → station.can_write path ≡ true)
    → content_of (path_of job.file_name job.file_type) files ≡ some source
    → All IsFine (reader source)
    → AreAbove false 0 (reader source)
    → (after : Files) × (content : Bytes) × (base : ℕ) × (prepare_exec_file station job files
        ≡ ready (converted_job job) after)
      × (content_of (path_of (job.file_name ++ text "_bin") job.file_type) after ≡ some content)
      × ((a : ℕ)
          → covered (reader source) a ≡ true
          → (value base content a ≡ byte_at (reader source) a 0)
            × (base ≤ a)
            × (a < base + length content))
prepare_exec_file-ihex_file_to_file station job files source disk reader converts good is short
      writes found fine above =
    let x = ihex_file_to_file-byte_at disk good (reader source) fine above in
    let e = converts source ∙ ap file_of x.1 in
    let y = prepare_exec_file-convert station job files source x.0.out is short writes found e in
    (y.0, x.0.out, x.0.base_addr, y.1, y.2, λ a c. let all = x.2 a c in (all.0, all.1.0, all.1.1))
