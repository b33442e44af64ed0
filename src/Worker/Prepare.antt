-- ===== src/Worker/Prepare.antt =====
-- The conversion of an Intel HEX file before an update.
use miri_tool_v.Base.{
  ◌≤◌, ◌≡◌, ◌≢◌, ap, sym, ◌∙◌, true, Bytes, [], ◌∷◌, ◌++◌, Option, none, some, length,
  length-append, take, take_all, take-append, ltb, lt→ltb, arith,
}
use miri_tool_v.FwState.{text}
use miri_tool_v.Packaging.{bin, ihex}
use miri_tool_v.Card.{Files, content_of, store, build_path}
use miri_tool_v.Card.Laws.{content_of-store, content_of-store_ne, content_of-remove}
use miri_tool_v.Worker.{
  Job, Station, Prepared, ready, given_up, exec_name, converted_job, prepare_exec_file,
  finish_conversion, convert_opened,
}

-- A job for an Intel HEX file that is to be executed as a binary one.
pub record IsIhexJob (job : Job) : Type 0 where
  pub from_ihex : job.meta.format ≡ ihex
  pub to_bin : job.meta.exec_format ≡ bin
  pub type_fits : length job.file_type ≤ 7

-- the path of a file
abbrev pub path_of : Bytes → Bytes → Bytes
path_of name type = text "/sdcard" ++ (b'/' ∷ (name ++ (b'.' ∷ type)))

build_path_fits :
    (name type : Bytes)
    → length name ≤ 63
    → length type ≤ 7
    → build_path name type ≡ some (path_of name type)
unfolding build_path
build_path_fits name type n t =
    let short : ltb (length (path_of name type)) 384 ≡ true =
      lt→ltb _ _ (omega (arith, length-append name (b'.' ∷ type))) in
    rw short

paths_differ : (name type : Bytes) → path_of name type ≢ path_of (name ++ text "_bin") type
paths_differ name type e = absurd (
    omega (
      arith,
      ap (λ (p : Bytes). length p) e,
      length-append name (b'.' ∷ type),
      length-append (name ++ text "_bin") (b'.' ∷ type),
      length-append name (text "_bin"),
    ))

-- A name that leaves room for "_bin", and a converter that accepts the file: the converted content
-- is stored under the longer name, the file itself is left as it is, and the job goes on with the
-- converted file.
pub prepare_exec_file-convert :
    (station : Station) (job : Job) (files : Files) (source content : Bytes)
    → IsIhexJob job
    → length job.file_name ≤ 59
    → ((path : Bytes) → station.can_write path ≡ true)
    → content_of (path_of job.file_name job.file_type) files ≡ some source
    → station.convert source ≡ some content
    → (after : Files) × (prepare_exec_file station job files ≡ ready (converted_job job) after)
      × (content_of (path_of (job.file_name ++ text "_bin") job.file_type) after ≡ some content)
      × (content_of (path_of job.file_name job.file_type) after ≡ some source)
unfolding prepare_exec_file
prepare_exec_file-convert station job files source content is short writes found converts =
    let long = job.file_name ++ text "_bin" in
    let inp = path_of job.file_name job.file_type in
    let out = path_of long job.file_type in
    let n = length-append job.file_name (text "_bin") in
    let named : exec_name job ≡ long = take_all 63 long (omega arith) in
    let typed = take_all 7 job.file_type is.type_fits in
    let from = build_path_fits job.file_name job.file_type (omega arith) is.type_fits in
    let to = build_path_fits long job.file_type (omega arith) is.type_fits in
    let differ = paths_differ job.file_name job.file_type in
    let emptied = content_of-store_ne out inp [] files (λ e. differ (sym e)) ∙ found in
    (
      store out content (store out [] files),
      rw (is.from_ihex, is.to_bin, from, named, typed, to, found, writes out, emptied, converts)
          (rw (named, typed)),
      content_of-store out content (store out [] files),
      content_of-store_ne out inp content (store out [] files) (λ e. differ (sym e)) ∙ emptied,
    )

-- the card behind a preparation
abbrev pub files_of : Prepared → Files
files_of (ready job files) = files
files_of (given_up e files) = files

replaced :
    (station : Station) (job : Job) (path : Bytes) (files : Files)
    → content_of path (
        files_of (
          convert_opened station job path
            (store path [] files)
            (content_of path (store path [] files))))
      ≡ station.convert []
replaced station job path files = rw (content_of-store path [] files) (go (station.convert []))
  where
    go :
        (o : Option Bytes)
        → content_of path (files_of (finish_conversion station job path (store path [] files) o))
          ≡ o
    go none = content_of-remove path (store path [] files)
    go (some content) = content_of-store path content (store path [] files)

-- A name of 63 bytes leaves no room for "_bin": the file is opened for writing itself, and all that
-- it held is lost before it is read. What is left is what an empty text is converted to.
pub prepare_exec_file_overwrites :
    (station : Station) (job : Job) (files : Files) (source : Bytes)
    → IsIhexJob job
    → length job.file_name ≡ 63
    → ((path : Bytes) → station.can_write path ≡ true)
    → content_of (path_of job.file_name job.file_type) files ≡ some source
    → content_of
        (path_of job.file_name job.file_type)
        (files_of (prepare_exec_file station job files))
      ≡ station.convert []
unfolding prepare_exec_file
prepare_exec_file_overwrites station job files source is full writes found =
    let inp = path_of job.file_name job.file_type in
    let named : exec_name job ≡ job.file_name =
      ap (λ n. take n (job.file_name ++ text "_bin")) (sym full)
      ∙ take-append job.file_name (text "_bin") in
    let typed = take_all 7 job.file_type is.type_fits in
    let from = build_path_fits job.file_name job.file_type (omega arith) is.type_fits in
    rw (is.from_ihex, is.to_bin, from, named, typed, from, found, writes inp)
      (replaced station (record job { meta = record job.meta { format = ihex; exec_format = bin } })
        inp files)
