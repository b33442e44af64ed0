-- ===== src/Storage/Metadata/Kept.antt =====
-- What is read back of metadata that were written.
use miri_tool_v.Base.{
  ◌≤◌, ◌<◌, ◌≡◌, refl, ap, true, false, Bytes, List, [], ◌∷◌, ◌++◌, some, length, length-append,
  take, drop, take_all, ltb, lt→ltb, ◌==◌, arith, done,
}
use miri_tool_v.FwState.{text}
use miri_tool_v.FwTypes.{format_to_str, exec_to_str}
use miri_tool_v.FwTypes.Names.{format_from_str-format_to_str, exec_from_str-exec_to_str}
use miri_tool_v.Packaging.{bin}
use miri_tool_v.Meta.{FwMeta}
use miri_tool_v.Card.{Files, store, build_meta_path}
use miri_tool_v.Card.Laws.{content_of-store}
use miri_tool_v.Storage.Metadata.{
  number, boolean, Object, Cjson, object_of, meta_of, meta_write, meta_read, number_or_zero,
  boolean_or_false,
}
use miri_tool_v.Storage.Metadata.Fields.{
  Field, string_of, number_of, skip_fields, read_string, read_number,
}

-- The texts of metadata that fit their fields, as C strings that were read from them do.
pub record Fits (m : FwMeta) : Type 0 where
  pub name_fits : length m.file_name ≤ 63
  pub type_fits : length m.file_type ≤ 7
  pub board_fits : length m.target_board ≤ 31
  pub id_fits : length m.target_id ≤ 15
  pub json_fits : length m.meta_json ≤ 255

module _ (m : FwMeta) where
  abbrev optional : List Field
  optional =
      string_of (text "target_board") m.target_board
      ∷ string_of (text "target_id") m.target_id
      ∷ number_of (text "can_bitrate") m.can_bitrate
      ∷ number_of (text "uart_baud") m.uart_baud
      ∷ number_of (text "swd_clock_khz") m.swd_clock_khz
      ∷ number_of (text "jtag_clock_khz") m.jtag_clock_khz
      ∷ string_of (text "meta_json") m.meta_json
      ∷ []

  -- the items behind the optional ones
  abbrev last : Object
  last = (text "encrypted", boolean m.encrypted) ∷ (text "size", number m.original_size) ∷ []

  abbrev m' : FwMeta
  m' = meta_of m.file_name m.file_type (object_of m)

  board_read : length m.target_board ≤ 31 → m'.target_board ≡ m.target_board
  unfolding meta_of object_of
  board_read h =
      read_string (text "target_board") [] (drop 1 optional) last tt
        (refl, (refl, (refl, (refl, (refl, (refl, tt)))))) refl refl m.target_board 31 h

  id_read : length m.target_id ≤ 15 → m'.target_id ≡ m.target_id
  unfolding meta_of object_of
  id_read h =
      read_string (text "target_id") (take 1 optional) (drop 2 optional) last (refl, tt)
        (refl, (refl, (refl, (refl, (refl, tt))))) refl refl m.target_id 15 h

  can_read : m'.can_bitrate ≡ m.can_bitrate
  unfolding meta_of object_of
  can_read =
      read_number (text "can_bitrate") (take 2 optional) (drop 3 optional) last (refl, (refl, tt))
        (refl, (refl, (refl, (refl, tt)))) refl refl m.can_bitrate

  uart_read : m'.uart_baud ≡ m.uart_baud
  unfolding meta_of object_of
  uart_read =
      read_number (text "uart_baud") (take 3 optional) (drop 4 optional) last
        (refl, (refl, (refl, tt))) (refl, (refl, (refl, tt))) refl refl m.uart_baud

  swd_read : m'.swd_clock_khz ≡ m.swd_clock_khz
  unfolding meta_of object_of
  swd_read =
      read_number (text "swd_clock_khz") (take 4 optional) (drop 5 optional) last
        (refl, (refl, (refl, (refl, tt)))) (refl, (refl, tt)) refl refl m.swd_clock_khz

  jtag_read : m'.jtag_clock_khz ≡ m.jtag_clock_khz
  unfolding meta_of object_of
  jtag_read =
      read_number (text "jtag_clock_khz") (take 5 optional) (drop 6 optional) last
        (refl, (refl, (refl, (refl, (refl, tt))))) (refl, tt) refl refl m.jtag_clock_khz

  json_read : length m.meta_json ≤ 255 → m'.meta_json ≡ m.meta_json
  unfolding meta_of object_of
  json_read h =
      read_string (text "meta_json") (take 6 optional) [] last
        (refl, (refl, (refl, (refl, (refl, (refl, tt)))))) tt refl refl m.meta_json 255 h

  encrypted_read : m'.encrypted ≡ m.encrypted
  unfolding meta_of object_of
  encrypted_read = ap boolean_or_false (
      skip_fields (text "encrypted") optional last
        (refl, (refl, (refl, (refl, (refl, (refl, (refl, tt))))))))

  size_read : m'.original_size ≡ m.original_size
  unfolding meta_of object_of
  size_read = ap number_or_zero (
      skip_fields (text "size") optional last
        (refl, (refl, (refl, (refl, (refl, (refl, (refl, tt))))))))

  -- What is written says all but the format for execution and whether the file is only saved.
  abbrev pub remembered : FwMeta
  remembered = record m { exec_format = bin; save_only = false }

  meta_of-object_of : Fits m → m' ≡ remembered
  unfolding meta_of object_of
  meta_of-object_of f = λ i. record {
    file_name = take_all 63 m.file_name f.name_fits i;
    file_type = take_all 7 m.file_type f.type_fits i;
    format = format_from_str-format_to_str m.format (format_to_str m.format) refl i;
    exec = exec_from_str-exec_to_str m.exec (exec_to_str m.exec) refl i;
    exec_format = bin;
    exec_override = m.exec_override;
    target_board = board_read f.board_fits i;
    target_id = id_read f.id_fits i;
    can_bitrate = can_read i;
    uart_baud = uart_read i;
    swd_clock_khz = swd_read i;
    jtag_clock_khz = jtag_read i;
    meta_json = json_read f.json_fits i;
    encrypted = encrypted_read i;
    save_only = false;
    original_size = size_read i;
  }

  build_meta_path-Fits :
      Fits m → (path : Bytes) × (build_meta_path m.file_name m.file_type ≡ some path)
  unfolding build_meta_path
  build_meta_path-Fits f =
      let path =
        text "/sdcard" ++ (b'/' ∷ (m.file_name ++ (b'.' ∷ (m.file_type ++ text ".meta")))) in
      let short : ltb (length path) 384 ≡ true = lt→ltb _ _ (
        omega (
          arith,
          f.name_fits,
          f.type_fits,
          length-append m.file_name (b'.' ∷ (m.file_type ++ text ".meta")),
          length-append m.file_type (text ".meta"),
        )) in
      (path, rw short)

  -- Metadata that fit their fields are written and read back, but for the format for execution and
  -- the mark of files that are only saved, if the JSON text has at most 511 bytes and is parsed
  -- to the object that was printed.
  pub meta_read-meta_write :
      (cjson : Cjson) (files : Files)
      → Fits m
      → cjson.parse (cjson.print (object_of m)) ≡ some (object_of m)
      → 0 < length (cjson.print (object_of m))
      → length (cjson.print (object_of m)) ≤ 511
      → (after : Files) × (meta_write cjson true true m files ≡ done after)
        × (meta_read cjson m.file_name m.file_type after ≡ some remembered)
  unfolding meta_write meta_read
  meta_read-meta_write cjson files f parses some_text short =
      let (path, at_path) = build_meta_path-Fits f in
      let json = cjson.print (object_of m) in
      let whole = take_all 511 json short in
      let not_empty : (length json == 0) ≡ false = ground arith in
      (
        store path json files,
        rw at_path,
        rw (at_path, content_of-store path json files, whole, not_empty, parses)
            (ap some (meta_of-object_of f)),
      )
