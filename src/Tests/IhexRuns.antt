-- ===== src/Tests/IhexRuns.antt =====
-- fw_upload_packaging.c and the flat file of can_fw_update.c on concrete files.
use miri_tool_v.Base.{List, [], ◌∷◌}
use miri_tool_v.Packaging.Ihex.Records.{Record, data_record, end_of_file, linear_base}
use miri_tool_v.CanUpdate.FlatFile.{BinSink}

-- two data records with a gap of two bytes between them
abbrev records : List Record
records = linear_base 0 ∷ data_record 0 (1 ∷ 2 ∷ []) ∷ data_record 4 (3 ∷ []) ∷ end_of_file ∷ []

-- the right checksum is 0xF9
abbrev bad_record : Record
bad_record = data_record 0 (1 ∷ 5 ∷ [])

abbrev one_byte : BinSink
one_byte = record { file = 9 ∷ []; offset = 1; max = 1 }
