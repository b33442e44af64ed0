-- ===== src/CanUpdate/FlatFile.antt =====
-- `bin_sink` of can_fw_update.c: the sink that writes blocks into a flat file, gaps filled with 0xFF.
use miri_tool_v.Base.{
  ℕ, zero, suc, ◌+◌, ◌-◌, Bytes, [], ◌++◌, length, replicate, ltb, ◌==◌, if◌then◌else◌, u32, done,
  failed, esp_fail,
}
use miri_tool_v.Packaging.Defs.{Sink}

-- bin_sink_ctx_t, with the bytes written to the file so far.
pub record BinSink : Type 0 where
  pub file : Bytes
  pub offset : ℕ
  pub max : ℕ

abbrev pub bin_sink_start : BinSink
bin_sink_start = record { file = []; offset = 0; max = 0 }

-- The bytes of padding that one round writes.
unfoldable pub pad_chunk : ℕ → ℕ
pad_chunk gap = if ltb 64 gap then 64 else gap

-- The padding loop, 64 bytes at most a round, on fuel: `gap` rounds are enough.
unfoldable pub pad : ℕ → ℕ → Bytes → Bytes
pad zero gap file = file
pad (suc fuel) gap file =
    let more = pad fuel (gap - pad_chunk gap) (file ++ replicate (pad_chunk gap) 0xFF) in
    if gap == 0 then file else more

unfoldable pub bin_sink : Sink BinSink
bin_sink s addr block =
    let padded =
      if ltb s.offset addr then pad (addr - s.offset) (addr - s.offset) s.file else s.file in
    let start = if ltb s.offset addr then addr else s.offset in
    let offset = u32 (start + length block) in
    if ltb addr s.offset
    then failed esp_fail s
    else done (record {
      file = padded ++ block;
      offset = offset;
      max = if ltb s.max offset then offset else s.max;
    })
