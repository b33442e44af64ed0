-- ===== src/Convert/Sink.antt =====
-- main/utils/ihex2bin.c and srec2bin.c: the conversion that hands each record on to a sink, and the
-- sink that writes to a file; the reader of a buffer.
use miri_tool_v.Base.{
  ℕ, ◌+◌, ◌-◌, Bool, true, false, not, ◌||◌, Bytes, List, [], ◌∷◌, ◌++◌, length, take, drop, min,
  ltb, ◌==◌, if◌then◌else◌, u32, Outcome, done, failed, fault, ◌>>=◌, esp_fail, invalid_arg,
}
use miri_tool_v.Convert.{TextRecord}

-- A sink takes an offset, the bytes for it, and what it has so far.
abbrev pub OffsetSink : Type 0 → Type 0
OffsetSink S = ℕ → Bytes → S → Outcome S

-- ihex2bin_ctx_t with a sink.
pub record SinkCtx (S : Type 0) : Type 0 where
  pub out : S
  pub base_addr : ℕ
  pub has_base : Bool
  pub has_error : Bool

abbrev pub new_stream : {S : Type 0} → S → SinkCtx S
new_stream out = record { out = out; base_addr = 0; has_base = false; has_error = false }

module _ {S : Type 0} where
  -- An address below the first is refused.
  unfoldable pub rebase_stream : ℕ → SinkCtx S → Outcome (SinkCtx S)
  rebase_stream address s =
      if not s.has_base
      then done (record s { base_addr = address; has_base = true })
      else if ltb address s.base_addr
      then failed esp_fail s
      else done s

  abbrev pub sunk : SinkCtx S → Outcome S → Outcome (SinkCtx S)
  sunk s (done out) = done (record s { out = out })
  sunk s (failed e out) = failed e (record s { out = out })
  sunk s fault = fault

  abbrev pub marked_stream : Outcome (SinkCtx S) → Outcome (SinkCtx S)
  marked_stream (done s) = done s
  marked_stream (failed e s) = failed e (record s { has_error = true })
  marked_stream fault = fault

  abbrev pub carry_on_stream :
      Outcome (SinkCtx S) → (SinkCtx S → Outcome (SinkCtx S)) → Outcome (SinkCtx S)
  carry_on_stream (done s) f = f s
  carry_on_stream (failed e s) f = f s
  carry_on_stream fault f = fault

  unfoldable pub stream_records :
      (TextRecord → SinkCtx S → Outcome (SinkCtx S))
      → List TextRecord
      → SinkCtx S
      → Outcome (SinkCtx S)
  stream_records data_read [] s = done s
  stream_records data_read (r ∷ rs) s =
      carry_on_stream (data_read r s) (stream_records data_read rs)

  abbrev pub stream_result : SinkCtx S → Outcome (SinkCtx S)
  stream_result s = if s.has_error then failed esp_fail s else done s

module _ {S : Type 0} (sink : OffsetSink S) where
  unfoldable pub hand_on : TextRecord → SinkCtx S → Outcome (SinkCtx S)
  hand_on r s =
      rebase_stream r.address s >>= λ b. sunk b (sink (u32 (r.address - b.base_addr)) r.bytes b.out)

  unfoldable pub ihex_stream_read : TextRecord → SinkCtx S → Outcome (SinkCtx S)
  ihex_stream_read r s =
      if r.mismatch || not r.is_whole
      then marked_stream (failed esp_fail s)
      else if r.is_data
      then marked_stream (hand_on r s)
      else done s

  unfoldable pub srec_stream_read : TextRecord → SinkCtx S → Outcome (SinkCtx S)
  srec_stream_read r s =
      if r.mismatch || not r.is_whole
      then marked_stream (failed esp_fail s)
      else if not r.is_data || length r.bytes == 0
      then done s
      else marked_stream (hand_on r s)

  -- `ihex2bin_convert_to_sink` and `srec2bin_convert_to_sink`.
  unfoldable pub ihex_convert_to_sink : List TextRecord → S → Outcome (SinkCtx S)
  ihex_convert_to_sink rs out =
      stream_records ihex_stream_read rs (new_stream out) >>= stream_result

  unfoldable pub srec_convert_to_sink : List TextRecord → S → Outcome (SinkCtx S)
  srec_convert_to_sink rs out =
      stream_records srec_stream_read rs (new_stream out) >>= stream_result

-- The file system: whether a place can be gone to, how many bytes it takes there, and what stands in
-- the bytes between the end of a file and a place behind it.
pub record Disk : Type 0 where
  pub seeks : ℕ → Bool
  pub takes : ℕ → ℕ → ℕ
  pub gap : ℕ → Bytes

-- `fwrite` at a place of a file
abbrev pub fwrite_at : Disk → ℕ → Bytes → Bytes → Bytes
fwrite_at disk addr bytes file =
    let reached = file ++ disk.gap (addr - length file) in
    if length bytes == 0
    then file
    else take addr reached ++ (bytes ++ drop (addr + length bytes) reached)

unfoldable pub file_sink : Disk → OffsetSink Bytes
file_sink disk addr bytes file =
    let wr = min (disk.takes addr (length bytes)) (length bytes) in
    let after = fwrite_at disk addr (take wr bytes) file in
    if length bytes == 0
    then failed invalid_arg file
    else if not (disk.seeks addr)
    then failed esp_fail file
    else if wr == length bytes
    then done after
    else failed esp_fail after

-- `ihex2bin_file_to_file` and `srec2bin_file_to_file`, into a new file.
unfoldable pub ihex_file_to_file : Disk → List TextRecord → Outcome (SinkCtx Bytes)
ihex_file_to_file disk rs = ihex_convert_to_sink (file_sink disk) rs []

unfoldable pub srec_file_to_file : Disk → List TextRecord → Outcome (SinkCtx Bytes)
srec_file_to_file disk rs = srec_convert_to_sink (file_sink disk) rs []
