-- ===== src/Packaging/Binary.antt =====
-- `process_bin`.
use miri_tool_v.Base.{Bytes, Outcome, length}
use miri_tool_v.Packaging.Defs.{Sink, send_pieces}

unfoldable pub process_bin {ℓ} : {S : Type ℓ} → Sink S → Bytes → S → Outcome S
process_bin sink file s = send_pieces sink 512 (length file) file 0 s
