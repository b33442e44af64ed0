-- ===== src/CanUpdate/Placed.antt =====
-- A whole Intel HEX file made flat, and where its data records stand in the file that is sent over
-- the CAN bus.
use miri_tool_v.Base.{
  ℕ, ◌+◌, ◌*◌, ◌≤◌, ◌<◌, ◌^◌, ◌≡◌, Bytes, List, [], ◌∷◌, ◌++◌, All, length, u32, Outcome, done,
  ◌>>=◌,
}
use miri_tool_v.Packaging.Ihex.Records.{
  Record, data_record, end_of_file, segment_base, linear_base, other,
}
use miri_tool_v.CanUpdate.FlatFile.{BinSink, bin_sink}

pub record Block : Type 0 where
  pub addr : ℕ
  pub bytes : Bytes

-- The blocks of a list of records at their full addresses, up to an end-of-file record.
abbrev pub blocks_of : ℕ → List Record → List Block
blocks_of base [] = []
blocks_of base (data_record addr bytes ∷ rs) =
    (record { addr = u32 (base + addr); bytes = bytes }) ∷ blocks_of base rs
blocks_of base (end_of_file ∷ rs) = []
blocks_of base (segment_base v ∷ rs) = blocks_of (v * 0x10) rs
blocks_of base (linear_base v ∷ rs) = blocks_of (v * 0x10000) rs
blocks_of base (other kind bytes ∷ rs) = blocks_of base rs

-- No block begins before the end of the one before it, and all end below 2 ^ 32.
abbrev pub AreAscending : ℕ → List Block → Type 0
AreAscending end [] = Unit
AreAscending end (b ∷ bs) =
    (end ≤ b.addr) × (b.addr + length b.bytes < 2 ^ 32) × AreAscending (b.addr + length b.bytes) bs

-- The bytes stand in the file at the address.
pub record IsAt (addr : ℕ) (bytes file : Bytes) : Type 0 where
  pub before : Bytes
  pub after : Bytes
  pub splits : file ≡ before ++ (bytes ++ after)
  pub position : length before ≡ addr

abbrev pub AllPlaced : Bytes → List Block → Type 0
AllPlaced file = All (λ (b : Block). IsAt b.addr b.bytes file)

-- a file that grew out of another
abbrev Grew : Bytes → Bytes → Type 0
Grew old new = (more : Bytes) × (new ≡ old ++ more)

abbrev pub send_blocks : List Block → BinSink → Outcome BinSink
send_blocks [] s = done s
send_blocks (b ∷ bs) s = bin_sink s b.addr b.bytes >>= send_blocks bs
