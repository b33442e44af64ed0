-- ===== src/Packaging/Ihex/Records.antt =====
-- Intel HEX records as a writer prints them, and what they stand for.
use miri_tool_v.Base.{
  ℕ, ◌+◌, ◌-◌, ◌*◌, ◌/◌, ◌%◌, ◌≤◌, ◌<◌, ◌≡◌, ◌≢◌, refl, Bytes, [], ◌∷◌, ◌++◌, AreBytes, length, u8,
  u32, arith,
}
use miri_tool_v.Packaging.Ihex.{Action, skip, halt, emit, rebase, record_action}
use miri_tool_v.Packaging.Ihex.Hex.{hex_chars, hex_byte-digit, sum8, read_pairs-hex_chars}

-- `other` is a record type without a meaning here, such as a start address.
pub data Record : Type 0 where
  data_record : ℕ → Bytes → Record
  end_of_file : Record
  segment_base : ℕ → Record
  linear_base : ℕ → Record
  other : ℕ → Bytes → Record

-- What a record must satisfy to fit the format and the line buffer.
abbrev pub Fits : Record → Type 0
Fits (data_record addr block) = (addr < 65536) × AreBytes block × (length block ≤ 121)
Fits end_of_file = Unit
Fits (segment_base v) = v < 65536
Fits (linear_base v) = v < 65536
Fits (other kind block) =
    (kind < 256)
    × (kind ≢ 0)
    × (kind ≢ 1)
    × (kind ≢ 2)
    × (kind ≢ 4)
    × AreBytes block
    × (length block ≤ 121)

abbrev pub address_of : Record → ℕ
address_of (data_record addr block) = addr
address_of _ = 0

abbrev pub type_of : Record → ℕ
type_of (data_record addr block) = 0
type_of end_of_file = 1
type_of (segment_base v) = 2
type_of (linear_base v) = 4
type_of (other kind block) = kind

abbrev pub block_of : Record → Bytes
block_of (data_record addr block) = block
block_of end_of_file = []
block_of (segment_base v) = (v / 256) ∷ (v % 256) ∷ []
block_of (linear_base v) = (v / 256) ∷ (v % 256) ∷ []
block_of (other kind block) = block

abbrev pub header_of : Record → Bytes
header_of r = length (block_of r) ∷ (address_of r / 256) ∷ (address_of r % 256) ∷ type_of r ∷ []

-- The checksum byte makes the sum of all bytes of the line 0.
abbrev pub checksum_of : Record → ℕ
checksum_of r = u8 (256 - sum8 0 (header_of r ++ block_of r))

-- The line, with a given checksum byte.
unfoldable pub line_with : ℕ → Record → Bytes
line_with c r = b':' ∷ hex_chars (header_of r ++ (block_of r ++ c ∷ []))

abbrev pub meaning : ℕ → Record → Action
meaning base (data_record addr block) = emit (u32 (base + addr)) block
meaning base end_of_file = halt
meaning base (segment_base v) = rebase (v * 0x10)
meaning base (linear_base v) = rebase (v * 0x10000)
meaning base (other kind block) = skip

pub block_of-AreBytes : (r : Record) → Fits r → AreBytes (block_of r)
block_of-AreBytes (data_record addr block) h = h.1
block_of-AreBytes end_of_file h = tt
block_of-AreBytes (segment_base v) h = omega arith
block_of-AreBytes (linear_base v) h = omega arith
block_of-AreBytes (other kind block) h = h.5

pub header_of_bounds :
    (r : Record) → Fits r → (length (block_of r) ≤ 121) × (address_of r < 65536) × (type_of r < 256)
header_of_bounds (data_record addr block) h = (h.2, h.0, omega arith)
header_of_bounds end_of_file h = omega arith
header_of_bounds (segment_base v) h = omega arith
header_of_bounds (linear_base v) h = omega arith
header_of_bounds (other kind block) h = (h.6, omega arith, h.0)

pub sum8-append : (xs : Bytes) (a c : ℕ) → sum8 a (xs ++ c ∷ []) ≡ u8 (sum8 a xs + c)
sum8-append [] a c = refl
sum8-append (x ∷ xs) a c = sum8-append xs (u8 (a + x)) c

pub sum8-lt : (xs : Bytes) (a : ℕ) → a < 256 → sum8 a xs < 256
sum8-lt [] a h = h
sum8-lt (x ∷ xs) a h = sum8-lt xs (u8 (a + x)) (omega arith)

-- The branches by type give each record its meaning.
pub record_action_lem :
    (r : Record) (base c : ℕ)
    → Fits r
    → c < 256
    → record_action base (line_with c r) (length (block_of r)) (address_of r) (type_of r)
      ≡ meaning base r
unfolding record_action line_with
record_action_lem (data_record addr block) base c h b =
    ground (arith, read_pairs-hex_chars block (c ∷ []) h.1)
record_action_lem end_of_file base c h b = refl
record_action_lem (segment_base v) base c h b =
    ground (arith, hex_byte-digit (v / 256) (omega arith), hex_byte-digit (v % 256) (omega arith))
record_action_lem (linear_base v) base c h b =
    ground (arith, hex_byte-digit (v / 256) (omega arith), hex_byte-digit (v % 256) (omega arith))
record_action_lem (other kind block) base c h b = ground arith
