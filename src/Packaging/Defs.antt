-- ===== src/Packaging/Defs.antt =====
-- fw_upload_packaging.c: sinks, little-endian reads, the loop that hands over a block in pieces.
use miri_tool_v.Base.{
  ℕ, zero, suc, ◌+◌, ◌-◌, ◌*◌, Bytes, [], ◌∷◌, ◌++◌, Option, none, some, length, take, drop, leb,
  ltb, if◌then◌else◌, u32, Outcome, done, fault, ◌>>=◌,
}

-- `fw_packaging_sink_t`: the context it works on, an address, and the bytes.
abbrev pub Sink {ℓ} : Type ℓ → Type ℓ
Sink S = S → ℕ → Bytes → Outcome S

-- The first two and four bytes of what stands at a pointer; `none` if the array ends before.
-- The fields that `|` joins are disjoint, so they add up.
abbrev pub first_le16 : Bytes → Option ℕ
first_le16 (a ∷ b ∷ _) = some (a + b * 0x100)
first_le16 _ = none

abbrev pub first_le32 : Bytes → Option ℕ
first_le32 (a ∷ b ∷ c ∷ d ∷ _) = some (a + b * 0x100 + c * 0x10000 + d * 0x1000000)
first_le32 _ = none

unfoldable pub le16 : Bytes → ℕ → Option ℕ
le16 buf i = first_le16 (drop i buf)

unfoldable pub le32 : Bytes → ℕ → Option ℕ
le32 buf i = first_le32 (drop i buf)

-- The `n` bytes at `buf + i`.
unfoldable pub slice : Bytes → ℕ → ℕ → Option Bytes
slice buf i n = if leb (i + n) (length buf) then some (take n (drop i buf)) else none

module _ {ℓ} {S : Type ℓ} (sink : Sink S) where
  -- The loops of `process_bin` (pieces of 512) and of the sections of `process_coff` and
  -- `process_elf` (pieces of 1024), on fuel: each round takes at least one byte, so
  -- that the number of bytes is fuel enough.
  unfoldable pub send_pieces : ℕ → ℕ → Bytes → ℕ → S → Outcome S
  send_pieces piece fuel [] addr s = done s
  send_pieces piece zero (x ∷ xs) addr s = fault
  send_pieces piece (suc fuel) (x ∷ xs) addr s =
      let block = take piece (x ∷ xs) in
      let rest =
        λ (t : S). send_pieces piece fuel (drop piece (x ∷ xs)) (u32 (addr + length block)) t in
      sink s addr block >>= rest

-- The loops that fill `buf` with the file, on fuel: `size` bytes, or fewer if the file is shorter.
unfoldable pub read_all : ℕ → ℕ → Bytes → Bytes → Bytes
read_all zero size got rest = got
read_all (suc fuel) size got [] = got
read_all (suc fuel) size got (x ∷ rest) =
    let wanted = size - length got in
    let more = read_all fuel size (got ++ take wanted (x ∷ rest)) (drop wanted (x ∷ rest)) in
    if ltb (length got) size then more else got
