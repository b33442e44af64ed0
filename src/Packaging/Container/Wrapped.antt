-- ===== src/Packaging/Container/Wrapped.antt =====
-- The 32-bit sums that the range checks of `process_elf` compare.
use miri_tool_v.Base.{
  ℕ, ◌+◌, ◌^◌, ◌≤◌, ◌<◌, ◌≡◌, false, Bytes, some, length, ltb, leb, ◌==◌, u32, arith, fault,
}
use miri_tool_v.Packaging.Defs.{Sink, le32, slice}
use miri_tool_v.Packaging.Container.{send_block, elf_segment}

module _ {ℓ} {S : Type ℓ} (sink : Sink S) where
  send_block_outside :
      (buf : Bytes) (ptr n addr : ℕ) (s : S)
      → length buf < ptr + n
      → send_block sink buf ptr n addr s ≡ fault
  unfolding send_block slice
  send_block_outside buf ptr n addr s h =
      let outside : leb (ptr + n) (length buf) ≡ false = ground arith in rw outside

  -- A loadable segment of which offset and size add up to 2 ^ 32 or a little more passes the range
  -- check, and is read outside the image.
  elf_segment_wraps :
      (buf : Bytes) (ph offset paddr size : ℕ) (s : S)
      → le32 buf ph ≡ some 1
      → le32 buf (ph + 4) ≡ some offset
      → le32 buf (ph + 12) ≡ some paddr
      → le32 buf (ph + 16) ≡ some size
      → offset < 2 ^ 32
      → size < 2 ^ 32
      → length buf < 2 ^ 32
      → 2 ^ 32 ≤ offset + size
      → offset + size ≤ 2 ^ 32 + length buf
      → elf_segment sink buf ph s ≡ fault
  unfolding elf_segment
  elf_segment_wraps buf ph offset paddr size s e0 e1 e2 e3 a b n wraps fits =
      let some_bytes : (size == 0) ≡ false = ground arith in
      let passes : ltb (length buf) (u32 (offset + size)) ≡ false = ground arith in
      rw (
        e0,
        e1,
        e2,
        e3,
        some_bytes,
        passes,
        send_block_outside buf offset size paddr s (omega arith),
      )
