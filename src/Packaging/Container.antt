-- ===== src/Packaging/Container.antt =====
-- `process_coff` and `process_elf`. `size_t` has 32 bits on the target, so the sums that the range
-- checks compare wrap.
pub mod Safe
pub mod Wrapped
use miri_tool_v.Base.{
  ℕ, zero, suc, ◌+◌, ◌*◌, Bool, not, ◌&&◌, ◌||◌, Bytes, [], bit_and, length, get_elem?, ltb, ◌==◌,
  if◌then◌else◌, u32, Outcome, done, failed, ◌>>=◌, at, esp_fail, invalid_arg, invalid_size, no_mem,
  not_supported,
}
use miri_tool_v.Packaging.Defs.{Sink, le16, le32, slice, send_pieces, read_all}

-- What the header of a COFF file says; `version` is 0 to 2.
pub record CoffHeader : Type 0 where
  pub version : ℕ
  pub section_count : ℕ
  pub section_offset : ℕ
  pub section_header_size : ℕ

-- STYP_DSECT, STYP_NOLOAD, STYP_PAD, STYP_COPY and STYP_BSS.
abbrev pub styp_skipped : ℕ
styp_skipped = 0x9B

module _ {ℓ} {S : Type ℓ} (sink : Sink S) where
  -- The pieces of one section or segment.
  unfoldable pub send_block : Bytes → ℕ → ℕ → ℕ → S → Outcome S
  send_block buf ptr n addr s =
      at (slice buf ptr n) λ block. send_pieces sink 1024 (length block) block addr s

  -- The body of the loop for the section whose header stands at `sh`.
  unfoldable pub coff_section : Bytes → ℕ → ℕ → S → Outcome S
  unfolding send_block
  coff_section buf version sh s = at (le32 buf (sh + 8)) λ phys_addr.
      at (le32 buf (sh + 16)) λ raw_size. at (le32 buf (sh + 20)) λ raw_ptr.
        at (if version == 2 then le32 buf (sh + 40) else le16 buf (sh + 36)) λ flags.
          let sec_size = if version == 2 then u32 (raw_size * 2) else raw_size in
          if sec_size == 0 || raw_ptr == 0
          then done s
          else if not (bit_and flags styp_skipped == 0)
          then done s
          else if ltb (length buf) (u32 (raw_ptr + sec_size))
          then failed esp_fail s
          else send_block buf raw_ptr sec_size phys_addr s

  unfoldable pub coff_sections : Bytes → CoffHeader → ℕ → ℕ → S → Outcome S
  coff_sections buf h zero i s = done s
  coff_sections buf h (suc left) i s =
      coff_section buf h.version (h.section_offset + i * h.section_header_size) s
      >>= coff_sections buf h left (i + 1)

  -- Behind the version test.
  unfoldable pub coff_table : Bytes → ℕ → ℕ → ℕ → S → Outcome S
  unfolding coff_sections
  coff_table buf version header_size section_header_size s = at (le16 buf 2) λ section_count.
      at (le16 buf 16) λ opt_header_bytes.
        let h : CoffHeader = record {
          version = version;
          section_count = section_count;
          section_offset = header_size + opt_header_bytes;
          section_header_size = section_header_size;
        } in
        if ltb (length buf) (h.section_offset + section_header_size * section_count)
        then failed esp_fail s
        else coff_sections buf h section_count 0 s

  -- `buf` filled. The target id of versions 1 and 2 is read, and only a warning depends on it.
  unfoldable pub coff_image : Bytes → S → Outcome S
  unfolding coff_table
  coff_image buf s = at (le16 buf 0) λ version.
      if version == 0xC1 || version == 0xC2
      then at (le16 buf 20) (λ _.
        coff_table buf (if version == 0xC2 then 2 else 1) 22 (if version == 0xC2 then 48 else 40) s)
      else if version == 0x9D
      then coff_table buf 0 20 40 s
      else failed not_supported s

  unfoldable pub process_coff : Bool → ℕ → Bytes → S → Outcome S
  unfolding coff_image
  process_coff alloc size file s =
      let buf = read_all size size [] file in
      if size == 0
      then failed invalid_size s
      else if not alloc
      then failed no_mem s
      else if not (length buf == size)
      then failed esp_fail s
      else coff_image buf s

  -- The body of the loop for the program header at `ph`.
  unfoldable pub elf_segment : Bytes → ℕ → S → Outcome S
  elf_segment buf ph s = at (le32 buf ph) λ p_type.
      if not (p_type == 1)
      then done s
      else at (le32 buf (ph + 4)) λ p_offset. at (le32 buf (ph + 12)) λ p_paddr.
        at (le32 buf (ph + 16)) λ p_filesz.
          if p_filesz == 0
          then done s
          else if ltb (length buf) (u32 (p_offset + p_filesz))
          then failed esp_fail s
          else send_block buf p_offset p_filesz p_paddr s

  unfoldable pub elf_segments : Bytes → ℕ → ℕ → ℕ → ℕ → S → Outcome S
  elf_segments buf phoff phentsize zero i s = done s
  elf_segments buf phoff phentsize (suc left) i s =
      elf_segment buf (phoff + i * phentsize) s >>= elf_segments buf phoff phentsize left (i + 1)

  unfoldable pub elf_image : Bytes → S → Outcome S
  unfolding elf_segments
  elf_image buf s = at (get_elem? buf 0) λ m0. at (get_elem? buf 1) λ m1. at (get_elem? buf 2) λ m2.
      at (get_elem? buf 3) λ m3. at (get_elem? buf 4) λ class. at (get_elem? buf 5) λ order.
        at (le16 buf 42) λ phentsize. at (le16 buf 44) λ phnum. at (le32 buf 28) λ phoff.
          if not (m0 == 0x7f && m1 == b'E' && m2 == b'L' && m3 == b'F')
          then failed invalid_arg s
          else if not (class == 1 && order == 1)
          then failed not_supported s
          else if phoff == 0 || phentsize == 0 || phnum == 0
          then failed invalid_size s
          else if ltb (length buf) (u32 (phoff + phentsize * phnum))
          then failed esp_fail s
          else elf_segments buf phoff phentsize phnum 0 s

  unfoldable pub process_elf : Bool → ℕ → Bytes → S → Outcome S
  unfolding elf_image
  process_elf alloc size file s =
      let buf = read_all size size [] file in
      if ltb size 52
      then failed invalid_size s
      else if not alloc
      then failed no_mem s
      else if not (length buf == size)
      then failed esp_fail s
      else elf_image buf s
