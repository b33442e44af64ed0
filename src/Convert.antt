-- ===== src/Convert.antt =====
-- main/utils/ihex2bin.c and srec2bin.c: the binary image of an Intel HEX or a Motorola S-record
-- text, in memory or straight into a file. The readers of the two formats are not modelled: the
-- records are those that they hand over.
pub mod Image
pub mod Built
pub mod Converted
pub mod Sink
pub mod Streamed
pub mod ToFile
use miri_tool_v.Base.{
  ℕ, zero, suc, ◌+◌, ◌-◌, Bool, true, false, not, ◌&&◌, ◌||◌, Bytes, List, [], ◌∷◌, ◌++◌, length,
  take, drop, replicate, min, ltb, leb, ◌==◌, if◌then◌else◌, u32, Outcome, done, failed, fault,
  ◌>>=◌, EspErr, esp_fail, invalid_arg, invalid_size, invalid_state, no_mem,
}

-- A record as it is handed over: with the outcome of the checksum, and whether as many bytes have
-- come as the line promises.
pub record TextRecord : Type 0 where
  pub is_data : Bool
  pub address : ℕ
  pub bytes : Bytes
  pub mismatch : Bool
  pub is_whole : Bool

-- ihex2bin_ctx_t for an image in memory. No memory is held while the size is 0.
pub record Ctx : Type 0 where
  pub content : Bytes
  pub base_addr : ℕ
  pub has_base : Bool
  pub has_error : Bool

abbrev pub empty : Ctx
empty = record { content = []; base_addr = 0; has_base = false; has_error = false }

-- whether `realloc` gives a size
abbrev pub Heap : Type 0
Heap = ℕ → Bool

-- `memcpy` into the image
abbrev pub copy_in : ℕ → Bytes → Ctx → Outcome Ctx
copy_in offset bytes c =
    if leb (offset + length bytes) (length c.content)
    then done (record c {
      content = take offset c.content ++ (bytes ++ drop (offset + length bytes) c.content);
    })
    else fault

unfoldable pub ensure_capacity : Heap → ℕ → Ctx → Outcome Ctx
ensure_capacity heap required c =
    if leb required (length c.content)
    then done c
    else if not (heap required)
    then failed no_mem c
    else done (record c { content = c.content ++ replicate (required - length c.content) 0 })

unfoldable pub expand_front : Heap → ℕ → Ctx → Outcome Ctx
expand_front heap new_base c =
    let delta = c.base_addr - new_base in
    let new_size = u32 (length c.content + delta) in
    if length c.content == 0
    then failed invalid_state c
    else if leb c.base_addr new_base
    then done c
    else if not (heap new_size)
    then failed no_mem c
    else if not (new_size == length c.content + delta)
    then fault
    else done (record c { content = replicate delta 0 ++ c.content; base_addr = new_base })

-- The first address, and those below it.
unfoldable pub rebase : Heap → ℕ → Ctx → Outcome Ctx
rebase heap address c =
    if not c.has_base
    then done (record c { base_addr = address; has_base = true })
    else if ltb address c.base_addr
    then expand_front heap address c
    else done c

-- A data record put into the image.
unfoldable pub put : Heap → TextRecord → Ctx → Outcome Ctx
put heap r c = rebase heap r.address c >>= λ b.
    ensure_capacity heap (u32 (r.address - b.base_addr + length r.bytes)) b
    >>= copy_in (r.address - b.base_addr) r.bytes

-- What cannot be put is marked.
abbrev pub marked : Outcome Ctx → Outcome Ctx
marked (done c) = done c
marked (failed e c) = failed e (record c { has_error = true })
marked fault = fault

unfoldable pub ihex_data_read : Heap → TextRecord → Ctx → Outcome Ctx
ihex_data_read heap r c =
    if r.mismatch || not r.is_whole
    then marked (failed esp_fail c)
    else if r.is_data
    then marked (put heap r c)
    else done c

unfoldable pub srec_data_read : Heap → TextRecord → Ctx → Outcome Ctx
srec_data_read heap r c =
    if r.mismatch || not r.is_whole
    then marked (failed esp_fail c)
    else if not r.is_data || length r.bytes == 0
    then done c
    else marked (put heap r c)

-- The reader goes on after a record that is refused.
unfoldable pub carry_on : Outcome Ctx → (Ctx → Outcome Ctx) → Outcome Ctx
carry_on (done c) f = f c
carry_on (failed e c) f = f c
carry_on fault f = fault

unfoldable pub read_records : (TextRecord → Ctx → Outcome Ctx) → List TextRecord → Ctx → Outcome Ctx
read_records data_read [] c = done c
read_records data_read (r ∷ rs) c = carry_on (data_read r c) (read_records data_read rs)

unfoldable pub image_of : Ctx → Outcome Ctx
image_of c =
    if c.has_error
    then failed esp_fail c
    else if not c.has_base || length c.content == 0
    then failed invalid_size c
    else done c

-- `ihex2bin_convert` and `srec2bin_convert`.
unfoldable pub ihex_convert : Heap → List TextRecord → Outcome Ctx
ihex_convert heap rs = read_records (ihex_data_read heap) rs empty >>= image_of

unfoldable pub srec_convert : Heap → List TextRecord → Outcome Ctx
srec_convert heap rs = read_records (srec_data_read heap) rs empty >>= image_of
