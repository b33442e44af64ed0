-- ===== src/Packaging/Container/Safe.antt =====
-- The reads of `process_elf` and the bounds of the image.
use miri_tool_v.Base.{
  ℕ, zero, suc, ◌+◌, ◌*◌, ◌^◌, ◌≤◌, ◌<◌, ◌≡◌, ◌≢◌, refl, Bool, true, false, not, ◌&&◌, ◌||◌, Bytes,
  [], ◌∷◌, some, length, length-drop, take, drop, get_elem?, ltb, leb, ◌==◌, if◌then◌else◌, u32,
  arith, done, failed, fault, EspErr, esp_fail,
}
use miri_tool_v.Packaging.Defs.{Sink, first_le16, first_le32, le16, le32, slice, read_all}
use miri_tool_v.Packaging.Pieces.{send_pieces-ne-fault, bind-ne-fault}
use miri_tool_v.Packaging.Container.{send_block, elf_segment, elf_segments, elf_image, process_elf}

first_le32-some : (xs : Bytes) → 4 ≤ length xs → (v : ℕ) × (first_le32 xs ≡ some v)
first_le32-some (a ∷ b ∷ c ∷ d ∷ xs) h = (_, refl)
first_le32-some [] h = absurd (omega arith)
first_le32-some (a ∷ []) h = absurd (omega arith)
first_le32-some (a ∷ b ∷ []) h = absurd (omega arith)
first_le32-some (a ∷ b ∷ c ∷ []) h = absurd (omega arith)

le32-some : (buf : Bytes) (i : ℕ) → i + 4 ≤ length buf → (v : ℕ) × (le32 buf i ≡ some v)
unfolding le32
le32-some buf i h = first_le32-some (drop i buf) (omega (arith, length-drop i buf))

first_le16-some : (xs : Bytes) → 2 ≤ length xs → (v : ℕ) × (first_le16 xs ≡ some v)
first_le16-some (a ∷ b ∷ xs) h = (_, refl)
first_le16-some [] h = absurd (omega arith)
first_le16-some (a ∷ []) h = absurd (omega arith)

le16-some : (buf : Bytes) (i : ℕ) → i + 2 ≤ length buf → (v : ℕ) × (le16 buf i ≡ some v)
unfolding le16
le16-some buf i h = first_le16-some (drop i buf) (omega (arith, length-drop i buf))

get_elem?-some : (xs : Bytes) (i : ℕ) → i < length xs → (v : ℕ) × (get_elem? xs i ≡ some v)
get_elem?-some [] i h = absurd (omega arith)
get_elem?-some (x ∷ xs) zero h = (x, refl)
get_elem?-some (x ∷ xs) (suc i) h = get_elem?-some xs i (omega arith)

-- The segment at `ph` ends below 2 ^ 32.
abbrev pub Unwrapped : Bytes → ℕ → Type 0
Unwrapped buf ph =
    (offset size : ℕ)
    → le32 buf (ph + 4) ≡ some offset
    → le32 buf (ph + 16) ≡ some size
    → offset + size < 2 ^ 32

module _ {ℓ} {S : Type ℓ} (sink : Sink S)
    (safe : (t : S) (a : ℕ) (ys : Bytes) → sink t a ys ≢ fault) where
  send_block-ne-fault :
      (buf : Bytes) (ptr n addr : ℕ) (s : S)
      → ptr + n ≤ length buf
      → send_block sink buf ptr n addr s ≢ fault
  unfolding send_block slice
  send_block-ne-fault buf ptr n addr s h =
      let inside : leb (ptr + n) (length buf) ≡ true = ground arith in
      let block = take n (drop ptr buf) in
      rw inside (
        send_pieces-ne-fault sink 1024 (length block) block addr s (omega arith) (omega arith) safe)

  elf_segment-ne-fault :
      (buf : Bytes) (ph : ℕ) (s : S)
      → ph + 20 ≤ length buf
      → Unwrapped buf ph
      → elf_segment sink buf ph s ≢ fault
  unfolding elf_segment
  elf_segment-ne-fault buf ph s h small =
      let (p_type, e0) = le32-some buf ph (omega arith) in
      let (offset, e1) = le32-some buf (ph + 4) (omega arith) in
      let (paddr, e2) = le32-some buf (ph + 12) (omega arith) in
      let (size, e3) = le32-some buf (ph + 16) (omega arith) in
      let fits = small offset size e1 e3 in
      rw (e0, e1, e2, e3)
        (go (p_type == 1) (size == 0) offset size paddr fits
          (ltb (length buf) (u32 (offset + size))) refl)
    where
      go :
          (load empty : Bool) (offset size paddr : ℕ)
          → offset + size < 2 ^ 32
          → (out : Bool) → ltb (length buf) (u32 (offset + size)) ≡ out
          → (if not load
              then done s
              else if empty
              then done s
              else if out
              then failed esp_fail s
              else send_block sink buf offset size paddr s)
            ≢ fault
      go false empty offset size paddr fits out e = λ q. cc
      go true true offset size paddr fits out e = λ q. cc
      go true false offset size paddr fits true e = λ q. cc
      go true false offset size paddr fits false e =
          send_block-ne-fault buf offset size paddr s (ground arith)

  elf_segments-ne-fault :
      (buf : Bytes) (phoff phentsize left i : ℕ) (s : S)
      → ((j : ℕ)
          → j < i + left
          → (phoff + j * phentsize + 20 ≤ length buf) × Unwrapped buf (phoff + j * phentsize))
      → elf_segments sink buf phoff phentsize left i s ≢ fault
  unfolding elf_segments
  elf_segments-ne-fault buf phoff phentsize zero i s h = λ q. cc
  elf_segments-ne-fault buf phoff phentsize (suc left) i s h =
      let here = h i (omega arith) in
      bind-ne-fault (elf_segment sink buf (phoff + i * phentsize) s) _
        (elf_segment-ne-fault buf (phoff + i * phentsize) s here.0 here.1)
        λ t. elf_segments-ne-fault buf phoff phentsize left (i + 1) t (λ j b. h j (omega arith))

mul_below : (j n p : ℕ) → j < n → j * p + p ≤ n * p
mul_below j zero p h = absurd (omega arith)
mul_below zero (suc n) p h = ground arith
mul_below (suc j) (suc n) p h = let ih = mul_below j n p (omega arith) in ground arith

-- The header of an image: program headers of at least the 20 bytes that are read, in a table and
-- with segments that end below 2 ^ 32.
pub record IsSane (buf : Bytes) : Type 0 where
  pub headers :
      (phentsize phnum phoff : ℕ)
      → le16 buf 42 ≡ some phentsize
      → le16 buf 44 ≡ some phnum
      → le32 buf 28 ≡ some phoff
      → (20 ≤ phentsize)
        × (phoff + phentsize * phnum < 2 ^ 32)
        × ((j : ℕ) → j < phnum → Unwrapped buf (phoff + j * phentsize))

module _ {ℓ} {S : Type ℓ} (sink : Sink S)
    (safe : (t : S) (a : ℕ) (ys : Bytes) → sink t a ys ≢ fault) where
  elf_table-ne-fault :
      (buf : Bytes) (phentsize phnum phoff : ℕ) (s : S)
      → 20 ≤ phentsize
      → phoff + phentsize * phnum ≤ length buf
      → ((j : ℕ) → j < phnum → Unwrapped buf (phoff + j * phentsize))
      → elf_segments sink buf phoff phentsize phnum 0 s ≢ fault
  elf_table-ne-fault buf phentsize phnum phoff s big fits small =
      elf_segments-ne-fault sink safe buf phoff phentsize phnum 0 s λ j b.
        let below : j < phnum = omega arith in
        let m = mul_below j phnum phentsize below in
        let c : phentsize * phnum ≡ phnum * phentsize = ground arith in (omega arith, small j below)

  elf_image-ne-fault :
      (buf : Bytes) (s : S) → 52 ≤ length buf → IsSane buf → elf_image sink buf s ≢ fault
  unfolding elf_image
  elf_image-ne-fault buf s h sane =
      let (m0, e0) = get_elem?-some buf 0 (omega arith) in
      let (m1, e1) = get_elem?-some buf 1 (omega arith) in
      let (m2, e2) = get_elem?-some buf 2 (omega arith) in
      let (m3, e3) = get_elem?-some buf 3 (omega arith) in
      let (c, e4) = get_elem?-some buf 4 (omega arith) in
      let (d, e5) = get_elem?-some buf 5 (omega arith) in
      let (phentsize, f0) = le16-some buf 42 (omega arith) in
      let (phnum, f1) = le16-some buf 44 (omega arith) in
      let (phoff, f2) = le32-some buf 28 (omega arith) in
      let (big, below, small) = sane.headers phentsize phnum phoff f0 f1 f2 in
      rw (e0, e1, e2, e3, e4, e5, f0, f1, f2)
        (go phentsize phnum phoff big below small
          (m0 == 0x7f && m1 == b'E' && m2 == b'L' && m3 == b'F') (c == 1 && d == 1)
          (phoff == 0 || phentsize == 0 || phnum == 0)
          (ltb (length buf) (u32 (phoff + phentsize * phnum))) refl)
    where
      go :
          (phentsize phnum phoff : ℕ)
          → 20 ≤ phentsize
          → phoff + phentsize * phnum < 2 ^ 32
          → ((j : ℕ) → j < phnum → Unwrapped buf (phoff + j * phentsize))
          → (magic class none_there out : Bool)
          → ltb (length buf) (u32 (phoff + phentsize * phnum)) ≡ out
          → (if not magic
              then failed EspErr.invalid_arg s
              else if not class
              then failed EspErr.not_supported s
              else if none_there
              then failed EspErr.invalid_size s
              else if out
              then failed esp_fail s
              else elf_segments sink buf phoff phentsize phnum 0 s)
            ≢ fault
      go phentsize phnum phoff big below small false class none_there out e = λ q. cc
      go phentsize phnum phoff big below small true false none_there out e = λ q. cc
      go phentsize phnum phoff big below small true true true out e = λ q. cc
      go phentsize phnum phoff big below small true true false true e = λ q. cc
      go phentsize phnum phoff big below small true true false false e =
          let n = phentsize * phnum in
          elf_table-ne-fault buf phentsize phnum phoff s big (ground arith) small

  -- With a sink that does not fault, `process_elf` reads nothing outside the image, whatever the
  -- rest of it holds, when its program headers have at least 20 bytes and the header table and the
  -- segments end below 2 ^ 32.
  pub process_elf-ne-fault :
      (alloc : Bool) (size : ℕ) (file : Bytes) (s : S)
      → IsSane (read_all size size [] file)
      → process_elf sink alloc size file s ≢ fault
  unfolding process_elf
  process_elf-ne-fault alloc size file s sane =
      go alloc (ltb size 52) (length (read_all size size [] file) == size) refl refl
    where
      go :
          (alloc small whole : Bool)
          → ltb size 52 ≡ small
          → (length (read_all size size [] file) == size) ≡ whole
          → (if small
              then failed EspErr.invalid_size s
              else if not alloc
              then failed EspErr.no_mem s
              else if not whole
              then failed esp_fail s
              else elf_image sink (read_all size size [] file) s)
            ≢ fault
      go alloc true whole e f = λ q. cc
      go false false whole e f = λ q. cc
      go true false false e f = λ q. cc
      go true false true e f = elf_image-ne-fault (read_all size size [] file) s (ground arith) sane
