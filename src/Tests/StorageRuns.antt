-- ===== src/Tests/StorageRuns.antt =====
-- Stored files and ELF images on concrete bytes.
use miri_tool_v.Base.{
  ℕ, zero, suc, ◌+◌, ◌*◌, ◌<◌, ◌≡◌, ◌≢◌, refl, subst, true, Bytes, List, [], ◌∷◌, ◌++◌, arith,
  length, length-append, take, drop, take-append, drop-append, replicate, done, fault, ◌>>=◌,
}
use miri_tool_v.Storage.{Cipher, Medium, IsSound, Writer, writer_open, writer_close, reader_open}
use miri_tool_v.Storage.Blocks.{concat, write_pieces}
use miri_tool_v.Storage.Reading.{IsCipher}
use miri_tool_v.Storage.RoundTrip.{read_sizes, read_sizes-write_pieces}
use miri_tool_v.Packaging.Defs.{le16, le32, read_all}
use miri_tool_v.Packaging.Container.{process_elf}
use miri_tool_v.Packaging.Container.Safe.{IsSane, Unwrapped, process_elf-ne-fault}

-- a cipher that moves the first byte of a block to its end
abbrev rotate : Bytes → Bytes
rotate [] = []
rotate (x ∷ xs) = xs ++ x ∷ []

abbrev rotation : Cipher
rotation = record { encrypt = rotate; decrypt = λ b. drop 15 b ++ take 15 b }

rotate-length : (b : Bytes) → length b ≡ 16 → length (rotate b) ≡ 16
rotate-length [] h = h
rotate-length (x ∷ xs) h = omega (arith, length-append xs (x ∷ []))

rotate-back : (b : Bytes) → length b ≡ 16 → drop 15 (rotate b) ++ take 15 (rotate b) ≡ b
rotate-back [] h = refl
rotate-back (x ∷ xs) h =
    let n : length xs ≡ 15 = omega arith in
    subst (λ k. drop k (xs ++ x ∷ []) ++ take k (xs ++ x ∷ []) ≡ x ∷ xs) n
      (rw (drop-append xs (x ∷ []), take-append xs (x ∷ [])))

rotation-IsCipher : IsCipher rotation
rotation-IsCipher = record { same_length = rotate-length; decrypts = rotate-back }

abbrev pieces : List Bytes
pieces = (1 ∷ 2 ∷ 3 ∷ []) ∷ replicate 20 7 ∷ []

abbrev medium : Medium
medium = record { takes = λ file n. n; keeps_meta = true }

medium-IsSound : IsSound medium
medium-IsSound = record { takes_all = λ file n. omega arith; meta_kept = refl }

read_sizes-write_pieces_example :
    (v : Writer) × ((write_pieces rotation pieces (writer_open medium)
        >>= writer_close rotation true)
      ≡ done v)
    × (read_sizes rotation rotation-IsCipher (5 ∷ 18 ∷ []) (reader_open true true 23 v.file)
        ≡ take 23 (concat pieces))
read_sizes-write_pieces_example =
    read_sizes-write_pieces rotation rotation-IsCipher medium pieces (5 ∷ 18 ∷ []) medium-IsSound
      ((λ e. cc), ((λ e. cc), tt))

-- an image with one program header of 32 bytes at 52, whose segment is the four bytes at 84
abbrev image : Bytes
image =
    (0x7F ∷ b'E' ∷ b'L' ∷ b'F' ∷ 1 ∷ 1 ∷ [])
    ++ (replicate 22 0
        ++ (52 ∷ 0 ∷ 0 ∷ 0 ∷ [])
        ++ (replicate 10 0
            ++ (32 ∷ 0 ∷ 1 ∷ 0 ∷ [])
            ++ (replicate 6 0
                ++ (1 ∷ 0 ∷ 0 ∷ 0 ∷ 84 ∷ 0 ∷ 0 ∷ 0 ∷ 0 ∷ 0 ∷ 0 ∷ 0 ∷ 0 ∷ 16 ∷ 0 ∷ 0 ∷ 4 ∷ 0 ∷ 0 ∷ 0
                    ∷ [])
                ++ (replicate 12 0 ++ (1 ∷ 2 ∷ 3 ∷ 4 ∷ [])))))

image_segment : (j : ℕ) → j < 1 → Unwrapped image (52 + j * 32)
unfolding le32
image_segment zero b offset size e f = grind arith
image_segment (suc j) b offset size e f = absurd (omega arith)

image-IsSane : IsSane (read_all 88 88 [] image)
unfolding read_all le16 le32
image-IsSane = record {
  headers = λ phentsize phnum phoff e f g.
      let a : 32 ≡ phentsize = grind arith in
      let b : 1 ≡ phnum = grind arith in
      let c : 52 ≡ phoff = grind arith in
      (omega arith, rw (← a, ← b, ← c) (omega arith), rw (← a, ← b, ← c) image_segment);
}

process_elf-ne-fault_example :
    process_elf (λ (s : ℕ) addr block. done (s + length block)) true 88 image 0 ≢ fault
process_elf-ne-fault_example =
    process_elf-ne-fault (λ (s : ℕ) addr block. done (s + length block)) (λ t a ys e. cc) true 88
      image 0 image-IsSane

-- a program header whose segment ends at 2 ^ 32
abbrev wrapping : Bytes
wrapping =
    1 ∷ 0 ∷ 0 ∷ 0 ∷ 0xF0 ∷ 0xFF ∷ 0xFF ∷ 0xFF ∷ 0 ∷ 0 ∷ 0 ∷ 0 ∷ 0 ∷ 0 ∷ 0 ∷ 0 ∷ 16 ∷ 0 ∷ 0 ∷ 0 ∷ []
