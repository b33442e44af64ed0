-- ===== src/Stm32Update/Blocks.antt =====
-- What an update sends to the bootloader.
use miri_tool_v.Base.{
  ℕ, zero, suc, ◌+◌, ◌-◌, ◌≤◌, ◌<◌, ◌≡◌, refl, ap, sym, ◌∙◌, Bool, true, false, Bytes, List, [],
  ◌∷◌, ◌++◌, append_assoc, Option, none, some, length, length-append, take, take_all, drop_all,
  get_or, ltb, ◌==◌, lt→ltb, le→ltb, u8, bit_xor, esp_fail, arith,
}
use miri_tool_v.Packet.Loops.{fold_xor}
use miri_tool_v.Storage.{Cipher, Reader, reader_open, reader_read}
use miri_tool_v.Stm32Update.{
  Uart, ok, error, bl_ack, bl_cmd_write, bl_wait_ack, xor_loop, addr_buf, bl_write_block,
  bl_global_erase, write_file, write_opened, update_start,
}

get_or-append : (pre xs : Bytes) (x : ℕ) → get_or (pre ++ x ∷ xs) (length pre) 0 ≡ x
get_or-append [] xs x = refl
get_or-append (p ∷ pre) xs x = get_or-append pre xs x

-- The loop over at most 255 bytes ends with their checksum.
xor_loop-fold_xor :
    (fuel len : ℕ) (pre xs : Bytes) (cks : ℕ)
    → length xs < fuel
    → len ≡ length pre + length xs
    → len ≤ 255
    → xor_loop fuel (length pre) len (pre ++ xs) cks ≡ some (fold_xor cks xs)
unfolding xor_loop
xor_loop-fold_xor zero len pre xs cks f e h = absurd (omega arith)
xor_loop-fold_xor (suc fuel) len pre [] cks f e h =
    let stop : ltb (length pre) len ≡ false = ground arith in rw stop refl
xor_loop-fold_xor (suc fuel) len pre (x ∷ xs) cks f e h =
    let go : ltb (length pre) len ≡ true = lt→ltb _ _ (omega arith) in
    let longer = length-append pre (x ∷ []) in
    let next : u8 (length pre + 1) ≡ length (pre ++ x ∷ []) = omega arith in
    let ih =
      xor_loop-fold_xor fuel len (pre ++ x ∷ []) xs (bit_xor cks x) (omega arith) (omega arith) h in
    rw (go, get_or-append pre xs x, next)
      (ap (λ bs. xor_loop fuel (length (pre ++ x ∷ [])) len bs (bit_xor cks x))
          (sym (append_assoc pre (x ∷ []) xs))
        ∙ ih)

-- The loop over 256 bytes never ends: its index goes round.
xor_loop_hangs :
    (fuel i : ℕ) (bytes : Bytes) (cks : ℕ) → i < 256 → xor_loop fuel i 256 bytes cks ≡ none
unfolding xor_loop
xor_loop_hangs zero i bytes cks h = refl
xor_loop_hangs (suc fuel) i bytes cks h =
    let go : ltb i 256 ≡ true = lt→ltb _ _ h in
    rw go (xor_loop_hangs fuel (u8 (i + 1)) bytes (bit_xor cks (get_or bytes i 0)) (omega arith))

-- What writing a block sends: the command, the address, and the data with its length and checksum.
abbrev pub block_bytes : ℕ → Bytes → Bytes
block_bytes addr xs =
    bl_cmd_write
    ∷ bit_xor bl_cmd_write 0xFF
    ∷ (addr_buf addr ++ (length xs - 1) ∷ (xs ++ fold_xor (length xs - 1) xs ∷ []))

abbrev pub acks : ℕ → List (Option ℕ) → List (Option ℕ)
acks zero more = more
acks (suc n) more = some bl_ack ∷ acks n more

five_parts :
    (s a b c d e : Bytes) → ((((s ++ a) ++ b) ++ c) ++ d) ++ e ≡ s ++ (a ++ (b ++ (c ++ (d ++ e))))
five_parts s a b c d e = simp append_assoc

-- What the global erase sends.
abbrev pub erase_bytes : Bytes
erase_bytes = 0x43 ∷ 0xBC ∷ 0xFF ∷ 0xFF ∷ 0 ∷ []

module _ (accepts : Bytes → Bool) (takes : (bytes : Bytes) → accepts bytes ≡ true) where
  -- A block of 1 to 255 bytes that is acknowledged.
  bl_write_block-block_bytes :
      (addr : ℕ) (xs : Bytes) (more : List (Option ℕ)) (sent : Bytes)
      → 0 < length xs
      → length xs ≤ 255
      → bl_write_block accepts addr xs (length xs) (record { replies = acks 3 more; sent = sent })
        ≡ ok (record { replies = more; sent = sent ++ block_bytes addr xs })
  unfolding bl_write_block bl_wait_ack
  bl_write_block-block_bytes addr xs more sent a b =
      let sum : xor_loop 257 0 (length xs) xs (length xs - 1) ≡ some (fold_xor (length xs - 1) xs) =
        xor_loop-fold_xor 257 (length xs) [] xs (length xs - 1) (omega arith) (omega arith) b in
      let byte : u8 (length xs - 1) ≡ length xs - 1 = omega arith in
      let not_empty : (length xs == 0) ≡ false = ground arith in
      let not_long : ltb 256 (length xs) ≡ false = le→ltb _ _ (omega arith) in
      let whole = take_all (length xs) xs (omega arith) in
      rw
        (
          byte,
          sum,
          not_empty,
          not_long,
          takes (bl_cmd_write ∷ bit_xor bl_cmd_write 0xFF ∷ []),
          takes (addr_buf addr),
          byte,
          whole,
          takes ((length xs - 1) ∷ []),
          takes xs,
          takes (fold_xor (length xs - 1) xs ∷ []),
        )
        (ap (λ bytes. ok (record { replies = more; sent = bytes }))
          (five_parts sent (bl_cmd_write ∷ bit_xor bl_cmd_write 0xFF ∷ []) (addr_buf addr)
            ((length xs - 1) ∷ []) xs (fold_xor (length xs - 1) xs ∷ [])))

  -- A global erase that is acknowledged.
  bl_global_erase-erase_bytes :
      (more : List (Option ℕ)) (sent : Bytes)
      → bl_global_erase accepts (record { replies = acks 2 more; sent = sent })
        ≡ ok (record { replies = more; sent = sent ++ erase_bytes })
  unfolding bl_global_erase bl_wait_ack
  bl_global_erase-erase_bytes more sent =
      rw (takes (0x43 ∷ 0xBC ∷ []), takes (0xFF ∷ 0xFF ∷ 0 ∷ []))
        (ap (λ bytes. ok (record { replies = more; sent = bytes }))
          (append_assoc sent (0x43 ∷ 0xBC ∷ []) (0xFF ∷ 0xFF ∷ 0 ∷ [])))

  module _ (cipher : Cipher) where
    -- A reader that has nothing left ends the loop.
    write_file_end :
        (fuel addr : ℕ) (r : Reader) (u : Uart)
        → 0 < fuel
        → (reader_read cipher 256 r).out ≡ []
        → write_file accepts cipher fuel addr r u ≡ ok u
    unfolding write_file
    write_file_end zero addr r u f e = absurd (omega arith)
    write_file_end (suc fuel) addr r u f e = rw e refl

    -- The handshake and the erase, acknowledged.
    started :
        (reader : Option Reader) (more : List (Option ℕ)) (sent : Bytes)
        → update_start accepts cipher true reader (record { replies = acks 3 more; sent = sent })
          ≡ write_opened accepts cipher reader
              (record { replies = more; sent = sent ++ (0x7F ∷ erase_bytes) })
    unfolding update_start bl_wait_ack
    started reader more sent =
        rw (takes (0x7F ∷ []), bl_global_erase-erase_bytes more (sent ++ 0x7F ∷ []))
          (ap
            (λ bytes. write_opened accepts cipher reader (record { replies = more; sent = bytes }))
            (append_assoc sent (0x7F ∷ []) erase_bytes))

    -- The one round that a short plain file takes, with its length not 0.
    one_block :
        (fuel : ℕ) (r : Reader) (file sent : Bytes) (more : List (Option ℕ))
        → 0 < fuel
        → 0 < length file
        → length file ≤ 255
        → (reader_read cipher 256 r).out ≡ file
        → (reader_read cipher 256 (reader_read cipher 256 r).reader).out ≡ []
        → write_file accepts cipher
            (suc fuel)
            0x08000000
            r
            (record { replies = acks 3 more; sent = sent })
          ≡ ok (record { replies = more; sent = sent ++ block_bytes 0x08000000 file })
    unfolding write_file
    one_block fuel r file sent more f a b first second =
        let byte : u8 (length file) ≡ length file = omega arith in
        let some_left : (length file == 0) ≡ false = ground arith in
        rw (first, some_left, byte, bl_write_block-block_bytes 0x08000000 file more sent a b)
          (write_file_end fuel _ _ _ f second)

    -- A plain file of 1 to 255 bytes, with all acknowledged: the update succeeds and has sent the
    -- handshake, the erase and one block, the whole file for the start of the flash, and nothing
    -- else.
    pub update_start-block_bytes :
        (encrypted : Bool) (size : ℕ) (file sent : Bytes) (more : List (Option ℕ))
        → 0 < length file
        → length file ≤ 255
        → update_start accepts cipher true
            (some (reader_open false encrypted size file))
            (record { replies = acks 6 more; sent = sent })
          ≡ ok (record {
            replies = more;
            sent = sent ++ (0x7F ∷ (erase_bytes ++ block_bytes 0x08000000 file));
          })
    unfolding reader_read
    update_start-block_bytes encrypted size file sent more a b =
        let r = reader_open false encrypted size file in
        let whole = take_all 256 file (omega arith) in
        let rest = ap (take 256) (drop_all 256 file (omega arith)) in
        started (some r) (acks 3 more) sent
        ∙ one_block (length file + 0) r file (sent ++ (0x7F ∷ erase_bytes)) more (omega arith) a b
            whole rest
        ∙ ap (λ bytes. ok (record { replies = more; sent = bytes }))
            (append_assoc sent (0x7F ∷ erase_bytes) (block_bytes 0x08000000 file))

    -- A first read that fills its 256 bytes, as that of any file of 256 bytes or more does: its
    -- length is cast to a byte, which is 0, and the update fails with the flash erased and no
    -- block sent.
    pub update_start_full_block :
        (r : Reader) (sent : Bytes) (more : List (Option ℕ))
        → length (reader_read cipher 256 r).out ≡ 256
        → update_start accepts cipher true (some r) (record { replies = acks 3 more; sent = sent })
          ≡ error esp_fail (record { replies = more; sent = sent ++ (0x7F ∷ erase_bytes) })
    unfolding write_file bl_write_block
    update_start_full_block r sent more full = started (some r) more sent ∙ rw full refl
