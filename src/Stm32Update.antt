-- ===== src/Stm32Update.antt =====
-- main/core/stm32_update/stm32_update.c: the dialogue with the UART bootloader of an STM32F4.
pub mod Blocks
use miri_tool_v.Base.{
  ℕ, zero, suc, ◌+◌, ◌-◌, ◌/◌, ◌%◌, ◌^◌, Bool, true, false, not, ◌||◌, Bytes, List, [], ◌∷◌, ◌++◌,
  Option, none, some, length, take, get_or, ltb, leb, ◌==◌, if◌then◌else◌, u8, u32, bit_xor, EspErr,
  esp_fail, invalid_arg,
}
use miri_tool_v.Meta.{FwMeta}
use miri_tool_v.Storage.{Cipher, Reader, reader_read}

-- The answers to come, `none` being a read that times out, and the bytes sent.
pub record Uart : Type 0 where
  pub replies : List (Option ℕ)
  pub sent : Bytes

-- How a call ends; `hangs` is a loop that never ends.
pub data Ran : Type 0 where
  ok hangs : Uart → Ran
  error : EspErr → Uart → Ran

infixl 5 ◌>>=◌
abbrev pub ◌>>=◌ : Ran → (Uart → Ran) → Ran
ok u >>= f = f u
error e u >>= f = error e u
hangs u >>= f = hangs u

-- The static variables: the file of the update.
pub record Target : Type 0 where
  pub meta : FwMeta
  pub file_name : Bytes
  pub file_type : Bytes

abbrev pub set_file : FwMeta → Bytes → Bytes → Target
set_file meta file_name file_type = record {
  meta = meta;
  file_name = take 63 file_name;
  file_type = take 3 file_type;
}

abbrev pub bl_ack : ℕ
bl_ack = 0x79

abbrev pub bl_cmd_erase : ℕ
bl_cmd_erase = 0x43

abbrev pub bl_cmd_write : ℕ
bl_cmd_write = 0x31

abbrev pub ack_or_fail : List (Option ℕ) → Uart → Ran
ack_or_fail [] u = error esp_fail u
ack_or_fail (none ∷ more) u = error esp_fail (record u { replies = more })
ack_or_fail (some b ∷ more) u =
    if b == bl_ack
    then ok (record u { replies = more })
    else error esp_fail (record u { replies = more })

-- `stm32_bl_wait_ack`
unfoldable pub bl_wait_ack : Uart → Ran
bl_wait_ack u = ack_or_fail u.replies u

-- The loop over the data with its 8-bit index: `none` if it does not end within the fuel, which is
-- more than the values of the index.
unfoldable pub xor_loop : ℕ → ℕ → ℕ → Bytes → ℕ → Option ℕ
xor_loop zero i len bytes cks = none
xor_loop (suc fuel) i len bytes cks =
    let rest = xor_loop fuel (u8 (i + 1)) len bytes (bit_xor cks (get_or bytes i 0)) in
    if ltb i len then rest else some cks

-- The address and its checksum.
abbrev pub addr_buf : ℕ → Bytes
addr_buf addr =
    let a = u8 (addr / 2 ^ 24) in
    let b = u8 (addr / 2 ^ 16) in
    let c = u8 (addr / 2 ^ 8) in
    let d = u8 addr in a ∷ b ∷ c ∷ d ∷ bit_xor (bit_xor (bit_xor a b) c) d ∷ []

-- Whether `uart_write_bytes` takes the bytes.
module _ (accepts : Bytes → Bool) where
  -- A write whose result is not looked at.
  abbrev pub write_any : Bytes → Uart → Uart
  write_any bytes u = if accepts bytes then record u { sent = u.sent ++ bytes } else u

  abbrev pub write_bytes : Bytes → Uart → Ran
  write_bytes bytes u =
      if accepts bytes then ok (record u { sent = u.sent ++ bytes }) else error esp_fail u

  abbrev pub bl_send_cmd : ℕ → Uart → Ran
  bl_send_cmd cmd u = write_bytes (cmd ∷ bit_xor cmd 0xFF ∷ []) u

  unfoldable pub bl_global_erase : Uart → Ran
  bl_global_erase u = bl_send_cmd bl_cmd_erase u >>= λ v. bl_wait_ack v >>= λ w.
      write_bytes (0xFF ∷ 0xFF ∷ bit_xor 0xFF 0xFF ∷ []) w >>= λ x. bl_wait_ack x

  -- The length, the data and the checksum.
  abbrev pub write_data : ℕ → Bytes → Option ℕ → Uart → Ran
  write_data len bytes none u = hangs u
  write_data len bytes (some cks) u =
      bl_wait_ack
        (write_any (cks ∷ []) (write_any (take len bytes) (write_any (u8 (len - 1) ∷ []) u)))

  unfoldable pub bl_write_block : ℕ → Bytes → ℕ → Uart → Ran
  bl_write_block addr bytes len u =
      let sum = xor_loop 257 0 len bytes (u8 (len - 1)) in
      if len == 0 || ltb 256 len
      then error invalid_arg u
      else (bl_send_cmd bl_cmd_write u >>= λ v. bl_wait_ack v >>= λ w.
          write_bytes (addr_buf addr) w >>= λ x. bl_wait_ack x >>= λ y. write_data len bytes sum y)

  -- Whatever error a block ends with, the update ends with ESP_FAIL.
  abbrev pub failing : Ran → Ran
  failing (ok u) = ok u
  failing (error e u) = error esp_fail u
  failing (hangs u) = hangs u

  module _ (cipher : Cipher) where
    -- The loop that writes the file in blocks; each round with bytes in it takes one at least, and
    -- the length of a block is cast to a byte.
    unfoldable pub write_file : ℕ → ℕ → Reader → Uart → Ran
    write_file zero addr r u = hangs u
    write_file (suc fuel) addr r u =
        let read = reader_read cipher 256 r in
        let rest : Uart → Ran = λ v. write_file fuel (u32 (addr + length read.out)) read.reader v in
        if length read.out == 0
        then ok u
        else failing (bl_write_block addr read.out (u8 (length read.out)) u) >>= rest

    -- The bytes that a reader still has, at most, and one round that finds none.
    abbrev pub rounds : Reader → ℕ
    rounds r = suc (length r.file + length r.buffer)

    abbrev pub write_opened : Option Reader → Uart → Ran
    write_opened none u = error esp_fail u
    write_opened (some r) u = write_file (rounds r) 0x08000000 r u

    -- `stm32_update_start`; the flag and the reader are what the card and
    -- `fw_storage_reader_open` come to.
    unfoldable pub update_start : Bool → Option Reader → Uart → Ran
    update_start card_ready reader u = failing (bl_wait_ack (write_any (0x7F ∷ []) u)) >>= λ v.
        failing (bl_global_erase v) >>= λ w.
        if card_ready then write_opened reader w else error esp_fail w
