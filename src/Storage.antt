-- ===== src/Storage.antt =====
-- main/core/firmware_upload/fw_upload_storage.c and fw_upload_crypto.c: firmware files on the card,
-- encrypted in blocks of 16 bytes when the build asks for it (FW_STORAGE_ENABLE_ENCRYPT).
pub mod Blocks
pub mod Metadata
pub mod Reading
pub mod RoundTrip
use miri_tool_v.Base.{
  ℕ, zero, suc, ◌+◌, ◌-◌, ◌%◌, Bool, true, false, not, ◌||◌, Bytes, [], ◌∷◌, ◌++◌, Option, none,
  some, length, get_or, take, drop, replicate, ltb, leb, ◌==◌, if◌then◌else◌, u8, bit_xor, min,
  Outcome, done, failed, invalid_arg, esp_fail, ◌≡◌, ◌≤◌,
}

-- The block cipher of mbedTLS under the device's key: it encrypts and decrypts 16 bytes.
pub record Cipher : Type 0 where
  pub encrypt : Bytes → Bytes
  pub decrypt : Bytes → Bytes

-- `fw_crypto_init_key`: the first `n` bytes of the key from index `i` on, of the six bytes of the
-- device's address.
unfoldable pub key_bytes_from : Bytes → ℕ → ℕ → Bytes
key_bytes_from mac zero i = []
key_bytes_from mac (suc n) i =
    bit_xor (get_or mac (i % 6) 0) (u8 (0xA5 + i)) ∷ key_bytes_from mac n (i + 1)

abbrev pub init_key : Bytes → Bytes
init_key mac = key_bytes_from mac 16 0

-- The card behind a file that is written: how many of some bytes `fwrite` takes behind those that are
-- there, and whether `fw_storage_meta_write` succeeds when the file is closed.
pub record Medium : Type 0 where
  pub takes : Bytes → ℕ → ℕ
  pub keeps_meta : Bool

-- A card that takes all bytes and keeps the metadata.
pub record IsSound (m : Medium) : Type 0 where
  pub takes_all : (file : Bytes) (n : ℕ) → n ≤ m.takes file n
  pub meta_kept : m.keeps_meta ≡ true

-- fw_storage_writer_t: the bytes of the file so far, and the bytes that wait for a whole block.
pub record Writer : Type 0 where
  pub file : Bytes
  pub encrypted_written : ℕ
  pub buffer : Bytes
  pub active : Bool
  pub medium : Medium

-- fw_storage_reader_t: the bytes of the file not yet read, and those of the last block not yet
-- handed out.
pub record Reader : Type 0 where
  pub file : Bytes
  pub remaining : ℕ
  pub buffer : Bytes
  pub active : Bool
  pub encrypted : Bool

-- What a read hands out, and the reader behind it.
pub record Read : Type 0 where
  pub out : Bytes
  pub reader : Reader

-- The writer that `fw_storage_writer_open` leaves when the file opens.
abbrev pub writer_open : Medium → Writer
writer_open medium = record {
  file = [];
  encrypted_written = 0;
  buffer = [];
  active = true;
  medium = medium;
}

-- `fwrite`: the file with the bytes that the card takes.
abbrev pub fwrite : Bytes → Writer → Bytes
fwrite bytes w = w.file ++ take (w.medium.takes w.file (length bytes)) bytes

-- The reader that `fw_storage_reader_open` leaves for a file of which the metadata say that it is
-- `encrypted` and had `original_size` bytes.
abbrev pub reader_open : Bool → Bool → ℕ → Bytes → Reader
reader_open encrypting encrypted original_size file = record {
  file = file;
  remaining = original_size;
  buffer = [];
  active = true;
  encrypted = if encrypting then encrypted else false;
}

module _ (cipher : Cipher) where
  -- A block of the writer's buffer, encrypted into the file; how much of it is taken is not looked at.
  abbrev pub flush : Bytes → Writer → Writer
  flush block w = record w {
    file = fwrite (cipher.encrypt block) w;
    encrypted_written = w.encrypted_written + 16;
    buffer = [];
  }

  -- The loop that fills the buffer, on fuel: each round takes a byte at least.
  unfoldable pub fill : ℕ → Bytes → Writer → Writer
  fill fuel [] w = w
  fill zero (x ∷ xs) w = w
  fill (suc fuel) (x ∷ xs) w =
      let to_copy = min (16 - length w.buffer) (length (x ∷ xs)) in
      let buffer = w.buffer ++ take to_copy (x ∷ xs) in
      fill fuel (drop to_copy (x ∷ xs))
        (if length buffer == 16 then flush buffer w else record w { buffer = buffer })

  module _ (encrypting : Bool) where
    unfoldable pub writer_write : Bytes → Writer → Outcome Writer
    unfolding fill
    writer_write bytes w =
        let filled = fill (length bytes) bytes w in
        if not w.active || length bytes == 0
        then failed invalid_arg w
        else if encrypting
        then done filled
        else if leb (length bytes) (w.medium.takes w.file (length bytes))
        then done (record w { file = fwrite bytes w })
        else failed esp_fail (record w { file = fwrite bytes w })

    -- The error of the metadata, which are written then, is returned.
    abbrev pub with_meta : Writer → Outcome Writer
    with_meta w = if w.medium.keeps_meta then done w else failed esp_fail w

    unfoldable pub writer_close : Writer → Outcome Writer
    writer_close w =
        let padded = w.buffer ++ replicate (16 - length w.buffer) 0 in
        if not w.active
        then failed invalid_arg w
        else if encrypting
        then with_meta
            (record (if length w.buffer == 0 then w else flush padded w) { active = false })
        else with_meta (record w { active = false })

  -- A block from the file, if the buffer is empty; `none` if the file ends.
  unfoldable pub refill : Reader → Option Reader
  refill r =
      let block = take 16 r.file in
      let filled = record r { file = drop 16 r.file; buffer = cipher.decrypt block } in
      if not (length r.buffer == 0)
      then some r
      else if length block == 16
      then some filled
      else none

  -- One round: what it copies.
  abbrev pub copied : ℕ → Reader → ℕ
  copied wanted r = min (min (length r.buffer) r.remaining) wanted

  -- The loop of a read, on fuel: each round hands out a byte at least.
  unfoldable pub read_loop : ℕ → ℕ → Reader → Bytes → Read
  unfolding refill
  read_loop zero wanted r out = record { out = out; reader = r }
  read_loop (suc fuel) wanted r out =
      let stop : Read = record { out = out; reader = r } in
      let round : Option Reader → Read = λ o. elim o [
        | none ↦ stop
        | some q ↦
            let n = copied wanted q in
            read_loop fuel (wanted - n)
              (record q { buffer = drop n q.buffer; remaining = q.remaining - n })
              (out ++ take n q.buffer)
      ] in
      if wanted == 0 || r.remaining == 0 then stop else round (refill r)

  unfoldable pub reader_read : ℕ → Reader → Read
  unfolding read_loop
  reader_read out_len r =
      let plain : Read = record {
        out = take out_len r.file;
        reader = record r { file = drop out_len r.file };
      } in
      let loop = read_loop out_len out_len r [] in
      if not r.active || out_len == 0
      then record { out = []; reader = r }
      else if not r.encrypted
      then plain
      else loop
