-- ===== src/Tests/UpdateRuns.antt =====
-- The updates of an STM32 and of the device itself on short files, and a framed command.
use miri_tool_v.Base.{
  ◌≡◌, refl, arith, Bool, true, false, Bytes, List, [], ◌∷◌, ◌++◌, replicate, length, some, done,
  ◌>>=◌, esp_fail,
}
use miri_tool_v.FwState.{FwStep, text}
use miri_tool_v.Storage.{
  Cipher, Medium, IsSound, Reader, Writer, writer_open, writer_close, reader_open, reader_read,
}
use miri_tool_v.Storage.Blocks.{write_pieces}
use miri_tool_v.Storage.Reading.{IsCipher}
use miri_tool_v.Stm32Update.{ok, error, update_start}
use miri_tool_v.Stm32Update.Blocks.{
  acks, erase_bytes, block_bytes, update_start-block_bytes, update_start_full_block,
}
use miri_tool_v.Esp32Update.{Image, Ota}
use miri_tool_v.Esp32Update.Written.{Yields, ended, more, Updated, update_start-Updated}
use miri_tool_v.Esp32Update.Stored.{Booted, obliging, update_start-write_pieces}
use miri_tool_v.Packet.{Packet, stx_u, init, packet_send_by_uart}
use miri_tool_v.Ble.Commands.{handle_with_payload}
use miri_tool_v.Ble.Transport.{gatt_write}
use miri_tool_v.Ble.Transport.Delivery.{gatt_write-packet_send_by_uart}
use miri_tool_v.Tests.BleRuns.{env, device}

abbrev no_cipher : Cipher
no_cipher = record { encrypt = λ b. b; decrypt = λ b. b }

no_cipher-IsCipher : IsCipher no_cipher
no_cipher-IsCipher = record { same_length = λ b e. e; decrypts = λ b e. refl }

abbrev takes : Bytes → Bool
takes bytes = true

update_start-block_bytes_example :
    update_start takes no_cipher true
      (some (reader_open false false 3 (1 ∷ 2 ∷ 3 ∷ [])))
      (record { replies = acks 6 []; sent = [] })
    ≡ ok (record {
      replies = [];
      sent = 0x7F ∷ (erase_bytes ++ block_bytes 0x08000000 (1 ∷ 2 ∷ 3 ∷ []));
    })
update_start-block_bytes_example =
    update_start-block_bytes takes (λ b. refl) no_cipher false 3 (1 ∷ 2 ∷ 3 ∷ []) [] []
      (omega arith) (omega arith)

abbrev full_file : Reader
full_file = reader_open false false 300 (replicate 300 7)

update_start_full_block_example :
    update_start takes no_cipher true (some full_file) (record { replies = acks 3 []; sent = [] })
    ≡ error esp_fail (record { replies = []; sent = 0x7F ∷ erase_bytes })
unfolding reader_read
update_start_full_block_example =
    update_start_full_block takes (λ b. refl) no_cipher full_file [] [] refl

abbrev image : Image
image = record {
  file_name = text "app";
  file_type = text "S00";
  is_ready = true;
  skip_reboot = false;
}

abbrev ota : Ota
ota = record {
  fw = record { step = FwStep.prepare; progress = 0; message = [] };
  sent = [];
  flash = [];
  boots_new = false;
  restarts = 0;
}

abbrev plain : Reader
plain = reader_open false false 2 (1 ∷ 2 ∷ [])

plain-Yields : Yields no_cipher plain (1 ∷ 2 ∷ [])
unfolding reader_read
plain-Yields = more plain [] (omega arith) (ended _ refl)

update_start-Updated_example :
    Updated
      (λ b. true)
      (1 ∷ 2 ∷ [])
      false
      ota
      (miri_tool_v.Esp32Update.update_start
        (obliging (λ b. true))
        no_cipher
        image
        true
        (some plain)
        2
        (some 2)
        ota)
update_start-Updated_example =
    update_start-Updated (obliging (λ b. true)) no_cipher image true plain (1 ∷ 2 ∷ []) 2 (some 2)
      ota plain-Yields (omega arith)

abbrev pieces : List Bytes
pieces = (1 ∷ 2 ∷ 3 ∷ []) ∷ (4 ∷ []) ∷ []

abbrev medium : Medium
medium = record { takes = λ file n. n; keeps_meta = true }

medium-IsSound : IsSound medium
medium-IsSound = record { takes_all = λ file n. omega arith; meta_kept = refl }

update_start-write_pieces_example :
    (v : Writer) × ((write_pieces no_cipher pieces (writer_open medium)
        >>= writer_close no_cipher true)
      ≡ done v)
    × Booted (1 ∷ 2 ∷ 3 ∷ 4 ∷ []) false ota (
        miri_tool_v.Esp32Update.update_start
          (obliging (λ b. true))
          no_cipher
          image
          true
          (some (reader_open true true 4 v.file))
          4
          (some (length v.file))
          ota)
update_start-write_pieces_example =
    update_start-write_pieces no_cipher no_cipher-IsCipher medium medium-IsSound (λ b. true) pieces
      image ota ((λ e. cc), ((λ e. cc), tt)) refl refl

gatt_write-packet_send_by_uart_example :
    (bytes : Bytes) × (packet_send_by_uart true 0x64 (2 ∷ []) 1 ≡ done (bytes ∷ []))
    × (q : Packet) × (q.status ≡ stx_u)
    × (gatt_write env bytes (record { packet = init; device = device })
        ≡ done (record { packet = q; device = handle_with_payload env 0x64 (2 ∷ []) device }))
unfolding init
gatt_write-packet_send_by_uart_example =
    gatt_write-packet_send_by_uart env (record { packet = init; device = device }) 0x64 (2 ∷ [])
      refl (omega arith) (omega arith)
