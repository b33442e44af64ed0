-- ===== src/Esp32Update.antt =====
-- main/core/esp32_update/esp32_update.c: the update of the device itself, from a stored file into the
-- next partition.
pub mod Written
pub mod Stored
use miri_tool_v.Base.{
  ℕ, zero, suc, ◌+◌, ◌*◌, ◌/◌, ◌%◌, Bool, true, false, not, ◌||◌, ◌&&◌, Bytes, List, [], ◌∷◌, ◌++◌,
  Option, none, some, length, take, min, u32, ltb, leb, ◌==◌, if◌then◌else◌,
}
use miri_tool_v.FwState.{FwState, FwStep, set_step, set_progress, text}
use miri_tool_v.Storage.{Cipher, Reader, reader_read}
use miri_tool_v.Ble.Codes.{ack_program_progress_msg_esp32, ack_program_start_phone_esp32}
use miri_tool_v.Ble.Json.{decimal}
use miri_tool_v.Ble.Device.{Frame}

-- The static variables.
pub record Image : Type 0 where
  pub file_name : Bytes
  pub file_type : Bytes
  pub is_ready : Bool
  pub skip_reboot : Bool

-- The image and whether it is accepted.
unfoldable pub set_file : Bytes → Bytes → Image → Image × Bool
set_file name type i =
    if length name == 0 || (leb 64 (length name) || not (length type == 3))
    then (i, false)
    else (record i { file_name = name; file_type = type; is_ready = true }, true)

-- The state of the update, the frames to the phone, what is written to the partition, whether it is
-- the one to boot from, and the restarts.
pub record Ota : Type 0 where
  pub fw : FwState
  pub sent : List Frame
  pub flash : Bytes
  pub boots_new : Bool
  pub restarts : ℕ

-- How the calls of the OTA driver come out: with the size, with what is written so far and the next
-- bytes, with the whole image.
pub record Driver : Type 0 where
  pub has_partition : Bool
  pub begins : ℕ → Bool
  pub writes : Bytes → Bytes → Bool
  pub ends : Bytes → Bool
  pub sets_boot : Bool

abbrev pub send : ℕ → Bytes → Ota → Ota
send cmd payload o = record o { sent = o.sent ++ record { cmd = cmd; payload = payload } ∷ [] }

abbrev pub send_status : Bytes → Ota → Ota
send_status status o =
    send ack_program_progress_msg_esp32 (take 95 (text "{\"status\":\"" ++ (status ++ text "\"}")))
      o

unfoldable pub send_progress : ℕ → Ota → Ota
send_progress percent o =
    let pct = min percent 100 in
    send ack_program_start_phone_esp32 (pct ∷ []) (
      send ack_program_progress_msg_esp32
        (take 63 (text "{\"progress\":" ++ (decimal pct ++ b'}' ∷ [])))
        (record o { fw = set_progress pct o.fw }))

-- The step that a message goes with, of five in all.
abbrev pub step_of : ℕ → FwStep
step_of step =
    if leb step 1
    then FwStep.prepare
    else if step == 2
    then FwStep.write
    else if step == 3 || step == 4
    then FwStep.verify
    else FwStep.done

unfoldable pub send_step : ℕ → Bytes → Ota → Ota
send_step step message o =
    send ack_program_progress_msg_esp32
      (take 127 (
        text "{\"step\":"
        ++ (decimal step ++ (text ",\"total\":5,\"msg\":\"" ++ (message ++ text "\"}")))))
      (record o { fw = set_step (step_of step) message o.fw })

-- A step of the state of the update, then the same with a message to the phone.
abbrev pub in_step : FwStep → ℕ → Bytes → Ota → Ota
in_step s step message o = send_step step message (record o { fw = set_step s message o.fw })

abbrev pub given_up : Bytes → Bytes → Ota → Ota
given_up message status o =
    send_status status (record o { fw = set_step FwStep.error message o.fw })

-- How the loop over the file ends.
pub data Looped : Type 0 where
  complete broken : Ota → Looped

-- A percentage that is sent: another one than the last, and a multiple of ten.
abbrev pub is_sent : Option ℕ → ℕ → Bool
is_sent none percent = percent % 10 == 0
is_sent (some last) percent = not (percent == last) && (percent % 10 == 0)

-- The states of an update: before the partition is erased, with it erased, with the image whole,
-- with the boot partition to be set, and with it set.
abbrev pub began : Ota → Ota
began o =
    send_step 1 (text "OTA begin")
      (record o { fw = set_progress 0 (set_step FwStep.prepare (text "OTA begin") o.fw) })

abbrev pub writing : Ota → Ota
writing o =
    send_progress 0 (in_step FwStep.write 2 (text "OTA write") (record (began o) { flash = [] }))

abbrev pub whole : Ota → Ota
whole o = in_step FwStep.verify 3 (text "OTA end") o

abbrev pub checked : Ota → Ota
checked o = in_step FwStep.verify 4 (text "Set boot") (whole o)

abbrev pub booting : Ota → Ota
booting o =
    in_step FwStep.done 5 (text "OTA success")
      (send_progress 100 (record (checked o) { boots_new = true }))

abbrev pub restarted : Bool → Ota → Ota
restarted skip_reboot o = if skip_reboot then o else record o { restarts = o.restarts + 1 }

module _ (driver : Driver) (cipher : Cipher) where
  -- The loop that writes the file, on fuel: each round takes a byte at least. With a size of 0
  -- nothing is read, so that nothing is divided by it.
  unfoldable pub write_loop : ℕ → ℕ → ℕ → Option ℕ → Reader → Ota → Looped
  write_loop zero total_size total last r o = broken o
  write_loop (suc fuel) total_size total last r o =
      let read = reader_read cipher 4096 r in
      let written = record o { flash = o.flash ++ read.out } in
      let percent = u32 ((total + length read.out) * 100) / total_size in
      let shown = is_sent last percent in
      let rest =
        write_loop fuel total_size (total + length read.out) (if shown then some percent else last)
          read.reader (if shown then send_progress percent written else written) in
      if length read.out == 0
      then complete o
      else if driver.writes o.flash read.out
      then rest
      else broken o

  -- The image is whole: it is checked, set as the one to boot from, and booted.
  abbrev pub finish : Bool → Ota → Ota
  finish skip_reboot o =
      if not (driver.ends o.flash)
      then in_step FwStep.error 3 (text "OTA end fail") (whole o)
      else if not driver.sets_boot
      then in_step FwStep.error 4 (text "Set boot fail") (checked o)
      else restarted skip_reboot (booting o)

  abbrev pub after_loop : Bool → Looped → Ota
  after_loop skip_reboot (complete o) = finish skip_reboot o
  after_loop skip_reboot (broken o) = in_step FwStep.error 2 (text "OTA write fail") o

  -- The bytes that a reader still has, at most, and one round that finds none.
  abbrev pub rounds : Reader → ℕ
  rounds r = suc (r.remaining + length r.file)

  -- The update with a partition for it.
  abbrev pub write_image : Bool → ℕ → Reader → Ota → Ota
  write_image skip_reboot total_size r o =
      if driver.begins total_size
      then after_loop skip_reboot (write_loop (rounds r) total_size 0 none r (writing o))
      else in_step FwStep.error 1 (text "OTA begin fail") (began o)

  -- The size: that of the metadata for an encrypted file, else that of the file on the card.
  abbrev pub sized : Bool → Reader → Option ℕ → Ota → Ota
  sized skip_reboot r none o = given_up (text "OTA file not found") (text "File not found") o
  sized skip_reboot r (some total_size) o =
      if driver.has_partition
      then write_image skip_reboot total_size r o
      else given_up (text "No OTA partition") (text "No OTA partition") o

  abbrev pub total_size : Reader → ℕ → Option ℕ → Option ℕ
  total_size r original_size file_size =
      if not r.encrypted || original_size == 0 then file_size else some original_size

  abbrev pub opened : Bool → Option Reader → ℕ → Option ℕ → Ota → Ota
  opened skip_reboot none original_size file_size o =
      given_up (text "OTA file open fail") (text "Open fail") o
  opened skip_reboot (some r) original_size file_size o =
      sized skip_reboot r (total_size r original_size file_size) o

  -- `esp32_update_start`: the flag says whether the card is ready; the reader, the size in its
  -- metadata and the size of the file on the card are what opening it comes to.
  unfoldable pub update_start : Image → Bool → Option Reader → ℕ → Option ℕ → Ota → Ota
  update_start i card_ready reader original_size file_size o =
      if not i.is_ready
      then given_up (text "OTA file not set") (text "No file") o
      else if not card_ready
      then given_up (text "SDMMC not ready") (text "SDMMC not ready") o
      else opened i.skip_reboot reader original_size file_size o
