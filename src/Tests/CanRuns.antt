-- ===== src/Tests/CanRuns.antt =====
-- The transfer of can_fw_update.c against concrete answers of the board.
use miri_tool_v.Base.{
  ℕ, zero, suc, ◌≡◌, refl, true, Bytes, List, [], ◌∷◌, ◌++◌, arith, replicate, Option, some,
}
use miri_tool_v.FwState.{FwState, FwStep}
use miri_tool_v.CanUpdate.Sid
use miri_tool_v.CanUpdate.Bus.{
  CanMessage, Driver, Bus, Run, ok, fault, can_id_tms_board, incan_tx, wait_for, await,
  tms_wait_response, response_within,
}
use miri_tool_v.CanUpdate.Transfer.{
  tms_send_cmd, tms_user_sw_send, can_send_file, max_index_flash, memory_at, round_len,
  send_consecutive, exchange, erase, to_read, write_pages, tms_flash_write,
}
use miri_tool_v.CanUpdate.Reassembly.{reassemble, tms_user_sw_send-reassemble}
use miri_tool_v.CanUpdate.Overread.{tms_user_sw_send_overread}
use miri_tool_v.CanUpdate.Pages.{command, erase_messages, flash_messages}
use miri_tool_v.CanUpdate.Session.{can_send_file-Sent}

abbrev driver : Driver
driver = record { tx_ok = λ _. true; open_ok = λ _. true }

abbrev answer : ℕ → ℕ → Option CanMessage
answer head sid = some (record { identifier = can_id_tms_board; bytes = head ∷ sid ∷ [] })

abbrev idle : FwState
idle = record { step = FwStep.prepare; progress = 0; message = [] }

abbrev bus : List (Option CanMessage) → Bus
bus inbox = record { sent = []; inbox = inbox; fw = idle }

abbrev data_bytes : Bytes
data_bytes = 1 ∷ 2 ∷ 3 ∷ 4 ∷ 5 ∷ 6 ∷ []

abbrev send_answers : List (Option CanMessage)
send_answers = answer 0x30 0 ∷ answer 0x02 0x61 ∷ []

abbrev after : Run → Bus
after (ok t) = t
after _ = bus []

tms_user_sw_send_run :
    tms_user_sw_send driver (data_bytes ++ 0 ∷ []) 6 (bus send_answers)
    ≡ ok (after (tms_user_sw_send driver (data_bytes ++ 0 ∷ []) 6 (bus send_answers)))
unfolding tms_user_sw_send memory_at incan_tx wait_for send_consecutive round_len
tms_user_sw_send_run = refl

tms_user_sw_send-reassemble_example :
    (ms : List CanMessage) × ((after
        (tms_user_sw_send driver (data_bytes ++ 0 ∷ []) 6 (bus send_answers))).sent
      ≡ [] ++ ms)
    × (reassemble ms ≡ Sid.user_sw_data_send ∷ data_bytes)
tms_user_sw_send-reassemble_example =
    tms_user_sw_send-reassemble driver data_bytes [] 0 (bus send_answers)
      (after (tms_user_sw_send driver (data_bytes ++ 0 ∷ []) 6 (bus send_answers))) (omega arith)
      (omega arith) tms_user_sw_send_run

tms_user_sw_send_overread_example : tms_user_sw_send driver data_bytes 6 (bus send_answers) ≡ fault
tms_user_sw_send_overread_example =
    tms_user_sw_send_overread driver data_bytes (bus send_answers)
      (record { identifier = can_id_tms_board; bytes = 0x30 ∷ 0 ∷ [] }) (answer 0x02 0x61 ∷ [])
      (λ n. refl) (omega arith) (omega arith) (unfold await in refl)

abbrev repeated : ℕ → List (Option CanMessage) → List (Option CanMessage)
repeated zero ms = []
repeated (suc n) ms = ms ++ repeated n ms

-- the answers to a whole update of a file of six bytes
abbrev update_answers : List (Option CanMessage)
update_answers =
    answer 0x02 0x50
    ∷ answer 0x02 0x51
    ∷ (repeated max_index_flash (answer 0x02 0x60 ∷ []) ++ (send_answers ++ answer 0x02 0x62 ∷ []))

abbrev zeros : ℕ → Bytes
zeros o = replicate 5 0

abbrev updated : Run
updated = can_send_file driver can_id_tms_board 500000 data_bytes 6 zeros (bus update_answers)

can_send_file_run : updated ≡ ok (after updated)
unfolding can_send_file tms_send_cmd exchange incan_tx tms_wait_response response_within erase
    write_pages to_read tms_user_sw_send memory_at wait_for send_consecutive round_len
    tms_flash_write
can_send_file_run = refl

can_send_file-Sent_example :
    (after updated).sent
    ≡ []
      ++ (command Sid.download_start 0
          ∷ command Sid.boot_run_check 0
          ∷ (erase_messages max_index_flash 0
              ++ (flash_messages 6 data_bytes zeros 0 ++ command Sid.download_finish 0x01 ∷ [])))
can_send_file-Sent_example =
    can_send_file-Sent driver can_id_tms_board 500000 data_bytes zeros (bus update_answers)
      (after updated) (λ o. omega arith) can_send_file_run
