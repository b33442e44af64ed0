-- ===== src/CanUpdate/Transfer.antt =====
-- The messages of the update: `tms_send_cmd`, `tms_flash_write`, `tms_user_sw_send` and
-- `can_send_file` of can_fw_update.c.
use miri_tool_v.Base.{
  ℕ, zero, suc, ◌+◌, ◌-◌, ◌*◌, ◌/◌, ◌%◌, Bool, ◌&&◌, Bytes, [], ◌∷◌, ◌++◌, Option, none, some,
  length, take, drop, replicate, ltb, leb, ◌==◌, if◌then◌else◌, u8, u16, u32, bit_and,
}
use miri_tool_v.FwState.{FwState, FwStep, set_step, set_progress, text}
use miri_tool_v.CanUpdate.Sid
use miri_tool_v.CanUpdate.Bus.{
  CanMessage, Driver, Bus, Run, ok, fail, fault, ◌>>=◌, can_id_esp32_board, can_id_tms_board,
  check_frame_single, check_frame_flowcontrol, get_id_response, byte_of, incan_tx, wait_for,
  tms_wait_response,
}

abbrev pub timeout_long : ℕ
timeout_long = 1000

abbrev pub page_size : ℕ
page_size = 1024

abbrev pub max_index_flash : ℕ
max_index_flash = 16

-- The `n` bytes at `data[i]`, of the memory that stands at `data`.
unfoldable pub memory_at : Bytes → ℕ → ℕ → Option Bytes
memory_at memory i n = if leb (i + n) (length memory) then some (take n (drop i memory)) else none

-- The `send_len` of one round.
unfoldable pub round_len : ℕ → ℕ → ℕ
round_len total_len length_sent =
    if leb 7 (total_len - length_sent) then 7 else total_len - length_sent

abbrev pub or_fault : Option Bytes → (Bytes → Run) → Run
or_fault none f = fault
or_fault (some bytes) f = f bytes

-- The `to_read` of one page.
unfoldable pub to_read : ℕ → ℕ → ℕ
to_read size offset = if ltb page_size (size - offset) then page_size else size - offset

abbrev pub is_flow_control : CanMessage → Bool
is_flow_control m = m.identifier == can_id_tms_board && check_frame_flowcontrol (byte_of m 0)

abbrev pub report : (FwState → FwState) → Bus → Run
report f s = ok (record s { fw = f s.fw })

module _ (driver : Driver) where
  unfoldable pub tms_send_cmd : ℕ → ℕ → Bus → Run
  tms_send_cmd cmd b2 s =
      incan_tx driver can_id_esp32_board (0x01 ∷ cmd ∷ b2 ∷ 0 ∷ 0 ∷ 0 ∷ 0 ∷ 0 ∷ []) s

  unfoldable pub tms_flash_write : ℕ → ℕ → Bus → Run
  tms_flash_write offset size s =
      incan_tx driver can_id_esp32_board
        (0x06
          ∷ Sid.flash_write
          ∷ u8 offset
          ∷ u8 (offset / 0x100)
          ∷ u8 (offset / 0x10000)
          ∷ u8 size
          ∷ u8 (size / 0x100)
          ∷ 0
          ∷ [])
        s

  -- The loop of the consecutive frames, on fuel: a frame takes a byte at least. `seq` is
  -- `tx_buff[0]`.
  unfoldable pub send_consecutive : ℕ → Bytes → ℕ → ℕ → ℕ → Bus → Run
  send_consecutive zero memory total_len seq length_sent s = ok s
  send_consecutive (suc fuel) memory total_len seq length_sent s =
      let send_len = round_len total_len length_sent in
      let round = or_fault (memory_at memory length_sent send_len) λ part.
        incan_tx driver can_id_esp32_board (seq ∷ (part ++ replicate (7 - send_len) 0)) s
        >>= send_consecutive fuel memory total_len (bit_and (seq + 1) 0x2F)
            (length_sent + send_len) in
      if ltb length_sent total_len then round else ok s

  -- `tms_user_sw_send(data, size)`; `memory` is what stands at `data`.
  unfoldable pub tms_user_sw_send : Bytes → ℕ → Bus → Run
  tms_user_sw_send memory size s =
      let total_len = u16 (size + 1) in
      or_fault (memory_at memory 0 5) λ first.
        incan_tx driver can_id_esp32_board
          ((0x10 + total_len / 0x100 % 0x10) ∷ u8 total_len ∷ Sid.user_sw_data_send ∷ first) s
        >>= wait_for is_flow_control λ _ s1.
          send_consecutive total_len memory total_len 0x21 5 s1
          >>= wait_for (λ m. m.identifier == can_id_tms_board)
              λ m s2.
                if check_frame_single (byte_of m 0)
                  && byte_of m 1 == get_id_response Sid.user_sw_data_send
                then ok s2
                else fail s2

  -- `incan_open`: the stop of a driver that is open and the filter are settings of the driver, which
  -- only answers whether it starts.
  abbrev pub incan_open : ℕ → Bus → Run
  incan_open bps s = if driver.open_ok bps then ok s else fail s

  module _ (target_id : ℕ) where
    -- A command with its answer.
    unfoldable pub exchange : ℕ → ℕ → Bus → Run
    exchange sid b2 s = tms_send_cmd sid b2 s >>= tms_wait_response sid target_id timeout_long

    -- The erase loop at index `i`, with `left` blocks to go.
    unfoldable pub erase : ℕ → ℕ → Bus → Run
    erase zero i s = ok s
    erase (suc left) i s =
        exchange Sid.flash_erase i s
        >>= report (set_progress (u8 ((i + 1) * 100 / max_index_flash)))
        >>= erase left (i + 1)

    -- The page loop, on fuel: a page that is read has a byte at least. `content` is the file and
    -- `behind offset` what stands in memory behind the page read at `offset`.
    unfoldable pub write_pages : ℕ → Bytes → ℕ → (ℕ → Bytes) → ℕ → Bus → Run
    write_pages zero content size behind offset s = ok s
    write_pages (suc fuel) content size behind offset s =
        let page = take (to_read size offset) (drop offset content) in
        let rd = length page in
        let round =
          tms_user_sw_send (page ++ behind offset) (u16 rd) s
          >>= tms_flash_write offset (u16 rd)
          >>= tms_wait_response Sid.flash_write target_id timeout_long
          >>= report (set_progress (u8 (u32 ((offset + rd) * 100) / size)))
          >>= write_pages fuel content size behind (offset + rd) in
        if ltb offset size then (if rd == 0 then ok s else round) else ok s

    unfoldable pub can_send_file : ℕ → Bytes → ℕ → (ℕ → Bytes) → Bus → Run
    unfolding exchange
    can_send_file bitrate_fast content size behind s =
        report (set_step FwStep.prepare (text "CAN enter boot")) s
        >>= incan_open 125000
        >>= exchange Sid.download_start 0
        >>= report (set_step FwStep.verify (text "CAN boot check"))
        >>= incan_open bitrate_fast
        >>= exchange Sid.boot_run_check 0
        >>= report (set_step FwStep.write (text "CAN erase"))
        >>= erase max_index_flash 0
        >>= report (set_step FwStep.write (text "CAN write"))
        >>= write_pages size content size behind 0
        >>= report (set_step FwStep.done (text "CAN finish"))
        >>= tms_send_cmd Sid.download_finish 0x01
