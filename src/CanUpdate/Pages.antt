-- ===== src/CanUpdate/Pages.antt =====
-- The steps of `can_send_file`: the messages that each sends when it succeeds.
use miri_tool_v.Base.{
  ℕ, zero, suc, ◌+◌, ◌-◌, ◌/◌, ◌≤◌, ◌<◌, ◌≡◌, ap, subst, ◌∙◌, Bool, true, false, Bytes, List, [],
  ◌∷◌, ◌++◌, append-nil, append_assoc, length, take, drop, length-append, length-drop, drop-append,
  take-append-drop, length-take-drop, length-take-le, take_all, lt→ltb, ltb, ◌==◌, if◌then◌else◌,
  Bool-cases, inl, inr, u8, u16, u32, arith, ◌*◌,
}
use miri_tool_v.FwState.{set_progress}
use miri_tool_v.CanUpdate.Sid
use miri_tool_v.CanUpdate.Bus.{
  CanMessage, Driver, Bus, Run, ok, fail, ◌>>=◌, can_id_esp32_board, tms_wait_response,
}
use miri_tool_v.CanUpdate.Sent.{
  Sent, Sent-bind, Sent-ok, message, incan_tx-Sent, tms_wait_response-Sent,
}
use miri_tool_v.CanUpdate.Frames.{memory_frames, tms_user_sw_send-memory_frames}
use miri_tool_v.CanUpdate.Transfer.{
  tms_send_cmd, tms_flash_write, tms_user_sw_send, exchange, erase, write_pages, incan_open, report,
  page_size, timeout_long, to_read,
}

abbrev pub command : ℕ → ℕ → CanMessage
command sid b2 = message can_id_esp32_board (0x01 ∷ sid ∷ b2 ∷ 0 ∷ 0 ∷ 0 ∷ 0 ∷ 0 ∷ [])

abbrev pub write_command : ℕ → ℕ → CanMessage
write_command offset size = message can_id_esp32_board (
    0x06
    ∷ Sid.flash_write
    ∷ u8 offset
    ∷ u8 (offset / 0x100)
    ∷ u8 (offset / 0x10000)
    ∷ u8 size
    ∷ u8 (size / 0x100)
    ∷ 0
    ∷ [])

abbrev pub erase_messages : ℕ → ℕ → List CanMessage
erase_messages zero i = []
erase_messages (suc left) i = command Sid.flash_erase i ∷ erase_messages left (i + 1)

-- The content that is left, a page of 1024 bytes or less at a time: its frames and the command that
-- writes it at its offset. On fuel of at least the number of bytes.
abbrev pub flash_messages : ℕ → Bytes → (ℕ → Bytes) → ℕ → List CanMessage
flash_messages zero rest behind offset = []
flash_messages (suc fuel) [] behind offset = []
flash_messages (suc fuel) (x ∷ xs) behind offset =
    let page = take page_size (x ∷ xs) in
    memory_frames (page ++ behind offset) (length page)
    ++ (write_command offset (length page)
        ∷ flash_messages fuel (drop page_size (x ∷ xs)) behind (offset + length page))

pub Sent-then :
    (ms : List CanMessage) (s : Bus) (m : Run) (f : Bus → Run)
    → Sent ms s m
    → ((t : Bus) → Sent [] t (f t))
    → Sent ms s (m >>= f)
Sent-then ms s m f h k = subst (λ l. Sent l s (m >>= f)) (append-nil ms) (Sent-bind ms [] s m f h k)

to_read_lem :
    (size offset : ℕ) (rest : Bytes)
    → size ≡ offset + length rest
    → take (to_read size offset) rest ≡ take page_size rest
unfolding to_read
to_read_lem size offset rest e = elim (Bool-cases (ltb page_size (size - offset))) [
  | inl more ↦ rw more
  | inr last ↦
      let short : length rest ≤ page_size = ground arith in
      rw (last, take_all page_size rest short) (take_all (size - offset) rest (omega arith))
]

module _ (driver : Driver) where
  pub exchange-Sent :
      (target_id sid b2 : ℕ) (s : Bus)
      → Sent (command sid b2 ∷ []) s (exchange driver target_id sid b2 s)
  unfolding exchange tms_send_cmd
  exchange-Sent target_id sid b2 s =
      Sent-then (command sid b2 ∷ []) s (tms_send_cmd driver sid b2 s) _
        (incan_tx-Sent driver _ _ s) λ t. tms_wait_response-Sent sid target_id timeout_long t

  pub incan_open-Sent : (bps : ℕ) (s : Bus) → Sent [] s (incan_open driver bps s)
  incan_open-Sent bps s = go (driver.open_ok bps)
    where
      go : (b : Bool) → Sent [] s (if b then ok s else fail s)
      go true = Sent-ok s
      go false = tt

  pub erase-Sent :
      (target_id left i : ℕ) (s : Bus)
      → Sent (erase_messages left i) s (erase driver target_id left i s)
  unfolding erase
  erase-Sent target_id zero i s = Sent-ok s
  erase-Sent target_id (suc left) i s =
      Sent-bind (command Sid.flash_erase i ∷ []) (erase_messages left (i + 1)) s _
        (erase driver target_id left (i + 1))
        (Sent-then (command Sid.flash_erase i ∷ []) s
          (exchange driver target_id Sid.flash_erase i s) _
          (exchange-Sent target_id Sid.flash_erase i s) (λ t. Sent-ok t))
        λ t. erase-Sent target_id left (i + 1) t

  -- One page: its frames, its write command, the answer and the progress.
  page_Sent :
      (target_id offset size : ℕ) (page behind : Bytes) (s : Bus)
      → 0 < length page
      → length page ≤ page_size
      → 5 ≤ length behind
      → Sent
          (memory_frames (page ++ behind) (length page) ++ write_command offset (length page) ∷ [])
          s
          (tms_user_sw_send driver (page ++ behind) (u16 (length page)) s
            >>= tms_flash_write driver offset (u16 (length page))
            >>= tms_wait_response Sid.flash_write target_id timeout_long
            >>= report (set_progress (u8 (u32 ((offset + length page) * 100) / size))))
  unfolding tms_flash_write
  page_Sent target_id offset size page behind s some_bytes small room =
      let n : u16 (length page) ≡ length page = omega arith in
      let long = length-append page behind in
      let frames = memory_frames (page ++ behind) (length page) in
      let all = frames ++ write_command offset (length page) ∷ [] in
      rw n (
        Sent-then all s _ _
          (Sent-then all s _ _
            (Sent-bind frames (write_command offset (length page) ∷ []) s
              (tms_user_sw_send driver (page ++ behind) (length page) s) _
              (tms_user_sw_send-memory_frames driver (page ++ behind) (length page) s (omega arith)
                (omega arith) (omega arith))
              (λ t. incan_tx-Sent driver _ _ t))
            (λ t. tms_wait_response-Sent Sid.flash_write target_id timeout_long t))
          (λ t. Sent-ok t))

  page_round :
      (target_id fuel : ℕ) (content page : Bytes) (size offset : ℕ) (behind : ℕ → Bytes) (s : Bus)
      (ns : List CanMessage)
      → offset < size
      → take (to_read size offset) (drop offset content) ≡ page
      → 0 < length page
      → length page ≤ page_size
      → 5 ≤ length (behind offset)
      → ((t : Bus)
          → Sent ns t
              (write_pages driver target_id fuel content size behind (offset + length page) t))
      → Sent
          (memory_frames (page ++ behind offset) (length page)
            ++ (write_command offset (length page) ∷ ns))
          s
          (write_pages driver target_id (suc fuel) content size behind offset s)
  unfolding write_pages
  page_round target_id fuel content page size offset behind s ns more e some_bytes small room rest =
      let frames = memory_frames (page ++ behind offset) (length page) in
      let not_empty : (length page == 0) ≡ false = ground arith in
      rw
        (
          lt→ltb offset size more,
          e,
          not_empty,
          ← append_assoc frames (write_command offset (length page) ∷ []) ns,
        )
        (Sent-bind (frames ++ write_command offset (length page) ∷ []) ns s _ _
          (page_Sent target_id offset size page (behind offset) s some_bytes small room) rest)

  pub write_pages-Sent :
      (target_id fuel : ℕ) (pre rest : Bytes) (size offset : ℕ) (behind : ℕ → Bytes) (s : Bus)
      → offset ≡ length pre
      → size ≡ offset + length rest
      → length rest ≤ fuel
      → ((o : ℕ) → 5 ≤ length (behind o))
      → Sent
          (flash_messages fuel rest behind offset)
          s
          (write_pages driver target_id fuel (pre ++ rest) size behind offset s)
  unfolding write_pages
  write_pages-Sent target_id zero pre [] size offset behind s e n f room = Sent-ok s
  write_pages-Sent target_id zero pre (x ∷ xs) size offset behind s e n f room =
      absurd (omega arith)
  write_pages-Sent target_id (suc fuel) pre [] size offset behind s e n f room =
      let ended : ltb offset size ≡ false = ground arith in rw ended (Sent-ok s)
  write_pages-Sent target_id (suc fuel) pre (x ∷ xs) size offset behind s e n f room =
      let ys = x ∷ xs in
      let page = take page_size ys in
      let read : take (to_read size offset) (drop offset (pre ++ ys)) ≡ page =
        ap (λ k. take (to_read size offset) (drop k (pre ++ ys))) e
        ∙ ap (take (to_read size offset)) (drop-append pre ys)
        ∙ to_read_lem size offset ys n in
      let cut = length-take-drop page_size ys in
      let split : (pre ++ page) ++ drop page_size ys ≡ pre ++ ys =
        append_assoc pre page (drop page_size ys) ∙ ap (◌++◌ pre) (take-append-drop page_size ys) in
      page_round target_id fuel (pre ++ ys) page size offset behind s
        (flash_messages fuel (drop page_size ys) behind (offset + length page)) (omega arith) read
        (omega arith) (length-take-le page_size ys) (room offset)
        λ t.
          subst
            (λ c.
              Sent (flash_messages fuel (drop page_size ys) behind (offset + length page)) t
                (write_pages driver target_id fuel c size behind (offset + length page) t))
            split
            (write_pages-Sent target_id fuel (pre ++ page) (drop page_size ys) size
              (offset + length page) behind t (omega (arith, length-append pre page))
              (omega (arith, length-take-drop page_size ys))
              (omega (arith, length-drop page_size ys)) room)
