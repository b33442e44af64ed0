-- ===== src/CanUpdate/Frames.antt =====
-- The frames of `tms_user_sw_send`.
use miri_tool_v.Base.{
  ℕ, zero, suc, ◌+◌, ◌-◌, ◌/◌, ◌%◌, ◌≤◌, ◌<◌, ◌≡◌, ◌⊎◌, refl, sym, ap, subst, ◌&&◌, ◌∙◌, Bool, true,
  false, Bytes, List, [], ◌∷◌, ◌++◌, append-nil, append_assoc, some, lt→ltb, take-append_le, length,
  take, drop, replicate, length-append, length-take, length-drop, drop-append, take-append-drop,
  length-take-drop, take_all, drop_all, ltb, leb, ◌==◌, if◌then◌else◌, Bool-cases, inl, inr, u8,
  u16, bit_and, arith,
}
use miri_tool_v.CanUpdate.Sid
use miri_tool_v.CanUpdate.Bus.{
  CanMessage, Driver, Bus, ok, fail, can_id_esp32_board, check_frame_single, get_id_response,
  byte_of, incan_tx,
}
use miri_tool_v.CanUpdate.Sent.{Sent, Sent-bind, Sent-ok, message, incan_tx-Sent, wait_for-Sent}
use miri_tool_v.CanUpdate.Transfer.{memory_at, round_len, send_consecutive, tms_user_sw_send}

-- a frame of up to 7 bytes, filled up with zeros
abbrev pub consecutive : ℕ → Bytes → CanMessage
consecutive seq part = message can_id_esp32_board (seq ∷ (part ++ replicate (7 - length part) 0))

-- The frames that carry `bytes`, on fuel of at least their number.
abbrev pub frames : ℕ → ℕ → Bytes → List CanMessage
frames zero seq bytes = []
frames (suc fuel) seq [] = []
frames (suc fuel) seq (x ∷ xs) =
    consecutive seq (take 7 (x ∷ xs)) ∷ frames fuel (bit_and (seq + 1) 0x2F) (drop 7 (x ∷ xs))

abbrev pub first_frame : ℕ → Bytes → CanMessage
first_frame total_len first =
    message can_id_esp32_board
      ((0x10 + total_len / 0x100 % 0x10) ∷ u8 total_len ∷ Sid.user_sw_data_send ∷ first)

-- All the frames for the data `xs` with a byte `b` behind it.
abbrev pub all_frames : Bytes → ℕ → List CanMessage
all_frames xs b =
    first_frame (length xs + 1) (take 5 xs) ∷ frames (length xs + 1) 0x21 (drop 5 xs ++ b ∷ [])

memory_at-append :
    (pre xs more : Bytes) (n : ℕ)
    → n ≤ length xs
    → memory_at (pre ++ (xs ++ more)) (length pre) n ≡ some (take n xs)
unfolding memory_at
memory_at-append pre xs more n h =
    let inside : leb (length pre + n) (length (pre ++ (xs ++ more))) ≡ true =
      ground (arith, length-append pre (xs ++ more), length-append xs more) in
    rw (inside, drop-append pre (xs ++ more), take-append_le n xs more h)

-- What one round takes of the bytes that are left.
round_len_lem :
    (total sent : ℕ) (ys : Bytes)
    → total ≡ sent + length ys
    → (round_len total sent ≤ length ys)
      × (length (take 7 ys) ≡ round_len total sent)
      × (take (round_len total sent) ys ≡ take 7 ys)
unfolding round_len
round_len_lem total sent ys t = elim (Bool-cases (leb 7 (total - sent))) [
  | inl full ↦ rw full (ground arith, length-take 7 ys (ground arith), refl)
  | inr part ↦
      let whole : length ys ≤ 7 = ground arith in
      rw (part, take_all 7 ys whole)
        (omega arith, omega arith, take_all (total - sent) ys (omega arith))
]

send_round :
    (driver : Driver) (fuel : ℕ) (memory part : Bytes) (total seq sent : ℕ) (s : Bus)
    (ns : List CanMessage)
    → sent < total
    → memory_at memory sent (round_len total sent) ≡ some part
    → length part ≡ round_len total sent
    → ((t : Bus)
        → Sent ns t (
            send_consecutive driver fuel memory total
              (bit_and (seq + 1) 0x2F)
              (sent + length part)
              t))
    → Sent
        (consecutive seq part ∷ ns)
        s
        (send_consecutive driver (suc fuel) memory total seq sent s)
unfolding send_consecutive
send_round driver fuel memory part total seq sent s ns more mem n rest =
    rw (lt→ltb sent total more, mem, ← n)
      (Sent-bind (consecutive seq part ∷ []) ns s
        (incan_tx driver can_id_esp32_board (seq ∷ (part ++ replicate (7 - length part) 0)) s) _
        (incan_tx-Sent driver can_id_esp32_board (seq ∷ (part ++ replicate (7 - length part) 0)) s)
        rest)

split_memory :
    (pre ys more : Bytes) → pre ++ (ys ++ more) ≡ (pre ++ take 7 ys) ++ (drop 7 ys ++ more)
split_memory pre ys more =
    ap (λ l. pre ++ (l ++ more)) (sym (take-append-drop 7 ys))
    ∙ ap (◌++◌ pre) (append_assoc (take 7 ys) (drop 7 ys) more)
    ∙ sym (append_assoc pre (take 7 ys) (drop 7 ys ++ more))

send_consecutive-Sent :
    (driver : Driver) (fuel : ℕ) (pre xs more : Bytes) (total seq sent : ℕ) (s : Bus)
    → sent ≡ length pre
    → total ≡ sent + length xs
    → length xs ≤ fuel
    → Sent
        (frames fuel seq xs)
        s
        (send_consecutive driver fuel (pre ++ (xs ++ more)) total seq sent s)
send_consecutive-Sent driver zero pre [] more total seq sent s e t f =
    unfold send_consecutive in Sent-ok s
send_consecutive-Sent driver zero pre (x ∷ xs) more total seq sent s e t f = absurd (omega arith)
send_consecutive-Sent driver (suc fuel) pre [] more total seq sent s e t f =
    let ended : ltb sent total ≡ false = ground arith in
    unfold send_consecutive in rw ended (Sent-ok s)
send_consecutive-Sent driver (suc fuel) pre (x ∷ xs) more total seq sent s e t f =
    let ys = x ∷ xs in
    let n = round_len_lem total sent ys t in
    let there = memory_at-append pre ys more (round_len total sent) n.0 in
    let rest = frames fuel (bit_and (seq + 1) 0x2F) (drop 7 ys) in
    let ih = λ (u : Bus).
      send_consecutive-Sent driver fuel (pre ++ take 7 ys) (drop 7 ys) more total
        (bit_and (seq + 1) 0x2F) (sent + length (take 7 ys)) u
        (omega (arith, length-append pre (take 7 ys))) (omega (arith, length-take-drop 7 ys))
        (omega (arith, length-drop 7 ys)) in
    send_round driver fuel (pre ++ (ys ++ more)) (take 7 ys) total seq sent s rest (omega arith)
      (ap (λ k. memory_at (pre ++ (ys ++ more)) k (round_len total sent)) e ∙ there ∙ ap some n.2)
      n.1
      (λ u.
        subst
          (λ m. Sent rest u (
            send_consecutive driver fuel m total (bit_and (seq + 1) 0x2F)
              (sent + length (take 7 ys)) u))
          (sym (split_memory pre ys more)) (ih u))

last_answer :
    (m : CanMessage) (s : Bus)
    → Sent [] s (
        if check_frame_single (byte_of m 0) && byte_of m 1 == get_id_response Sid.user_sw_data_send
        then ok s
        else fail s)
last_answer m s =
    go (check_frame_single (byte_of m 0) && byte_of m 1 == get_id_response Sid.user_sw_data_send)
  where
    go : (b : Bool) → Sent [] s (if b then ok s else fail s)
    go true = Sent-ok s
    go false = tt

-- The loop of the consecutive frames behind the first one, which carries five bytes.
consecutive_part :
    (driver : Driver) (pre body more : Bytes) (size : ℕ) (s : Bus)
    → length pre ≡ 5
    → (size + 1 ≡ 5 + length body) ⊎ ((size + 1 ≤ 5) × (body ≡ []))
    → Sent
        (frames (size + 1) 0x21 body)
        s
        (send_consecutive driver (size + 1) (pre ++ (body ++ more)) (size + 1) 0x21 5 s)
consecutive_part driver pre body more size s five (inl n) =
    send_consecutive-Sent driver (size + 1) pre body more (size + 1) 0x21 5 s (sym five) n
      (omega arith)
consecutive_part driver pre body more size s five (inr (small, e)) =
    let fuel : size + 1 ≡ suc size = omega arith in
    let ended : ltb 5 (suc size) ≡ false = ground arith in
    rw (e, fuel) (unfold send_consecutive in rw ended (Sent-ok s))

user_sw_send_pieces :
    (driver : Driver) (pre body more : Bytes) (size : ℕ) (s : Bus)
    → length pre ≡ 5
    → (size + 1 ≡ 5 + length body) ⊎ ((size + 1 ≤ 5) × (body ≡ []))
    → size < 4095
    → Sent
        (first_frame (size + 1) pre ∷ frames (size + 1) 0x21 body)
        s
        (tms_user_sw_send driver (pre ++ (body ++ more)) size s)
unfolding tms_user_sw_send
user_sw_send_pieces driver pre body more size s five n short =
    let whole : u16 (size + 1) ≡ size + 1 = omega arith in
    let all = frames (size + 1) 0x21 body in
    rw (memory_at-append [] pre (body ++ more) 5 (omega arith), take_all 5 pre (omega arith), whole)
      (Sent-bind (first_frame (size + 1) pre ∷ []) all s _ _ (incan_tx-Sent driver _ _ s) λ t.
        wait_for-Sent _ _ all t λ _ inbox.
          let u : Bus = record t { inbox = inbox } in
          rw (← append-nil all) (
            Sent-bind all [] u _ _ (consecutive_part driver pre body more size u five n)
              λ v. wait_for-Sent _ _ [] v λ m inbox'. last_answer m (record v { inbox = inbox' })))

-- The frames for `size` bytes of what stands in memory: the first five bytes, whatever the size,
-- and then up to and including the byte behind the data.
abbrev pub memory_frames : Bytes → ℕ → List CanMessage
memory_frames memory size =
    first_frame (size + 1) (take 5 memory)
    ∷ frames (size + 1) 0x21 (drop 5 (take (size + 1) memory))

-- Sending any size up to 4094, if it succeeds, sends these frames.
pub tms_user_sw_send-memory_frames :
    (driver : Driver) (memory : Bytes) (size : ℕ) (s : Bus)
    → 5 ≤ length memory
    → size < length memory
    → size < 4095
    → Sent (memory_frames memory size) s (tms_user_sw_send driver memory size s)
tms_user_sw_send-memory_frames driver memory size s five n short = elim (Bool-cases (leb 5 size)) [
  | inl big ↦
      let k : 5 ≤ size = ground arith in
      let front = take (size + 1) memory in
      let front_len = length-take (size + 1) memory (omega arith) in
      let five_bytes : take 5 memory ≡ take 5 front =
        ap (take 5) (sym (take-append-drop (size + 1) memory))
        ∙ take-append_le 5 front (drop (size + 1) memory) (omega arith) in
      let split : memory ≡ take 5 memory ++ (drop 5 front ++ drop (size + 1) memory) =
        sym (take-append-drop (size + 1) memory)
        ∙ ap (λ l. l ++ drop (size + 1) memory) (sym (take-append-drop 5 front))
        ∙ append_assoc (take 5 front) (drop 5 front) (drop (size + 1) memory)
        ∙ ap (λ l. l ++ (drop 5 front ++ drop (size + 1) memory)) (sym five_bytes) in
      subst (λ m. Sent (memory_frames memory size) s (tms_user_sw_send driver m size s)) (sym split)
        (user_sw_send_pieces driver (take 5 memory) (drop 5 front) (drop (size + 1) memory) size s
          (length-take 5 memory five) (inl (omega (arith, length-drop 5 front))) short)
  | inr small ↦
      let k : size < 5 = ground arith in
      let nothing : drop 5 (take (size + 1) memory) ≡ [] =
        drop_all 5 (take (size + 1) memory)
          (omega (arith, length-take (size + 1) memory (omega arith))) in
      rw nothing (
        subst
          (λ m.
            Sent (first_frame (size + 1) (take 5 memory) ∷ frames (size + 1) 0x21 []) s
              (tms_user_sw_send driver m size s))
          (take-append-drop 5 memory)
          (user_sw_send_pieces driver (take 5 memory) [] (drop 5 memory) size s
            (length-take 5 memory five) (inr (omega arith, refl)) short))
]

-- `tms_user_sw_send` on data with a byte behind it, if it succeeds, has sent the first frame and
-- the consecutive ones for the data and that byte.
pub tms_user_sw_send-Sent :
    (driver : Driver) (xs more : Bytes) (b : ℕ) (s : Bus)
    → 5 ≤ length xs
    → length xs < 4095
    → Sent (all_frames xs b) s (tms_user_sw_send driver (xs ++ b ∷ more) (length xs) s)
tms_user_sw_send-Sent driver xs more b s five short =
    let split : xs ++ b ∷ more ≡ take 5 xs ++ ((drop 5 xs ++ b ∷ []) ++ more) =
      ap (λ l. l ++ b ∷ more) (sym (take-append-drop 5 xs))
      ∙ append_assoc (take 5 xs) (drop 5 xs) (b ∷ more)
      ∙ ap (◌++◌ (take 5 xs)) (sym (append_assoc (drop 5 xs) (b ∷ []) more)) in
    subst (λ m. Sent (all_frames xs b) s (tms_user_sw_send driver m (length xs) s)) (sym split)
      (user_sw_send_pieces driver (take 5 xs) (drop 5 xs ++ b ∷ []) more (length xs) s
        (length-take 5 xs five)
        (inl (omega (arith, length-append (drop 5 xs) (b ∷ []), length-drop 5 xs))) short)
