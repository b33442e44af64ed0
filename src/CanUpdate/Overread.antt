-- ===== src/CanUpdate/Overread.antt =====
-- The memory that `tms_user_sw_send` reads.
use miri_tool_v.Base.{
  ℕ, zero, suc, ◌+◌, ◌-◌, ◌/◌, ◌%◌, u8, ◌≤◌, ◌<◌, ◌≡◌, refl, ap, ◌∙◌, Bool, true, false, Bytes,
  List, [], ◌∷◌, ◌++◌, some, Option, length, take, drop, replicate, lt→ltb, leb, Bool-cases, inl,
  inr, u16, bit_and, arith,
}
use miri_tool_v.CanUpdate.Sid
use miri_tool_v.CanUpdate.Bus.{
  CanMessage, Driver, Bus, Run, ok, fault, ◌>>=◌, can_id_esp32_board, incan_tx, await, wait_for,
}
use miri_tool_v.CanUpdate.Transfer.{
  memory_at, round_len, send_consecutive, tms_user_sw_send, is_flow_control,
}

-- a driver that transmits whatever it is given
abbrev pub Transmits : Driver → Type 0
Transmits driver = (n : ℕ) → driver.tx_ok n ≡ true

incan_tx_ok :
    (driver : Driver) (id : ℕ) (bytes : Bytes) (s : Bus)
    → Transmits driver
    → (t : Bus) × (incan_tx driver id bytes s ≡ ok t) × (t.inbox ≡ s.inbox)
unfolding incan_tx
incan_tx_ok driver id bytes s h = (
  record s { sent = s.sent ++ (record { identifier = id; bytes = bytes }) ∷ [] },
  rw (h (length s.sent)),
  refl,
)

wait_for-some :
    (test : CanMessage → Bool) (next : CanMessage → Bus → Run) (s : Bus) (m : CanMessage)
    (inbox : List (Option CanMessage))
    → await test s.inbox ≡ some (m, inbox)
    → wait_for test next s ≡ next m (record s { inbox = inbox })
unfolding wait_for
wait_for-some test next s m inbox e = rw (e, wait_for)

-- A round that would read past the end of the memory.
last_round :
    (driver : Driver) (fuel : ℕ) (memory : Bytes) (total seq sent : ℕ) (s : Bus)
    → sent < total
    → length memory < sent + round_len total sent
    → send_consecutive driver (suc fuel) memory total seq sent s ≡ fault
unfolding send_consecutive memory_at
last_round driver fuel memory total seq sent s more past =
    let outside : leb (sent + round_len total sent) (length memory) ≡ false = ground arith in
    rw (lt→ltb sent total more, outside)

round_len_bounds :
    (total sent : ℕ)
    → sent < total
    → (0 < round_len total sent) × (sent + round_len total sent ≤ total)
unfolding round_len
round_len_bounds total sent more = ground arith

inner_round :
    (driver : Driver) (fuel : ℕ) (memory part : Bytes) (total seq sent : ℕ) (s : Bus)
    → sent < total
    → memory_at memory sent (round_len total sent) ≡ some part
    → send_consecutive driver (suc fuel) memory total seq sent s ≡ (
        incan_tx driver can_id_esp32_board
          (seq ∷ (part ++ replicate (7 - round_len total sent) 0))
          s
        >>= send_consecutive driver fuel memory total
            (bit_and (seq + 1) 0x2F)
            (sent + round_len total sent))
unfolding send_consecutive
inner_round driver fuel memory part total seq sent s more there = rw (lt→ltb sent total more, there)

send_consecutive_fault :
    (driver : Driver) (fuel : ℕ) (memory : Bytes) (total seq sent : ℕ) (s : Bus)
    → Transmits driver
    → total ≡ length memory + 1
    → sent < total
    → total < fuel + sent
    → send_consecutive driver fuel memory total seq sent s ≡ fault
send_consecutive_fault driver zero memory total seq sent s h t more enough = absurd (omega arith)
send_consecutive_fault driver (suc fuel) memory total seq sent s h t more enough =
    elim (Bool-cases (leb (sent + round_len total sent) (length memory))) [
      | inl inside ↦
          let bounds = round_len_bounds total sent more in
          let part = take (round_len total sent) (drop sent memory) in
          let (u, sends, _) =
            incan_tx_ok driver can_id_esp32_board
              (seq ∷ (part ++ replicate (7 - round_len total sent) 0)) s h in
          inner_round driver fuel memory part total seq sent s more (unfold memory_at in rw inside)
          ∙ ap
              (λ r.
                r
                >>= send_consecutive driver fuel memory total (bit_and (seq + 1) 0x2F)
                    (sent + round_len total sent))
              sends
          ∙ send_consecutive_fault driver fuel memory total (bit_and (seq + 1) 0x2F)
              (sent + round_len total sent) u h t (ground arith) (omega arith)
      | inr past ↦ last_round driver fuel memory total seq sent s more (ground arith)
    ]

-- On memory that ends with the data (5 bytes or more), with a driver that transmits and a flow
-- control frame of the board in the inbox, `tms_user_sw_send` reads behind the data.
pub tms_user_sw_send_overread :
    (driver : Driver) (xs : Bytes) (s : Bus) (m : CanMessage) (inbox : List (Option CanMessage))
    → Transmits driver
    → 5 ≤ length xs
    → length xs < 65535
    → await is_flow_control s.inbox ≡ some (m, inbox)
    → tms_user_sw_send driver xs (length xs) s ≡ fault
unfolding tms_user_sw_send
tms_user_sw_send_overread driver xs s m inbox h five short flow =
    let whole : u16 (length xs + 1) ≡ length xs + 1 = omega arith in
    let inside : leb (0 + 5) (length xs) ≡ true = ground arith in
    let first : memory_at xs 0 5 ≡ some (take 5 xs) = unfold memory_at in rw inside in
    let (u, sends, same) =
      incan_tx_ok driver can_id_esp32_board
        ((0x10 + (length xs + 1) / 0x100 % 0x10)
          ∷ u8 (length xs + 1)
          ∷ Sid.user_sw_data_send
          ∷ take 5 xs)
        s h in
    let v : Bus = record u { inbox = inbox } in
    rw (
      whole,
      first,
      sends,
      wait_for-some is_flow_control _ u m inbox (ap (await is_flow_control) same ∙ flow),
      send_consecutive_fault driver (length xs + 1) xs (length xs + 1) 0x21 5 v h refl (omega arith)
          (omega arith),
    )
