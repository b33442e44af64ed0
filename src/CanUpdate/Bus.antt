-- ===== src/CanUpdate/Bus.antt =====
-- The CAN bus as can_fw_update.c uses it: `incan_tx` and `incan_get_message` of
-- main/base/can/incan.c, and the loops that wait for a message.
use miri_tool_v.Base.{
  ℕ, zero, suc, ◌+◌, ◌/◌, Bool, ◌&&◌, Bytes, List, [], ◌∷◌, ◌++◌, Option, none, some, get_or,
  length, ◌==◌, if◌then◌else◌, bit_and,
}
use miri_tool_v.FwState.{FwState}

-- twai_message_t: the identifier and the eight data bytes.
pub record CanMessage : Type 0 where
  pub identifier : ℕ
  pub bytes : Bytes

-- What the driver of the chip decides: whether the n-th transmission and the start at a bit rate
-- succeed.
pub record Driver : Type 0 where
  pub tx_ok : ℕ → Bool
  pub open_ok : ℕ → Bool

-- The messages sent so far; what each coming receive call yields, `none` for its timeout and
-- timeouts for ever at the end; and the state that the update reports.
pub record Bus : Type 0 where
  pub sent : List CanMessage
  pub inbox : List (Option CanMessage)
  pub fw : FwState

-- `fail` is an error return; `stuck` is a loop that waits for ever; `fault` is a read outside the
-- memory of the caller.
pub data Run : Type 0 where
  ok fail stuck : Bus → Run
  fault : Run

infixl 5 ◌>>=◌
abbrev pub ◌>>=◌ : Run → (Bus → Run) → Run
ok s >>= f = f s
fail s >>= f = fail s
stuck s >>= f = stuck s
fault >>= f = fault

abbrev pub can_id_esp32_board : ℕ
can_id_esp32_board = 0x1F000074

abbrev pub can_id_tms_board : ℕ
can_id_tms_board = 0x1F00007B

-- CHECK_FRAME_SINGLE, CHECK_FRAME_FLOWCONTROL and GET_ID_RESPONSE: the high nibble of a byte, and
-- bit 6 set in a service id below 0x40.
abbrev pub check_frame_single : ℕ → Bool
check_frame_single a = bit_and a 0xF0 == 0x00

abbrev pub check_frame_flowcontrol : ℕ → Bool
check_frame_flowcontrol a = bit_and a 0xF0 == 0x30

abbrev pub get_id_response : ℕ → ℕ
get_id_response sid = sid + 0x40

abbrev pub byte_of : CanMessage → ℕ → ℕ
byte_of m i = get_or m.bytes i 0

unfoldable pub incan_tx : Driver → ℕ → Bytes → Bus → Run
incan_tx driver id bytes s =
    let message : CanMessage = record { identifier = id; bytes = bytes } in
    if driver.tx_ok (length s.sent) then ok (record s { sent = s.sent ++ message ∷ [] }) else fail s

-- The first message in the inbox that passes a test, and what is left behind it; `none` if the loop
-- never ends.
unfoldable pub await :
    (CanMessage → Bool) → List (Option CanMessage) → Option (CanMessage × List (Option CanMessage))
await test [] = none
await test (none ∷ inbox) = await test inbox
await test (some m ∷ inbox) =
    let later = await test inbox in if test m then some (m, inbox) else later

-- `while (1) { if (incan_get_message(…)) if (test) break; }`
unfoldable pub wait_for : (CanMessage → Bool) → (CanMessage → Bus → Run) → Bus → Run
unfolding await
wait_for test next s = elim (await test s.inbox) [
  | none ↦ stuck (record s { inbox = [] })
  | some (m, inbox) ↦ next m (record s { inbox = inbox })
]

abbrev pub is_response : ℕ → ℕ → CanMessage → Bool
is_response sid target_id m =
    m.identifier == target_id
    && check_frame_single (byte_of m 0)
    && byte_of m 1 == get_id_response sid

-- The rounds of `tms_wait_response`: a receive call each, of 100 ms.
unfoldable pub response_within : ℕ → ℕ → ℕ → Bus → List (Option CanMessage) → Run
response_within sid target_id zero s inbox = fail (record s { inbox = inbox })
response_within sid target_id (suc rounds) s [] = fail (record s { inbox = [] })
response_within sid target_id (suc rounds) s (none ∷ inbox) =
    response_within sid target_id rounds s inbox
response_within sid target_id (suc rounds) s (some m ∷ inbox) =
    let later = response_within sid target_id rounds s inbox in
    if is_response sid target_id m then ok (record s { inbox = inbox }) else later

-- `waited` grows by 100 a round until it reaches the timeout.
unfoldable pub tms_wait_response : ℕ → ℕ → ℕ → Bus → Run
unfolding response_within
tms_wait_response sid target_id timeout_ms s =
    response_within sid target_id ((timeout_ms + 99) / 100) s s.inbox
