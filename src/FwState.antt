-- ===== src/FwState.antt =====
-- main/core/firmware_upload/fw_upload_state.c: the step, the progress and the message of a firmware
-- update, as the web and BLE interfaces read them.
use Prim.Native.Char.{code}
use Prim.Native.String.{String}
use miri_tool_v.Base.{ℕ, ◌≤◌, Bytes, [], ◌∷◌, take, ltb, if◌then◌else◌, arith}

-- fw_step_t
pub data FwStep : Type 0 where
  prepare wait_user transfer decode write verify done error : FwStep

pub record FwState : Type 0 where
  pub step : FwStep
  pub progress : ℕ
  pub message : Bytes

-- A string literal of the source: its characters, all ASCII.
abbrev pub text : String → Bytes
text String.[] = []
text (String.◌∷◌ c s) = code c ∷ text s

-- `snprintf` keeps the 95 characters that fit `s_message`; an empty or missing message clears it.
unfoldable pub set_step : FwStep → Bytes → FwState → FwState
set_step step msg s = record s { step = step; message = take 95 msg }

unfoldable pub set_progress : ℕ → FwState → FwState
set_progress percent s = record s { progress = if ltb 100 percent then 100 else percent }

-- The progress that is shown never exceeds 100.
pub set_progress-le : (percent : ℕ) (s : FwState) → (set_progress percent s).progress ≤ 100
unfolding set_progress
set_progress-le percent s = ground arith
