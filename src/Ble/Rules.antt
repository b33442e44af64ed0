-- ===== src/Ble/Rules.antt =====
-- What single commands of the phone do.
use miri_tool_v.Base.{
  ℕ, ◌≤◌, ◌<◌, ◌≡◌, ◌≢◌, true, false, Bytes, [], ◌∷◌, ◌++◌, some, ◌⊎◌, inl, inr, arith,
}
use miri_tool_v.Role.{no_role, request, start_for_role, clear}
use miri_tool_v.Hht.{wb100}
use miri_tool_v.Hht.Main.{open_calls, task_call, h3000_close, hht_start, hht_stop}
use miri_tool_v.Ble.{Key, key_from_code, is_start, is_stop, is_hht_action, normalize_compat}
use miri_tool_v.Ble.Codes.{
  cmd_hht_btn, ack_hht_btn, cmd_start_hht_wb100, cmd_start_hht_3000, cmd_stop_hht_3000,
}
use miri_tool_v.Ble.Device.{Device, Env, send_cmd}
use miri_tool_v.Ble.Handler.{handle_hht_action, handle_start, handle_stop, send_key}
use miri_tool_v.Ble.Commands.{handle_with_payload, dispatch, is_ack, accepted_cmd}

-- A command with the highest bit set, which is not the acknowledgement of a key, changes nothing.
handle_with_payload-ack :
    (env : Env) (cmd : ℕ) (payload : Bytes) (d : Device)
    → 0x8000 ≤ cmd
    → cmd < 0x10000
    → cmd ≢ ack_hht_btn
    → handle_with_payload env cmd payload d ≡ d
unfolding handle_with_payload dispatch normalize_compat
handle_with_payload-ack env cmd payload d low high other =
    let n : normalize_compat cmd ≡ cmd = ground arith in
    let a : accepted_cmd cmd ≡ cmd = ground arith in
    let k : is_ack cmd ≡ true = ground arith in rw (n, a, k)

-- A key, as a command or as its acknowledgement, with the bytes of the command swapped or not: it
-- is pressed or held if the terminal has the device, and acknowledged in any case.
pub handle_with_payload-key :
    (env : Env) (cmd code : ℕ) (payload : Bytes) (k : Key) (d : Device)
    → (cmd ≡ cmd_hht_btn) ⊎ ((cmd ≡ ack_hht_btn) ⊎ ((cmd ≡ 0x6400) ⊎ (cmd ≡ 0x6480)))
    → key_from_code code ≡ some k
    → handle_with_payload env cmd (code ∷ payload) d ≡ send_key (some k) d
unfolding handle_with_payload dispatch normalize_compat is_hht_action handle_hht_action
handle_with_payload-key env cmd code payload k d (inl e) f = rw (e, f)
handle_with_payload-key env cmd code payload k d (inr (inl e)) f = rw (e, f)
handle_with_payload-key env cmd code payload k d (inr (inr (inl e))) f = rw (e, f)
handle_with_payload-key env cmd code payload k d (inr (inr (inr e))) f = rw (e, f)

-- A WB100 is started, then an HHT-3000 without a stop between them: the session of the WB100
-- stays, and the stop closes a session of the HHT-3000 that was never opened.
handle_with_payload_wrong_close :
    (first second third : Env) (d : Device)
    → d.roles.active ≡ no_role
    → d.roles.terminal.running ≡ false
    → d.roles.terminal.task ≡ false
    → (handle_with_payload third cmd_stop_hht_3000 [] (
        handle_with_payload second cmd_start_hht_3000 []
          (handle_with_payload first cmd_start_hht_wb100 [] d))).roles.terminal.calls
      ≡ ((d.roles.terminal.calls ++ open_calls first.link wb100)
          ++ task_call first.link.makes_task ∷ [])
        ++ h3000_close ∷ []
unfolding handle_with_payload dispatch normalize_compat is_hht_action is_start is_stop handle_start
    handle_stop request start_for_role clear hht_start hht_stop send_cmd
handle_with_payload_wrong_close first second third d idle off none_yet = rw (idle, off, none_yet)
