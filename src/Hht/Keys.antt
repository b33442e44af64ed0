-- ===== src/Hht/Keys.antt =====
-- main/core/hht/hht_keys.c: the state machine that repeats keys to the terminal, one write a poll.
pub mod Bursts
pub mod Sound
use miri_tool_v.Base.{
  ℕ, zero, suc, ◌+◌, ◌-◌, Bool, true, false, not, ◌&&◌, ◌||◌, Bytes, List, [], ◌∷◌, ◌++◌, ltb, leb,
  ◌==◌, if◌then◌else◌,
}
use miri_tool_v.Hht.{HhtType, wb100, hht_3000, hht_100, count}

abbrev pub key_none : ℕ
key_none = 0x00

abbrev pub key_short_send_count : ℕ
key_short_send_count = 4

-- The static variables of the module, and what has been written to the UART, one entry a call. A
-- tick is taken off a held short key, which has some left, so that a natural number holds them.
pub record Keys : Type 0 where
  pub hold_ticks : ℕ
  pub hold_key : ℕ
  pub hold_active : Bool
  pub hold_long : Bool
  pub release_pending : Bool
  pub release_log_immediate : Bool
  pub press_log_pending : Bool
  pub written : List Bytes

-- The bytes for one key: the HHT-3000 wants a command byte before it.
abbrev pub key_bytes : HhtType → ℕ → Bytes
key_bytes hht_3000 key = 0x02 ∷ key ∷ []
key_bytes _ key = key ∷ []

abbrev pub keys_send_internal : HhtType → ℕ → Keys → Keys
keys_send_internal type key s = record s { written = s.written ++ key_bytes type key ∷ [] }

-- No key is held and no release is due.
abbrev pub released : Keys → Keys
released s = record s {
  hold_ticks = 0;
  hold_key = key_none;
  hold_active = false;
  hold_long = false;
  release_pending = false;
  release_log_immediate = false;
  press_log_pending = false;
}

unfoldable pub keys_init : Keys → Keys
keys_init s = released s

unfoldable pub cancel_short_on_display_change : HhtType → Keys → Keys
cancel_short_on_display_change type s =
    if not s.hold_active || s.hold_long then s else keys_send_internal type key_none (released s)

-- The part of `hht_keys_poll` behind the release.
unfoldable pub poll_held : HhtType → Keys → Keys
poll_held type s =
    let sent = record (keys_send_internal type s.hold_key s) { press_log_pending = false } in
    if not s.hold_active
    then keys_send_internal type key_none s
    else if s.hold_long
    then sent
    else if leb (s.hold_ticks - 1) 0
    then record sent {
      hold_ticks = 0;
      hold_active = false;
      hold_key = key_none;
      release_pending = true;
      release_log_immediate = false;
    }
    else record sent { hold_ticks = s.hold_ticks - 1 }

unfoldable pub keys_poll : HhtType → Keys → Keys
unfolding poll_held
keys_poll type s =
    if s.release_pending && not (s.hold_active && not s.hold_long && ltb 0 s.hold_ticks)
    then keys_send_internal type key_none (released s)
    else poll_held type s

unfoldable pub keys_send : ℕ → Keys → Keys
keys_send key s =
    if key == key_none
    then record s { release_pending = true; release_log_immediate = true }
    else record s {
      release_pending = false;
      release_log_immediate = false;
      hold_key = key;
      hold_ticks = key_short_send_count;
      hold_active = true;
      hold_long = false;
      press_log_pending = true;
    }

unfoldable pub keys_send_long : ℕ → Keys → Keys
keys_send_long key s = if key == key_none then s else record s {
  hold_key = key;
  hold_ticks = 0;
  hold_active = true;
  hold_long = true;
  release_pending = false;
  release_log_immediate = false;
  press_log_pending = false;
}

-- A number of polls with nothing between them.
abbrev pub polls : HhtType → ℕ → Keys → Keys
polls type zero s = s
polls type (suc n) s = polls type n (keys_poll type s)
