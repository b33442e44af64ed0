-- ===== src/Hht/Keys/Sound.antt =====
-- The events that reach the keys, in any order, and what always holds of their state.
use miri_tool_v.Base.{
  ℕ, ◌≤◌, ◌<◌, ◌≡◌, ◌≢◌, Bool, true, false, not, ◌&&◌, [], ◌∷◌, ◌++◌, arith, ltb, if◌then◌else◌,
}
use miri_tool_v.Hht.{HhtType}
use miri_tool_v.Hht.Keys.{
  Keys, key_none, key_bytes, released, keys_init, cancel_short_on_display_change, keys_poll,
  poll_held, keys_send, keys_send_long,
}

-- The calls that the task, the BLE and console commands and the display make.
pub data Event : Type 0 where
  poll display_change : Event
  send send_long : ℕ → Event

abbrev pub handle : HhtType → Event → Keys → Keys
handle type poll s = keys_poll type s
handle type display_change s = cancel_short_on_display_change type s
handle type (send key) s = keys_send key s
handle type (send_long key) s = keys_send_long key s

-- A held key is a key, and a short one has one to four writes left; a release never waits behind a
-- long key that is not held.
pub record IsSound (s : Keys) : Type 0 where
  pub some_key : s.hold_active ≡ true → s.hold_key ≢ key_none
  pub some_ticks :
      s.hold_active ≡ true → s.hold_long ≡ false → (0 < s.hold_ticks) × (s.hold_ticks ≤ 4)
  pub long_is_held : s.hold_long ≡ true → s.hold_active ≡ true

released-IsSound : (s : Keys) → IsSound (released s)
released-IsSound s = record { some_key = λ e. cc; some_ticks = λ e f. cc; long_is_held = λ e. cc }

poll_held-IsSound : (type : HhtType) (s : Keys) → IsSound s → IsSound (poll_held type s)
unfolding poll_held
poll_held-IsSound type s h = record {
  some_key = let k = h.some_key in grind arith;
  some_ticks = let k = h.some_ticks in grind arith;
  long_is_held = let k = h.long_is_held in grind arith;
}

keys_poll-IsSound : (type : HhtType) (s : Keys) → IsSound s → IsSound (keys_poll type s)
unfolding keys_poll
keys_poll-IsSound type s h =
    go (s.release_pending && not (s.hold_active && not s.hold_long && ltb 0 s.hold_ticks))
  where
    go :
        (b : Bool)
        → IsSound (
            if b
            then record (released s) { written = s.written ++ key_bytes type key_none ∷ [] }
            else poll_held type s)
    go true = record { some_key = λ e. cc; some_ticks = λ e f. cc; long_is_held = λ e. cc }
    go false = poll_held-IsSound type s h

handle-IsSound :
    (type : HhtType) (event : Event) (s : Keys) → IsSound s → IsSound (handle type event s)
unfolding cancel_short_on_display_change keys_send keys_send_long
handle-IsSound type poll s h = keys_poll-IsSound type s h
handle-IsSound type display_change s h = record {
  some_key = let k = h.some_key in grind arith;
  some_ticks = let k = h.some_ticks in grind arith;
  long_is_held = let k = h.long_is_held in grind arith;
}
handle-IsSound type (send key) s h = record {
  some_key = let k = h.some_key in grind arith;
  some_ticks = let k = h.some_ticks in grind arith;
  long_is_held = let k = h.long_is_held in grind arith;
}
handle-IsSound type (send_long key) s h = record {
  some_key = let k = h.some_key in grind arith;
  some_ticks = let k = h.some_ticks in grind arith;
  long_is_held = let k = h.long_is_held in grind arith;
}

-- The states that the keys reach from the initial one, whatever the terminal's type at each event.
pub data Reachable : Keys → Type 0 where
  start : (s : Keys) → Reachable (keys_init s)
  next : (type : HhtType) (event : Event) (s : Keys) → Reachable s → Reachable (handle type event s)

-- In every state that the keys reach, a held key is not the release code, a held short key has one
-- to four writes left, and no key is marked long without being held.
pub Reachable-IsSound : (s : Keys) → Reachable s → IsSound s
unfolding keys_init
Reachable-IsSound _ (start s) = released-IsSound s
Reachable-IsSound _ (next type event s r) = handle-IsSound type event s (Reachable-IsSound s r)
