-- ===== src/Tests/HhtRuns.antt =====
-- The handheld terminal of main/core/hht on concrete keys and bytes.
use miri_tool_v.Base.{
  ℕ, ◌/◌, ◌%◌, ◌≤◌, ◌≡◌, refl, true, false, Bytes, List, [], ◌∷◌, ◌++◌, arith, replicate,
}
use miri_tool_v.Hht.{wb100, hht_3000}
use miri_tool_v.Hht.Keys.{Keys, key_none, keys_init, keys_send, polls}
use miri_tool_v.Hht.Keys.Bursts.{Burst, polls-keys_send}
use miri_tool_v.Hht.Keys.Sound.{poll, send, handle, IsSound, start, next, Reachable-IsSound}
use miri_tool_v.Hht.Display.{Display, display_bytes}
use miri_tool_v.Hht.Display.Rows.{Shows, display_bytes-text}
use miri_tool_v.Hht.Wb100.{make_seed, make_session, read_session, wb100_session_open, ok}
use miri_tool_v.Hht.Wb100.Crc.{bitwise_step, make_seed-bitwise_step}
use miri_tool_v.Hht.Wb100.Handshake.{concat, wb100_session_open-make_session}
use miri_tool_v.Hht.Report.{read_report_lines, got}
use miri_tool_v.Hht.Report.Lines.{report_of, read_report_lines-report_of}

abbrev up_held : Keys
up_held = record {
  hold_ticks = 3;
  hold_key = 2;
  hold_active = true;
  hold_long = false;
  release_pending = false;
  release_log_immediate = false;
  press_log_pending = false;
  written = (2 ∷ []) ∷ [];
}

polls-keys_send_example :
    Burst hht_3000 4 ((2 ∷ []) ∷ []) (polls hht_3000 5 (keys_send 4 up_held))
    × Burst hht_3000 4
        ((2 ∷ []) ∷ [])
        (polls hht_3000 3 (keys_send key_none (polls hht_3000 2 (keys_send 4 up_held))))
polls-keys_send_example = polls-keys_send hht_3000 4 2 up_held (omega arith) (omega arith)

Reachable-IsSound_example : IsSound (handle wb100 poll (handle wb100 (send 2) (keys_init up_held)))
Reachable-IsSound_example =
    Reachable-IsSound (handle wb100 poll (handle wb100 (send 2) (keys_init up_held))) (
      next wb100 poll (handle wb100 (send 2) (keys_init up_held))
        (next wb100 (send 2) (keys_init up_held) (start up_held)))

abbrev screen : Display
screen = record {
  lines = replicate 4 (replicate 20 b' ' ++ 0 ∷ []);
  last_lines = replicate 4 (replicate 21 0);
  row = 1;
  col = 19;
  row_dirty = replicate 4 false;
  sent = [];
}

display_bytes-text_example :
    Shows 2
      (replicate 5 b' ' ++ ((b'O' ∷ b'K' ∷ []) ++ (replicate 13 b' ' ++ 0 ∷ [])))
      screen
      (display_bytes wb100 (0x99 ∷ b'O' ∷ b'K' ∷ []) screen)
display_bytes-text_example =
    display_bytes-text wb100 2 (b'O' ∷ b'K' ∷ []) (replicate 5 b' ') (replicate 2 b' ')
      (replicate 13 b' ' ++ 0 ∷ []) screen (omega arith) refl (omega arith) refl refl (omega arith)
      (omega arith)

make_seed-bitwise_step_example :
    let sum = bitwise_step (bitwise_step 0xFFFF 0x12) 0x34 in
    make_seed 0x12 0x34 ≡ (sum / 256 % 256) ∷ (sum % 256) ∷ []
make_seed-bitwise_step_example = make_seed-bitwise_step 0x12 0x34

abbrev two_reads : List Bytes
two_reads = (1 ∷ 2 ∷ 0xE1 ∷ []) ∷ [] ∷ (0x81 ∷ 3 ∷ 4 ∷ []) ∷ []

wb100_session_open-make_session_example :
    ((a b c d : ℕ)
      → 3 ≤ 5
      → concat two_reads ≡ make_session a b c d
      → wb100_session_open true two_reads ≡ ok)
    × (wb100_session_open true two_reads ≡ ok
        → (a b c d : ℕ) × (read_session 5 two_reads [] ≡ make_session a b c d))
wb100_session_open-make_session_example = wb100_session_open-make_session two_reads

abbrev sixteen : ℕ → Bytes
sixteen c = replicate 16 c

read_report_lines-report_of_example :
    read_report_lines (report_of (sixteen b'A') (sixteen b'B') ++ 0 ∷ [])
    ≡ got (record { line0 = sixteen b'A'; line1 = sixteen b'B' })
read_report_lines-report_of_example =
    read_report_lines-report_of (sixteen b'A') (sixteen b'B') (0 ∷ []) refl refl (ground arith)
      (ground arith) (omega arith)
