-- ===== src/Hht/Report.antt =====
-- main/core/hht/hht_3000.c: the report of the HHT-3000, a line of text for each row of its display.
pub mod Lines
use miri_tool_v.Base.{
  ℕ, zero, suc, ◌+◌, ◌-◌, Bool, true, false, not, ◌&&◌, Bytes, List, [], ◌∷◌, ◌++◌, Option, none,
  some, length, take, drop, ltb, leb, ◌==◌, if◌then◌else◌, Outcome, done, failed, fault, ◌>>=◌,
  esp_fail,
}
use miri_tool_v.Hht.{HhtType, hht_3000}
use miri_tool_v.Hht.Display.{Display, c_string, isprint, push_row_ascii}

abbrev pub line_len : ℕ
line_len = 16

-- REPORT_PREFIX0, REPORT_PREFIX1 and REPORT_SUFFIX
abbrev pub report_prefix0 : Bytes
report_prefix0 = b'0' ∷ b':' ∷ []

abbrev pub report_prefix1 : Bytes
report_prefix1 = b'\r' ∷ b'\n' ∷ b'1' ∷ b':' ∷ []

abbrev pub report_suffix : Bytes
report_suffix = b'\r' ∷ b'\n' ∷ []

unfoldable pub starts_with : Bytes → Bytes → Bool
starts_with [] hay = true
starts_with (x ∷ xs) [] = false
starts_with (x ∷ xs) (y ∷ ys) = x == y && starts_with xs ys

-- `strstr` for a needle: what stands from its first match on.
unfoldable pub strstr : Bytes → Bytes → Option Bytes
strstr needle [] = if starts_with needle [] then some [] else none
strstr needle (y ∷ ys) =
    let later = strstr needle ys in if starts_with needle (y ∷ ys) then some (y ∷ ys) else later

-- The loop that replaces what is not printable.
unfoldable pub blanked : Bytes → Bytes
blanked [] = []
blanked (c ∷ cs) = (if isprint c then c else b' ') ∷ blanked cs

-- `line0` and `line1`
pub record Report : Type 0 where
  pub line0 : Bytes
  pub line1 : Bytes

-- The line between `q` and `r`.
unfoldable pub line_between : Bytes → Bytes → Option Bytes
line_between q r =
    if ltb (length q - length r) line_len then none else some (blanked (take line_len q))

abbrev pub then_some {ℓ κ} : {A : Type ℓ} {B : Type κ} → Option A → (A → Option B) → Option B
then_some none f = none
then_some (some a) f = f a

unfoldable pub parse_report : Bytes → Option Report
parse_report p = then_some (strstr report_prefix0 p) λ q0.
    let q = drop (length report_prefix0) q0 in
    then_some (strstr report_prefix1 q) λ r. then_some (line_between q r) λ line0.
      let q1 = drop (length report_prefix1) r in
      then_some (strstr report_suffix q1)
        λ r1. then_some (line_between q1 r1) λ line1. some (record { line0 = line0; line1 = line1 })

-- The report that is read, if there is one; the zero behind the bytes is written into `buf`.
pub data Reading : Type 0 where
  got : Report → Reading
  nothing : Reading
  overrun : Reading

abbrev reading_of : Option Report → Reading
reading_of none = nothing
reading_of (some r) = got r

-- `hht_3000_read_report_lines` on the bytes that its read gave, 96 at most.
unfoldable pub read_report_lines : Bytes → Reading
read_report_lines read =
    let parsed = reading_of (parse_report (c_string read)) in
    if length read == 0 then nothing else if ltb (length read) 96 then parsed else overrun

-- What `hht_3000_poll` does with a reading.
unfoldable pub show_reading : Reading → Display → Outcome Display
show_reading (got r) s =
    done (push_row_ascii hht_3000 1 r.line1 false (push_row_ascii hht_3000 0 r.line0 false s))
show_reading nothing s = done s
show_reading overrun s = fault

-- What `hht_3000_ble_sync_initial` does with one: without a report it shows blank rows.
abbrev pub blank16 : Bytes
blank16 =
    b' ' ∷ b' ' ∷ b' ' ∷ b' ' ∷ b' ' ∷ b' ' ∷ b' ' ∷ b' ' ∷ b' ' ∷ b' ' ∷ b' ' ∷ b' ' ∷ b' ' ∷ b' '
    ∷ b' ' ∷ b' ' ∷ []

unfoldable pub sync_initial : Reading → Display → Outcome Display
sync_initial (got r) s =
    done (push_row_ascii hht_3000 1 r.line1 true (push_row_ascii hht_3000 0 r.line0 true s))
sync_initial nothing s =
    done (push_row_ascii hht_3000 1 blank16 true (push_row_ascii hht_3000 0 blank16 true s))
sync_initial overrun s = fault
