-- ===== src/Hht/Display.antt =====
-- main/core/hht/hht_display.c: the display of the terminal, rebuilt from the bytes that it receives
-- and passed on, a row at a time.
pub mod Cursor
pub mod Rows
use miri_tool_v.Base.{
  ℕ, zero, suc, ◌+◌, ◌-◌, ◌%◌, Bool, true, false, not, ◌&&◌, ◌||◌, Bytes, List, [], ◌∷◌, ◌++◌,
  length, get_or, set, take, drop, replicate, ltb, leb, ◌==◌, if◌then◌else◌, bit_and, min,
}
use miri_tool_v.Hht.{HhtType, wb100, hht_3000, hht_100, count}

-- hht_display_get_rows and hht_display_get_cols
abbrev pub rows_of : HhtType → ℕ
rows_of hht_3000 = 2
rows_of _ = 4

abbrev pub cols_of : HhtType → ℕ
cols_of hht_3000 = 16
cols_of _ = 20

-- A row that is handed to BLE and the console: its number and its 20 characters.
pub record RowSent : Type 0 where
  pub row : ℕ
  pub text : Bytes

-- The static variables: each line has 21 characters, the last a terminating zero. `sent` records
-- the calls of `send_row_to_ble_and_cli`, the latest last.
pub record Display : Type 0 where
  pub lines : List Bytes
  pub last_lines : List Bytes
  pub row : ℕ
  pub col : ℕ
  pub row_dirty : List Bool
  pub sent : List RowSent

abbrev pub line_of : List Bytes → ℕ → Bytes
line_of ls r = get_or ls r []

unfoldable pub display_init : Display → Display
display_init s = record s {
  lines = replicate 4 (replicate 20 b' ' ++ 0 ∷ []);
  last_lines = replicate 4 (replicate 21 0);
}

-- Where an offset of the display's memory is: its row and its column.
pub record Position : Type 0 where
  pub row : ℕ
  pub col : ℕ

unfoldable pub decode_cursor_2x16 : ℕ → Position
decode_cursor_2x16 offset =
    if leb offset 0x0F
    then record { row = 0; col = offset }
    else if leb 0x40 offset && leb offset 0x4F
    then record { row = 1; col = offset - 0x40 }
    else record { row = 0; col = 0 }

unfoldable pub decode_cursor_4x20 : ℕ → Position
decode_cursor_4x20 offset =
    if leb offset 0x13
    then record { row = 0; col = offset }
    else if leb 0x40 offset && leb offset 0x53
    then record { row = 1; col = offset - 0x40 }
    else if leb 0x14 offset && leb offset 0x27
    then record { row = 2; col = offset - 0x14 }
    else if leb 0x54 offset && leb offset 0x67
    then record { row = 3; col = offset - 0x54 }
    else record { row = 0; col = 0 }

abbrev pub decode_cursor : HhtType → ℕ → Position
decode_cursor hht_3000 offset = decode_cursor_2x16 offset
decode_cursor _ offset = decode_cursor_4x20 offset

-- The character at the cursor, and the cursor moved on.
unfoldable pub put_char : HhtType → ℕ → Display → Display
put_char type ch s =
    let wrapped = leb (cols_of type) (s.col + 1) in
    record s {
      lines = set s.lines s.row (set (line_of s.lines s.row) s.col ch);
      row_dirty = set s.row_dirty s.row true;
      col = if wrapped then 0 else s.col + 1;
      row = if wrapped then (s.row + 1) % rows_of type else s.row;
    }

-- One byte of the stream: from 0x80 on it moves the cursor.
unfoldable pub display_byte : HhtType → ℕ → Display → Display
unfolding put_char
display_byte type ch s =
    let at = decode_cursor type (ch - 0x80) in
    if leb 0x80 ch
    then record s { row = at.row; col = at.col }
    else if leb (rows_of type) s.row || leb (cols_of type) s.col
    then s
    else put_char type ch s

unfoldable pub display_bytes : HhtType → Bytes → Display → Display
display_bytes type [] s = s
display_bytes type (ch ∷ chs) s = display_bytes type chs (display_byte type ch s)

-- What `strcmp` and `strcpy` see of an array.
unfoldable pub c_string : Bytes → Bytes
c_string [] = []
c_string (c ∷ cs) = let rest = c_string cs in if c == 0 then [] else c ∷ rest

unfoldable pub same_bytes : Bytes → Bytes → Bool
same_bytes [] [] = true
same_bytes (x ∷ xs) (y ∷ ys) = x == y && same_bytes xs ys
same_bytes _ _ = false

abbrev pub same_string : Bytes → Bytes → Bool
same_string xs ys = same_bytes (c_string xs) (c_string ys)

-- `strcpy` over an array that is long enough.
unfoldable pub strcpy : Bytes → Bytes → Bytes
strcpy old new = c_string new ++ (0 ∷ drop (length (c_string new) + 1) old)

-- `send_row_to_ble_and_cli`: the first `cols` characters of the row, filled up with spaces to 20.
unfoldable pub send_row : HhtType → ℕ → Display → Display
send_row type r s =
    let row : RowSent = record {
      row = r;
      text = take (cols_of type) (line_of s.lines r) ++ replicate (20 - cols_of type) b' ';
    } in
    record s { sent = s.sent ++ row ∷ [] }

-- The loop over the dirty rows: `pushed` says that some row has been sent.
pub record Flushed : Type 0 where
  pub display : Display
  pub pushed : Bool

unfoldable pub flush_row : HhtType → ℕ → Flushed → Flushed
unfolding send_row strcpy
flush_row type r f =
    let s = f.display in
    let line = set (line_of s.lines r) (cols_of type) 0 in
    let clean = record s { row_dirty = set s.row_dirty r false; lines = set s.lines r line } in
    let stored = record clean {
      last_lines = set s.last_lines r (strcpy (line_of s.last_lines r) line);
    } in
    if not (get_or s.row_dirty r false)
    then f
    else if same_string line (line_of s.last_lines r)
    then record f { display = clean }
    else record { display = send_row type r stored; pushed = true }

unfoldable pub flush_rows : HhtType → ℕ → ℕ → Flushed → Flushed
flush_rows type zero r f = f
flush_rows type (suc left) r f = flush_rows type left (r + 1) (flush_row type r f)

-- `hht_display_poll` on the bytes that its read gave, 64 at most: the display, and whether the short
-- key is cancelled.
unfoldable pub display_poll : HhtType → Bytes → Display → Flushed
display_poll type chs s =
    let f =
      flush_rows type (rows_of type) 0
        (record { display = display_bytes type chs s; pushed = false }) in
    if length chs == 0 then record { display = s; pushed = false } else f

-- `isprint` in the C locale.
abbrev pub isprint : ℕ → Bool
isprint c = leb 0x20 c && leb c 0x7E

abbrev printable : Bytes → Bytes
printable [] = []
printable (c ∷ cs) = (if isprint c then c else b' ') ∷ printable cs

-- `hht_display_push_row_ascii` on a source that is given.
unfoldable pub push_row_ascii : HhtType → ℕ → Bytes → Bool → Display → Display
unfolding send_row
push_row_ascii type row src force_ble s =
    let text = printable (take (cols_of type) src) in
    let line =
      text
      ++ (replicate (cols_of type - length text) b' '
          ++ 0 ∷ drop (cols_of type + 1) (line_of s.lines row)) in
    let written = record s { lines = set s.lines row line } in
    let stored = record written {
      last_lines =
          set s.last_lines row
            (take (cols_of type + 1) line ++ drop (cols_of type + 1) (line_of s.last_lines row));
    } in
    if leb (rows_of type) row
    then s
    else if not force_ble && same_string line (line_of s.last_lines row)
    then written
    else send_row type row stored
