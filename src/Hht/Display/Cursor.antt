-- ===== src/Hht/Display/Cursor.antt =====
-- The cursor of the display: where a cursor byte puts it, and where it can be.
use miri_tool_v.Base.{
  ℕ, ◌+◌, ◌-◌, ◌*◌, ◌%◌, ◌<◌, ◌≡◌, Bool, true, false, ◌||◌, Bytes, [], ◌∷◌, arith, ltb, leb,
  if◌then◌else◌,
}
use miri_tool_v.Hht.{HhtType, wb100, hht_3000, hht_100, count}
use miri_tool_v.Hht.Display.{
  Display, rows_of, cols_of, decode_cursor, decode_cursor_2x16, decode_cursor_4x20, put_char,
  display_byte, display_bytes,
}

-- The offset of a position in the memory of the display's controller.
abbrev pub offset_of : HhtType → ℕ → ℕ → ℕ
offset_of hht_3000 row col = row * 0x40 + col
offset_of _ row col = row % 2 * 0x40 + (if ltb row 2 then 0 else 0x14) + col

-- Every position on the display is where the cursor byte for its offset puts the cursor.
pub decode_cursor-offset_of :
    (type : HhtType) (row col : ℕ)
    → row < rows_of type
    → col < cols_of type
    → (offset_of type row col < 0x80)
      × (decode_cursor type (offset_of type row col) ≡ record { row = row; col = col })
unfolding decode_cursor_2x16 decode_cursor_4x20
decode_cursor-offset_of wb100 row col h k = ground arith
decode_cursor-offset_of hht_3000 row col h k = ground arith
decode_cursor-offset_of hht_100 row col h k = ground arith
decode_cursor-offset_of count row col h k = ground arith

-- Every offset gives a position on the display.
decode_cursor_bounds :
    (type : HhtType) (offset : ℕ)
    → ((decode_cursor type offset).row < rows_of type)
      × ((decode_cursor type offset).col < cols_of type)
unfolding decode_cursor_2x16 decode_cursor_4x20
decode_cursor_bounds wb100 offset = ground arith
decode_cursor_bounds hht_3000 offset = ground arith
decode_cursor_bounds hht_100 offset = ground arith
decode_cursor_bounds count offset = ground arith

-- The cursor is on the display.
abbrev pub InBounds : HhtType → Display → Type 0
InBounds type s = (s.row < rows_of type) × (s.col < cols_of type)

put_char-InBounds :
    (type : HhtType) (ch : ℕ) (s : Display) → InBounds type s → InBounds type (put_char type ch s)
unfolding put_char
put_char-InBounds wb100 ch s h = ground arith
put_char-InBounds hht_3000 ch s h = ground arith
put_char-InBounds hht_100 ch s h = ground arith
put_char-InBounds count ch s h = ground arith

display_byte-InBounds :
    (type : HhtType) (ch : ℕ) (s : Display)
    → InBounds type s
    → InBounds type (display_byte type ch s)
unfolding display_byte
display_byte-InBounds type ch s h =
    let moved = decode_cursor_bounds type (ch - 0x80) in
    let put = put_char-InBounds type ch s h in
    go (leb 0x80 ch) (leb (rows_of type) s.row || leb (cols_of type) s.col) moved put
  where
    go :
        (b c : Bool)
        → ((decode_cursor type (ch - 0x80)).row < rows_of type)
          × ((decode_cursor type (ch - 0x80)).col < cols_of type)
        → InBounds type (put_char type ch s)
        → InBounds type (
            if b
            then record s {
              row = (decode_cursor type (ch - 0x80)).row;
              col = (decode_cursor type (ch - 0x80)).col;
            }
            else if c
            then s
            else put_char type ch s)
    go true c moved put = moved
    go false true moved put = h
    go false false moved put = put

-- Whatever bytes the terminal sends, the cursor stays on the display.
pub display_bytes-InBounds :
    (type : HhtType) (chs : Bytes) (s : Display)
    → InBounds type s
    → InBounds type (display_bytes type chs s)
unfolding display_bytes
display_bytes-InBounds type [] s h = h
display_bytes-InBounds type (ch ∷ chs) s h =
    display_bytes-InBounds type chs (display_byte type ch s) (display_byte-InBounds type ch s h)
