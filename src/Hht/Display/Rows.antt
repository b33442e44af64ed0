-- ===== src/Hht/Display/Rows.antt =====
-- The rows of the display, and a text that arrives behind a cursor byte.
use miri_tool_v.Base.{
  ℕ, zero, suc, ◌+◌, ◌-◌, ◌≤◌, ◌<◌, ◌≡◌, ◌≢◌, refl, sym, ap, subst, ◌∙◌, true, false, Bytes, List,
  [], ◌∷◌, ◌++◌, All, append_assoc, arith, leb, length, set, get_or, length-set, length-append,
}
use miri_tool_v.Hht.{HhtType}
use miri_tool_v.Hht.Display.{
  Display, rows_of, cols_of, put_char, display_byte, display_bytes, line_of,
}
use miri_tool_v.Hht.Display.Cursor.{offset_of, decode_cursor-offset_of}

module _ {ℓ} {A : Type ℓ} where
  get_or-set : (xs : List A) (i : ℕ) (v d : A) → i < length xs → get_or (set xs i v) i d ≡ v
  get_or-set [] i v d h = absurd (omega arith)
  get_or-set (x ∷ xs) zero v d h = refl
  get_or-set (x ∷ xs) (suc i) v d h = get_or-set xs i v d (omega arith)

  get_or-set_ne :
      (xs : List A) (i j : ℕ) (v d : A) → j ≢ i → get_or (set xs i v) j d ≡ get_or xs j d
  get_or-set_ne [] i j v d h = refl
  get_or-set_ne (x ∷ xs) zero zero v d h = absurd (h refl)
  get_or-set_ne (x ∷ xs) zero (suc j) v d h = refl
  get_or-set_ne (x ∷ xs) (suc i) zero v d h = refl
  get_or-set_ne (x ∷ xs) (suc i) (suc j) v d h = get_or-set_ne xs i j v d (omega arith)

  set-append :
      (xs : List A) (y v : A) (ys : List A) → set (xs ++ y ∷ ys) (length xs) v ≡ xs ++ v ∷ ys
  set-append [] y v ys = refl
  set-append (x ∷ xs) y v ys = ap (◌∷◌ x) (set-append xs y v ys)

-- A character before the last column.
display_byte-char :
    (type : HhtType) (ch : ℕ) (s : Display)
    → ch < 0x80
    → s.row < rows_of type
    → s.col < cols_of type
    → display_byte type ch s ≡ put_char type ch s
unfolding display_byte
display_byte-char type ch s h r c =
    let e : leb 0x80 ch ≡ false = ground arith in
    let f : leb (rows_of type) s.row ≡ false = ground arith in
    let g : leb (cols_of type) s.col ≡ false = ground arith in rw (e, f, g)

put_char-line :
    (type : HhtType) (ch y : ℕ) (pre post : Bytes) (s : Display)
    → s.row < length s.lines
    → line_of s.lines s.row ≡ pre ++ y ∷ post
    → s.col ≡ length pre
    → line_of (put_char type ch s).lines s.row ≡ pre ++ ch ∷ post
unfolding put_char
put_char-line type ch y pre post s h e c =
    get_or-set s.lines s.row (set (line_of s.lines s.row) s.col ch) [] h
    ∙ ap (λ l. set l s.col ch) e
    ∙ ap (λ k. set (pre ++ y ∷ post) k ch) c
    ∙ set-append pre y ch post

put_char-cursor :
    (type : HhtType) (ch : ℕ) (s : Display)
    → s.col + 1 < cols_of type
    → ((put_char type ch s).row ≡ s.row) × ((put_char type ch s).col ≡ s.col + 1)
unfolding put_char
put_char-cursor type ch s h =
    let e : leb (cols_of type) (s.col + 1) ≡ false = ground arith in rw e (refl, refl)

put_char-others :
    (type : HhtType) (ch : ℕ) (s : Display)
    → (length (put_char type ch s).lines ≡ length s.lines)
      × ((r : ℕ) → r ≢ s.row → line_of (put_char type ch s).lines r ≡ line_of s.lines r)
unfolding put_char
put_char-others type ch s = (
  length-set s.lines s.row (set (line_of s.lines s.row) s.col ch),
  λ r h. get_or-set_ne s.lines s.row r (set (line_of s.lines s.row) s.col ch) [] h,
)

-- `row` shows `line`, and the other rows are as before.
abbrev pub Shows : ℕ → Bytes → Display → Display → Type 0
Shows row line before after =
    (line_of after.lines row ≡ line)
    × ((r : ℕ) → r ≢ row → line_of after.lines r ≡ line_of before.lines r)

-- a text that is put from the cursor on, up to the end of the row at most
display_bytes-line :
    (type : HhtType) (text pre old post : Bytes) (row : ℕ) (s : Display)
    → s.row ≡ row
    → s.row < rows_of type
    → s.row < length s.lines
    → line_of s.lines row ≡ pre ++ (old ++ post)
    → s.col ≡ length pre
    → length old ≡ length text
    → length pre + length text ≤ cols_of type
    → All (λ ch. ch < 0x80) text
    → Shows row (pre ++ (text ++ post)) s (display_bytes type text s)
unfolding display_bytes
display_bytes-line type [] pre [] post row s e r n l c k fits plain = (l, λ r h. refl)
display_bytes-line type [] pre (o ∷ old) post row s e r n l c k fits plain = absurd (omega arith)
display_bytes-line type (ch ∷ text) pre [] post row s e r n l c k fits plain = absurd (omega arith)
display_bytes-line type (ch ∷ []) pre (o ∷ []) post row s e r n l c k fits plain =
    rw (display_byte-char type ch s plain.0 r (omega arith)) (
      rw (← e) (put_char-line type ch o pre post s n (rw e l) c),
      λ q h. (put_char-others type ch s).1 q (rw e h),
    )
display_bytes-line type (ch ∷ []) pre (o ∷ p ∷ old) post row s e r n l c k fits plain =
    absurd (omega arith)
display_bytes-line type (ch ∷ d ∷ text) pre (o ∷ old) post row s e r n l c k fits plain =
    let t = put_char type ch s in
    let cursor = put_char-cursor type ch s (omega arith) in
    let others = put_char-others type ch s in
    let placed : line_of t.lines row ≡ (pre ++ ch ∷ []) ++ (old ++ post) =
      rw (← e) (put_char-line type ch o pre (old ++ post) s n (rw e l) c)
      ∙ sym (append_assoc pre (ch ∷ []) (old ++ post)) in
    let ih =
      display_bytes-line type (d ∷ text) (pre ++ ch ∷ []) old post row t (cursor.0 ∙ e)
        (rw cursor.0 r) (rw (cursor.0, others.0) n) placed
        (omega (arith, length-append pre (ch ∷ []), cursor.1)) (omega arith)
        (omega (arith, length-append pre (ch ∷ []))) plain.1 in
    subst (λ u. Shows row (pre ++ ((ch ∷ d ∷ text) ++ post)) s (display_bytes type (d ∷ text) u))
      (sym (display_byte-char type ch s plain.0 r (omega arith)))
      (
        ih.0 ∙ append_assoc pre (ch ∷ []) ((d ∷ text) ++ post),
        λ q h. ih.1 q h ∙ others.1 q (rw e h),
      )

rows_of_le : (type : HhtType) → rows_of type ≤ 4
rows_of_le HhtType.wb100 = omega arith
rows_of_le HhtType.hht_3000 = omega arith
rows_of_le HhtType.hht_100 = omega arith
rows_of_le HhtType.count = omega arith

display_byte-cursor :
    (type : HhtType) (row col : ℕ) (s : Display)
    → row < rows_of type
    → col < cols_of type
    → display_byte type (0x80 + offset_of type row col) s ≡ record s { row = row; col = col }
unfolding display_byte
display_byte-cursor type row col s r c =
    let there = decode_cursor-offset_of type row col r c in
    let e : leb 0x80 (0x80 + offset_of type row col) ≡ true = ground arith in
    let f : 0x80 + offset_of type row col - 0x80 ≡ offset_of type row col = omega arith in
    rw (e, f, there.1)

-- A cursor byte for a position on the display and a text that fits the row behind it: the text
-- stands in that row from that column on, the rest of the row and the other rows are unchanged.
pub display_bytes-text :
    (type : HhtType) (row : ℕ) (text pre old post : Bytes) (s : Display)
    → row < rows_of type
    → length s.lines ≡ 4
    → length pre < cols_of type
    → line_of s.lines row ≡ pre ++ (old ++ post)
    → length old ≡ length text
    → length pre + length text ≤ cols_of type
    → All (λ ch. ch < 0x80) text
    → Shows row
        (pre ++ (text ++ post))
        s
        (display_bytes type ((0x80 + offset_of type row (length pre)) ∷ text) s)
unfolding display_bytes
display_bytes-text type row text pre old post s r n room l k fits plain =
    subst (λ u. Shows row (pre ++ (text ++ post)) s (display_bytes type text u))
      (sym (display_byte-cursor type row (length pre) s r room))
      (display_bytes-line type text pre old post row (record s { row = row; col = length pre }) refl
        r (let m = rows_of_le type in omega arith) l refl k fits plain)
