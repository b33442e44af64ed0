-- ===== src/Hht/Report/Lines.antt =====
-- Reports as the HHT-3000 writes them, and the bound on their length.
use miri_tool_v.Base.{
  ℕ, ◌+◌, ◌-◌, ◌<◌, ◌≡◌, ◌≢◌, refl, ap, ◌∙◌, true, false, Bytes, [], ◌∷◌, ◌++◌, All, append_assoc,
  some, length, length-append, take-append, ltb, ◌==◌, arith,
}
use miri_tool_v.Hht.Display.{c_string, isprint}
use miri_tool_v.Hht.Report.{
  got, overrun, line_len, report_prefix0, report_prefix1, report_suffix, starts_with, strstr,
  blanked, line_between, parse_report, read_report_lines,
}

abbrev pub AllPrint : Bytes → Type 0
AllPrint = All (λ c. isprint c ≡ true)

-- The report that shows two lines.
abbrev pub report_of : Bytes → Bytes → Bytes
report_of l0 l1 = report_prefix0 ++ (l0 ++ (report_prefix1 ++ (l1 ++ report_suffix)))

blanked-AllPrint : (cs : Bytes) → AllPrint cs → blanked cs ≡ cs
unfolding blanked
blanked-AllPrint [] h = refl
blanked-AllPrint (c ∷ cs) h = rw (h.0, blanked-AllPrint cs h.1)

-- a text without a carriage return, before a needle that begins with one
strstr_skips :
    (text needle rest : Bytes)
    → AllPrint text
    → starts_with (b'\r' ∷ needle) (b'\r' ∷ rest) ≡ true
    → strstr (b'\r' ∷ needle) (text ++ b'\r' ∷ rest) ≡ some (b'\r' ∷ rest)
unfolding strstr
strstr_skips [] needle rest h m = rw m
strstr_skips (c ∷ cs) needle rest h m =
    let other : starts_with (b'\r' ∷ needle) (c ∷ (cs ++ b'\r' ∷ rest)) ≡ false =
      unfold starts_with in (let e : (b'\r' == c) ≡ false = not_return c h.0 in rw e) in
    rw other (strstr_skips cs needle rest h.1 m)
  where
    not_return : (c : ℕ) → isprint c ≡ true → (b'\r' == c) ≡ false
    not_return c e = ground arith

line_between-append :
    (line rest : Bytes)
    → length line ≡ line_len
    → AllPrint line
    → line_between (line ++ rest) rest ≡ some line
unfolding line_between
line_between-append line rest n h =
    let long : ltb (length (line ++ rest) - length rest) line_len ≡ false =
      ground (arith, length-append line rest) in
    rw (long, ← n, take-append line rest, blanked-AllPrint line h)

pub c_string-append :
    (xs rest : Bytes) → All (λ c. c ≢ 0) xs → c_string (xs ++ rest) ≡ xs ++ c_string rest
unfolding c_string
c_string-append [] rest h = refl
c_string-append (x ∷ xs) rest h =
    let e : (x == 0) ≡ false = ground arith in rw (e, c_string-append xs rest h.1)

All-append :
    (xs ys : Bytes) → All (λ c. c ≢ 0) xs → All (λ c. c ≢ 0) ys → All (λ c. c ≢ 0) (xs ++ ys)
All-append [] ys h k = k
All-append (x ∷ xs) ys h k = (h.0, All-append xs ys h.1 k)

AllPrint-nonzero : (xs : Bytes) → AllPrint xs → All (λ c. c ≢ 0) xs
AllPrint-nonzero [] h = tt
AllPrint-nonzero (x ∷ xs) h = (ground arith, AllPrint-nonzero xs h.1)

parse_report-report_of :
    (l0 l1 rest : Bytes)
    → length l0 ≡ line_len
    → length l1 ≡ line_len
    → AllPrint l0
    → AllPrint l1
    → parse_report (report_prefix0 ++ (l0 ++ (report_prefix1 ++ (l1 ++ (report_suffix ++ rest)))))
      ≡ some (record { line0 = l0; line1 = l1 })
unfolding parse_report starts_with
parse_report-report_of l0 l1 rest n m p q =
    let behind0 = report_prefix1 ++ (l1 ++ (report_suffix ++ rest)) in
    let behind1 = report_suffix ++ rest in
    let first : strstr report_prefix0 (report_prefix0 ++ (l0 ++ behind0))
        ≡ some (report_prefix0 ++ (l0 ++ behind0)) =
      unfold strstr in refl in
    rw (
      first,
      strstr_skips l0 (b'\n' ∷ b'1' ∷ b':' ∷ []) (b'\n' ∷ b'1' ∷ b':' ∷ (l1 ++ behind1)) p
          (unfold starts_with in refl),
      line_between-append l0 behind0 n p,
      strstr_skips l1 (b'\n' ∷ []) (b'\n' ∷ rest) q (unfold starts_with in refl),
      line_between-append l1 behind1 m q,
    )

report_of-append :
    (l0 l1 rest : Bytes)
    → report_of l0 l1 ++ rest
      ≡ report_prefix0 ++ (l0 ++ (report_prefix1 ++ (l1 ++ (report_suffix ++ rest))))
report_of-append l0 l1 rest =
    ap (λ xs. report_prefix0 ++ xs)
      (append_assoc l0 (report_prefix1 ++ (l1 ++ report_suffix)) rest
        ∙ ap (λ xs. l0 ++ (report_prefix1 ++ xs)) (append_assoc l1 report_suffix rest))

report_of-nonzero : (l0 l1 : Bytes) → AllPrint l0 → AllPrint l1 → All (λ c. c ≢ 0) (report_of l0 l1)
report_of-nonzero l0 l1 p q =
    All-append report_prefix0 (l0 ++ (report_prefix1 ++ (l1 ++ report_suffix))) (omega arith) (
      All-append l0 (report_prefix1 ++ (l1 ++ report_suffix)) (AllPrint-nonzero l0 p) (
        All-append report_prefix1 (l1 ++ report_suffix) (omega arith)
          (All-append l1 report_suffix (AllPrint-nonzero l1 q) (omega arith))))

-- A report of two lines with 16 printable characters each is read back, whatever bytes follow it in
-- the same read, as long as the read is shorter than its buffer of 96.
pub read_report_lines-report_of :
    (l0 l1 rest : Bytes)
    → length l0 ≡ line_len
    → length l1 ≡ line_len
    → AllPrint l0
    → AllPrint l1
    → length rest < 56
    → read_report_lines (report_of l0 l1 ++ rest) ≡ got (record { line0 = l0; line1 = l1 })
unfolding read_report_lines
read_report_lines-report_of l0 l1 rest n m p q short =
    let len : length (report_of l0 l1 ++ rest) ≡ 40 + length rest = omega (
      arith,
      length-append l0 (report_prefix1 ++ (l1 ++ report_suffix)),
      length-append l1 report_suffix,
      length-append (report_of l0 l1) rest,
    ) in
    let some_bytes : (length (report_of l0 l1 ++ rest) == 0) ≡ false = ground arith in
    let room : ltb (length (report_of l0 l1 ++ rest)) 96 ≡ true = ground arith in
    rw (
      some_bytes,
      room,
      c_string-append (report_of l0 l1) rest (report_of-nonzero l0 l1 p q),
      report_of-append l0 l1 (c_string rest),
      parse_report-report_of l0 l1 (c_string rest) n m p q,
    )

-- A read that fills the buffer of 96 bytes, whatever they are, has the terminating zero written
-- behind the buffer.
pub read_report_lines_overrun : (read : Bytes) → length read ≡ 96 → read_report_lines read ≡ overrun
unfolding read_report_lines
read_report_lines_overrun read n = rw n
