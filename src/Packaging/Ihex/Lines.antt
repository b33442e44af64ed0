-- ===== src/Packaging/Ihex/Lines.antt =====
-- One line of an Intel HEX file: the tests that it passes, and what its checksum decides.
use miri_tool_v.Base.{
  ℕ, ◌+◌, ◌-◌, ◌*◌, ◌/◌, ◌%◌, ◌≤◌, ◌<◌, ◌≡◌, ap, sym, ◌∙◌, Bytes, [], ◌∷◌, ◌++◌, All, AreBytes,
  some, length, AreBytes-append, le→ltb, ◌==◌, if◌then◌else◌, u8, arith, length-append, take, drop,
  take_all,
}
use miri_tool_v.Packaging.Ihex.{bad, checked_action, line_action, sum_pairs, strlen}
use miri_tool_v.Packaging.Ihex.Hex.{
  hex_chars, hex_byte-digit, hex_chars-IsPlain, length-hex_chars, sum8, sum_pairs-hex_chars,
  strlen_plain, IsPlain,
}
use miri_tool_v.Packaging.Ihex.Records.{
  Record, Fits, address_of, type_of, block_of, header_of, checksum_of, line_with, meaning,
  block_of-AreBytes, header_of_bounds, sum8-append, sum8-lt, record_action_lem,
}

line_bytes-AreBytes :
    (r : Record) (c : ℕ) → Fits r → c < 256 → AreBytes (header_of r ++ (block_of r ++ c ∷ []))
line_bytes-AreBytes r c h b =
    let bounds = header_of_bounds r h in
    let tail : AreBytes (block_of r ++ c ∷ []) =
      AreBytes-append (block_of r) (c ∷ []) (block_of-AreBytes r h) (b, tt) in
    (omega arith, (omega arith, (omega arith, (bounds.2, tail))))

pub line_with-IsPlain : (r : Record) (c : ℕ) → Fits r → c < 256 → All IsPlain (line_with c r)
unfolding line_with
line_with-IsPlain r c h b = (
  ground arith,
  hex_chars-IsPlain (header_of r ++ (block_of r ++ c ∷ [])) (line_bytes-AreBytes r c h b),
)

pub length-line_with : (r : Record) (c : ℕ) → length (line_with c r) ≡ 11 + 2 * length (block_of r)
unfolding line_with
length-line_with r c =
    omega (arith, length-hex_chars (block_of r ++ c ∷ []), length-append (block_of r) (c ∷ []))

strlen-line_with :
    (r : Record) (c : ℕ) → Fits r → c < 256 → strlen (line_with c r) ≡ 11 + 2 * length (block_of r)
strlen-line_with r c h b =
    strlen_plain (line_with c r) (line_with-IsPlain r c h b) ∙ length-line_with r c

sum_pairs-line_with :
    (r : Record) (c : ℕ)
    → Fits r
    → c < 256
    → sum_pairs (drop 1 (take (strlen (line_with c r)) (line_with c r))) 0
      ≡ some (u8 (sum8 0 (header_of r ++ block_of r) + c))
sum_pairs-line_with r c h b =
    rw
      (
        strlen-line_with r c h b ∙ sym (length-line_with r c),
        take_all (length (line_with c r)) (line_with c r) (omega arith),
      )
      (unfold line_with in
        sum_pairs-hex_chars (header_of r ++ (block_of r ++ c ∷ [])) 0 (line_bytes-AreBytes r c h b)
        ∙ ap some (sum8-append (header_of r ++ block_of r) 0 c))

checksum_decides : (s c : ℕ) → s < 256 → c < 256 → (u8 (s + c) == 0) ≡ (c == u8 (256 - s))
checksum_decides s c h b = ground arith

line_action-header :
    (base count hi lo kind : ℕ) (tail : Bytes)
    → count < 256
    → hi < 256
    → lo < 256
    → kind < 256
    → let text = b':' ∷ hex_chars (count ∷ hi ∷ lo ∷ kind ∷ tail) in
      (11 ≤ strlen text)
      → line_action base text ≡ checked_action base text count (hi * 256 + lo) kind
unfolding line_action
line_action-header base count hi lo kind tail a b c d e =
    ground (
      arith,
      hex_byte-digit count a,
      hex_byte-digit hi b,
      hex_byte-digit lo c,
      hex_byte-digit kind d,
    )

checked :
    (r : Record) (base c : ℕ)
    → Fits r
    → c < 256
    → checked_action base
        (line_with c r)
        (length (block_of r))
        (address_of r / 256 * 256 + address_of r % 256)
        (type_of r)
      ≡ (if c == checksum_of r then meaning base r else bad)
unfolding checked_action
checked r base c h b =
    let addr : address_of r / 256 * 256 + address_of r % 256 ≡ address_of r = omega arith in
    let total = sum8-lt (header_of r ++ block_of r) 0 (omega arith) in
    rw (
      addr,
      sum_pairs-line_with r c h b,
      le→ltb (strlen (line_with c r)) (9 + length (block_of r) * 2 + 2)
          (omega (arith, strlen-line_with r c h b)),
      checksum_decides (sum8 0 (header_of r ++ block_of r)) c total b,
      record_action_lem r base c h b,
    )

-- A line that a writer could print, but for its checksum, which is any byte `c`: it has the
-- meaning of its record if `c` is the right checksum, and is refused otherwise.
pub line_action-line_with :
    (r : Record) (base c : ℕ)
    → Fits r
    → c < 256
    → line_action base (line_with c r) ≡ (if c == checksum_of r then meaning base r else bad)
unfolding line_with
line_action-line_with r base c h b =
    let bounds = header_of_bounds r h in
    let n = strlen-line_with r c h b in
    line_action-header base (length (block_of r)) (address_of r / 256) (address_of r % 256)
      (type_of r) (block_of r ++ c ∷ []) (omega arith) (omega arith) (omega arith) bounds.2
      (omega arith)
    ∙ checked r base c h b
