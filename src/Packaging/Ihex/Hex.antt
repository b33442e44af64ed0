-- ===== src/Packaging/Ihex/Hex.antt =====
-- Pairs of hexadecimal digits, as a writer prints bytes, read back by `hex_byte` and its loops.
use miri_tool_v.Base.{
  ℕ, zero, suc, ◌+◌, ◌-◌, ◌*◌, ◌/◌, ◌%◌, ◌<◌, ◌≡◌, ◌≢◌, refl, Bytes, [], ◌∷◌, ◌++◌, All, AreBytes,
  some, length, append-nil, append_assoc, ltb, if◌then◌else◌, u8, arith, Bool, true, false,
}
use miri_tool_v.Packaging.Ihex.{hex_nibble, hex_byte, sum_pairs, read_pairs, read_chars, strlen}

unfoldable pub digit : ℕ → ℕ
digit n = if ltb n 10 then b'0' + n else b'A' + (n - 10)

abbrev pub hex_chars : Bytes → Bytes
hex_chars [] = []
hex_chars (v ∷ vs) = digit (v / 16) ∷ digit (v % 16) ∷ hex_chars vs

-- a character of a line: neither a line end nor the terminating zero
abbrev pub IsPlain : ℕ → Type 0
IsPlain c = (c ≢ 0) × (c ≢ b'\r') × (c ≢ b'\n')

digit-IsPlain : (n : ℕ) → n < 16 → IsPlain (digit n)
unfolding digit
digit-IsPlain n h = ground arith

hex_nibble-digit : (n : ℕ) → n < 16 → hex_nibble (digit n) ≡ some n
unfolding hex_nibble digit
hex_nibble-digit n h = ground arith

pub hex_byte-digit : (v : ℕ) → v < 256 → hex_byte (digit (v / 16)) (digit (v % 16)) ≡ some v
unfolding hex_byte
hex_byte-digit v h =
    ground (arith, hex_nibble-digit (v / 16) (omega arith), hex_nibble-digit (v % 16) (omega arith))

pub hex_chars-IsPlain : (vs : Bytes) → AreBytes vs → All IsPlain (hex_chars vs)
hex_chars-IsPlain [] h = tt
hex_chars-IsPlain (v ∷ vs) h = (
  digit-IsPlain (v / 16) (omega arith),
  (digit-IsPlain (v % 16) (omega arith), hex_chars-IsPlain vs h.1),
)

pub length-hex_chars : (vs : Bytes) → length (hex_chars vs) ≡ 2 * length vs
length-hex_chars [] = refl
length-hex_chars (v ∷ vs) = omega (arith, length-hex_chars vs)

-- the 8-bit sum, as the checksum loop forms it
abbrev pub sum8 : ℕ → Bytes → ℕ
sum8 a [] = a
sum8 a (v ∷ vs) = sum8 (u8 (a + v)) vs

pub sum_pairs-hex_chars :
    (vs : Bytes) (a : ℕ) → AreBytes vs → sum_pairs (hex_chars vs) a ≡ some (sum8 a vs)
unfolding sum_pairs
sum_pairs-hex_chars [] a h = refl
sum_pairs-hex_chars (v ∷ vs) a h =
    ground (arith, hex_byte-digit v h.0, sum_pairs-hex_chars vs (u8 (a + v)) h.1)

pub read_pairs-hex_chars :
    (vs ws : Bytes) → AreBytes vs → read_pairs (length vs) (hex_chars (vs ++ ws)) ≡ some vs
unfolding read_pairs
read_pairs-hex_chars [] ws h = refl
read_pairs-hex_chars (v ∷ vs) ws h =
    ground (arith, hex_byte-digit v h.0, read_pairs-hex_chars vs ws h.1)

pub strlen_plain : (cs : Bytes) → All IsPlain cs → strlen cs ≡ length cs
unfolding strlen
strlen_plain [] h = refl
strlen_plain (c ∷ cs) h = ground (arith, strlen_plain cs h.1)

-- the two line ends: CR LF and LF
abbrev pub line_end : Bool → Bytes
line_end true = b'\r' ∷ b'\n' ∷ []
line_end false = b'\n' ∷ []

-- A line of at most 254 characters is read whole, and its end is consumed.
pub read_chars-line_end :
    (cs rest text : Bytes) (room : ℕ) (crlf : Bool)
    → All IsPlain cs
    → length cs < room
    → read_chars (cs ++ (line_end crlf ++ rest)) room text
      ≡ record { text = text ++ cs; rest = rest; eof = false }
unfolding read_chars
read_chars-line_end cs rest text zero crlf h fits = absurd (omega arith)
read_chars-line_end [] rest text (suc room) true h fits = rw append-nil
read_chars-line_end [] rest text (suc room) false h fits = rw append-nil
read_chars-line_end (c ∷ cs) rest text (suc room) crlf h fits = ground (
  arith,
  append_assoc text (c ∷ []) cs,
  read_chars-line_end cs rest (text ++ c ∷ []) room crlf h.1,
)
