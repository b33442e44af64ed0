-- ===== src/Packaging/Ihex.antt =====
-- `process_ihex`, with `read_line`, `hex_nibble` and `hex_byte`.
pub mod Hex
pub mod Records
pub mod File
pub mod Lines
use miri_tool_v.Base.{
  ℕ, zero, suc, ◌+◌, ◌-◌, ◌*◌, Bool, true, false, not, ◌&&◌, ◌||◌, Bytes, [], ◌∷◌, ◌++◌, Option,
  none, some, length, take, drop, get_or, ltb, leb, ◌==◌, if◌then◌else◌, u8, u32, Outcome, done,
  failed, fault, ◌>>=◌, esp_fail,
}
use miri_tool_v.Packaging.Defs.{Sink}

-- What `read_line` leaves: the characters in `buf`, the rest of the file and the `eof` flag.
pub record Line : Type 0 where
  pub text : Bytes
  pub rest : Bytes
  pub eof : Bool

-- The loop of `read_line`: `room` characters still fit below the terminating zero.
unfoldable pub read_chars : Bytes → ℕ → Bytes → Line
read_chars rest zero text = record { text = text; rest = rest; eof = false }
read_chars [] (suc room) text = record { text = text; rest = []; eof = true }
read_chars (c ∷ cs) (suc room) text =
    let skipped = read_chars cs (suc room) text in
    let taken = read_chars cs room (text ++ c ∷ []) in
    if c == b'\r'
    then skipped
    else if c == b'\n'
    then record { text = text; rest = cs; eof = false }
    else taken

unfoldable pub hex_nibble : ℕ → Option ℕ
hex_nibble c =
    if leb b'0' c && leb c b'9'
    then some (c - b'0')
    else if leb b'a' c && leb c b'f'
    then some (10 + (c - b'a'))
    else if leb b'A' c && leb c b'F'
    then some (10 + (c - b'A'))
    else none

-- Both nibbles are below 16, so `(hi << 4) | lo` is a sum.
unfoldable pub hex_byte : ℕ → ℕ → Option ℕ
unfolding hex_nibble
hex_byte a b = elim (hex_nibble a) [
  | none ↦ none
  | some hi ↦ elim (hex_nibble b) [ none ↦ none | some lo ↦ some (hi * 16 + lo) ]
]

-- `hex_byte(&lr.buf[i], …)`; behind the text stands its terminating zero.
abbrev pub hex_byte_at : Bytes → ℕ → Option ℕ
hex_byte_at text i = hex_byte (get_or text i 0) (get_or text (i + 1) 0)

-- `strlen`
unfoldable pub strlen : Bytes → ℕ
strlen [] = 0
strlen (c ∷ cs) = if c == 0 then 0 else suc (strlen cs)

-- The checksum loop, over the characters behind the colon; an odd last one is not looked at.
unfoldable pub sum_pairs : Bytes → ℕ → Option ℕ
sum_pairs (a ∷ b ∷ cs) sum = elim (hex_byte a b) [
  | none ↦ none
  | some v ↦ sum_pairs cs (u8 (sum + v))
]
sum_pairs _ sum = some sum

-- The loop that fills `data`.
unfoldable pub read_pairs : ℕ → Bytes → Option Bytes
read_pairs zero cs = some []
read_pairs (suc n) (a ∷ b ∷ cs) = elim (hex_byte a b) [
  | none ↦ none
  | some v ↦ elim (read_pairs n cs) [ none ↦ none | some vs ↦ some (v ∷ vs) ]
]
read_pairs (suc n) _ = none

-- What the loop does for one line: read on, return ESP_FAIL, stop with ESP_OK, hand data to the
-- sink, or take another base address.
pub data Action : Type 0 where
  skip bad halt : Action
  emit : ℕ → Bytes → Action
  rebase : ℕ → Action

abbrev or_bad {ℓ} : {A : Type ℓ} → Option A → (A → Action) → Action
or_bad none f = bad
or_bad (some a) f = f a

-- The `msb` and `lsb` of the records that set the base.
abbrev new_base : Bytes → ℕ → Action
new_base text scale =
    or_bad (hex_byte_at text 9)
      λ msb. or_bad (hex_byte_at text 11) λ lsb. rebase (u32 ((msb * 256 + lsb) * scale))

-- The branches on `rec_type`.
unfoldable pub record_action : ℕ → Bytes → ℕ → ℕ → ℕ → Action
record_action base text byte_count addr rec_type =
    if rec_type == 0x00
    then or_bad (read_pairs byte_count (drop 9 text)) (emit (u32 (base + addr)))
    else if rec_type == 0x01
    then halt
    else if rec_type == 0x02
    then new_base text 0x10
    else if rec_type == 0x04
    then new_base text 0x10000
    else skip

-- The length and checksum tests, behind the four header bytes.
unfoldable pub checked_action : ℕ → Bytes → ℕ → ℕ → ℕ → Action
unfolding record_action
checked_action base text byte_count addr rec_type =
    if ltb (strlen text) (9 + byte_count * 2 + 2)
    then bad
    else or_bad (sum_pairs (drop 1 (take (strlen text) text)) 0)
        λ checksum. if checksum == 0 then record_action base text byte_count addr rec_type else bad

unfoldable pub line_action : ℕ → Bytes → Action
unfolding checked_action
line_action base text =
    if get_or text 0 0 == 0
    then skip
    else if not (get_or text 0 0 == b':')
    then bad
    else if ltb (strlen text) 11
    then bad
    else or_bad (hex_byte_at text 1) λ byte_count. or_bad (hex_byte_at text 3) λ addr_hi.
      or_bad (hex_byte_at text 5) λ addr_lo.
        or_bad (hex_byte_at text 7)
          λ rec_type. checked_action base text byte_count (addr_hi * 256 + addr_lo) rec_type

module _ {ℓ} {S : Type ℓ} (sink : Sink S) where
  -- What follows an action; `next` is the rest of the loop.
  abbrev pub act : Action → ℕ → S → (ℕ → S → Outcome S) → Outcome S
  act skip base s next = next base s
  act bad base s next = failed esp_fail s
  act halt base s next = done s
  act (emit addr block) base s next = sink s addr block >>= next base
  act (rebase b) base s next = next b s

  -- The loop of `process_ihex`, on fuel: each round takes a byte of the file at least, so the
  -- length of the file is enough.
  unfoldable pub process_lines : ℕ → Bytes → Bool → ℕ → S → Outcome S
  process_lines zero file eof base s = fault
  process_lines (suc fuel) file eof base s =
      let line = read_chars file 255 [] in
      let next = process_lines fuel line.rest line.eof in
      if eof || length line.text == 0 then done s else act (line_action base line.text) base s next

  unfoldable pub process_ihex : Bytes → S → Outcome S
  process_ihex file s = process_lines (length file + 1) file false 0 s
