-- ===== src/Hht/Wb100/Crc.antt =====
-- The table of hht_wb100.c and the checksum that it stands for.
use miri_tool_v.Base.{
  ℕ, zero, suc, ◌+◌, ◌/◌, ◌%◌, ◌<◌, ◌≡◌, refl, ap, ◌∙◌, Bool, true, false, ◌&&◌, List, [], ◌∷◌,
  arith, get_or, ◌==◌, if◌then◌else◌, bit_xor, length, ==_iff,
}
use miri_tool_v.Hht.Wb100.{crc16_table, crc_step, make_seed}

-- One bit of CRC-16, least significant bit first, with the polynomial 0x8005 (0xA001 reversed).
abbrev pub crc_bit : ℕ → ℕ
crc_bit c = if c % 2 == 1 then bit_xor (c / 2) 0xA001 else c / 2

-- a byte, bit by bit
unfoldable pub crc_byte : ℕ → ℕ
crc_byte c = crc_bit (crc_bit (crc_bit (crc_bit (crc_bit (crc_bit (crc_bit (crc_bit c)))))))

-- the entries from `i` on, checked
unfoldable agree : ℕ → List ℕ → Bool
agree i [] = true
agree i (c ∷ cs) = c == crc_byte i && agree (i + 1) cs

both_true : (a b : Bool) → (a && b) ≡ true → (a ≡ true) × (b ≡ true)
both_true true b h = (refl, h)
both_true false b h = absurd (grind arith)

agree-get_or :
    (cs : List ℕ) (i j : ℕ) → agree i cs ≡ true → j < length cs → get_or cs j 0 ≡ crc_byte (i + j)
unfolding agree
agree-get_or [] i j h k = absurd (omega arith)
agree-get_or (c ∷ cs) i zero h k =
    let e : i + 0 ≡ i = omega arith in rw e ((==_iff c (crc_byte i)).0 (both_true _ _ h).0)
agree-get_or (c ∷ cs) i (suc j) h k =
    let e : i + suc j ≡ i + 1 + j = omega arith in
    rw e (agree-get_or cs (i + 1) j (both_true _ _ h).1 (omega arith))

table_agrees : agree 0 crc16_table ≡ true
unfolding agree crc16_table crc_byte
table_agrees = refl

table_length : length crc16_table ≡ 256
unfolding crc16_table
table_length = refl

-- The checksum without the table, a digit at a time.
abbrev pub bitwise_step : ℕ → ℕ → ℕ
bitwise_step sum digit = bit_xor (sum / 256) (crc_byte (bit_xor sum digit % 256))

crc_step-bitwise_step : (sum digit : ℕ) → crc_step sum digit ≡ bitwise_step sum digit
unfolding crc_step
crc_step-bitwise_step sum digit = ap (bit_xor (sum / 256)) (
    agree-get_or crc16_table 0 (bit_xor sum digit % 256) table_agrees (omega (arith, table_length))
    ∙ ap crc_byte (omega arith))

-- `make_seed` is the checksum that is computed bit by bit, whatever the digits: all 256 entries of
-- the table are right.
pub make_seed-bitwise_step :
    (d0 d1 : ℕ)
    → let sum = bitwise_step (bitwise_step 0xFFFF d0) d1 in
      make_seed d0 d1 ≡ (sum / 256 % 256) ∷ (sum % 256) ∷ []
unfolding make_seed
make_seed-bitwise_step d0 d1 =
    ap (λ sum. (sum / 256 % 256) ∷ (sum % 256) ∷ [])
      (crc_step-bitwise_step (crc_step 0xFFFF d0) d1
        ∙ ap (λ s. bitwise_step s d1) (crc_step-bitwise_step 0xFFFF d0))
