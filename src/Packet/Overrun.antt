-- ===== src/Packet/Overrun.antt =====
-- The bounds of `rBuff`, and the lengths that the parser accepts.
use miri_tool_v.Base.{
  ℕ, zero, suc, ◌+◌, ◌≤◌, ◌<◌, ◌≡◌, refl, ◌∙◌, Bytes, [], ◌∷◌, arith, length, length-set,
  length-replicate, set, bit_xor, Outcome, done, failed, fault, ◌>>=◌,
}
use miri_tool_v.Packet.{
  Packet, Status, init, stx_u, stx_l, len, content, crc, etx, max, parse_in, parser_packet, receive,
  product_stx_upper, product_stx_lower, product_comm_buff_size,
}
use miri_tool_v.Packet.RoundTrip.{started, receive_header}

-- `rBuff` has its 200 bytes, and within a payload the next byte has room.
pub record IsSafe (p : Packet) : Type 0 where
  pub whole : length p.r_buff ≡ product_comm_buff_size
  pub room :
      p.status ≡ content → (p.r_count < product_comm_buff_size) × (p.size ≤ product_comm_buff_size)

-- Each byte that the parser takes for a length is at most 200.
abbrev pub LengthsFit : Packet → Bytes → Type 0
LengthsFit p [] = Unit
LengthsFit p (b ∷ bs) =
    (p.status ≡ len → b ≤ product_comm_buff_size)
    × ((q : Packet) → parser_packet p b ≡ done q → LengthsFit q bs)

-- no access out of range, and a packet state that is safe again
abbrev pub SafelyDone : Outcome Packet → Type 0
SafelyDone (done p) = IsSafe p
SafelyDone _ = ⊥

parse_in-SafelyDone :
    (s : Status) (p : Packet) (b : ℕ)
    → p.status ≡ s
    → IsSafe p
    → (s ≡ len → b ≤ product_comm_buff_size)
    → SafelyDone (parse_in s p b)
unfolding parse_in
parse_in-SafelyDone stx_u p b e v fits = grind arith
parse_in-SafelyDone stx_l p b e v fits = grind arith
parse_in-SafelyDone len p b e v fits = record {
  whole = length-replicate {A = ℕ} product_comm_buff_size 0;
  room = λ _. (omega arith, fits refl);
}
parse_in-SafelyDone content p b e v fits = ground (arith, length-set p.r_buff p.r_count b, v.room e)
parse_in-SafelyDone crc p b e v fits = grind arith
parse_in-SafelyDone etx p b e v fits = grind arith
parse_in-SafelyDone max p b e v fits = grind arith

bind-SafelyDone :
    (m : Outcome Packet) (f : Packet → Outcome Packet)
    → SafelyDone m
    → ((q : Packet) → m ≡ done q → IsSafe q → SafelyDone (f q))
    → SafelyDone (m >>= f)
bind-SafelyDone (done q) f w next = next q refl w
bind-SafelyDone (failed x q) f w next = absurd w
bind-SafelyDone fault f w next = absurd w

-- From a safe packet state, a sequence of bytes in which every length byte is at most 200 is
-- parsed with no access outside `rBuff`, up to a safe state.
pub receive-SafelyDone :
    (bs : Bytes) (p : Packet) → IsSafe p → LengthsFit p bs → SafelyDone (receive p bs)
unfolding receive
receive-SafelyDone [] p v fits = v
receive-SafelyDone (b ∷ bs) p v fits =
    bind-SafelyDone (parser_packet p b) (λ q. receive q bs)
      (parse_in-SafelyDone p.status p b refl v fits.0)
      (λ q e w. receive-SafelyDone bs q w (fits.1 q e))

pub init-IsSafe : IsSafe init
unfolding init
init-IsSafe = record { whole = length-replicate {A = ℕ} product_comm_buff_size 0; room = λ e. cc }

-- the payload of a frame with too large a length: it ends behind the buffer
receive-content_fault :
    (left : ℕ) (xs : Bytes) (p : Packet)
    → p.status ≡ content
    → product_comm_buff_size < p.size
    → p.size < 256
    → p.r_count + left ≡ product_comm_buff_size
    → left < length xs
    → receive p xs ≡ fault
unfolding receive parse_in
receive-content_fault left [] p st big byte r more = absurd (omega arith)
receive-content_fault zero (x ∷ xs) p st big byte r more = ground arith
receive-content_fault (suc left) (x ∷ xs) p st big byte r more = ground (
  arith,
  receive-content_fault left xs
      (record p {
        r_buff = set p.r_buff p.r_count x;
        r_count = p.r_count + 1;
        check = bit_xor p.check x;
      })
      st big byte (omega arith) (omega arith),
)

-- A frame whose length byte is above 200 writes behind `rBuff`, whatever its payload, as soon as
-- 201 bytes of that payload have arrived.
pub receive_overrun :
    (p : Packet) (n : ℕ) (xs : Bytes)
    → p.status ≡ stx_u
    → product_comm_buff_size < n
    → n < 256
    → product_comm_buff_size < length xs
    → receive p (product_stx_upper ∷ product_stx_lower ∷ n ∷ xs) ≡ fault
receive_overrun p n xs st big byte more =
    receive_header p n xs st
    ∙ receive-content_fault product_comm_buff_size xs (started p n) refl big byte refl more
