-- ===== src/Packet/RoundTrip.antt =====
-- The frames that `ProductPacket_PacketSendByUART` builds, and what `ProductPacket_ParserPacket`
-- makes of them.
use miri_tool_v.Base.{
  ℕ, ◌+◌, ◌-◌, ◌/◌, ◌%◌, ◌≤◌, ◌<◌, ◌≡◌, refl, sym, ap, ◌∙◌, true, Bytes, [], ◌∷◌, ◌++◌, append-nil,
  append_assoc, arith, length, replicate, replicate-add, bit_xor, zero-bit_xor, done,
}
use miri_tool_v.Packet.{
  Packet, Frame, stx_u, content, crc, parse_in, receive, packet_send_by_uart, product_stx_upper,
  product_stx_lower, product_etx, product_comm_buff_size,
}
use miri_tool_v.Packet.Loops.{fold_xor, copy_lem, receive-content}

-- the bytes of a frame: the payload is the command, high byte first, and the data
abbrev pub frame_bytes : ℕ → Bytes → Bytes
frame_bytes cmd xs =
    product_stx_upper
    ∷ product_stx_lower
    ∷ (length xs + 2)
    ∷ (cmd / 256)
    ∷ (cmd % 256)
    ∷ (xs ++ fold_xor (bit_xor (cmd / 256) (cmd % 256)) xs ∷ product_etx ∷ [])

-- `rBuff` as the callback finds it: the payload, and zeros behind it
abbrev pub frame_of : ℕ → Bytes → Frame
frame_of cmd xs = record {
  buff = (cmd / 256) ∷ (cmd % 256) ∷ (xs ++ replicate (product_comm_buff_size - (length xs + 2)) 0);
  size = length xs + 2;
}

pub send-frame_bytes :
    (cmd : ℕ) (xs rest : Bytes)
    → cmd < 65536
    → length xs ≤ 253
    → packet_send_by_uart true cmd (xs ++ rest) (length xs) ≡ done (frame_bytes cmd xs ∷ [])
unfolding packet_send_by_uart
send-frame_bytes cmd xs rest c h = ground (
  arith,
  copy_lem [] xs rest (record {
    out = product_stx_upper ∷ product_stx_lower ∷ (length xs + 2) ∷ (cmd / 256) ∷ (cmd % 256) ∷ [];
    sum = bit_xor (cmd / 256) (cmd % 256);
  }),
)

-- the parser after the length byte
abbrev pub started : Packet → ℕ → Packet
started p n = record p {
  size = n;
  r_buff = replicate product_comm_buff_size 0;
  r_count = 0;
  check = 0;
  status = content;
}

pub receive_header :
    (p : Packet) (n : ℕ) (rest : Bytes)
    → p.status ≡ stx_u
    → receive p (product_stx_upper ∷ product_stx_lower ∷ n ∷ rest) ≡ receive (started p n) rest
unfolding receive parse_in
receive_header p n rest st = ground arith

receive_trailer :
    (p : Packet) (c : ℕ) (rest : Bytes)
    → p.status ≡ crc
    → p.check ≡ c
    → receive p (c ∷ product_etx ∷ rest)
      ≡ receive
          (record p {
            status = stx_u;
            parsed = p.parsed ++ (record { buff = p.r_buff; size = p.size }) ∷ [];
          })
          rest
unfolding receive parse_in
receive_trailer p c rest st e = ground arith

-- the parser at the end of the payload
abbrev filled : Packet → ℕ → Bytes → Packet
filled p cmd xs = record p {
  size = length xs + 2;
  r_buff = (frame_of cmd xs).buff;
  r_count = length xs + 2;
  check = fold_xor 0 ((cmd / 256) ∷ (cmd % 256) ∷ xs);
  status = crc;
}

receive_payload :
    (p : Packet) (cmd : ℕ) (xs rest : Bytes)
    → length xs ≤ 198
    → receive (started p (length xs + 2)) ((cmd / 256) ∷ (cmd % 256) ∷ (xs ++ rest))
      ≡ receive (filled p cmd xs) rest
receive_payload p cmd xs rest h =
    let m = product_comm_buff_size - (length xs + 2) in
    let e : length ((cmd / 256) ∷ (cmd % 256) ∷ xs) + m ≡ product_comm_buff_size = omega arith in
    receive-content (started p (length xs + 2)) [] ((cmd % 256) ∷ xs) (replicate m 0) rest
      (cmd / 256) refl refl (rw replicate-add (ap (λ n. replicate n 0) (sym e))) (omega arith)
      (omega arith)

pub receive-frame_bytes :
    (p : Packet) (cmd : ℕ) (xs rest : Bytes)
    → p.status ≡ stx_u
    → length xs ≤ 198
    → (q : Packet) × (receive p (frame_bytes cmd xs ++ rest) ≡ receive q rest)
      × (q.status ≡ stx_u)
      × (q.parsed ≡ p.parsed ++ frame_of cmd xs ∷ [])
receive-frame_bytes p cmd xs rest st h =
    let sum = fold_xor (bit_xor (cmd / 256) (cmd % 256)) xs in
    let behind = sum ∷ product_etx ∷ rest in
    let after : Packet = filled p cmd xs in
    let end : Packet = record after { status = stx_u; parsed = p.parsed ++ frame_of cmd xs ∷ [] } in
    (
      end,
      rw (append_assoc xs (sum ∷ product_etx ∷ []) rest) (
          receive_header p (length xs + 2) ((cmd / 256) ∷ (cmd % 256) ∷ (xs ++ behind)) st
          ∙ receive_payload p cmd xs behind h
          ∙ receive_trailer after sum rest refl
              (ap (λ c. fold_xor (bit_xor c (cmd % 256)) xs) (zero-bit_xor (cmd / 256)))),
      refl,
      refl,
    )

-- Sending a command below 2 ^ 16 with at most 198 bytes of data hands one frame to `pf_send`, and
-- a parser that waits for a frame and receives that frame's bytes calls `pf_parsing` once, with the command and the data in
-- `rBuff`, zeros behind them and their number in `Length`; it then waits for the next frame, and
-- goes on with whatever bytes follow.
pub receive-packet_send_by_uart :
    (p : Packet) (cmd : ℕ) (xs rest : Bytes)
    → p.status ≡ stx_u
    → cmd < 65536
    → length xs ≤ 198
    → (bytes : Bytes) × (packet_send_by_uart true cmd xs (length xs) ≡ done (bytes ∷ []))
      × (q : Packet) × (receive p (bytes ++ rest) ≡ receive q rest)
      × (q.status ≡ stx_u)
      × (q.parsed ≡ p.parsed ++ frame_of cmd xs ∷ [])
receive-packet_send_by_uart p cmd xs rest st c h =
    let (q, runs, waits, calls) = receive-frame_bytes p cmd xs rest st h in
    let sent = send-frame_bytes cmd xs [] c (omega arith) in
    (frame_bytes cmd xs, (rw append-nil at sent), q, runs, waits, calls)
