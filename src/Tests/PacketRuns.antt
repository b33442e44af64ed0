-- ===== src/Tests/PacketRuns.antt =====
-- main/packet.c on concrete bytes.
use miri_tool_v.Base.{
  ℕ, ◌≤◌, ◌≡◌, refl, ap, subst, true, Bytes, [], ◌∷◌, ◌++◌, All, arith, drop, replicate, Outcome,
  fault, failed, done,
}
use miri_tool_v.Packet.{Packet, init, parser_packet, parse_in, receive, packet_send_by_uart, stx_u}
use miri_tool_v.Packet.RoundTrip.{frame_of, receive-packet_send_by_uart}
use miri_tool_v.Packet.Overrun.{
  LengthsFit, SafelyDone, receive-SafelyDone, init-IsSafe, receive_overrun,
}

abbrev payload : Bytes
payload = 7 ∷ 8 ∷ 9 ∷ []

packet_send_by_uart_run :
    packet_send_by_uart true 0x1234 payload 3
    ≡ done ((0xFF ∷ 0xFE ∷ 5 ∷ 0x12 ∷ 0x34 ∷ 7 ∷ 8 ∷ 9 ∷ 0x20 ∷ 0x03 ∷ []) ∷ [])
unfolding packet_send_by_uart
packet_send_by_uart_run = refl

receive-packet_send_by_uart_example :
    (bytes : Bytes) × (packet_send_by_uart true 0x1234 payload 3 ≡ done (bytes ∷ []))
    × (q : Packet) × (receive init (bytes ++ 0 ∷ []) ≡ receive q (0 ∷ []))
    × (q.status ≡ stx_u)
    × (q.parsed ≡ frame_of 0x1234 payload ∷ [])
unfolding init
receive-packet_send_by_uart_example =
    receive-packet_send_by_uart init 0x1234 payload (0 ∷ []) refl (omega arith) (omega arith)

abbrev packet_of : Outcome Packet → Packet
packet_of (done p) = p
packet_of (failed e p) = p
packet_of fault = init

LengthsFit-parser_packet :
    (p : Packet) (b : ℕ) (bs : Bytes)
    → LengthsFit (packet_of (parser_packet p b)) bs
    → (q : Packet) → parser_packet p b ≡ done q
    → LengthsFit q bs
LengthsFit-parser_packet p b bs h q e = subst (λ r. LengthsFit r bs) (ap packet_of e) h

-- a frame with its length byte, 5, and the bytes up to its end
abbrev frame : Bytes
frame = 0xFF ∷ 0xFE ∷ 5 ∷ 0x12 ∷ 0x34 ∷ 7 ∷ 8 ∷ 9 ∷ 0x20 ∷ 0x03 ∷ []

small-LengthsFit : (p : Packet) (bs : Bytes) → All (λ b. b ≤ 200) bs → LengthsFit p bs
small-LengthsFit p [] h = tt
small-LengthsFit p (b ∷ bs) h = (λ w. h.0, λ q e. small-LengthsFit q bs h.1)

frame-LengthsFit : LengthsFit init frame
unfolding init parse_in
frame-LengthsFit = (
  (λ e. cc),
  LengthsFit-parser_packet init 0xFF (drop 1 frame) (
    (λ e. cc),
    LengthsFit-parser_packet (packet_of (parser_packet init 0xFF)) 0xFE (drop 2 frame) (
        small-LengthsFit (packet_of (parser_packet (packet_of (parser_packet init 0xFF)) 0xFE))
          (drop 2 frame)
          (
            omega arith,
            (
              omega arith,
              (
                omega arith,
                (omega arith, (omega arith, (omega arith, (omega arith, (omega arith, tt))))),
              ),
            ),
          )),
  ),
)

receive-SafelyDone_example : SafelyDone (receive init frame)
receive-SafelyDone_example = receive-SafelyDone frame init init-IsSafe frame-LengthsFit

receive_overrun_example : receive init (0xFF ∷ 0xFE ∷ 255 ∷ replicate 201 0) ≡ fault
unfolding init
receive_overrun_example =
    receive_overrun init 255 (replicate 201 0) refl (omega arith) (omega arith) (omega arith)
