-- ===== src/ProbeLink/Delivery.antt =====
-- The delivery of a whole packet of `probe_link_protocol_make_packet_binary` to a reader of
-- responses.
use miri_tool_v.Base.{
  ℕ, suc, ◌+◌, ◌-◌, ◌*◌, ◌/◌, ◌%◌, ◌≤◌, ◌<◌, ◌≡◌, refl, ap, subst, ◌∙◌, false, Bytes, [], ◌∷◌, ◌++◌,
  All, append_assoc, some, length, length-append, ◌==◌, arith,
}
use miri_tool_v.ProbeLink.Protocol.{made, sum_of, trailer, hex_digit, make_packet_binary}
use miri_tool_v.ProbeLink.Response.{Stream, response, find_start, read_response}
use miri_tool_v.ProbeLink.RoundTrip.{
  escaped, IsPlain, stream_of, stream_of-append, length-escaped, packet_of, make_packet_binary_lem,
  last, read_body-plain, read_body-escaped,
}

find_start-packet :
    (rounds : ℕ) (rest : Stream)
    → find_start (suc rounds) (some b'$' ∷ rest) ≡ some (record { rounds = rounds; stream = rest })
unfolding find_start
find_start-packet rounds rest = refl

length-packet_of :
    (prefix bytes : Bytes)
    → length (packet_of prefix bytes) ≡ length prefix + length (escaped bytes) + 4
length-packet_of prefix bytes = omega (
  arith,
  length-append (prefix ++ escaped bytes) (trailer (sum_of 0 (prefix ++ escaped bytes))),
  length-append prefix (escaped bytes),
)

packet_stream :
    (prefix bytes rest : Bytes)
    → let sum = sum_of 0 (prefix ++ escaped bytes) in
      stream_of (packet_of prefix bytes ++ rest)
      ≡ some b'$'
        ∷ (stream_of prefix
            ++ (stream_of (escaped bytes)
                ++ some b'#'
                  ∷ some (hex_digit (sum / 16 % 16))
                  ∷ some (hex_digit (sum % 16))
                  ∷ stream_of rest))
packet_stream prefix bytes rest =
    let sum = sum_of 0 (prefix ++ escaped bytes) in
    ap (◌∷◌ (some b'$')) (
      ap stream_of (
        append_assoc (prefix ++ escaped bytes) (trailer sum) rest
        ∙ append_assoc prefix (escaped bytes) (trailer sum ++ rest))
      ∙ stream_of-append prefix (escaped bytes ++ (trailer sum ++ rest))
      ∙ ap (λ s. stream_of prefix ++ s) (stream_of-append (escaped bytes) (trailer sum ++ rest)))

read_response-packet_of :
    (prefix bytes rest : Bytes) (extra out_size : ℕ)
    → All IsPlain prefix
    → length prefix + length bytes < out_size
    → read_response
        (suc (length prefix + (length bytes + suc extra)))
        out_size
        (stream_of (packet_of prefix bytes ++ rest))
      ≡ response (prefix ++ bytes) (stream_of rest)
unfolding read_response
read_response-packet_of prefix bytes rest extra out_size plain room =
    let some_room : (out_size == 0) ≡ false = ground arith in
    let sum = sum_of 0 (prefix ++ escaped bytes) in
    let behind : Stream =
      some b'#' ∷ some (hex_digit (sum / 16 % 16)) ∷ some (hex_digit (sum % 16)) ∷ stream_of rest in
    rw
      (
        some_room,
        packet_stream prefix bytes rest,
        find_start-packet (length prefix + (length bytes + suc extra))
            (stream_of prefix ++ (stream_of (escaped bytes) ++ behind)),
      )
      (read_body-plain prefix (length bytes + suc extra) out_size b'$' []
          (stream_of (escaped bytes) ++ behind) plain (omega arith)
        ∙ read_body-escaped bytes extra out_size (last b'$' prefix) _ _ prefix (stream_of rest)
            room)

-- A packet for a prefix without `#` and `}` and for any data, in a buffer that is large enough for
-- twice the data, fits that buffer; a reader of responses with room and time for the text takes
-- exactly the prefix and the data out of it, and leaves what follows.
pub read_response-make_packet_binary :
    (prefix bytes rest : Bytes) (packet_size rounds out_size : ℕ)
    → All IsPlain prefix
    → 8 ≤ packet_size
    → length prefix + 2 * length bytes + 4 < packet_size
    → length prefix + length bytes < out_size
    → length prefix + length bytes + 2 ≤ rounds
    → (packet : Bytes) × (make_packet_binary prefix bytes packet_size ≡ made packet)
      × (length packet < packet_size)
      × (read_response rounds out_size (stream_of (packet ++ rest))
          ≡ response (prefix ++ bytes) (stream_of rest))
read_response-make_packet_binary prefix bytes rest packet_size rounds out_size plain eight fits room
      time =
    let extra = rounds - (length prefix + length bytes + 2) in
    let n : suc (length prefix + (length bytes + suc extra)) ≡ rounds = omega arith in
    (
      packet_of prefix bytes,
      make_packet_binary_lem prefix bytes packet_size eight (omega (arith, length-escaped bytes)),
      omega (arith, length-packet_of prefix bytes, length-escaped bytes),
      subst
          (λ r.
            read_response r out_size (stream_of (packet_of prefix bytes ++ rest))
            ≡ response (prefix ++ bytes) (stream_of rest))
          n (read_response-packet_of prefix bytes rest extra out_size plain room),
    )
