-- ===== src/ProbeLink/Protocol.antt =====
-- probe_link_protocol.c: the packets that are sent to the probe, and its acknowledgement.
use miri_tool_v.Base.{
  ℕ, ◌+◌, ◌-◌, ◌/◌, ◌%◌, Bool, true, false, ◌||◌, Bytes, [], ◌∷◌, ◌++◌, Option, none, some, length,
  ltb, leb, ◌==◌, if◌then◌else◌, u8, bit_xor, EspErr, invalid_arg, no_mem, invalid_response,
}

-- A packet in `out`, or the error that is returned.
pub data Made : Type 0 where
  made : Bytes → Made
  refused : EspErr → Made

abbrev pub needs_escape : ℕ → Bool
needs_escape ch = ch == b'$' || ch == b'#' || ch == b'}'

-- The running checksum.
abbrev pub sum_of : ℕ → Bytes → ℕ
sum_of csum [] = csum
sum_of csum (ch ∷ chs) = sum_of (u8 (csum + ch)) chs

-- `hex[n]`
abbrev pub hex_digit : ℕ → ℕ
hex_digit n = if ltb n 10 then b'0' + n else b'a' + (n - 10)

abbrev pub trailer : ℕ → Bytes
trailer csum = b'#' ∷ hex_digit (csum / 16 % 16) ∷ hex_digit (csum % 16) ∷ []

-- `payload` is the string up to its terminating zero.
unfoldable pub make_packet : Bytes → ℕ → Made
make_packet payload out_size =
    if ltb out_size 5
    then refused invalid_arg
    else if ltb out_size (length payload + 4)
    then refused no_mem
    else made (b'$' ∷ (payload ++ trailer (sum_of 0 payload)))

-- The loop over the prefix; `out` is what is written so far.
unfoldable pub put_prefix : Bytes → ℕ → Bytes → Option Bytes
put_prefix [] out_size out = some out
put_prefix (ch ∷ chs) out_size out =
    let rest = put_prefix chs out_size (out ++ ch ∷ []) in
    if leb out_size (length out + 1) then none else rest

-- The loop over the data.
unfoldable pub put_data : Bytes → ℕ → Bytes → Option Bytes
put_data [] out_size out = some out
put_data (ch ∷ chs) out_size out =
    let escaped = put_data chs out_size (out ++ b'}' ∷ bit_xor ch 0x20 ∷ []) in
    let plain = put_data chs out_size (out ++ ch ∷ []) in
    if needs_escape ch
    then (if leb out_size (length out + 2) then none else escaped)
    else if leb out_size (length out + 1)
    then none
    else plain

-- The end of the packet. The checksum is that of the bytes behind the `$`, which `out` does not
-- hold; `csum` is formed along the way, a byte at a time, over the same bytes.
abbrev finish_packet : ℕ → Option Bytes → Made
finish_packet out_size none = refused no_mem
finish_packet out_size (some []) = refused no_mem
finish_packet out_size (some (head ∷ body)) =
    if leb out_size (length (head ∷ body) + 3)
    then refused no_mem
    else made (head ∷ (body ++ trailer (sum_of 0 body)))

abbrev then_put : Option Bytes → (Bytes → Option Bytes) → Option Bytes
then_put none f = none
then_put (some out) f = f out

unfoldable pub make_packet_binary : Bytes → Bytes → ℕ → Made
make_packet_binary prefix bytes out_size =
    if ltb out_size 8
    then refused invalid_arg
    else finish_packet out_size
        (then_put (put_prefix prefix out_size (b'$' ∷ [])) (put_data bytes out_size))

-- `probe_link_protocol_check_ack` on the bytes received.
pub data Ack : Type 0 where
  ack : Bool → Ack
  no_ack : EspErr → Ack

unfoldable pub check_ack : Bytes → Ack
check_ack [] = no_ack invalid_arg
check_ack (c ∷ cs) =
    if c == b'+' then ack true else if c == b'-' then ack false else no_ack invalid_response
