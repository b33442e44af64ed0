-- ===== src/Packet.antt =====
-- main/packet.c and main/packet.h: the framed UART protocol of the product boards, a byte-driven
-- parser and the sender of the same frames.
pub mod Loops
pub mod RoundTrip
pub mod Overrun
use miri_tool_v.Base.{
  ℕ, zero, suc, ◌+◌, ◌-◌, ◌%◌, ◌/◌, Bool, true, false, List, [], ◌∷◌, ◌++◌, bit_xor, Bytes, length,
  get_elem?, set, replicate, ltb, leb, ◌==◌, if◌then◌else◌, u8, u16, Outcome, done, fault, ◌>>=◌,
  at,
}

-- The PRODUCT_STATUS_ values; `max` stands for the values of the `default` case.
pub data Status : Type 0 where
  stx_u stx_l len content crc etx max : Status

-- What `pf_parsing` finds when it is called.
pub record Frame : Type 0 where
  pub buff : Bytes
  pub size : ℕ

-- PRODUCT_PACKET. `parsed` records the calls of `pf_parsing`, the latest last.
pub record Packet : Type 0 where
  pub r_buff : Bytes
  pub status : Status
  pub size : ℕ
  pub r_count : ℕ
  pub check : ℕ
  pub parsed : List Frame

abbrev pub product_stx_upper : ℕ
product_stx_upper = 0xFF

abbrev pub product_stx_lower : ℕ
product_stx_lower = 0xFE

abbrev pub product_etx : ℕ
product_etx = 0x03

abbrev pub product_comm_buff_size : ℕ
product_comm_buff_size = 200

unfoldable pub init : Packet
init = record {
  r_buff = replicate product_comm_buff_size 0;
  status = stx_u;
  size = 0;
  r_count = 0;
  check = 0;
  parsed = [];
}

-- `rBuff[rCount++] = rData; Crc ^= rData;` and the test that follows; writing behind the 200
-- bytes of `rBuff` is a fault.
store : Packet → ℕ → Outcome Packet
store p b =
    let q = record p {
      r_buff = set p.r_buff p.r_count b;
      r_count = u8 (p.r_count + 1);
      check = bit_xor p.check b;
      status = if leb p.size (u8 (p.r_count + 1)) then crc else content;
    } in
    if ltb p.r_count product_comm_buff_size then done q else fault

unfoldable pub parse_in : Status → Packet → ℕ → Outcome Packet
unfolding store
parse_in stx_u p b = done (if b == product_stx_upper then record p { status = stx_l } else p)
parse_in stx_l p b =
    done (if b == product_stx_lower then record p { status = len } else record p { status = stx_l })
parse_in len p b = done (record p {
  size = b;
  r_buff = replicate product_comm_buff_size 0;
  r_count = 0;
  check = 0;
  status = content;
})
parse_in content p b = store p b
parse_in crc p b =
    done (if p.check == b then record p { status = etx } else record p { status = stx_u })
parse_in etx p b =
    let frame : Frame = record { buff = p.r_buff; size = p.size } in
    done (
      if b == product_etx
      then record p { parsed = p.parsed ++ frame ∷ []; status = stx_u }
      else record p { status = stx_u })
parse_in max p b = done (record p { status = stx_u })

abbrev pub parser_packet : Packet → ℕ → Outcome Packet
parser_packet p = parse_in p.status p

-- The calls of `ProductPacket_ParserPacket` for a sequence of received bytes.
unfoldable pub receive : Packet → Bytes → Outcome Packet
receive p [] = done p
receive p (b ∷ bs) = parser_packet p b >>= λ q. receive q bs

-- `packet_buff` so far and its checksum.
pub record Sending : Type 0 where
  pub out : Bytes
  pub sum : ℕ

-- The copying loop at index `i`, with `left` rounds to go.
unfoldable pub copy : ℕ → ℕ → Bytes → Sending → Outcome Sending
copy zero i buff s = done s
copy (suc left) i buff s =
    at (get_elem? buff i)
      (λ x. copy left (i + 1) buff (record { out = s.out ++ x ∷ []; sum = bit_xor s.sum x }))

-- The bytes that `pf_send` gets. The flag says whether `malloc` succeeds: without memory nothing
-- is sent.
unfoldable pub packet_send_by_uart : Bool → ℕ → Bytes → ℕ → Outcome (List Bytes)
unfolding copy
packet_send_by_uart false cmd buff size = done []
packet_send_by_uart true cmd buff size =
    let hi = u8 (cmd / 256) in
    let lo = cmd % 256 in
    let head : Sending = record {
      out = product_stx_upper ∷ product_stx_lower ∷ u8 (size + 2) ∷ hi ∷ lo ∷ [];
      sum = bit_xor hi lo;
    } in
    elim (copy size 0 buff head) [
      | done s ↦ done ((s.out ++ s.sum ∷ product_etx ∷ []) ∷ [])
      | _ ↦ fault
    ]
