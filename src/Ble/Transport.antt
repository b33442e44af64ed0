-- ===== src/Ble/Transport.antt =====
-- main/base/ble/ble_gatt_server.c and main/protocol/ble_protocol.c: the bytes that the phone writes,
-- and the commands in them.
pub mod Delivery
use miri_tool_v.Base.{
  ℕ, ◌+◌, ◌-◌, ◌*◌, Bytes, List, [], ◌∷◌, length, take, drop, get_or, ltb, if◌then◌else◌, Outcome,
  done, failed, fault, ◌>>=◌,
}
use miri_tool_v.Packet.{Packet, Frame, parser_packet}
use miri_tool_v.Ble.Device.{Device, Env}
use miri_tool_v.Ble.Commands.{handle_with_payload}

-- `s_ble_packet` and the device that its frames are for.
pub record Connection : Type 0 where
  pub packet : Packet
  pub device : Device

module _ (env : Env) where
  -- `ble_parsing_packet` on what `rBuff` and `Length` are when it is called.
  abbrev pub parsing_packet : Frame → Device → Device
  parsing_packet frame d =
      if ltb frame.size 2
      then d
      else handle_with_payload env (get_or frame.buff 0 0 * 256 + get_or frame.buff 1 0)
          (take (frame.size - 2) (drop 2 frame.buff)) d

  -- The calls of it that a byte makes: none or one.
  unfoldable pub parsed_packets : List Frame → Device → Device
  parsed_packets [] d = d
  parsed_packets (frame ∷ frames) d = parsed_packets frames (parsing_packet frame d)

  -- A byte for the parser, and the call that it makes.
  abbrev pub parsed_byte : Connection → Outcome Packet → Outcome Connection
  parsed_byte c (done q) = done (record {
    packet = q;
    device = parsed_packets (drop (length c.packet.parsed) q.parsed) c.device;
  })
  parsed_byte c (failed e q) = failed e (record c { packet = q })
  parsed_byte c fault = fault

  -- The loop of `ble_svc_gatt_handler`.
  unfoldable pub parse_bytes : Bytes → Connection → Outcome Connection
  parse_bytes [] c = done c
  parse_bytes (b ∷ bs) c = parsed_byte c (parser_packet c.packet b) >>= λ d. parse_bytes bs d

  -- A write of the phone, of which 512 bytes are taken.
  unfoldable pub gatt_write : Bytes → Connection → Outcome Connection
  gatt_write bytes c = parse_bytes (take 512 bytes) c

  -- A write to the other service, `gatt_svr_access_cb`: 32 bytes are taken, and the command has its
  -- low byte first.
  unfoldable pub access_cb : Bytes → Device → Device
  access_cb (low ∷ high ∷ payload) d =
      handle_with_payload env (low + high * 256) (take 30 payload) d
  access_cb _ d = d
