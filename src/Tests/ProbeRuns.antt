-- ===== src/Tests/ProbeRuns.antt =====
-- The probe's protocol on concrete packets and replies.
use miri_tool_v.Base.{◌<◌, ◌≡◌, refl, true, false, Bytes, [], ◌∷◌, ◌++◌, arith, length, some}
use miri_tool_v.FwState.{FwStep, text}
use miri_tool_v.ProbeLink.Protocol.{made, make_packet_binary, check_ack}
use miri_tool_v.ProbeLink.Response.{response, read_response, find_start, read_body, read_checksum}
use miri_tool_v.ProbeLink.RoundTrip.{stream_of}
use miri_tool_v.ProbeLink.Delivery.{read_response-make_packet_binary}
use miri_tool_v.ProbeLink.Update.{
  Link, Reply, Updated, updated, ProbeConfig, wait_ack, transact, send_binary_cmd, write_chunks,
}
use miri_tool_v.ProbeLink.Protocol.{put_prefix, put_data}
use miri_tool_v.ProbeLink.Written.{chunk_packets, write_chunks-chunk_packets}

read_response-make_packet_binary_example :
    (packet : Bytes) × (make_packet_binary (b'w' ∷ []) (b'#' ∷ b'x' ∷ []) 64 ≡ made packet)
    × (length packet < 64)
    × (read_response 9 16 (stream_of (packet ++ [])) ≡ response (b'w' ∷ b'#' ∷ b'x' ∷ []) [])
read_response-make_packet_binary_example =
    read_response-make_packet_binary (b'w' ∷ []) (b'#' ∷ b'x' ∷ []) [] 64 9 16 (omega arith)
      (omega arith) (omega arith) (omega arith) (omega arith)

abbrev ok_reply : Reply
ok_reply = record {
  transmitted = true;
  ack_bytes = some (b'+' ∷ []);
  rounds = 20;
  stream = stream_of (text "$OK#9a");
}

abbrev link : Link
link = record {
  sent = [];
  replies = ok_reply ∷ [];
  fw = record { step = FwStep.write; progress = 0; message = [] };
}

abbrev linked : Updated → Link
linked (updated t) = t
linked _ = link

abbrev written : Updated
written = write_chunks 3 (1 ∷ b'#' ∷ 3 ∷ []) 0x08000000 0 3 link

write_chunks_run : written ≡ updated (linked written)
unfolding write_chunks send_binary_cmd transact wait_ack check_ack make_packet_binary put_prefix
    put_data read_response find_start read_body read_checksum
write_chunks_run = refl

write_chunks-chunk_packets_example :
    (linked written).sent ≡ [] ++ chunk_packets 3 (1 ∷ b'#' ∷ 3 ∷ []) 0x08000000
write_chunks-chunk_packets_example =
    write_chunks-chunk_packets (1 ∷ b'#' ∷ 3 ∷ []) 0x08000000 3 link (linked written)
      write_chunks_run

abbrev dry_config : ProbeConfig
dry_config = record {
  jtag = false;
  target_text = b'1' ∷ [];
  reset_after = false;
  dry_run = true;
  do_erase = true;
  base_addr = 0x08000000;
}
