-- ===== src/ProbeLink/Update.antt =====
-- probe_link_update.c: the dialogue that writes a firmware file to a target through the probe.
use Prim.Native.String.{String}
use miri_tool_v.Base.{
  ℕ, zero, suc, ◌+◌, ◌*◌, ◌/◌, ◌%◌, Bool, true, ◌&&◌, Bytes, List, [], ◌∷◌, ◌++◌, Option, none,
  some, length, get_or, take, drop, ltb, ◌==◌, if◌then◌else◌, u8, u32, EspErr, esp_fail, timeout,
}
use miri_tool_v.FwState.{FwState, FwStep, set_step, set_progress, text}
use miri_tool_v.ProbeLink.Protocol.{
  Made, made, refused, hex_digit, make_packet, make_packet_binary, ack, check_ack,
}
use miri_tool_v.ProbeLink.Response.{Stream, Response, response, error, read_response}

abbrev pub packet_max : ℕ
packet_max = 1024

-- What the line does for one command: whether its packet is transmitted, what is received for the
-- acknowledgement, and what comes then, with the rounds that the timeout allows.
pub record Reply : Type 0 where
  pub transmitted : Bool
  pub ack_bytes : Option Bytes
  pub rounds : ℕ
  pub stream : Stream

-- What has been transmitted, and the replies to the coming commands; without one the command gets
-- nothing.
pub record Link : Type 0 where
  pub sent : List Bytes
  pub replies : List Reply
  pub fw : FwState

-- The response to a command, or the error that is returned.
pub data Answer : Type 0 where
  answer : Bytes → Link → Answer
  refusal : EspErr → Link → Answer

-- `probe_link_wait_ack`: none for an acknowledgement.
unfoldable pub wait_ack : Option Bytes → Option EspErr
wait_ack none = some timeout
wait_ack (some bytes) = elim (check_ack bytes) [ ack true ↦ none | _ ↦ some esp_fail ]

abbrev pub answered : Response → Link → Answer
answered (response out _) s = answer out (record s { sent = s.sent ++ (b'+' ∷ []) ∷ [] })
answered (error e) s = refusal e s

abbrev pub after_ack : Option EspErr → ℕ → Reply → Link → Answer
after_ack none resp_size r s = answered (read_response r.rounds resp_size r.stream) s
after_ack (some e) resp_size r s = refusal e s

abbrev pub with_reply : ℕ → Bytes → List Reply → Link → Answer
with_reply resp_size packet [] s = refusal timeout (record s { sent = s.sent ++ packet ∷ [] })
with_reply resp_size packet (r ∷ rs) s =
    let t = record s { sent = s.sent ++ packet ∷ []; replies = rs } in
    let acknowledged = after_ack (wait_ack r.ack_bytes) resp_size r t in
    if r.transmitted then acknowledged else refusal esp_fail (record s { replies = rs })

-- What `probe_link_send_text_cmd` and `probe_link_send_binary_cmd` share.
unfoldable pub transact : ℕ → Made → Link → Answer
unfolding wait_ack
transact resp_size (refused e) s = refusal e s
transact resp_size (made packet) s = with_reply resp_size packet s.replies s

unfoldable pub send_text_cmd : Bytes → ℕ → Link → Answer
send_text_cmd payload resp_size s = transact resp_size (make_packet payload packet_max) s

unfoldable pub send_binary_cmd : Bytes → Bytes → ℕ → Link → Answer
send_binary_cmd prefix bytes resp_size s =
    transact resp_size (make_packet_binary prefix bytes packet_max) s

-- `probe_link_hex_encode`, of a text up to its terminating zero; `idx` characters are written.
unfoldable pub hex_encode : Bytes → ℕ → ℕ → Bytes
hex_encode [] out_size idx = []
hex_encode (ch ∷ chs) out_size idx =
    let rest = hex_encode chs out_size (idx + 2) in
    if ltb (idx + 2) out_size then hex_digit (ch / 16 % 16) ∷ hex_digit (ch % 16) ∷ rest else []

-- `%08lx` of a 32-bit number.
abbrev pub hex8 : ℕ → Bytes
hex8 n =
    hex_digit (n / 0x10000000 % 16)
    ∷ hex_digit (n / 0x1000000 % 16)
    ∷ hex_digit (n / 0x100000 % 16)
    ∷ hex_digit (n / 0x10000 % 16)
    ∷ hex_digit (n / 0x1000 % 16)
    ∷ hex_digit (n / 0x100 % 16)
    ∷ hex_digit (n / 0x10 % 16)
    ∷ hex_digit (n % 16)
    ∷ []

-- What `probe_link_parse_meta` finds: `target_text` is what `%d` prints of the target's index.
pub record ProbeConfig : Type 0 where
  pub jtag : Bool
  pub target_text : Bytes
  pub reset_after : Bool
  pub dry_run : Bool
  pub do_erase : Bool
  pub base_addr : ℕ

pub data Updated : Type 0 where
  updated : Link → Updated
  aborted : EspErr → Link → Updated

infixl 5 ◌>>=◌
abbrev pub ◌>>=◌ : Updated → (Link → Updated) → Updated
updated s >>= f = f s
aborted e s >>= f = aborted e s

abbrev report : (FwState → FwState) → Link → Updated
report f s = updated (record s { fw = f s.fw })

abbrev pub abort : EspErr → String → Link → Updated
abort e message s = aborted e (record s { fw = set_step FwStep.error (text message) s.fw })

-- The progress after `total_read` bytes.
abbrev pub progress_of : ℕ → ℕ → Link → Link
progress_of total_read total_size s =
    if total_size == 0
    then s
    else record s { fw = set_progress (u8 (u32 (total_read * 100) / total_size)) s.fw }

-- A command whose failure ends the update, and one whose outcome is ignored.
abbrev required : Answer → String → Updated
required (answer out s) message = updated s
required (refusal e s) message = abort e message s

abbrev optional : Answer → Updated
optional (answer out s) = updated s
optional (refusal e s) = updated s

-- A command whose response must begin with `OK`.
abbrev pub confirmed : Answer → String → Updated
confirmed (answer out s) message =
    if get_or out 0 0 == b'O' && get_or out 1 0 == b'K' then updated s else abort esp_fail message s
confirmed (refusal e s) message = abort esp_fail message s

abbrev pub resp_size : ℕ
resp_size = 128

abbrev pub write_prefix : ℕ → Bytes
write_prefix addr = text "vFlashWrite:" ++ (hex8 addr ++ b':' ∷ [])

-- The loop that writes the file, 256 bytes a command, on fuel: a chunk has a byte at least.
unfoldable pub write_chunks : ℕ → Bytes → ℕ → ℕ → ℕ → Link → Updated
write_chunks fuel [] addr total_read total_size s = updated s
write_chunks zero (x ∷ xs) addr total_read total_size s = updated s
write_chunks (suc fuel) (x ∷ xs) addr total_read total_size s =
    let chunk = take 256 (x ∷ xs) in
    let rd = length chunk in
    confirmed (send_binary_cmd (write_prefix addr) chunk resp_size s) "probe link write fail"
    >>= λ t.
        write_chunks fuel (drop 256 (x ∷ xs)) (u32 (addr + rd)) (total_read + rd) total_size
          (progress_of (total_read + rd) total_size t)

-- The loop of a dry run: it reads the file, 1024 bytes at a time.
unfoldable pub read_dry : ℕ → Bytes → ℕ → ℕ → Link → Link
read_dry fuel [] total_read total_size s = s
read_dry zero (x ∷ xs) total_read total_size s = s
read_dry (suc fuel) (x ∷ xs) total_read total_size s =
    let rd = length (take 1024 (x ∷ xs)) in
    read_dry fuel (drop 1024 (x ∷ xs)) (total_read + rd) total_size
      (progress_of (total_read + rd) total_size s)

abbrev finished : String → Link → Updated
finished message s = report (λ fw. set_progress 100 (set_step FwStep.done (text message) fw)) s

-- Behind the dry run, with the line opened.
unfoldable pub update_target : ProbeConfig → Bytes → ℕ → Link → Updated
update_target cfg content total_size s =
    optional (send_text_cmd (text "qSupported") resp_size s) >>= λ t.
    required
      (send_text_cmd
        (text "qRcmd," ++ hex_encode (if cfg.jtag then text "jtag_scan" else text "swdp_scan") 64 0)
        resp_size t)
      "probe link scan fail"
    >>= λ t.
        required (send_text_cmd (text "vAttach;" ++ cfg.target_text) resp_size t)
          "probe link attach fail"
        >>= λ t.
            (if cfg.do_erase
              then required
                  (send_text_cmd
                    (text "vFlashErase:" ++ (hex8 cfg.base_addr ++ b',' ∷ hex8 total_size))
                    resp_size t)
                  "probe link erase fail"
              else updated t)
            >>= write_chunks (length content) content cfg.base_addr 0 total_size
            >>= λ t.
                confirmed (send_text_cmd (text "vFlashDone") resp_size t) "probe link done fail"
                >>= λ t.
                    (if cfg.reset_after
                      then optional (
                          send_text_cmd (text "qRcmd," ++ hex_encode (text "reset") 64 0) resp_size
                            t)
                      else updated t)
                    >>= finished "probe link done"

-- `probe_link_update_from_reader` with a configuration; the flag says whether the line opens.
unfoldable pub update_from_reader : ProbeConfig → Bool → Bytes → ℕ → Link → Updated
update_from_reader cfg opens content total_size s =
    let ready = record s {
      fw = set_progress 0 (set_step FwStep.prepare (text "probe link prepare") s.fw);
    } in
    let dry = record ready { fw = set_step FwStep.write (text "probe link dry-run") ready.fw } in
    let wet = record ready { fw = set_step FwStep.write (text "probe link write") ready.fw } in
    if cfg.dry_run
    then finished "probe link dry-run done" (read_dry (length content) content 0 total_size dry)
    else if opens
    then update_target cfg content total_size wet
    else abort esp_fail "probe link uart open fail" wet
