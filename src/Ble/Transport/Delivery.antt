-- ===== src/Ble/Transport/Delivery.antt =====
-- A command that is framed and written is the command that is handled.
use miri_tool_v.Base.{
  ℕ, ◌+◌, ◌-◌, ◌*◌, ◌/◌, ◌%◌, ◌≤◌, ◌<◌, ◌≡◌, refl, ap, sym, subst, ◌∙◌, true, false, Bytes, List,
  [], ◌∷◌, ◌++◌, append-nil, append_assoc, length, length-append, take_all, take-append, drop,
  drop-append, replicate, ltb, ◌==◌, inl, inr, Bool-cases, bit_xor, Outcome, done, failed, fault,
  ◌>>=◌, arith,
}
use miri_tool_v.Packet.{
  Status, stx_u, stx_l, len, content, crc, etx, max, Packet, Frame, parse_in, parser_packet,
  receive, packet_send_by_uart, product_stx_upper, product_stx_lower, product_etx,
  product_comm_buff_size,
}
use miri_tool_v.Packet.Loops.{fold_xor}
use miri_tool_v.Packet.RoundTrip.{frame_bytes, frame_of, send-frame_bytes, receive-frame_bytes}
use miri_tool_v.Ble.Device.{Device, Env}
use miri_tool_v.Ble.Commands.{handle_with_payload}
use miri_tool_v.Ble.Transport.{
  Connection, parsing_packet, parsed_packets, parsed_byte, parse_bytes, gatt_write,
}

-- A packet with more calls recorded behind those of the first.
abbrev Grew : Packet → Packet → Type 0
Grew p q = (new : List Frame) × (q.parsed ≡ p.parsed ++ new)

kept : (frames : List Frame) → (new : List Frame) × (frames ≡ frames ++ new)
kept frames = ([], sym (append-nil frames))

-- What a byte does to the calls.
abbrev GrewIfDone : Packet → Outcome Packet → Type 0
GrewIfDone p (done q) = Grew p q
GrewIfDone p (failed e q) = Unit
GrewIfDone p fault = Unit

parse_in-Grew : (s : Status) (p : Packet) (b : ℕ) → GrewIfDone p (parse_in s p b)
unfolding parse_in
parse_in-Grew stx_u p b = elim (Bool-cases (b == product_stx_upper)) [
  | inl hit ↦ rw hit (kept p.parsed)
  | inr miss ↦ rw miss (kept p.parsed)
]
parse_in-Grew stx_l p b = elim (Bool-cases (b == product_stx_lower)) [
  | inl hit ↦ rw hit (kept p.parsed)
  | inr miss ↦ rw miss (kept p.parsed)
]
parse_in-Grew len p b = kept p.parsed
parse_in-Grew content p b = elim (Bool-cases (ltb p.r_count product_comm_buff_size)) [
  | inl hit ↦ rw hit (kept p.parsed)
  | inr miss ↦ rw miss (tt)
]
parse_in-Grew crc p b = elim (Bool-cases (p.check == b)) [
  | inl hit ↦ rw hit (kept p.parsed)
  | inr miss ↦ rw miss (kept p.parsed)
]
parse_in-Grew etx p b = elim (Bool-cases (b == product_etx)) [
  | inl hit ↦ rw hit (record { buff = p.r_buff; size = p.size } ∷ [], refl)
  | inr miss ↦ rw miss (kept p.parsed)
]
parse_in-Grew max p b = kept p.parsed

module _ (env : Env) where
  parsed_packets-append :
      (new more : List Frame) (d : Device)
      → parsed_packets env (new ++ more) d ≡ parsed_packets env more (parsed_packets env new d)
  unfolding parsed_packets
  parsed_packets-append [] more d = refl
  parsed_packets-append (frame ∷ new) more d =
      parsed_packets-append new more (parsing_packet env frame d)

  -- What bytes that the parser gets through with do to the device.
  abbrev Delivered : Bytes → Connection → Packet → Type 0
  Delivered bs c q =
      (new : List Frame) × (q.parsed ≡ c.packet.parsed ++ new)
      × (parse_bytes env bs c
          ≡ done (record { packet = q; device = parsed_packets env new c.device }))

  parse_bytes-receive :
      (bs : Bytes) (c : Connection) (q : Packet) → receive c.packet bs ≡ done q → Delivered bs c q
  unfolding receive parse_bytes parsed_packets
  parse_bytes-receive [] c q e =
      let same : c.packet ≡ q = cc in
      subst (Delivered [] c) same ([], sym (append-nil c.packet.parsed), refl)
  parse_bytes-receive (b ∷ bs) c q e =
      go (parser_packet c.packet b) (parse_in-Grew c.packet.status c.packet b)
        (λ r d. parse_bytes-receive bs (record { packet = r; device = d }) q) e
    where
      go :
          (o : Outcome Packet)
          → GrewIfDone c.packet o
          → ((r : Packet) (d : Device)
              → receive r bs ≡ done q
              → Delivered bs (record { packet = r; device = d }) q)
          → (o >>= λ r. receive r bs) ≡ done q
          → (new : List Frame) × (q.parsed ≡ c.packet.parsed ++ new)
            × ((parsed_byte env c o >>= λ d. parse_bytes env bs d)
                ≡ done (record { packet = q; device = parsed_packets env new c.device }))
      go (done r) (new, grew) ih e =
          let d = parsed_packets env (drop (length c.packet.parsed) r.parsed) c.device in
          let (more, grown, runs) = ih r d e in
          let dropped : drop (length c.packet.parsed) r.parsed ≡ new =
            ap (drop (length c.packet.parsed)) grew ∙ drop-append c.packet.parsed new in
          let device : parsed_packets env more d ≡ parsed_packets env (new ++ more) c.device =
            ap (λ fs. parsed_packets env more (parsed_packets env fs c.device)) dropped
            ∙ sym (parsed_packets-append new more c.device) in
          (
            new ++ more,
            grown ∙ ap (λ fs. fs ++ more) grew ∙ append_assoc c.packet.parsed new more,
            runs ∙ ap (λ e. done (record { packet = q; device = e })) device,
          )
      go (failed x r) h ih e = cc
      go fault h ih e = cc

  parsing_packet-frame_of :
      (cmd : ℕ) (xs : Bytes) (d : Device)
      → cmd < 65536
      → length xs ≤ 198
      → parsing_packet env (frame_of cmd xs) d ≡ handle_with_payload env cmd xs d
  parsing_packet-frame_of cmd xs d c h =
      let code : cmd / 256 * 256 + cmd % 256 ≡ cmd = omega arith in
      let long : ltb (length xs + 2) 2 ≡ false = ground arith in
      let size : length xs + 2 - 2 ≡ length xs = omega arith in
      rw (long, code, size, take-append xs (replicate (product_comm_buff_size - (length xs + 2)) 0))

  -- A command below 2 ^ 16 with at most 198 bytes of payload, framed as the packet layer frames it
  -- and written by the phone while the parser waits for a frame: it is handled once, with this
  -- payload, and the parser waits again.
  pub gatt_write-packet_send_by_uart :
      (c : Connection) (cmd : ℕ) (xs : Bytes)
      → c.packet.status ≡ stx_u
      → cmd < 65536
      → length xs ≤ 198
      → (bytes : Bytes) × (packet_send_by_uart true cmd xs (length xs) ≡ done (bytes ∷ []))
        × (q : Packet) × (q.status ≡ stx_u)
        × (gatt_write env bytes c
            ≡ done (record { packet = q; device = handle_with_payload env cmd xs c.device }))
  unfolding gatt_write parsed_packets receive
  gatt_write-packet_send_by_uart c cmd xs waits small short =
      let (q, runs, idle, calls) = receive-frame_bytes c.packet cmd xs [] waits short in
      let got : receive c.packet (frame_bytes cmd xs) ≡ done q =
        ap (receive c.packet) (sym (append-nil (frame_bytes cmd xs))) ∙ runs in
      let (new, grew, delivered) = parse_bytes-receive (frame_bytes cmd xs) c q got in
      let same : new ≡ frame_of cmd xs ∷ [] =
        sym (drop-append c.packet.parsed new)
        ∙ ap (drop (length c.packet.parsed)) (sym grew ∙ calls)
        ∙ drop-append c.packet.parsed (frame_of cmd xs ∷ []) in
      let fits : length (frame_bytes cmd xs) ≤ 512 = omega (
        arith,
        length-append xs (fold_xor (bit_xor (cmd / 256) (cmd % 256)) xs ∷ product_etx ∷ []),
      ) in
      let whole = take_all 512 (frame_bytes cmd xs) fits in
      (
        frame_bytes cmd xs,
        (let sent = send-frame_bytes cmd xs [] small (omega arith) in rw append-nil at sent),
        q,
        idle,
        rw whole delivered
            ∙ ap (λ fs. done (record { packet = q; device = parsed_packets env fs c.device })) same
            ∙ ap (λ d. done (record { packet = q; device = d }))
                (parsing_packet-frame_of cmd xs c.device small short),
      )
