-- ===== src/ProbeLink/Written.antt =====
-- What the probe has been sent when the loop of probe_link_update.c that writes the file succeeds.
use miri_tool_v.Base.{
  ℕ, zero, suc, ◌+◌, ◌≤◌, ◌≡◌, refl, sym, ap, subst, ◌∙◌, Bool, true, false, ◌&&◌, Bytes, List, [],
  ◌∷◌, ◌++◌, append-nil, append_assoc, Option, none, some, length, length-drop, length-take-le,
  get_or, take, drop, ◌==◌, if◌then◌else◌, u32, arith, EspErr,
}
use Prim.Native.String.{String}
use miri_tool_v.ProbeLink.Protocol.{made}
use miri_tool_v.ProbeLink.Response.{Response, response, error, read_response}
use miri_tool_v.ProbeLink.RoundTrip.{packet_of, length-escaped, make_packet_binary_lem}
use miri_tool_v.ProbeLink.Update.{
  Link, Reply, Answer, answer, refusal, answered, after_ack, with_reply, abort, Updated, updated,
  aborted, ◌>>=◌, packet_max, wait_ack, transact, send_binary_cmd, confirmed, write_prefix,
  write_chunks, progress_of, resp_size, update_from_reader, ProbeConfig, read_dry,
}

-- the acknowledgement that is sent for a response
abbrev pub plus : Bytes
plus = b'+' ∷ []

-- If a command is answered, its packet and then the acknowledgement have been sent.
abbrev Answered : Bytes → Link → Answer → Type 0
Answered packet s (answer out t) = t.sent ≡ s.sent ++ packet ∷ plus ∷ []
Answered packet s _ = Unit

transact-Answered :
    (size : ℕ) (packet : Bytes) (s : Link) → Answered packet s (transact size (made packet) s)
unfolding transact
transact-Answered size packet s = by_replies s.replies
  where
    by_response :
        (q : Response) (t : Link)
        → t.sent ≡ s.sent ++ packet ∷ []
        → Answered packet s (answered q t)
    by_response (response out _) t e =
        ap (λ l. l ++ plus ∷ []) e ∙ append_assoc s.sent (packet ∷ []) (plus ∷ [])
    by_response (error e) t _ = tt

    by_ack :
        (o : Option EspErr) (r : Reply) (t : Link)
        → t.sent ≡ s.sent ++ packet ∷ []
        → Answered packet s (after_ack o size r t)
    by_ack none r t e = by_response (read_response r.rounds size r.stream) t e
    by_ack (some x) r t e = tt

    by_flag :
        (b : Bool) (a : Answer) (t : Link)
        → Answered packet s a
        → Answered packet s (if b then a else refusal EspErr.esp_fail t)
    by_flag true a t h = h
    by_flag false a t h = tt

    by_replies : (rs : List Reply) → Answered packet s (with_reply size packet rs s)
    by_replies [] = tt
    by_replies (r ∷ rs) = by_flag r.transmitted _ _ (
        by_ack (wait_ack r.ack_bytes) r (record s { sent = s.sent ++ packet ∷ []; replies = rs })
          refl)

-- The packets of the write commands, each with the acknowledgement of its response.
abbrev pub chunk_packets : ℕ → Bytes → ℕ → List Bytes
chunk_packets fuel [] addr = []
chunk_packets zero (x ∷ xs) addr = []
chunk_packets (suc fuel) (x ∷ xs) addr =
    let chunk = take 256 (x ∷ xs) in
    packet_of (write_prefix addr) chunk
    ∷ plus
    ∷ chunk_packets fuel (drop 256 (x ∷ xs)) (u32 (addr + length chunk))

abbrev SentBy : List Bytes → Link → Updated → Type 0
SentBy ps s (updated t) = t.sent ≡ s.sent ++ ps
SentBy ps s (aborted e t) = Unit

confirmed-SentBy :
    (packet : Bytes) (ps : List Bytes) (s : Link) (a : Answer) (message : String)
    (f : Link → Updated)
    → Answered packet s a
    → ((t : Link) → SentBy ps t (f t))
    → SentBy (packet ∷ plus ∷ ps) s (confirmed a message >>= f)
confirmed-SentBy packet ps s (refusal e t) message f h k = tt
confirmed-SentBy packet ps s (answer out t) message f h k =
    go (get_or out 0 0 == b'O' && get_or out 1 0 == b'K')
  where
    shift : (u : Updated) → SentBy ps t u → SentBy (packet ∷ plus ∷ ps) s u
    shift (updated v) e = e ∙ ap (λ l. l ++ ps) h ∙ append_assoc s.sent (packet ∷ plus ∷ []) ps
    shift (aborted e v) _ = tt

    go :
        (b : Bool)
        → SentBy
            (packet ∷ plus ∷ ps)
            s
            ((if b then updated t else abort EspErr.esp_fail message t) >>= f)
    go true = shift (f t) (k t)
    go false = tt

progress_of-sent : (read total : ℕ) (s : Link) → (progress_of read total s).sent ≡ s.sent
progress_of-sent read total s = grind arith

SentBy-same :
    (ps : List Bytes) (s t : Link) (u : Updated) → s.sent ≡ t.sent → SentBy ps s u → SentBy ps t u
SentBy-same ps s t (updated v) e h = h ∙ ap (λ l. l ++ ps) e
SentBy-same ps s t (aborted x v) e h = tt

chunk-Answered :
    (chunk : Bytes) (addr : ℕ) (s : Link)
    → length chunk ≤ 256
    → Answered
        (packet_of (write_prefix addr) chunk)
        s
        (send_binary_cmd (write_prefix addr) chunk resp_size s)
unfolding send_binary_cmd
chunk-Answered chunk addr s h =
    rw
      (make_packet_binary_lem (write_prefix addr) chunk packet_max (omega arith)
        (omega (arith, length-escaped chunk)))
      (transact-Answered resp_size (packet_of (write_prefix addr) chunk) s)

write_chunks-SentBy :
    (fuel : ℕ) (content : Bytes) (addr total_read total_size : ℕ) (s : Link)
    → length content ≤ fuel
    → SentBy
        (chunk_packets fuel content addr)
        s
        (write_chunks fuel content addr total_read total_size s)
unfolding write_chunks
write_chunks-SentBy fuel [] addr total_read total_size s h = sym (append-nil s.sent)
write_chunks-SentBy zero (x ∷ xs) addr total_read total_size s h = absurd (omega arith)
write_chunks-SentBy (suc fuel) (x ∷ xs) addr total_read total_size s h =
    let chunk = take 256 (x ∷ xs) in
    let rest = drop 256 (x ∷ xs) in
    let ps = chunk_packets fuel rest (u32 (addr + length chunk)) in
    confirmed-SentBy (packet_of (write_prefix addr) chunk) ps s
      (send_binary_cmd (write_prefix addr) chunk resp_size s) "probe link write fail" _
      (chunk-Answered chunk addr s (length-take-le 256 (x ∷ xs)))
      λ t.
        let after = progress_of (total_read + length chunk) total_size t in
        SentBy-same ps after t _ (progress_of-sent (total_read + length chunk) total_size t) (
          write_chunks-SentBy fuel rest (u32 (addr + length chunk)) (total_read + length chunk)
            total_size after (omega (arith, length-drop 256 (x ∷ xs))))

-- When the loop that writes the file succeeds, the probe has been sent one write command for each
-- 256 bytes of the file, in order and at ascending addresses, the last for what is left over, each
-- with the acknowledgement of its response, and nothing else.
pub write_chunks-chunk_packets :
    (content : Bytes) (addr total_size : ℕ) (s t : Link)
    → write_chunks (length content) content addr 0 total_size s ≡ updated t
    → t.sent ≡ s.sent ++ chunk_packets (length content) content addr
write_chunks-chunk_packets content addr total_size s t e =
    subst (SentBy (chunk_packets (length content) content addr) s) e
      (write_chunks-SentBy (length content) content addr 0 total_size s (omega arith))

read_dry-sent :
    (fuel : ℕ) (content : Bytes) (total_read total_size : ℕ) (s : Link)
    → (read_dry fuel content total_read total_size s).sent ≡ s.sent
unfolding read_dry
read_dry-sent fuel [] total_read total_size s = refl
read_dry-sent zero (x ∷ xs) total_read total_size s = refl
read_dry-sent (suc fuel) (x ∷ xs) total_read total_size s =
    let rd = length (take 1024 (x ∷ xs)) in
    read_dry-sent fuel (drop 1024 (x ∷ xs)) (total_read + rd) total_size
      (progress_of (total_read + rd) total_size s)
    ∙ progress_of-sent (total_read + rd) total_size s

-- A dry run succeeds and sends nothing to the probe, whatever the file.
pub update_from_reader-dry_run :
    (cfg : ProbeConfig) (opens : Bool) (content : Bytes) (total_size : ℕ) (s : Link)
    → cfg.dry_run ≡ true
    → (t : Link) × (update_from_reader cfg opens content total_size s ≡ updated t)
      × (t.sent ≡ s.sent)
unfolding update_from_reader
update_from_reader-dry_run cfg opens content total_size s dry =
    rw dry (_, refl, read_dry-sent (length content) content 0 total_size _)
