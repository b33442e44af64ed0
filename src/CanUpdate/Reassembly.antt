-- ===== src/CanUpdate/Reassembly.antt =====
-- What a receiver makes of the frames of `tms_user_sw_send`.
use miri_tool_v.Base.{
  ℕ, zero, suc, ◌+◌, ◌-◌, ◌*◌, ◌/◌, ◌%◌, ◌≤◌, ◌<◌, ◌≡◌, refl, sym, ap, subst, ◌∙◌, Bytes, List, [],
  ◌∷◌, ◌++◌, append-nil, append_assoc, length, take, drop, replicate, length-append, length-take,
  length-drop, take-append, take-append-drop, take_all, drop_all, leb, Bool-cases, inl, inr, u8,
  bit_and, arith,
}
use miri_tool_v.CanUpdate.Sid
use miri_tool_v.CanUpdate.Bus.{CanMessage, Driver, Bus, ok, byte_of}
use miri_tool_v.CanUpdate.Sent.{Sent}
use miri_tool_v.CanUpdate.Transfer.{tms_user_sw_send}
use miri_tool_v.CanUpdate.Frames.{frames, all_frames, tms_user_sw_send-Sent}

-- The receiver's side: the bytes behind the frame headers, cut at the length that the first frame
-- announces.
abbrev pub payloads : List CanMessage → Bytes
payloads [] = []
payloads (m ∷ ms) = drop 1 m.bytes ++ payloads ms

abbrev pub reassemble : List CanMessage → Bytes
reassemble [] = []
reassemble (m ∷ ms) =
    take (byte_of m 0 % 0x10 * 0x100 + byte_of m 1) (drop 2 m.bytes ++ payloads ms)

frames-nil : (fuel seq : ℕ) → frames fuel seq [] ≡ []
frames-nil zero seq = refl
frames-nil (suc fuel) seq = refl

payload_full :
    (ys zeros rest : Bytes)
    → 7 ≤ length ys
    → rest ≡ drop 7 ys ++ zeros
    → (take 7 ys ++ replicate (7 - length (take 7 ys)) 0) ++ rest ≡ ys ++ zeros
payload_full ys zeros rest h e =
    let none_left : 7 - length (take 7 ys) ≡ 0 = omega (arith, length-take 7 ys h) in
    rw (none_left, append-nil, e, ← append_assoc (take 7 ys) (drop 7 ys) zeros)
      (ap (λ l. l ++ zeros) (take-append-drop 7 ys))

payload_last :
    (ys rest : Bytes)
    → length ys ≤ 7
    → rest ≡ []
    → (take 7 ys ++ replicate (7 - length (take 7 ys)) 0) ++ rest
      ≡ ys ++ replicate (7 - length ys) 0
payload_last ys rest h e = rw (e, append-nil, take_all 7 ys h)

payloads-frames :
    (fuel seq : ℕ) (xs : Bytes)
    → length xs ≤ fuel
    → (zeros : Bytes) × (payloads (frames fuel seq xs) ≡ xs ++ zeros)
payloads-frames zero seq [] h = ([], refl)
payloads-frames zero seq (x ∷ xs) h = absurd (omega arith)
payloads-frames (suc fuel) seq [] h = ([], refl)
payloads-frames (suc fuel) seq (x ∷ xs) h = elim (Bool-cases (leb (length (x ∷ xs)) 7)) [
  | inl last ↦
      let short : length (x ∷ xs) ≤ 7 = ground arith in
      let ended : payloads (frames fuel (bit_and (seq + 1) 0x2F) (drop 7 (x ∷ xs))) ≡ [] =
        rw (drop_all 7 (x ∷ xs) short, frames-nil fuel (bit_and (seq + 1) 0x2F)) in
      (replicate (7 - length (x ∷ xs)) 0, payload_last (x ∷ xs) _ short ended)
  | inr more ↦
      let full : 7 ≤ length (x ∷ xs) = ground arith in
      let (zeros, e) =
        payloads-frames fuel (bit_and (seq + 1) 0x2F) (drop 7 (x ∷ xs))
          (omega (arith, length-drop 7 (x ∷ xs))) in
      (zeros, payload_full (x ∷ xs) zeros _ full e)
]

reassemble-all_frames :
    (xs : Bytes) (b : ℕ)
    → length xs < 4095
    → reassemble (all_frames xs b) ≡ Sid.user_sw_data_send ∷ xs
reassemble-all_frames xs b short =
    let n = length xs + 1 in
    let announced : (0x10 + n / 0x100 % 0x10) % 0x10 * 0x100 + u8 n ≡ suc (length xs) =
      omega arith in
    let (zeros, e) =
      payloads-frames n 0x21 (drop 5 xs ++ b ∷ [])
        (omega (arith, length-append (drop 5 xs) (b ∷ []), length-drop 5 xs)) in
    let bytes : take 5 xs ++ payloads (frames n 0x21 (drop 5 xs ++ b ∷ [])) ≡ xs ++ b ∷ zeros =
      ap (◌++◌ (take 5 xs)) (e ∙ append_assoc (drop 5 xs) (b ∷ []) zeros)
      ∙ sym (append_assoc (take 5 xs) (drop 5 xs) (b ∷ zeros))
      ∙ ap (λ l. l ++ b ∷ zeros) (take-append-drop 5 xs) in
    rw (announced, bytes) (ap (◌∷◌ Sid.user_sw_data_send) (take-append xs (b ∷ zeros)))

-- A successful `tms_user_sw_send` of 5 to 4094 bytes of data has sent frames from which the
-- receiver reassembles the service id and exactly these bytes, whatever byte stands behind them.
pub tms_user_sw_send-reassemble :
    (driver : Driver) (xs more : Bytes) (b : ℕ) (s t : Bus)
    → 5 ≤ length xs
    → length xs < 4095
    → tms_user_sw_send driver (xs ++ b ∷ more) (length xs) s ≡ ok t
    → (ms : List CanMessage) × (t.sent ≡ s.sent ++ ms)
      × (reassemble ms ≡ Sid.user_sw_data_send ∷ xs)
tms_user_sw_send-reassemble driver xs more b s t five short e = (
  all_frames xs b,
  subst (Sent (all_frames xs b) s) e (tms_user_sw_send-Sent driver xs more b s five short),
  reassemble-all_frames xs b short,
)
