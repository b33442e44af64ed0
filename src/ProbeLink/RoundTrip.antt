-- ===== src/ProbeLink/RoundTrip.antt =====
-- A packet for the probe, escaped where the protocol wants it, and what a reader of responses makes
-- of such a packet.
use miri_tool_v.Base.{
  ℕ, suc, ◌+◌, ◌*◌, ◌≤◌, ◌<◌, ◌≡◌, ◌≢◌, refl, sym, ap, subst, ◌∙◌, true, false, Bytes, [], ◌∷◌,
  ◌++◌, All, append-nil, append_assoc, some, length, length-append, ltb, leb, ◌==◌, if◌then◌else◌,
  bit_xor, arith, Bool-cases, inl, inr, ◌⊎◌,
}
use miri_tool_v.ProbeLink.Protocol.{
  made, needs_escape, sum_of, trailer, put_prefix, put_data, make_packet_binary,
}
use miri_tool_v.ProbeLink.Response.{Stream, response, read_checksum, read_body}

abbrev pub escaped : Bytes → Bytes
escaped [] = []
escaped (ch ∷ chs) =
    if needs_escape ch then b'}' ∷ bit_xor ch 0x20 ∷ escaped chs else ch ∷ escaped chs

-- A character that stands for itself in a response.
abbrev pub IsPlain : ℕ → Type 0
IsPlain ch = (ch ≢ b'#') × (ch ≢ b'}')

abbrev pub stream_of : Bytes → Stream
stream_of [] = []
stream_of (ch ∷ chs) = some ch ∷ stream_of chs

pub stream_of-append : (xs ys : Bytes) → stream_of (xs ++ ys) ≡ stream_of xs ++ stream_of ys
stream_of-append [] ys = refl
stream_of-append (x ∷ xs) ys = ap (◌∷◌ (some x)) (stream_of-append xs ys)

pub length-escaped : (xs : Bytes) → length (escaped xs) ≤ 2 * length xs
length-escaped [] = omega arith
length-escaped (x ∷ xs) = elim (Bool-cases (needs_escape x)) [
  | inl e ↦ rw e (omega (arith, length-escaped xs))
  | inr e ↦ rw e (omega (arith, length-escaped xs))
]

put_prefix_lem :
    (xs : Bytes) (out_size : ℕ) (out : Bytes)
    → length out + length xs < out_size
    → put_prefix xs out_size out ≡ some (out ++ xs)
unfolding put_prefix
put_prefix_lem [] out_size out h = rw append-nil
put_prefix_lem (x ∷ xs) out_size out h =
    let room : leb out_size (length out + 1) ≡ false = ground arith in
    rw room (
      put_prefix_lem xs out_size (out ++ x ∷ []) (omega (arith, length-append out (x ∷ [])))
      ∙ ap some (append_assoc out (x ∷ []) xs))

escaped_special :
    (x : ℕ) (xs : Bytes)
    → needs_escape x ≡ true
    → escaped (x ∷ xs) ≡ b'}' ∷ bit_xor x 0x20 ∷ escaped xs
escaped_special x xs e = rw e

escaped_plain : (x : ℕ) (xs : Bytes) → needs_escape x ≡ false → escaped (x ∷ xs) ≡ x ∷ escaped xs
escaped_plain x xs e = rw e

put_data_lem :
    (xs : Bytes) (out_size : ℕ) (out : Bytes)
    → length out + length (escaped xs) < out_size
    → put_data xs out_size out ≡ some (out ++ escaped xs)
unfolding put_data
put_data_lem [] out_size out h = rw append-nil
put_data_lem (x ∷ xs) out_size out h = elim (Bool-cases (needs_escape x)) [
  | inl e ↦
      let two = b'}' ∷ bit_xor x 0x20 ∷ [] in
      let longer = ap (λ (l : Bytes). length l) (escaped_special x xs e) in
      let room : leb out_size (length out + 2) ≡ false = ground arith in
      rw (e, room)
        (put_data_lem xs out_size (out ++ two) (omega (arith, length-append out two))
          ∙ ap some (append_assoc out two (escaped xs)))
  | inr e ↦
      let longer = ap (λ (l : Bytes). length l) (escaped_plain x xs e) in
      let room : leb out_size (length out + 1) ≡ false = ground arith in
      rw (e, room)
        (put_data_lem xs out_size (out ++ x ∷ []) (omega (arith, length-append out (x ∷ [])))
          ∙ ap some (append_assoc out (x ∷ []) (escaped xs)))
]

-- The packet: `$`, the prefix, the data escaped, `#` and the checksum of what stands between.
abbrev pub packet_of : Bytes → Bytes → Bytes
packet_of prefix bytes =
    b'$' ∷ ((prefix ++ escaped bytes) ++ trailer (sum_of 0 (prefix ++ escaped bytes)))

pub make_packet_binary_lem :
    (prefix bytes : Bytes) (out_size : ℕ)
    → 8 ≤ out_size
    → length prefix + length (escaped bytes) + 4 < out_size
    → make_packet_binary prefix bytes out_size ≡ made (packet_of prefix bytes)
unfolding make_packet_binary
make_packet_binary_lem prefix bytes out_size h k =
    let enough : ltb out_size 8 ≡ false = ground arith in
    let room : leb out_size (length (b'$' ∷ (prefix ++ escaped bytes)) + 3) ≡ false =
      ground (arith, length-append prefix (escaped bytes)) in
    rw (
      enough,
      put_prefix_lem prefix out_size (b'$' ∷ []) (omega arith),
      put_data_lem bytes out_size (b'$' ∷ prefix) (omega arith),
      room,
    )

-- the character that is read last
abbrev pub last : ℕ → Bytes → ℕ
last ch [] = ch
last ch (x ∷ xs) = last x xs

pub read_body-plain :
    (xs : Bytes) (rounds out_size ch : ℕ) (out : Bytes) (rest : Stream)
    → All IsPlain xs
    → length out + length xs < out_size
    → read_body (length xs + rounds) out_size ch out (stream_of xs ++ rest)
      ≡ read_body rounds out_size (last ch xs) (out ++ xs) rest
unfolding read_body
read_body-plain [] rounds out_size ch out rest h k =
    let n : 0 + rounds ≡ rounds = omega arith in rw (n, append-nil)
read_body-plain (x ∷ xs) rounds out_size ch out rest h k =
    let n : suc (length xs) + rounds ≡ suc (length xs + rounds) = omega arith in
    let room : leb out_size (length out + 1) ≡ false = ground arith in
    let no_end : (x == b'#') ≡ false = ground arith in
    let no_escape : (x == b'}') ≡ false = ground arith in
    rw (n, no_end, no_escape, room)
      (read_body-plain xs rounds out_size x (out ++ x ∷ []) rest h.1
          (omega (arith, length-append out (x ∷ [])))
        ∙ ap (λ o. read_body rounds out_size (last x xs) o rest) (append_assoc out (x ∷ []) xs))

unescaped : (x : ℕ) → needs_escape x ≡ true → bit_xor (bit_xor x 0x20) 0x20 ≡ x
unescaped x e = special x (cases x e)
  where
    cases : (x : ℕ) → needs_escape x ≡ true → (x ≡ b'$') ⊎ (x ≡ b'#') ⊎ (x ≡ b'}')
    cases x e = grind arith

    special : (x : ℕ) → (x ≡ b'$') ⊎ (x ≡ b'#') ⊎ (x ≡ b'}') → bit_xor (bit_xor x 0x20) 0x20 ≡ x
    special x (inl e) = subst (λ y. bit_xor (bit_xor y 0x20) 0x20 ≡ y) (sym e) refl
    special x (inr (inl e)) = subst (λ y. bit_xor (bit_xor y 0x20) 0x20 ≡ y) (sym e) refl
    special x (inr (inr e)) = subst (λ y. bit_xor (bit_xor y 0x20) 0x20 ≡ y) (sym e) refl

not_special : (x : ℕ) → needs_escape x ≡ false → IsPlain x
not_special x e = grind arith

read_body_step :
    (x : ℕ) (xs : Bytes) (rounds out_size ch : ℕ) (out : Bytes) (rest : Stream)
    → length out + 1 < out_size
    → read_body (suc rounds) out_size ch out (stream_of (escaped (x ∷ xs)) ++ rest)
      ≡ read_body rounds out_size x (out ++ x ∷ []) (stream_of (escaped xs) ++ rest)
unfolding read_body
read_body_step x xs rounds out_size ch out rest k =
    let room : leb out_size (length out + 1) ≡ false = ground arith in
    elim (Bool-cases (needs_escape x)) [
      | inl e ↦ rw (escaped_special x xs e, unescaped x e, room)
      | inr e ↦
          let p = not_special x e in
          let no_end : (x == b'#') ≡ false = ground arith in
          let no_escape : (x == b'}') ≡ false = ground arith in
          rw (escaped_plain x xs e, no_end, no_escape, room)
    ]

pub read_body-escaped :
    (xs : Bytes) (rounds out_size ch c0 c1 : ℕ) (out : Bytes) (rest : Stream)
    → length out + length xs < out_size
    → read_body
        (length xs + suc rounds)
        out_size
        ch
        out
        (stream_of (escaped xs) ++ some b'#' ∷ some c0 ∷ some c1 ∷ rest)
      ≡ response (out ++ xs) rest
read_body-escaped [] rounds out_size ch c0 c1 out rest k =
    let n : 0 + suc rounds ≡ suc rounds = omega arith in
    rw (n, append-nil) (unfold read_body in unfold read_checksum in refl)
read_body-escaped (x ∷ xs) rounds out_size ch c0 c1 out rest k =
    let n : suc (length xs) + suc rounds ≡ suc (length xs + suc rounds) = omega arith in
    rw n (
      read_body_step x xs (length xs + suc rounds) out_size ch out _ (omega arith)
      ∙ read_body-escaped xs rounds out_size x c0 c1 (out ++ x ∷ []) rest
          (omega (arith, length-append out (x ∷ [])))
      ∙ ap (λ o. response o rest) (append_assoc out (x ∷ []) xs))
