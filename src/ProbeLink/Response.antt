-- ===== src/ProbeLink/Response.antt =====
-- `probe_link_read_response`, of probe_link_session.c and of probe_link_update.c alike.
use miri_tool_v.Base.{
  ℕ, zero, suc, ◌+◌, Bytes, List, [], ◌∷◌, ◌++◌, Option, none, some, length, leb, ◌==◌,
  if◌then◌else◌, bit_xor, EspErr, invalid_arg, no_mem, timeout,
}

-- What each coming receive call of one byte yields, `none` for nothing within its 50 ms, and nothing
-- for ever at the end.
abbrev pub Stream : Type 0
Stream = List (Option ℕ)

-- The response and what is left in the stream; after one, a `+` is sent.
pub data Response : Type 0 where
  response : Bytes → Stream → Response
  error : EspErr → Response

pub record Started : Type 0 where
  pub rounds : ℕ
  pub stream : Stream

-- The first loop: it skips what stands before a `$`. `rounds` is how often the two loops together
-- find that the time is not over.
unfoldable pub find_start : ℕ → Stream → Option Started
find_start zero stream = none
find_start (suc rounds) [] = none
find_start (suc rounds) (none ∷ stream) = find_start rounds stream
find_start (suc rounds) (some ch ∷ stream) =
    let later = find_start rounds stream in
    if ch == b'$' then some (record { rounds = rounds; stream = stream }) else later

-- Two characters behind the `#`, whatever they are.
unfoldable pub read_checksum : Bytes → Stream → Response
read_checksum out (some c0 ∷ some c1 ∷ stream) = response out stream
read_checksum out _ = error timeout

-- The time is over: the loop is left with `ch` as it is.
abbrev pub out_of_time : ℕ → Bytes → Stream → Response
out_of_time ch out stream = if ch == b'#' then read_checksum out stream else error timeout

-- The second loop; `ch` is the character that was read last.
unfoldable pub read_body : ℕ → ℕ → ℕ → Bytes → Stream → Response
read_body zero out_size ch out stream = out_of_time ch out stream
read_body (suc rounds) out_size ch out [] = out_of_time ch out []
read_body (suc rounds) out_size ch out (none ∷ stream) = read_body rounds out_size ch out stream
read_body (suc rounds) out_size ch out (some c ∷ stream) =
    let append = λ (x : ℕ) (behind : Stream).
      if leb out_size (length out + 1)
      then error no_mem
      else read_body rounds out_size x (out ++ x ∷ []) behind in
    if c == b'#'
    then read_checksum out stream
    else if c == b'}'
    then elim stream [ some d ∷ behind ↦ append (bit_xor d 0x20) behind | _ ↦ error timeout ]
    else append c stream

abbrev read_started : ℕ → Option Started → Response
read_started out_size none = error timeout
read_started out_size (some s) = read_body s.rounds out_size b'$' [] s.stream

unfoldable pub read_response : ℕ → ℕ → Stream → Response
read_response rounds out_size stream =
    if out_size == 0 then error invalid_arg else read_started out_size (find_start rounds stream)
