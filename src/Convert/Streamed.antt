-- ===== src/Convert/Streamed.antt =====
-- The conversion into a file: it ends with the image that the conversion in memory builds.
use miri_tool_v.Base.{
  ℕ, ◌+◌, ◌-◌, ◌≤◌, ◌<◌, ◌≡◌, ◌⊎◌, leb, take, drop, length-take, length-drop, inl, inr, refl, ap,
  sym, ◌∙◌, Bool, true, false, not, ◌&&◌, ◌||◌, Bytes, List, [], ◌∷◌, ◌++◌, length, length-append,
  take_all, min, ltb, ◌==◌, if◌then◌else◌, Bool-cases, u32, done, ◌>>=◌, arith,
}
use miri_tool_v.Convert.{TextRecord}
use miri_tool_v.Convert.Image.{
  covers, byte_at-covered, value_in, get_or-append_lt, byte_after, value, over,
}
use miri_tool_v.Convert.Built.{IsFine, value-over}
use miri_tool_v.Convert.Sink.{SinkCtx, rebase_stream, sunk, hand_on, Disk, file_sink}

-- A file system that goes to every place and takes all bytes. What stands in the bytes that are
-- skipped behind the end of a file is not said.
pub record IsGood (disk : Disk) : Type 0 where
  pub seeks_all : (a : ℕ) → disk.seeks a ≡ true
  pub takes_all : (a n : ℕ) → n ≤ disk.takes a n
  pub gap_length : (n : ℕ) → length (disk.gap n) ≡ n

-- No data record lies below the first one.
abbrev pub AreAbove : Bool → ℕ → List TextRecord → Type 0
AreAbove seen base [] = Unit
AreAbove seen base (r ∷ rs) =
    (r.is_data ≡ true → seen ≡ true → base ≤ r.address)
    × AreAbove (r.is_data || seen) (if r.is_data && not seen then r.address else base) rs

abbrev pub file_value : SinkCtx Bytes → ℕ → ℕ
file_value s a = value s.base_addr s.out a

-- The file so far.
pub record IsOpen (s : SinkCtx Bytes) : Type 0 where
  pub sound : s.has_error ≡ false
  pub fresh : s.has_base ≡ false → s.out ≡ []

-- the file has a byte for the address
abbrev pub Reaches : SinkCtx Bytes → ℕ → Type 0
Reaches s a = (s.base_addr ≤ a) × (a < s.base_addr + length s.out)

-- What one record makes of the file, at the addresses that the file or the record has bytes for.
pub record IsStreamed (r : TextRecord) (s t : SinkCtx Bytes) : Type 0 where
  pub open_still : IsOpen t
  pub seen : t.has_base ≡ (r.is_data || s.has_base)
  pub base : t.base_addr ≡ (if r.is_data && not s.has_base then r.address else s.base_addr)
  pub same :
      (a : ℕ)
      → Reaches s a ⊎ (covers r a ≡ true)
      → (file_value t a ≡ byte_after r a (file_value s a)) × Reaches t a

file_sink_lem :
    (disk : Disk) (addr : ℕ) (bytes file : Bytes)
    → IsGood disk
    → 0 < length bytes
    → file_sink disk addr bytes file
      ≡ done (over addr bytes (file ++ disk.gap (addr - length file)))
unfolding file_sink
file_sink_lem disk addr bytes file good some_bytes =
    let takes = good.takes_all addr (length bytes) in
    let wr : min (disk.takes addr (length bytes)) (length bytes) ≡ length bytes = omega arith in
    let e : (length bytes == 0) ≡ false = ground arith in
    let same : (length bytes == length bytes) ≡ true = ground arith in
    let whole = take_all (length bytes) bytes (omega arith) in
    rw (wr, whole, e, good.seeks_all addr, same) refl

-- the stream with its first address set
abbrev based : ℕ → SinkCtx Bytes → SinkCtx Bytes
based address s = record s {
  base_addr = if not s.has_base then address else s.base_addr;
  has_base = true;
}

based_lem :
    (address : ℕ) (s : SinkCtx Bytes)
    → (s.has_base ≡ true → s.base_addr ≤ address)
    → (rebase_stream address s ≡ done (based address s)) × ((based address s).base_addr ≤ address)
unfolding rebase_stream
based_lem address s above = elim (Bool-cases s.has_base) [
  | inl set ↦
      let h = above set in
      let e : ltb address s.base_addr ≡ false = ground arith in (rw (set, e) refl, rw set h)
  | inr unset ↦ (rw unset refl, rw unset (omega arith))
]

-- A file that has bytes has its first address already.
Reaches-based :
    (address : ℕ) (s : SinkCtx Bytes) (a : ℕ)
    → IsOpen s
    → Reaches s a
    → (based address s).base_addr ≡ s.base_addr
Reaches-based address s a is_open h = elim (Bool-cases s.has_base) [
  | inl set ↦ rw set refl
  | inr unset ↦
      let e = ap (λ (xs : Bytes). length xs) (is_open.fresh unset) in
      absurd (omega (arith, h.0, h.1, e))
]

covers→bounds :
    (r : TextRecord) (a : ℕ)
    → covers r a ≡ true
    → (r.address ≤ a) × (a < r.address + length r.bytes)
covers→bounds r a h =
    go r.is_data (leb r.address a) (ltb a (r.address + length r.bytes)) refl refl h
  where
    go :
        (d l k : Bool)
        → leb r.address a ≡ l
        → ltb a (r.address + length r.bytes) ≡ k
        → (d && (l && k)) ≡ true
        → (r.address ≤ a) × (a < r.address + length r.bytes)
    go true true true e f h = (ground arith, ground arith)
    go true true false e f h = absurd (grind arith)
    go true false k e f h = absurd (grind arith)
    go false l k e f h = absurd (grind arith)

value-append :
    (base : ℕ) (xs ys : Bytes) (a : ℕ)
    → base ≤ a
    → a < base + length xs
    → value base (xs ++ ys) a ≡ value base xs a
value-append base xs ys a h k =
    value_in base (xs ++ ys) a h
    ∙ get_or-append_lt xs ys (a - base) (omega arith)
    ∙ sym (value_in base xs a h)

length-over_ge :
    (offset : ℕ) (bytes xs : Bytes)
    → offset ≤ length xs
    → (offset + length bytes ≤ length (over offset bytes xs))
      × (length xs ≤ length (over offset bytes xs))
length-over_ge offset bytes xs h =
    let n = length-append (take offset xs) (bytes ++ drop (offset + length bytes) xs) in
    let m = length-append bytes (drop (offset + length bytes) xs) in
    let t = length-take offset xs h in
    let d = length-drop (offset + length bytes) xs in (omega arith, omega arith)

module _ (disk : Disk) (good : IsGood disk) where
  pub hand_on_lem :
      (r : TextRecord) (s : SinkCtx Bytes)
      → r.is_data ≡ true
      → IsFine r
      → IsOpen s
      → (s.has_base ≡ true → s.base_addr ≤ r.address)
      → (t : SinkCtx Bytes) × (hand_on (file_sink disk) r s ≡ done t) × IsStreamed r s t
  unfolding hand_on
  hand_on_lem r s d fine is_open above =
      let sink = file_sink disk in
      let b = based r.address s in
      let x = based_lem r.address s above in
      let low = x.1 in
      let offset = r.address - b.base_addr in
      let in_space = fine.in_space d in
      let whole : u32 offset ≡ offset = omega arith in
      let gap = disk.gap (offset - length s.out) in
      let padded = s.out ++ gap in
      let g = good.gap_length (offset - length s.out) in
      let wide : length padded ≡ length s.out + (offset - length s.out) =
        omega (arith, length-append s.out gap) in
      let longer = length-over_ge offset r.bytes padded (omega arith) in
      (
        record b { out = over offset r.bytes padded },
        ap (λ o. o >>= λ b. sunk b (sink (u32 (r.address - b.base_addr)) r.bytes b.out)) x.0
            ∙ ap (λ n. sunk b (sink n r.bytes b.out)) whole
            ∙ ap (sunk b) (file_sink_lem disk offset r.bytes s.out good (fine.some_bytes d)),
        record {
          open_still = record { sound = is_open.sound; fresh = λ e. absurd (grind arith) };
          seen = sym (ap (λ k. k || s.has_base) d);
          base = sym (ap (λ k. if k && not s.has_base then r.address else s.base_addr) d);
          same = λ a h.
              let over_all = value-over b.base_addr r padded a d low (omega arith) in
              elim h [
                | inl reached ↦
                    let e = Reaches-based r.address s a is_open reached in
                    let from = reached.0 in
                    let to = reached.1 in
                    let longer_out = longer.1 in
                    (
                      over_all
                          ∙ ap (byte_after r a) (
                              value-append b.base_addr s.out gap a (omega arith) (omega arith)
                              ∙ ap (λ base. value base s.out a) e),
                      (omega arith, omega arith),
                    )
                | inr on ↦
                    let bounds = covers→bounds r a on in
                    let from = bounds.0 in
                    let to = bounds.1 in
                    let longer_end = longer.0 in
                    (
                      over_all
                          ∙ byte_at-covered (r ∷ []) a (value b.base_addr padded a) (file_value s a)
                              (ap (λ k. k || false) on),
                      (omega arith, omega arith),
                    )
              ];
        },
      )
