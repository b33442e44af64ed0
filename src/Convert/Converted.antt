-- ===== src/Convert/Converted.antt =====
-- Whole conversions: the image that records describe, and a record that runs past the last address.
use miri_tool_v.Base.{
  ℕ, ◌+◌, ◌-◌, ◌^◌, ◌≤◌, ◌<◌, ◌≡◌, inl, inr, refl, ap, sym, ◌∙◌, Bool, true, false, ◌||◌, All, List,
  [], ◌∷◌, length, ltb, leb, ◌==◌, Bool-cases, u32, Outcome, done, fault, ◌>>=◌, arith,
}
use miri_tool_v.Convert.{
  TextRecord, Ctx, empty, Heap, ensure_capacity, rebase, put, marked, ihex_data_read,
  srec_data_read, carry_on, read_records, image_of, ihex_convert, srec_convert,
}
use miri_tool_v.Convert.Image.{byte_after, byte_at, value, value-nil}
use miri_tool_v.Convert.Built.{IsFine, IsReady, holds, put_lem}

-- whether a data record has come
abbrev pub data_seen : List TextRecord → Bool → Bool
data_seen [] seen = seen
data_seen (r ∷ rs) seen = data_seen rs (r.is_data || seen)

-- What one record makes of an image: it holds the byte of the record where that covers it.
record IsStep (r : TextRecord) (c d : Ctx) : Type 0 where
  ready : IsReady d
  seen : d.has_base ≡ (r.is_data || c.has_base)
  same : (a : ℕ) → holds d a ≡ byte_after r a (holds c a)

-- an image that an other one has become after all records
abbrev EndsWith : List TextRecord → Ctx → Outcome Ctx → Type 0
EndsWith rs c o =
    (d : Ctx) × (o ≡ done d)
    × IsReady d
    × (d.has_base ≡ data_seen rs c.has_base)
    × ((a : ℕ) → holds d a ≡ byte_at rs a (holds c a))

module _ (data_read : TextRecord → Ctx → Outcome Ctx)
    (steps : (r : TextRecord) (c : Ctx)
      → IsFine r
      → IsReady c
      → (d : Ctx) × (data_read r c ≡ done d) × IsStep r c d) where
  read_records_lem :
      (rs : List TextRecord) (c : Ctx)
      → All IsFine rs
      → IsReady c
      → EndsWith rs c (read_records data_read rs c)
  unfolding read_records carry_on
  read_records_lem [] c fine ready = (c, refl, ready, refl, λ a. refl)
  read_records_lem (r ∷ rs) c fine ready =
      let x = steps r c fine.0 ready in
      let y = read_records_lem rs x.0 fine.1 x.2.ready in
      (
        y.0,
        ap (λ o. carry_on o (read_records data_read rs)) x.1 ∙ y.1,
        y.2,
        y.3 ∙ ap (data_seen rs) x.2.seen,
        λ a. y.4 a ∙ ap (byte_at rs a) (x.2.same a),
      )

empty-IsReady : IsReady empty
empty-IsReady = record { sound = refl; bound = omega arith; started = inr (refl, refl) }

skipped : (r : TextRecord) (c : Ctx) → r.is_data ≡ false → IsReady c → IsStep r c c
skipped r c d ready = record { ready = ready; seen = rw d refl; same = λ a. rw d refl }

image_of_lem : (c : Ctx) → IsReady c → c.has_base ≡ true → image_of c ≡ done c
unfolding image_of
image_of_lem c ready based = elim ready.started [
  | inl going ↦
      let e : (length c.content == 0) ≡ false = ground arith in rw (ready.sound, based, e) refl
  | inr fresh ↦ absurd (grind arith)
]

put_wraps :
    (heap : Heap) (r : TextRecord) (c : Ctx)
    → c.has_base ≡ true
    → c.base_addr ≤ r.address
    → length c.content < 2 ^ 32
    → 2 ^ 32 ≤ r.address - c.base_addr + length r.bytes
    → r.address - c.base_addr + length r.bytes ≤ 2 ^ 32 + length c.content
    → put heap r c ≡ fault
unfolding put rebase ensure_capacity
put_wraps heap r c based above short past near =
    let e : ltb r.address c.base_addr ≡ false = ground arith in
    let f : leb (u32 (r.address - c.base_addr + length r.bytes)) (length c.content) ≡ true =
      ground arith in
    let g : leb (r.address - c.base_addr + length r.bytes) (length c.content) ≡ false =
      ground arith in
    rw (based, e, f, g) refl

ihex_data :
    (heap : Heap) (r : TextRecord) (c : Ctx)
    → r.mismatch ≡ false
    → r.is_whole ≡ true
    → r.is_data ≡ true
    → ihex_data_read heap r c ≡ marked (put heap r c)
unfolding ihex_data_read
ihex_data heap r c m w d = rw (m, w, d) refl

srec_data :
    (heap : Heap) (r : TextRecord) (c : Ctx)
    → r.mismatch ≡ false
    → r.is_whole ≡ true
    → r.is_data ≡ true
    → (length r.bytes == 0) ≡ false
    → srec_data_read heap r c ≡ marked (put heap r c)
unfolding srec_data_read
srec_data heap r c m w d n = rw (m, w, d, n) refl

module _ (heap : Heap) (gives : (n : ℕ) → heap n ≡ true) where
  ihex_data_read-IsStep :
      (r : TextRecord) (c : Ctx)
      → IsFine r
      → IsReady c
      → (d : Ctx) × (ihex_data_read heap r c ≡ done d) × IsStep r c d
  unfolding ihex_data_read
  ihex_data_read-IsStep r c fine ready = elim (Bool-cases r.is_data) [
    | inl has ↦
        let x = put_lem heap gives r c has fine ready in
        (
          x.0,
          ihex_data heap r c fine.checked fine.whole has ∙ ap marked x.1,
          record { ready = x.2; seen = x.3 ∙ sym (ap (λ b. b || c.has_base) has); same = x.4 },
        )
    | inr lacks ↦ (c, rw (fine.checked, fine.whole, lacks) refl, skipped r c lacks ready)
  ]

  srec_data_read-IsStep :
      (r : TextRecord) (c : Ctx)
      → IsFine r
      → IsReady c
      → (d : Ctx) × (srec_data_read heap r c ≡ done d) × IsStep r c d
  unfolding srec_data_read
  srec_data_read-IsStep r c fine ready = elim (Bool-cases r.is_data) [
    | inl has ↦
        let x = put_lem heap gives r c has fine ready in
        let n = fine.some_bytes has in
        let e : (length r.bytes == 0) ≡ false = ground arith in
        (
          x.0,
          srec_data heap r c fine.checked fine.whole has e ∙ ap marked x.1,
          record { ready = x.2; seen = x.3 ∙ sym (ap (λ b. b || c.has_base) has); same = x.4 },
        )
    | inr lacks ↦ (c, rw (fine.checked, fine.whole, lacks) refl, skipped r c lacks ready)
  ]

  -- Records that are whole, at least one of them with data, in any order and with any overlap, and
  -- enough memory: the conversion of an Intel HEX file succeeds, and the image holds, for every
  -- address from its base on, the byte of the last record that covers it, or 0.
  pub ihex_convert-byte_at :
      (rs : List TextRecord)
      → All IsFine rs
      → data_seen rs false ≡ true
      → (d : Ctx) × (ihex_convert heap rs ≡ done d)
        × ((a : ℕ) → value d.base_addr d.content a ≡ byte_at rs a 0)
  unfolding ihex_convert
  ihex_convert-byte_at rs fine seen =
      let x =
        read_records_lem (ihex_data_read heap) ihex_data_read-IsStep rs empty fine empty-IsReady in
      (
        x.0,
        ap (λ o. o >>= image_of) x.1 ∙ image_of_lem x.0 x.2 (x.3 ∙ seen),
        λ a. x.4 a ∙ ap (byte_at rs a) (value-nil 0 a),
      )

  -- The same for an S-record file.
  pub srec_convert-byte_at :
      (rs : List TextRecord)
      → All IsFine rs
      → data_seen rs false ≡ true
      → (d : Ctx) × (srec_convert heap rs ≡ done d)
        × ((a : ℕ) → value d.base_addr d.content a ≡ byte_at rs a 0)
  unfolding srec_convert
  srec_convert-byte_at rs fine seen =
      let x =
        read_records_lem (srec_data_read heap) srec_data_read-IsStep rs empty fine empty-IsReady in
      (
        x.0,
        ap (λ o. o >>= image_of) x.1 ∙ image_of_lem x.0 x.2 (x.3 ∙ seen),
        λ a. x.4 a ∙ ap (byte_at rs a) (value-nil 0 a),
      )

-- The end of a record is computed on 32 bits. A record that runs past the last address gets a small
-- end, which the image has already, and its bytes are copied to where there is no image.
srec_data_read_wraps :
    (heap : Heap) (r : TextRecord) (c : Ctx)
    → r.mismatch ≡ false
    → r.is_whole ≡ true
    → r.is_data ≡ true
    → c.has_base ≡ true
    → c.base_addr ≤ r.address
    → length c.content < 2 ^ 32
    → 2 ^ 32 ≤ r.address - c.base_addr + length r.bytes
    → r.address - c.base_addr + length r.bytes ≤ 2 ^ 32 + length c.content
    → 0 < length r.bytes
    → srec_data_read heap r c ≡ fault
srec_data_read_wraps heap r c m w d based above short past near some_bytes =
    let n : (length r.bytes == 0) ≡ false = ground arith in
    srec_data heap r c m w d n ∙ ap marked (put_wraps heap r c based above short past near)
