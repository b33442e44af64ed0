-- ===== src/Convert/ToFile.antt =====
-- Whole conversions into a file, compared with those in memory.
use miri_tool_v.Base.{
  ◌⊎◌, ◌+◌, ◌||◌, ltb, leb, ℕ, ◌≤◌, ◌≡◌, inl, inr, refl, subst, ap, sym, ◌∙◌, true, false, not,
  ◌&&◌, All, Bytes, List, [], ◌∷◌, length, ◌==◌, if◌then◌else◌, Bool-cases, Outcome, done, failed,
  ◌>>=◌, invalid_size, arith,
}
use miri_tool_v.Convert.{
  TextRecord, Ctx, Heap, ihex_convert, srec_convert, ihex_data_read, read_records, carry_on,
  image_of, empty,
}
use miri_tool_v.Convert.Image.{
  covers, covered, byte_at-covered, byte_after, byte_at, value, value-nil,
}
use miri_tool_v.Convert.Built.{IsFine}
use miri_tool_v.Convert.Converted.{data_seen, srec_convert-byte_at}
use miri_tool_v.Convert.Sink.{
  SinkCtx, new_stream, hand_on, marked_stream, ihex_stream_read, srec_stream_read, carry_on_stream,
  stream_records, stream_result, ihex_convert_to_sink, srec_convert_to_sink, Disk, file_sink,
  ihex_file_to_file, srec_file_to_file,
}
use miri_tool_v.Convert.Streamed.{
  Reaches, IsGood, AreAbove, file_value, IsOpen, IsStreamed, hand_on_lem,
}

module _ (data_read : TextRecord → SinkCtx Bytes → Outcome (SinkCtx Bytes))
    (steps : (r : TextRecord) (s : SinkCtx Bytes)
      → IsFine r
      → IsOpen s
      → (r.is_data ≡ true → s.has_base ≡ true → s.base_addr ≤ r.address)
      → (t : SinkCtx Bytes) × (data_read r s ≡ done t) × IsStreamed r s t) where
  stream_records_lem :
      (rs : List TextRecord) (s : SinkCtx Bytes)
      → All IsFine rs
      → AreAbove s.has_base s.base_addr rs
      → IsOpen s
      → (t : SinkCtx Bytes) × (stream_records data_read rs s ≡ done t)
        × IsOpen t
        × ((a : ℕ)
            → Reaches s a ⊎ (covered rs a ≡ true)
            → (file_value t a ≡ byte_at rs a (file_value s a)) × Reaches t a)
  unfolding stream_records
  stream_records_lem [] s fine above is_open = (
    s,
    refl,
    is_open,
    λ a h. elim h [ inl reached ↦ (refl, reached) | inr off ↦ absurd (grind arith) ],
  )
  stream_records_lem (r ∷ rs) s fine above is_open =
      let x = steps r s fine.0 is_open above.0 in
      let t = x.0 in
      let later =
        subst (λ b. AreAbove t.has_base b rs) (sym x.2.base)
          (subst
            (λ b. AreAbove b (if r.is_data && not s.has_base then r.address else s.base_addr) rs)
            (sym x.2.seen) above.1) in
      let y = stream_records_lem rs t fine.1 later x.2.open_still in
      (
        y.0,
        ap (λ o. carry_on_stream o (stream_records data_read rs)) x.1 ∙ y.1,
        y.2,
        λ a h.
            let through : Reaches s a ⊎ (covers r a ≡ true)
                → (file_value y.0 a ≡ byte_at (r ∷ rs) a (file_value s a)) × Reaches y.0 a =
              λ k.
                let one = x.2.same a k in
                let all = y.3 a (inl one.1) in (all.0 ∙ ap (byte_at rs a) one.0, all.1) in
            elim h [
              | inl reached ↦ through (inl reached)
              | inr some_cover ↦ elim (Bool-cases (covers r a)) [
                | inl on ↦ through (inr on)
                | inr off ↦
                    let rest = sym (ap (λ b. b || covered rs a) off) ∙ some_cover in
                    let all = y.3 a (inr rest) in
                    (
                      all.0
                          ∙ byte_at-covered rs a (file_value t a) (byte_after r a (file_value s a))
                              rest,
                      all.1,
                    )
              ]
            ],
      )

passed : (r : TextRecord) (s : SinkCtx Bytes) → r.is_data ≡ false → IsOpen s → IsStreamed r s s
passed r s d is_open = record {
  open_still = is_open;
  seen = rw d refl;
  base = rw d refl;
  same = λ a h. elim h [
    | inl reached ↦ (rw d refl, reached)
    | inr on ↦
        let e : false ≡ true =
          sym (ap (λ b. b && (leb r.address a && ltb a (r.address + length r.bytes))) d) ∙ on in
        absurd (grind arith)
  ];
}

new_stream-IsOpen : IsOpen (new_stream [])
new_stream-IsOpen = record { sound = refl; fresh = λ e. refl }

stream_result_lem : {S : Type 0} (s : SinkCtx S) → s.has_error ≡ false → stream_result s ≡ done s
stream_result_lem s e = rw e refl

module _ (disk : Disk) where
  srec_handed :
      (r : TextRecord) (s : SinkCtx Bytes)
      → IsFine r
      → r.is_data ≡ true
      → srec_stream_read (file_sink disk) r s ≡ marked_stream (hand_on (file_sink disk) r s)
  unfolding srec_stream_read
  srec_handed r s fine d =
      let n = fine.some_bytes d in
      let e : (length r.bytes == 0) ≡ false = ground arith in
      rw (fine.checked, fine.whole, d, e) refl

  ihex_handed :
      (r : TextRecord) (s : SinkCtx Bytes)
      → IsFine r
      → r.is_data ≡ true
      → ihex_stream_read (file_sink disk) r s ≡ marked_stream (hand_on (file_sink disk) r s)
  unfolding ihex_stream_read
  ihex_handed r s fine d = rw (fine.checked, fine.whole, d) refl

module _ (disk : Disk) (good : IsGood disk) where
  srec_stream_read-IsStreamed :
      (r : TextRecord) (s : SinkCtx Bytes)
      → IsFine r
      → IsOpen s
      → (r.is_data ≡ true → s.has_base ≡ true → s.base_addr ≤ r.address)
      → (t : SinkCtx Bytes) × (srec_stream_read (file_sink disk) r s ≡ done t) × IsStreamed r s t
  unfolding srec_stream_read
  srec_stream_read-IsStreamed r s fine is_open above = elim (Bool-cases r.is_data) [
    | inl has ↦
        let x = hand_on_lem disk good r s has fine is_open (above has) in
        (x.0, srec_handed disk r s fine has ∙ ap marked_stream x.1, x.2)
    | inr lacks ↦ (s, rw (fine.checked, fine.whole, lacks) refl, passed r s lacks is_open)
  ]

  ihex_stream_read-IsStreamed :
      (r : TextRecord) (s : SinkCtx Bytes)
      → IsFine r
      → IsOpen s
      → (r.is_data ≡ true → s.has_base ≡ true → s.base_addr ≤ r.address)
      → (t : SinkCtx Bytes) × (ihex_stream_read (file_sink disk) r s ≡ done t) × IsStreamed r s t
  unfolding ihex_stream_read
  ihex_stream_read-IsStreamed r s fine is_open above = elim (Bool-cases r.is_data) [
    | inl has ↦
        let x = hand_on_lem disk good r s has fine is_open (above has) in
        (x.0, ihex_handed disk r s fine has ∙ ap marked_stream x.1, x.2)
    | inr lacks ↦ (s, rw (fine.checked, fine.whole, lacks) refl, passed r s lacks is_open)
  ]

  -- Whole records with data among them, none below the first, enough memory and a good file system:
  -- the conversion of an S-record file in memory and that into a file both succeed, and at every
  -- address of a record the file has a byte, the one that the image has.
  pub srec_file_to_file-srec_convert :
      (heap : Heap) (rs : List TextRecord)
      → ((n : ℕ) → heap n ≡ true)
      → All IsFine rs
      → data_seen rs false ≡ true
      → AreAbove false 0 rs
      → (t : SinkCtx Bytes) × (d : Ctx) × (srec_file_to_file disk rs ≡ done t)
        × (srec_convert heap rs ≡ done d)
        × ((a : ℕ)
            → covered rs a ≡ true
            → (value t.base_addr t.out a ≡ value d.base_addr d.content a) × Reaches t a)
  unfolding srec_file_to_file srec_convert_to_sink
  srec_file_to_file-srec_convert heap rs gives fine seen above =
      let x =
        stream_records_lem (srec_stream_read (file_sink disk)) srec_stream_read-IsStreamed rs
          (new_stream []) fine above new_stream-IsOpen in
      let y = srec_convert-byte_at heap gives rs fine seen in
      (
        x.0,
        y.0,
        ap (λ o. o >>= stream_result) x.1 ∙ stream_result_lem x.0 x.2.sound,
        y.1,
        λ a c.
            let all = x.3 a (inr c) in
            (all.0 ∙ ap (byte_at rs a) (value-nil 0 a) ∙ sym (y.2 a), all.1),
      )

  pub ihex_file_to_file-byte_at :
      (rs : List TextRecord)
      → All IsFine rs
      → AreAbove false 0 rs
      → (t : SinkCtx Bytes) × (ihex_file_to_file disk rs ≡ done t)
        × ((a : ℕ)
            → covered rs a ≡ true
            → (value t.base_addr t.out a ≡ byte_at rs a 0) × Reaches t a)
  unfolding ihex_file_to_file ihex_convert_to_sink
  ihex_file_to_file-byte_at rs fine above =
      let x =
        stream_records_lem (ihex_stream_read (file_sink disk)) ihex_stream_read-IsStreamed rs
          (new_stream []) fine above new_stream-IsOpen in
      (
        x.0,
        ap (λ o. o >>= stream_result) x.1 ∙ stream_result_lem x.0 x.2.sound,
        λ a c. let all = x.3 a (inr c) in (all.0 ∙ ap (byte_at rs a) (value-nil 0 a), all.1),
      )

-- A record that has come whole, without data.
pub record IsBare (r : TextRecord) : Type 0 where
  pub checked : r.mismatch ≡ false
  pub whole : r.is_whole ≡ true
  pub bare : r.is_data ≡ false

streamed_bare :
    (disk : Disk) (rs : List TextRecord) (s : SinkCtx Bytes)
    → All IsBare rs
    → stream_records (ihex_stream_read (file_sink disk)) rs s ≡ done s
unfolding stream_records ihex_stream_read
streamed_bare disk [] s bare = refl
streamed_bare disk (r ∷ rs) s bare =
    rw (bare.0.checked, bare.0.whole, bare.0.bare) (streamed_bare disk rs s bare.1)

read_bare :
    (heap : Heap) (rs : List TextRecord) (c : Ctx)
    → All IsBare rs
    → read_records (ihex_data_read heap) rs c ≡ done c
unfolding read_records carry_on ihex_data_read
read_bare heap [] c bare = refl
read_bare heap (r ∷ rs) c bare =
    rw (bare.0.checked, bare.0.whole, bare.0.bare) (read_bare heap rs c bare.1)

-- An Intel HEX file without a data record: the conversion into a file succeeds and leaves an empty
-- file, whatever the file system, while the conversion in memory is refused for its size.
ihex_file_to_file-IsBare :
    (disk : Disk) (heap : Heap) (rs : List TextRecord)
    → All IsBare rs
    → (ihex_file_to_file disk rs ≡ done (new_stream []))
      × (ihex_convert heap rs ≡ failed invalid_size empty)
unfolding ihex_file_to_file ihex_convert_to_sink ihex_convert image_of
ihex_file_to_file-IsBare disk heap rs bare = (
  ap (λ o. o >>= stream_result) (streamed_bare disk rs (new_stream []) bare),
  ap (λ o. o >>= image_of) (read_bare heap rs empty bare),
)
