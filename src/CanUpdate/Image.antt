-- ===== src/CanUpdate/Image.antt =====
-- What `bin_sink` builds of the blocks that it is given.
use miri_tool_v.Base.{
  ℕ, zero, suc, ◌+◌, ◌-◌, ◌≤◌, ◌<◌, ◌^◌, ◌≡◌, ◌≢◌, refl, ap, sym, ◌∙◌, Bytes, ◌++◌, length,
  length-append, length-replicate, replicate-add, append-nil, append_assoc, arith, replicate, ◌==◌,
  u32, done, failed, esp_fail, ◌>>=◌, Bool-cases, inl, inr,
}
use miri_tool_v.Packaging.Pieces.{IsSequential}
use miri_tool_v.CanUpdate.FlatFile.{BinSink, bin_sink, pad, pad_chunk}

-- The file is as long as the offset says, and `max` is its length.
pub record IsFlat (s : BinSink) : Type 0 where
  pub at_end : length s.file ≡ s.offset
  pub max_is : s.max ≡ s.offset

pad_chunk_bounds : (gap : ℕ) → gap ≢ 0 → (0 < pad_chunk gap) × (pad_chunk gap ≤ gap)
unfolding pad_chunk
pad_chunk_bounds gap h = ground arith

-- The padding loop writes the whole gap.
pub pad_lem :
    (fuel gap : ℕ) (file : Bytes) → gap ≤ fuel → pad fuel gap file ≡ file ++ replicate gap 0xFF
unfolding pad
pad_lem zero zero file h = sym (append-nil file)
pad_lem zero (suc gap) file h = absurd (omega arith)
pad_lem (suc fuel) gap file h = elim (Bool-cases (gap == 0)) [
  | inl e ↦ let z : gap ≡ 0 = ground arith in rw z (sym (append-nil file))
  | inr e ↦
      let some_gap : gap ≢ 0 = ground arith in
      let c = pad_chunk_bounds gap some_gap in
      let n : pad_chunk gap + (gap - pad_chunk gap) ≡ gap = omega arith in
      rw e (
        pad_lem fuel (gap - pad_chunk gap) (file ++ replicate (pad_chunk gap) 0xFF) (omega arith)
        ∙ append_assoc file (replicate (pad_chunk gap) 0xFF) (replicate (gap - pad_chunk gap) 0xFF)
        ∙ ap (◌++◌ file) (
            replicate-add (pad_chunk gap) (gap - pad_chunk gap) 0xFF
            ∙ ap (λ k. replicate k 0xFF) n))
]

-- A block at or behind the end of the file is written at its address, the gap filled with 0xFF and
-- the rest left alone; a block before the end is refused and changes nothing.
pub bin_sink_lem :
    (s : BinSink) (addr : ℕ) (block : Bytes)
    → IsFlat s
    → addr + length block < 2 ^ 32
    → (addr < s.offset → bin_sink s addr block ≡ failed esp_fail s)
      × (s.offset ≤ addr
          → (t : BinSink) × (bin_sink s addr block ≡ done t)
            × IsFlat t
            × (t.offset ≡ addr + length block)
            × (t.file ≡ s.file ++ (replicate (addr - s.offset) 0xFF ++ block)))
unfolding bin_sink
bin_sink_lem s addr block v below = (
  λ before. ground arith,
  λ behind. (
    record {
      file = s.file ++ (replicate (addr - s.offset) 0xFF ++ block);
      offset = addr + length block;
      max = addr + length block;
    },
    ground (
      arith,
      pad_lem (addr - s.offset) (addr - s.offset) s.file (omega arith),
      append_assoc s.file (replicate (addr - s.offset) 0xFF) block,
      append-nil s.file,
    ),
    record {
      at_end = omega (
        arith,
        length-append s.file (replicate (addr - s.offset) 0xFF ++ block),
        length-append (replicate (addr - s.offset) 0xFF) block,
        length-replicate {A = ℕ} (addr - s.offset) 0xFF,
      );
      max_is = refl;
    },
    refl,
    refl,
  ),
)

bin_sink_joined :
    (s : BinSink) (addr : ℕ) (xs ys : Bytes)
    → addr + length (xs ++ ys) < 2 ^ 32
    → bin_sink s addr (xs ++ ys)
      ≡ (bin_sink s addr xs >>= λ t. bin_sink t (u32 (addr + length xs)) ys)
unfolding bin_sink
bin_sink_joined s addr xs ys below = ground (
  arith,
  length-append xs ys,
  append_assoc s.file xs ys,
  append_assoc (pad (addr - s.offset) (addr - s.offset) s.file) xs ys,
)

-- `bin_sink` builds the same file from a block and from its pieces.
pub bin_sink-IsSequential : IsSequential bin_sink
bin_sink-IsSequential = record {
  joined = λ s addr xs ys _ _ below. bin_sink_joined s addr xs ys below;
}
