-- ===== src/Packaging/Ihex/File.antt =====
-- Whole Intel HEX files, and what `process_ihex` makes of their lines, one after the other.
use miri_tool_v.Base.{
  ℕ, suc, ◌+◌, ◌-◌, ◌≤◌, ◌<◌, ◌≡◌, ◌≢◌, refl, ap, sym, fun_ext, ◌∙◌, Bytes, List, [], ◌∷◌, ◌++◌,
  All, length, append-nil, append_assoc, ◌==◌, if◌then◌else◌, arith, Bool, true, false,
  length-append, ==_refl, Outcome, done, failed, esp_fail,
}
use miri_tool_v.Packaging.Defs.{Sink}
use miri_tool_v.Packaging.Ihex.{bad, read_chars, act, process_lines, process_ihex}
use miri_tool_v.Packaging.Ihex.Hex.{line_end, read_chars-line_end}
use miri_tool_v.Packaging.Ihex.Records.{
  Record, Fits, checksum_of, line_with, meaning, header_of_bounds,
}
use miri_tool_v.Packaging.Ihex.Lines.{line_with-IsPlain, length-line_with, line_action-line_with}

-- the text of a file: each record on a line of its own
abbrev pub file_text : Bool → List Record → Bytes
file_text crlf [] = []
file_text crlf (r ∷ rs) = line_with (checksum_of r) r ++ (line_end crlf ++ file_text crlf rs)

length-file_text : (rs : List Record) (crlf : Bool) → length rs ≤ length (file_text crlf rs)
length-file_text [] crlf = omega arith
length-file_text (r ∷ rs) crlf = omega (
  arith,
  length-file_text rs crlf,
  length-line_with r (checksum_of r),
  length-append (line_with (checksum_of r) r) (line_end crlf ++ file_text crlf rs),
  length-append (line_end crlf) (file_text crlf rs),
)

module _ {ℓ} {S : Type ℓ} (sink : Sink S) where
  -- What a list of records means, from a base address: `next` is what comes after them, unless an
  -- end-of-file record or a refusal by the sink comes first.
  abbrev pub run_records : List Record → ℕ → S → (ℕ → S → Outcome S) → Outcome S
  run_records [] base s next = next base s
  run_records (r ∷ rs) base s next =
      act sink (meaning base r) base s (λ b t. run_records rs b t next)

  process_lines-line :
      (r : Record) (c fuel base : ℕ) (crlf : Bool) (rest : Bytes) (s : S)
      → Fits r
      → c < 256
      → process_lines sink (suc fuel) (line_with c r ++ (line_end crlf ++ rest)) false base s
        ≡ act sink
            (if c == checksum_of r then meaning base r else bad)
            base
            s
            (process_lines sink fuel rest false)
  unfolding process_lines
  process_lines-line r c fuel base crlf rest s h b =
      let bounds = header_of_bounds r h in
      let n = length-line_with r c in
      let some_text : (length (line_with c r) == 0) ≡ false = ground (arith, n) in
      rw (
        read_chars-line_end (line_with c r) rest [] 255 crlf (line_with-IsPlain r c h b)
            (omega arith),
        some_text,
        line_action-line_with r base c h b,
      )

  -- The lines of fitting records, with anything behind them.
  pub process_lines-file_text :
      (rs : List Record) (fuel base : ℕ) (crlf : Bool) (rest : Bytes) (s : S)
      → All Fits rs
      → process_lines sink (length rs + fuel) (file_text crlf rs ++ rest) false base s
        ≡ run_records rs base s (λ b t. process_lines sink fuel rest false b t)
  process_lines-file_text [] fuel base crlf rest s h = ground arith
  process_lines-file_text (r ∷ rs) fuel base crlf rest s h =
      let e : suc (length rs) + fuel ≡ suc (length rs + fuel) = omega arith in
      rw
        (
          e,
          append_assoc (line_with (checksum_of r) r) (line_end crlf ++ file_text crlf rs) rest,
          append_assoc (line_end crlf) (file_text crlf rs) rest,
          process_lines-line r (checksum_of r) (length rs + fuel) base crlf
              (file_text crlf rs ++ rest) s h.0 (omega arith),
          ==_refl (checksum_of r),
        )
        (ap (act sink (meaning base r) base s)
          (fun_ext λ b. fun_ext λ t. process_lines-file_text rs fuel b crlf rest t h.1))

  -- The rest of the file decides what comes after the records, whatever fuel is left for it.
  process_ihex-rest :
      (rs : List Record) (crlf : Bool) (rest : Bytes) (s : S) (k : S → Outcome S)
      → All Fits rs
      → ((fuel base : ℕ) (t : S) → process_lines sink (suc fuel) rest false base t ≡ k t)
      → process_ihex sink (file_text crlf rs ++ rest) s ≡ run_records rs 0 s (λ _ t. k t)
  unfolding process_ihex
  process_ihex-rest rs crlf rest s k h ends =
      let n = length (file_text crlf rs ++ rest) in
      let fuel : n + 1 ≡ length rs + suc (n - length rs) =
        omega (arith, length-file_text rs crlf, length-append (file_text crlf rs) rest) in
      rw fuel (
        process_lines-file_text rs (suc (n - length rs)) 0 crlf rest s h
        ∙ ap (run_records rs 0 s) (fun_ext λ b. fun_ext λ t. ends (n - length rs) b t))

  process_lines_eof :
      (fuel base : ℕ) (t : S) → process_lines sink (suc fuel) [] false base t ≡ done t
  unfolding process_lines read_chars
  process_lines_eof fuel base t = refl

  process_lines_blank :
      (crlf : Bool) (rest : Bytes) (fuel base : ℕ) (t : S)
      → process_lines sink (suc fuel) (line_end crlf ++ rest) false base t ≡ done t
  unfolding process_lines read_chars
  process_lines_blank true rest fuel base t = refl
  process_lines_blank false rest fuel base t = refl

  pub process_ihex-file_text :
      (rs : List Record) (crlf : Bool) (s : S)
      → All Fits rs
      → process_ihex sink (file_text crlf rs) s ≡ run_records rs 0 s (λ _ t. done t)
  process_ihex-file_text rs crlf s h =
      rw (← append-nil (file_text crlf rs))
        (process_ihex-rest rs crlf [] s done h process_lines_eof)

  -- A blank line ends the processing with success: whatever follows it is not looked at.
  pub process_ihex_blank_line :
      (rs : List Record) (crlf : Bool) (rest : Bytes) (s : S)
      → All Fits rs
      → process_ihex sink (file_text crlf rs ++ (line_end crlf ++ rest)) s
        ≡ process_ihex sink (file_text crlf rs) s
  process_ihex_blank_line rs crlf rest s h =
      process_ihex-rest rs crlf (line_end crlf ++ rest) s done h (process_lines_blank crlf rest)
      ∙ sym (process_ihex-file_text rs crlf s h)

  -- A record whose checksum byte is wrong makes the processing fail, after the records before it
  -- and with nothing of its own handed to the sink.
  pub process_ihex_bad_checksum :
      (rs : List Record) (r : Record) (c : ℕ) (crlf : Bool) (rest : Bytes) (s : S)
      → All Fits rs
      → Fits r
      → c < 256
      → c ≢ checksum_of r
      → process_ihex sink (file_text crlf rs ++ (line_with c r ++ (line_end crlf ++ rest))) s
        ≡ run_records rs 0 s (λ _ t. failed esp_fail t)
  process_ihex_bad_checksum rs r c crlf rest s h fits b wrong =
      let refused : (c == checksum_of r) ≡ false = ground arith in
      process_ihex-rest rs crlf (line_with c r ++ (line_end crlf ++ rest)) s (failed esp_fail) h
        λ fuel base t. process_lines-line r c fuel base crlf rest t fits b ∙ rw refused
