-- ===== src/Storage/Blocks.antt =====
-- What the writer has in the file, block by block.
use miri_tool_v.Base.{
  ℕ, zero, suc, ◌+◌, ◌-◌, ◌≤◌, ◌<◌, ◌≡◌, ◌≢◌, refl, sym, ap, subst, ◌∙◌, true, false, Bytes, List,
  [], ◌∷◌, ◌++◌, All, append-nil, append_assoc, length, length-append, length-replicate,
  length-take, length-drop, take, drop, take-append-drop, take_all, replicate, ◌==◌, if◌then◌else◌,
  min, arith, Bool-cases, inl, inr, Outcome, done, ◌>>=◌,
}
use miri_tool_v.Storage.{
  Cipher, Medium, IsSound, Writer, writer_open, fwrite, flush, fill, writer_write, writer_close,
}

abbrev pub AreBlocks : List Bytes → Type 0
AreBlocks = All (λ (b : Bytes). length b ≡ 16)

abbrev pub concat : List Bytes → Bytes
concat [] = []
concat (b ∷ bs) = b ++ concat bs

-- each block encrypted
abbrev pub encoded : Cipher → List Bytes → Bytes
encoded cipher [] = []
encoded cipher (b ∷ bs) = cipher.encrypt b ++ encoded cipher bs

concat-snoc : (bs : List Bytes) (b : Bytes) → concat (bs ++ b ∷ []) ≡ concat bs ++ b
concat-snoc [] b = append-nil b
concat-snoc (c ∷ bs) b = ap (◌++◌ c) (concat-snoc bs b) ∙ sym (append_assoc c (concat bs) b)

encoded-snoc :
    (cipher : Cipher) (bs : List Bytes) (b : Bytes)
    → encoded cipher (bs ++ b ∷ []) ≡ encoded cipher bs ++ cipher.encrypt b
encoded-snoc cipher [] b = append-nil (cipher.encrypt b)
encoded-snoc cipher (c ∷ bs) b =
    ap (◌++◌ (cipher.encrypt c)) (encoded-snoc cipher bs b)
    ∙ sym (append_assoc (cipher.encrypt c) (encoded cipher bs) (cipher.encrypt b))

AreBlocks-snoc :
    (bs : List Bytes) (b : Bytes) → AreBlocks bs → length b ≡ 16 → AreBlocks (bs ++ b ∷ [])
AreBlocks-snoc [] b h k = (k, tt)
AreBlocks-snoc (c ∷ bs) b h k = (h.0, AreBlocks-snoc bs b h.1 k)

-- The writer has taken `content`: whole blocks are in the file, the rest is in the buffer.
pub record Wrote (cipher : Cipher) (content : Bytes) (w : Writer) : Type 0 where
  pub blocks : List Bytes
  pub whole : AreBlocks blocks
  pub in_file : w.file ≡ encoded cipher blocks
  pub taken : content ≡ concat blocks ++ w.buffer
  pub waiting : length w.buffer < 16
  pub is_active : w.active ≡ true
  pub sound : IsSound w.medium

-- What a sound card takes.
pub fwrite_all : (bytes : Bytes) (w : Writer) → IsSound w.medium → fwrite bytes w ≡ w.file ++ bytes
fwrite_all bytes w sound =
    ap (◌++◌ w.file) (
      take_all (w.medium.takes w.file (length bytes)) bytes (sound.takes_all w.file (length bytes)))

module _ (cipher : Cipher) where
  pub writer_open-Wrote : (medium : Medium) → IsSound medium → Wrote cipher [] (writer_open medium)
  writer_open-Wrote medium sound = record {
    blocks = [];
    whole = tt;
    in_file = refl;
    taken = refl;
    waiting = omega arith;
    is_active = refl;
    sound = sound;
  }

  -- a round of the loop, with the bytes `part`
  round-Wrote :
      (content part : Bytes) (w : Writer)
      → Wrote cipher content w
      → length w.buffer + length part ≤ 16
      → Wrote cipher (content ++ part) (
          if length (w.buffer ++ part) == 16
          then flush cipher (w.buffer ++ part) w
          else record w { buffer = w.buffer ++ part })
  round-Wrote content part w h k =
      let together : content ++ part ≡ concat h.blocks ++ (w.buffer ++ part) =
        ap (λ c. c ++ part) h.taken ∙ append_assoc (concat h.blocks) w.buffer part in
      elim (Bool-cases (length (w.buffer ++ part) == 16)) [
        | inl full ↦
            let n : length (w.buffer ++ part) ≡ 16 = ground arith in
            rw full (record {
              blocks = h.blocks ++ (w.buffer ++ part) ∷ [];
              whole = AreBlocks-snoc h.blocks (w.buffer ++ part) h.whole n;
              in_file =
                  fwrite_all (cipher.encrypt (w.buffer ++ part)) w h.sound
                  ∙ ap (λ f. f ++ cipher.encrypt (w.buffer ++ part)) h.in_file
                  ∙ sym (encoded-snoc cipher h.blocks (w.buffer ++ part));
              taken =
                  together
                  ∙ sym (concat-snoc h.blocks (w.buffer ++ part))
                  ∙ sym (append-nil (concat (h.blocks ++ (w.buffer ++ part) ∷ [])));
              waiting = omega arith;
              is_active = h.is_active;
              sound = h.sound;
            })
        | inr part_full ↦
            let n : length (w.buffer ++ part) ≢ 16 = ground arith in
            rw part_full (record {
              blocks = h.blocks;
              whole = h.whole;
              in_file = h.in_file;
              taken = together;
              waiting = omega (arith, length-append w.buffer part);
              is_active = h.is_active;
              sound = h.sound;
            })
      ]

  fill-Wrote :
      (fuel : ℕ) (bytes content : Bytes) (w : Writer)
      → length bytes ≤ fuel
      → Wrote cipher content w
      → Wrote cipher (content ++ bytes) (fill cipher fuel bytes w)
  unfolding fill
  fill-Wrote fuel [] content w k h = rw append-nil h
  fill-Wrote zero (x ∷ xs) content w k h = absurd (omega arith)
  fill-Wrote (suc fuel) (x ∷ xs) content w k h =
      let room = h.waiting in
      let n = min (16 - length w.buffer) (length (x ∷ xs)) in
      let some_bytes : 0 < n = ground arith in
      let fits : n ≤ length (x ∷ xs) = ground arith in
      let all : length (take n (x ∷ xs)) ≡ n = length-take n (x ∷ xs) fits in
      let small : n ≤ 16 - length w.buffer = ground arith in
      let ih =
        fill-Wrote fuel (drop n (x ∷ xs)) (content ++ take n (x ∷ xs)) _
          (omega (arith, length-drop n (x ∷ xs)))
          (round-Wrote content (take n (x ∷ xs)) w h (omega arith)) in
      let joined : (content ++ take n (x ∷ xs)) ++ drop n (x ∷ xs) ≡ content ++ x ∷ xs =
        append_assoc content (take n (x ∷ xs)) (drop n (x ∷ xs))
        ∙ ap (◌++◌ content) (take-append-drop n (x ∷ xs)) in
      subst (λ c. Wrote cipher c (fill cipher (suc fuel) (x ∷ xs) w)) joined ih

  writer_write-Wrote :
      (bytes content : Bytes) (w : Writer)
      → bytes ≢ []
      → Wrote cipher content w
      → (v : Writer) × (writer_write cipher true bytes w ≡ done v)
        × Wrote cipher (content ++ bytes) v
  unfolding writer_write
  writer_write-Wrote [] content w some_bytes h = absurd (some_bytes refl)
  writer_write-Wrote (x ∷ xs) content w some_bytes h =
      let not_empty : (length (x ∷ xs) == 0) ≡ false = ground arith in
      (
        fill cipher (length (x ∷ xs)) (x ∷ xs) w,
        rw (h.is_active, not_empty),
        fill-Wrote (length (x ∷ xs)) (x ∷ xs) content w (omega arith) h,
      )

  -- The calls of `fw_storage_writer_write` for a sequence of pieces.
  abbrev pub write_pieces : List Bytes → Writer → Outcome Writer
  write_pieces [] w = done w
  write_pieces (p ∷ ps) w = writer_write cipher true p w >>= write_pieces ps

  write_pieces-Wrote :
      (pieces : List Bytes) (content : Bytes) (w : Writer)
      → All (λ p. p ≢ []) pieces
      → Wrote cipher content w
      → (v : Writer) × (write_pieces pieces w ≡ done v) × Wrote cipher (content ++ concat pieces) v
  write_pieces-Wrote [] content w h k = (w, refl, rw append-nil k)
  write_pieces-Wrote (p ∷ ps) content w h k =
      let (v, writes, wrote) = writer_write-Wrote p content w h.0 k in
      let (u, rest, all) = write_pieces-Wrote ps (content ++ p) v h.1 wrote in
      (u, rw writes rest, subst (λ c. Wrote cipher c u) (append_assoc content p (concat ps)) all)

  -- The closed file: encrypted blocks, which hold the content and zeros behind it.
  pub record Stored (content file : Bytes) : Type 0 where
    pub blocks : List Bytes
    pub slack : Bytes
    pub whole : AreBlocks blocks
    pub in_file : file ≡ encoded cipher blocks
    pub holds : concat blocks ≡ content ++ slack

  writer_close-Stored :
      (content : Bytes) (w : Writer)
      → Wrote cipher content w
      → (v : Writer) × (writer_close cipher true w ≡ done v) × Stored content v.file
  unfolding writer_close
  writer_close-Stored content w h =
      let zeros : Bytes = replicate (16 - length w.buffer) 0 in
      let padded : Bytes = w.buffer ++ zeros in
      let room = h.waiting in
      elim (Bool-cases (length w.buffer == 0)) [
        | inl empty ↦
            let n : length w.buffer ≡ 0 = ground arith in
            rw (h.is_active, empty, h.sound.meta_kept)
              (
                _,
                refl,
                record {
                  blocks = h.blocks;
                  slack = [];
                  whole = h.whole;
                  in_file = h.in_file;
                  holds = sym (
                      append-nil content
                      ∙ h.taken
                      ∙ ap (λ b. concat h.blocks ++ b) (no_bytes w.buffer n)
                      ∙ append-nil (concat h.blocks));
                },
              )
        | inr part ↦
            rw (h.is_active, part, h.sound.meta_kept)
              (
                _,
                refl,
                record {
                  blocks = h.blocks ++ padded ∷ [];
                  slack = zeros;
                  whole = AreBlocks-snoc h.blocks padded h.whole (
                      omega (
                        arith,
                        length-append w.buffer zeros,
                        length-replicate {A = ℕ} (16 - length w.buffer) 0,
                      ));
                  in_file =
                      fwrite_all (cipher.encrypt padded) w h.sound
                      ∙ ap (λ f. f ++ cipher.encrypt padded) h.in_file
                      ∙ sym (encoded-snoc cipher h.blocks padded);
                  holds =
                      concat-snoc h.blocks padded
                      ∙ sym (append_assoc (concat h.blocks) w.buffer zeros)
                      ∙ ap (λ c. c ++ zeros) (sym h.taken);
                },
              )
      ]
    where
      no_bytes : (xs : Bytes) → length xs ≡ 0 → xs ≡ []
      no_bytes [] e = refl
      no_bytes (x ∷ xs) e = absurd (omega arith)

  -- On a sound card, writing pieces and closing succeeds, and stores their concatenation.
  pub written-Stored :
      (medium : Medium) (pieces : List Bytes)
      → IsSound medium
      → All (λ p. p ≢ []) pieces
      → (v : Writer) × ((write_pieces pieces (writer_open medium) >>= writer_close cipher true)
          ≡ done v)
        × Stored (concat pieces) v.file
  written-Stored medium pieces sound h =
      let (w, writes, wrote) =
        write_pieces-Wrote pieces [] (writer_open medium) h (writer_open-Wrote medium sound) in
      let (v, closes, stored) = writer_close-Stored (concat pieces) w wrote in
      (v, rw writes closes, stored)
