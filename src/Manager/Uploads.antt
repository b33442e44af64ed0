-- ===== src/Manager/Uploads.antt =====
-- A whole upload session: what is stored, and what is reported.
use miri_tool_v.Base.{
  ℕ, ◌+◌, ◌<◌, ◌≡◌, ◌≢◌, refl, ap, subst, true, false, Bytes, List, [], ◌∷◌, ◌++◌, All, append-nil,
  append_assoc, length, length-append, leb, some, ◌==◌, if◌then◌else◌, arith, Outcome, done, ◌>>=◌,
  u32,
}
use miri_tool_v.FwState.{FwStep, set_step, set_progress, text}
use miri_tool_v.Storage.{Cipher, Medium, IsSound, Writer, writer_open, writer_write, writer_close}
use miri_tool_v.Storage.Blocks.{concat, fwrite_all}
use miri_tool_v.Manager.{UploadSession, session_begin, session_write, session_finish, percent_of}

module _ (cipher : Cipher) where
  -- The calls of `fw_upload_session_write` for a sequence of pieces.
  abbrev pub upload_pieces : List Bytes → UploadSession → Outcome UploadSession
  upload_pieces [] s = done s
  upload_pieces (p ∷ ps) s = session_write cipher false p s >>= upload_pieces ps

  -- The session after some bytes have come.
  pub record HasStored (content : Bytes) (size : ℕ) (s : UploadSession) : Type 0 where
    pub is_active : s.writer.active ≡ true
    pub in_file : s.writer.file ≡ content
    pub count : s.received ≡ u32 (length content)
    pub expected : s.original_size ≡ size
    pub sound : IsSound s.writer.medium

  plain_write :
      (bytes : Bytes) (w : Writer)
      → bytes ≢ []
      → w.active ≡ true
      → IsSound w.medium
      → writer_write cipher false bytes w ≡ done (record w { file = w.file ++ bytes })
  unfolding writer_write
  plain_write [] w h a sound = absurd (h refl)
  plain_write (x ∷ xs) w h a sound =
      let e : (length (x ∷ xs) == 0) ≡ false = ground arith in
      let n = sound.takes_all w.file (length (x ∷ xs)) in
      let f : leb (length (x ∷ xs)) (w.medium.takes w.file (length (x ∷ xs))) ≡ true =
        ground arith in
      rw (a, e, f)
        (ap (λ file. done (record w { file = file; active = true })) (fwrite_all (x ∷ xs) w sound))

  pub session_write-HasStored :
      (bytes content : Bytes) (size : ℕ) (s : UploadSession)
      → bytes ≢ []
      → HasStored content size s
      → (t : UploadSession) × (session_write cipher false bytes s ≡ done t)
        × HasStored (content ++ bytes) size t
  unfolding session_write
  session_write-HasStored [] content size s h k = absurd (h refl)
  session_write-HasStored (x ∷ xs) content size s h k =
      let e : (length (x ∷ xs) == 0) ≡ false = ground arith in
      let n = u32 (s.received + length (x ∷ xs)) in
      let after : UploadSession = record s {
        received = n;
        writer = record s.writer { file = s.writer.file ++ x ∷ xs };
        fw =
            if s.original_size == 0 then s.fw else set_progress (percent_of n s.original_size) s.fw;
      } in
      (
        after,
        rw (e, plain_write (x ∷ xs) s.writer h k.is_active k.sound),
        record {
          is_active = k.is_active;
          in_file = ap (λ f. f ++ x ∷ xs) k.in_file;
          count = omega (arith, k.count, length-append content (x ∷ xs));
          expected = k.expected;
          sound = k.sound;
        },
      )

  upload_pieces-HasStored :
      (pieces : List Bytes) (content : Bytes) (size : ℕ) (s : UploadSession)
      → All (λ p. p ≢ []) pieces
      → HasStored content size s
      → (t : UploadSession) × (upload_pieces pieces s ≡ done t)
        × HasStored (content ++ concat pieces) size t
  upload_pieces-HasStored [] content size s h k = (s, refl, rw append-nil k)
  upload_pieces-HasStored (p ∷ ps) content size s h k =
      let (t, writes, one) = session_write-HasStored p content size s h.0 k in
      let (u, rest, all) = upload_pieces-HasStored ps (content ++ p) size t h.1 one in
      (u, rw writes rest, subst (λ c. HasStored c size u) (append_assoc content p (concat ps)) all)

  pub finish_plain :
      (content : Bytes) (size : ℕ) (s : UploadSession)
      → HasStored content size s
      → (t : UploadSession) × (session_finish cipher false s ≡ done t)
        × (t.writer.file ≡ content)
        × (t.fw.step ≡ FwStep.done)
        × (t.fw.progress ≡ 100)
        × (t.received ≡ u32 (length content))
  unfolding session_finish writer_close set_progress set_step
  finish_plain content size s k =
      let after : UploadSession = record s {
        writer = record s.writer { active = false };
        fw = set_progress 100 (set_step FwStep.done (text "store done") s.fw);
      } in
      (after, rw (k.is_active, k.sound.meta_kept), k.in_file, refl, refl, k.count)

  -- In a build without encryption, on a card that takes all bytes and keeps the metadata: a session
  -- that begins with a size that is not 0 and a file that opens, takes pieces that are not empty and finishes leaves a file of exactly these pieces, and
  -- reports that all is done, with the bytes counted modulo 2 ^ 32. The cipher does not matter.
  pub upload_pieces-session_finish :
      (medium : Medium) (pieces : List Bytes) (total_size : ℕ) (s : UploadSession)
      → IsSound medium
      → 0 < total_size
      → All (λ p. p ≢ []) pieces
      → (t : UploadSession) × ((session_begin (some medium) total_size s
            >>= upload_pieces pieces
            >>= session_finish cipher false)
          ≡ done t)
        × (t.writer.file ≡ concat pieces)
        × (t.fw.step ≡ FwStep.done)
        × (t.fw.progress ≡ 100)
        × (t.received ≡ u32 (length (concat pieces)))
  unfolding session_begin
  upload_pieces-session_finish medium pieces total_size s sound some_size h =
      let e : (total_size == 0) ≡ false = ground arith in
      let begun : UploadSession = record s {
        original_size = total_size;
        received = 0;
        writer = writer_open medium;
        fw = set_progress 0 (set_step FwStep.transfer (text "store stream") s.fw);
      } in
      let (t, writes, stored) = upload_pieces-HasStored pieces [] total_size begun h (record {
        is_active = refl;
        in_file = refl;
        count = refl;
        expected = refl;
        sound = sound;
      }) in
      let (u, finishes, file, step, progress, count) =
        finish_plain (concat pieces) total_size t stored in
      (u, rw (e, writes) finishes, file, step, progress, count)
