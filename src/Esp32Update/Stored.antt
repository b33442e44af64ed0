-- ===== src/Esp32Update/Stored.antt =====
-- An update from a file that was stored encrypted.
use miri_tool_v.Base.{
  ℕ, zero, suc, ◌+◌, ◌≤◌, ◌<◌, ◌≡◌, ◌≢◌, refl, ap, sym, subst, ◌∙◌, Bool, true, false, Bytes, List,
  [], ◌∷◌, ◌++◌, All, Option, none, some, length, length-drop, length-append, take-drop, drop, ◌==◌,
  if◌then◌else◌, done, ◌>>=◌, arith,
}
use miri_tool_v.FwState.{FwStep, set_step}
use miri_tool_v.Storage.{
  Cipher, Medium, IsSound, Reader, Writer, writer_open, writer_close, reader_open, reader_read,
}
use miri_tool_v.Storage.Blocks.{concat, write_pieces, written-Stored}
use miri_tool_v.Storage.Reading.{IsCipher, Holds, reader_read-Gives}
use miri_tool_v.Storage.RoundTrip.{reader_open-Holds}
use miri_tool_v.Esp32Update.{
  Image, Ota, Driver, Looped, complete, broken, send_progress, send_step, write_loop, rounds,
  writing, sized, update_start, after_loop, restarted, booting,
}
use miri_tool_v.Esp32Update.Written.{
  Yields, ended, more, LoopedOver, write_loop-LoopedOver, Updated, updated, refused,
  update_start-Updated,
}

module _ (cipher : Cipher) (law : IsCipher cipher) where
  -- Reads of 4096 bytes hand out all that a reader holds.
  pub Holds-Yields :
      (fuel : ℕ) (content : Bytes) (r : Reader)
      → length content ≤ fuel
      → Holds cipher law content r
      → Yields cipher r content
  Holds-Yields fuel [] r f h = ended r (reader_read-Gives cipher law 4096 [] r h).0
  Holds-Yields zero (x ∷ xs) r f h = absurd (omega arith)
  Holds-Yields (suc fuel) (x ∷ xs) r f h =
      let content = x ∷ xs in
      let given = reader_read-Gives cipher law 4096 content r h in
      let l = length-drop 4096 content in
      let some_out : 0 < length (reader_read cipher 4096 r).out =
        subst (λ (b : Bytes). 0 < length b) (sym given.0) (omega arith) in
      let rest =
        Holds-Yields fuel (drop 4096 content) (reader_read cipher 4096 r).reader (omega arith)
          given.1 in
      subst (Yields cipher r) (ap (λ b. b ++ drop 4096 content) given.0 ∙ take-drop 4096 content)
        (more r (drop 4096 content) some_out rest)

-- A driver that takes everything and finds the images valid that `valid` says.
abbrev pub obliging : (Bytes → Bool) → Driver
obliging valid = record {
  has_partition = true;
  begins = λ size. true;
  writes = λ so_far bytes. true;
  ends = valid;
  sets_boot = true;
}

module _ (valid : Bytes → Bool) (cipher : Cipher) where
  -- The loop is never broken off.
  abbrev IsComplete : Looped → Type 0
  IsComplete l = (e : Ota) × (l ≡ complete e)

  write_loop-IsComplete :
      (fuel size total : ℕ) (last : Option ℕ) (r : Reader) (content : Bytes) (o : Ota)
      → Yields cipher r content
      → length content < fuel
      → IsComplete (write_loop (obliging valid) cipher fuel size total last r o)
  unfolding write_loop
  write_loop-IsComplete zero size total last r content o y f = absurd (omega arith)
  write_loop-IsComplete (suc fuel) size total last r _ o (ended _ e) f = rw e (o, refl)
  write_loop-IsComplete (suc fuel) size total last r _ o (more _ rest s y) f =
      let out = (reader_read cipher 4096 r).out in
      let n = length-append out rest in
      let some_left : (length out == 0) ≡ false = ground arith in
      rw some_left (write_loop-IsComplete fuel size (total + length out) _ _ rest _ y (omega arith))

  after_loop_done :
      (content : Bytes) (skip_reboot : Bool) (p : Ota) (l : Looped)
      → p.flash ≡ []
      → IsComplete l
      → LoopedOver content p l
      → valid content ≡ true
      → (after_loop (obliging valid) cipher skip_reboot l).fw.step ≡ FwStep.done
  unfolding send_step set_step
  after_loop_done content skip_reboot p (broken e) f c h v = cc
  after_loop_done content skip_reboot p (complete e) f c h v =
      let good : valid e.flash ≡ true = ap valid (h.0 ∙ ap (λ b. b ++ content) f) ∙ v in
      rw good (go skip_reboot)
    where
      go : (b : Bool) → (restarted b (booting e)).fw.step ≡ FwStep.done
      go true = refl
      go false = refl

  sized_done :
      (content : Bytes) (skip_reboot : Bool) (r : Reader) (size : ℕ) (o : Ota)
      → Yields cipher r content
      → length content ≤ r.remaining + length r.file
      → valid content ≡ true
      → (sized (obliging valid) cipher skip_reboot r (some size) o).fw.step ≡ FwStep.done
  unfolding send_progress send_step
  sized_done content skip_reboot r size o y b v =
      let fuel = rounds (obliging valid) cipher r in
      after_loop_done content skip_reboot (writing o) _ refl
        (write_loop-IsComplete fuel size 0 none r content (writing o) y (omega arith))
        (write_loop-LoopedOver (obliging valid) cipher fuel size 0 none r content (writing o) y
          (omega arith))
        v

  -- Whichever size is taken.
  sized_done_either :
      (c : Bool) (content : Bytes) (skip_reboot : Bool) (r : Reader) (n m : ℕ) (o : Ota)
      → Yields cipher r content
      → length content ≤ r.remaining + length r.file
      → valid content ≡ true
      → (sized (obliging valid) cipher skip_reboot r (if c then some n else some m) o).fw.step
        ≡ FwStep.done
  sized_done_either true content skip_reboot r n m o y b v =
      sized_done content skip_reboot r n o y b v
  sized_done_either false content skip_reboot r n m o y b v =
      sized_done content skip_reboot r m o y b v

-- What is left of an update that ends as done.
abbrev pub Booted : Bytes → Bool → Ota → Ota → Type 0
Booted content skip_reboot o e =
    (e.flash ≡ content)
    × (e.boots_new ≡ true)
    × (e.fw.step ≡ FwStep.done)
    × (e.restarts ≡ (if skip_reboot then o.restarts else o.restarts + 1))

booted :
    (valid : Bytes → Bool) (content : Bytes) (skip_reboot : Bool) (o e : Ota)
    → e.fw.step ≡ FwStep.done
    → Updated valid content skip_reboot o e
    → Booted content skip_reboot o e
booted valid content skip_reboot o e d (refused u n) = absurd (n d)
booted valid content skip_reboot o e d (updated f v b s p r) = (f, b, s, r)

-- With a cipher that decrypts what it encrypts, on a card that takes all bytes and keeps the
-- metadata: a file that was written in pieces, none of them
-- empty, and closed is installed by an update whose driver takes everything and finds the pieces
-- valid: the partition holds exactly what they make up, it is the one to boot from, and the device
-- restarts unless it is told not to.
pub update_start-write_pieces :
    (cipher : Cipher)
    → IsCipher cipher
    → (medium : Medium) → IsSound medium
    → (valid : Bytes → Bool) (pieces : List Bytes) (i : Image) (o : Ota) → All (λ p. p ≢ []) pieces
    → valid (concat pieces) ≡ true
    → i.is_ready ≡ true
    → (v : Writer) × ((write_pieces cipher pieces (writer_open medium) >>= writer_close cipher true)
        ≡ done v)
      × Booted (concat pieces) i.skip_reboot o (
          let size = length (concat pieces) in
          update_start
            (obliging valid)
            cipher
            i
            true
            (some (reader_open true true size v.file))
            size
            (some (length v.file))
            o)
unfolding update_start
update_start-write_pieces cipher law medium sound valid pieces i o h good set =
    let content = concat pieces in
    let (v, closes, stored) = written-Stored cipher medium pieces sound h in
    let r = reader_open true true (length content) v.file in
    let y =
      Holds-Yields cipher law (length content) content r (omega arith)
        (reader_open-Holds cipher law content v.file stored) in
    let u =
      update_start-Updated (obliging valid) cipher i true r content (length content)
        (some (length v.file)) o y (omega arith) in
    (
      v,
      closes,
      booted valid content i.skip_reboot o _
          (rw set (
            sized_done_either valid cipher (length content == 0) content i.skip_reboot r
              (length v.file) (length content) o y (omega arith) good))
          u,
    )
