-- ===== src/Esp32Update/Written.antt =====
-- What an update of the device writes, and when it boots from it.
use miri_tool_v.Base.{
  ℕ, zero, suc, ◌+◌, ◌*◌, ◌/◌, ◌≤◌, ◌<◌, ◌≡◌, ◌≢◌, refl, ap, sym, ◌∙◌, inl, inr, Bool, true, false,
  not, Bytes, [], ◌++◌, append-nil, append_assoc, Option, none, some, length, length-append, u32,
  ◌==◌, if◌then◌else◌, Bool-cases, arith,
}
use miri_tool_v.FwState.{FwStep, set_step, set_progress, text}
use miri_tool_v.Storage.{Cipher, Reader, reader_read}
use miri_tool_v.Esp32Update.{
  Image, Ota, Driver, Looped, complete, broken, send_progress, send_step, is_sent, write_loop,
  finish, booting, writing, restarted, after_loop, rounds, write_image, sized, total_size,
  update_start, given_up,
}

-- What reads of 4096 bytes hand out, until one hands out nothing.
pub data Yields (cipher : Cipher) : Reader → Bytes → Type 0 where
  ended : (r : Reader) → (reader_read cipher 4096 r).out ≡ [] → Yields cipher r []
  more :
      (r : Reader) (rest : Bytes)
      → 0 < length (reader_read cipher 4096 r).out
      → Yields cipher (reader_read cipher 4096 r).reader rest
      → Yields cipher r ((reader_read cipher 4096 r).out ++ rest)

-- The partition to boot from and the restarts are as before.
abbrev pub Unchanged : Ota → Ota → Type 0
Unchanged o e = (e.boots_new ≡ o.boots_new) × (e.restarts ≡ o.restarts)

abbrev pub LoopedOver : Bytes → Ota → Looped → Type 0
LoopedOver content o (complete e) = (e.flash ≡ o.flash ++ content) × Unchanged o e
LoopedOver content o (broken e) = Unchanged o e

-- A progress that is sent or not leaves the flash alone.
shown_or_not :
    (shown : Bool) (percent : ℕ) (o : Ota)
    → let p = if shown then send_progress percent o else o in (p.flash ≡ o.flash) × Unchanged o p
unfolding send_progress
shown_or_not true percent o = (refl, (refl, refl))
shown_or_not false percent o = (refl, (refl, refl))

then_over :
    (part rest : Bytes) (o p : Ota) (l : Looped)
    → p.flash ≡ o.flash ++ part
    → Unchanged o p
    → LoopedOver rest p l
    → LoopedOver (part ++ rest) o l
then_over part rest o p (complete e) f u h =
    (h.0 ∙ ap (λ b. b ++ rest) f ∙ append_assoc o.flash part rest, (h.1.0 ∙ u.0, h.1.1 ∙ u.1))
then_over part rest o p (broken e) f u h = (h.0 ∙ u.0, h.1 ∙ u.1)

-- What an update comes to: nothing is booted and it does not end as done, or the partition holds
-- the content, which the driver has found valid, and is the one to boot from.
pub data Updated (valid : Bytes → Bool) (content : Bytes) (skip_reboot : Bool) (o e : Ota)
    : Type 0 where
  refused : Unchanged o e → e.fw.step ≢ FwStep.done → Updated valid content skip_reboot o e
  updated :
      e.flash ≡ content
      → valid content ≡ true
      → e.boots_new ≡ true
      → e.fw.step ≡ FwStep.done
      → e.fw.progress ≡ 100
      → e.restarts ≡ (if skip_reboot then o.restarts else o.restarts + 1)
      → Updated valid content skip_reboot o e

write_ne : FwStep.write ≢ FwStep.done
write_ne e = cc

verify_ne : FwStep.verify ≢ FwStep.done
verify_ne e = cc

prepare_ne : FwStep.prepare ≢ FwStep.done
prepare_ne e = cc

error_ne : FwStep.error ≢ FwStep.done
error_ne e = cc

module _ (driver : Driver) (cipher : Cipher) where
  pub write_loop-LoopedOver :
      (fuel size total : ℕ) (last : Option ℕ) (r : Reader) (content : Bytes) (o : Ota)
      → Yields cipher r content
      → length content < fuel
      → LoopedOver content o (write_loop driver cipher fuel size total last r o)
  unfolding write_loop
  write_loop-LoopedOver zero size total last r content o y f = absurd (omega arith)
  write_loop-LoopedOver (suc fuel) size total last r _ o (ended _ e) f =
      rw e (sym (append-nil o.flash), (refl, refl))
  write_loop-LoopedOver (suc fuel) size total last r _ o (more _ rest s y) f =
      let out = (reader_read cipher 4096 r).out in
      let n = length-append out rest in
      let some_left : (length out == 0) ≡ false = ground arith in
      let written = record o { flash = o.flash ++ out } in
      let percent = u32 ((total + length out) * 100) / size in
      let next : Ota = if is_sent last percent then send_progress percent written else written in
      let same = shown_or_not (is_sent last percent) percent written in
      elim (Bool-cases (driver.writes o.flash out)) [
        | inl takes ↦
            rw (some_left, takes)
              (then_over out rest o next _ same.0 same.1 (
                write_loop-LoopedOver fuel size (total + length out) _ _ rest next y (omega arith)))
        | inr refuses ↦ rw (some_left, refuses) (refl, refl)
      ]

  boot-Updated :
      (skip_reboot : Bool) (content : Bytes) (o q : Ota)
      → q.flash ≡ content
      → driver.ends content ≡ true
      → q.boots_new ≡ true
      → q.fw.step ≡ FwStep.done
      → q.fw.progress ≡ 100
      → q.restarts ≡ o.restarts
      → Updated driver.ends content skip_reboot o (restarted skip_reboot q)
  boot-Updated true content o q f v b s p r = updated f v b s p r
  boot-Updated false content o q f v b s p r = updated f v b s p (ap (λ n. n + 1) r)

  finish-Updated :
      (skip_reboot : Bool) (content : Bytes) (o p : Ota)
      → p.flash ≡ content
      → Unchanged o p
      → Updated driver.ends content skip_reboot o (finish driver cipher skip_reboot p)
  unfolding send_step send_progress set_step set_progress
  finish-Updated skip_reboot content o p f u = elim (Bool-cases (driver.ends p.flash)) [
    | inr bad ↦ rw bad (refused u verify_ne)
    | inl good ↦ elim (Bool-cases driver.sets_boot) [
      | inr bad ↦ rw (good, bad) (refused u verify_ne)
      | inl boots ↦
          rw (good, boots)
            (boot-Updated skip_reboot content o (booting p) f (ap driver.ends (sym f) ∙ good) refl
              refl refl u.1)
    ]
  ]

  after_loop-Updated :
      (skip_reboot : Bool) (content : Bytes) (o p : Ota) (l : Looped)
      → p.flash ≡ []
      → Unchanged o p
      → LoopedOver content p l
      → Updated driver.ends content skip_reboot o (after_loop driver cipher skip_reboot l)
  unfolding send_step set_step
  after_loop-Updated skip_reboot content o p (complete e) f u h =
      finish-Updated skip_reboot content o e (h.0 ∙ ap (λ b. b ++ content) f)
        (h.1.0 ∙ u.0, h.1.1 ∙ u.1)
  after_loop-Updated skip_reboot content o p (broken e) f u h =
      refused (h.0 ∙ u.0, h.1 ∙ u.1) write_ne

  either :
      (b skip_reboot : Bool) (content : Bytes) (o x y : Ota)
      → Updated driver.ends content skip_reboot o x
      → Updated driver.ends content skip_reboot o y
      → Updated driver.ends content skip_reboot o (if b then x else y)
  either true skip_reboot content o x y h k = h
  either false skip_reboot content o x y h k = k

  write_image-Updated :
      (skip_reboot : Bool) (size : ℕ) (r : Reader) (content : Bytes) (o : Ota)
      → Yields cipher r content
      → length content ≤ r.remaining + length r.file
      → Updated driver.ends content skip_reboot o (write_image driver cipher skip_reboot size r o)
  unfolding send_step send_progress set_step
  write_image-Updated skip_reboot size r content o y b = elim (Bool-cases (driver.begins size)) [
    | inr no_room ↦ rw no_room (refused (refl, refl) prepare_ne)
    | inl begins ↦ rw begins (
        after_loop-Updated skip_reboot content o (writing o) _ refl (refl, refl)
          (write_loop-LoopedOver (rounds driver cipher r) size 0 none r content (writing o) y
            (omega arith)))
  ]

  given_up-Updated :
      (skip_reboot : Bool) (content message status : Bytes) (o : Ota)
      → Updated driver.ends content skip_reboot o (given_up message status o)
  unfolding set_step
  given_up-Updated skip_reboot content message status o = refused (refl, refl) error_ne

  sized-Updated :
      (skip_reboot : Bool) (r : Reader) (content : Bytes) (size : Option ℕ) (o : Ota)
      → Yields cipher r content
      → length content ≤ r.remaining + length r.file
      → Updated driver.ends content skip_reboot o (sized driver cipher skip_reboot r size o)
  sized-Updated skip_reboot r content none o y b =
      given_up-Updated skip_reboot content (text "OTA file not found") (text "File not found") o
  sized-Updated skip_reboot r content (some size) o y b =
      either driver.has_partition skip_reboot content o _ _
        (write_image-Updated skip_reboot size r content o y b)
        (given_up-Updated skip_reboot content (text "No OTA partition") (text "No OTA partition") o)

  -- An update from a file that opened, whatever the driver does: either the partition to boot from
  -- and the restarts are as before and the update does not end as done, or the partition holds
  -- exactly what the reader hands out, the driver has found it valid, it is the one to boot from,
  -- the update ends as done at 100 percent, and the device restarts unless it is told not to.
  pub update_start-Updated :
      (i : Image) (card_ready : Bool) (r : Reader) (content : Bytes) (original_size : ℕ)
      (file_size : Option ℕ) (o : Ota)
      → Yields cipher r content
      → length content ≤ r.remaining + length r.file
      → Updated driver.ends content i.skip_reboot o
          (update_start driver cipher i card_ready (some r) original_size file_size o)
  unfolding update_start
  update_start-Updated i card_ready r content original_size file_size o y b =
      let size = total_size driver cipher r original_size file_size in
      either (not i.is_ready) i.skip_reboot content o _ _
        (given_up-Updated i.skip_reboot content (text "OTA file not set") (text "No file") o)
        (either (not card_ready) i.skip_reboot content o _ _
          (given_up-Updated i.skip_reboot content (text "SDMMC not ready") (text "SDMMC not ready")
            o)
          (sized-Updated i.skip_reboot r content size o y b))
