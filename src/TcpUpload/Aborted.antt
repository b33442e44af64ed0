-- ===== src/TcpUpload/Aborted.antt =====
-- A client that sends too few bytes leaves nothing on the card.
use miri_tool_v.Base.{
  ℕ, zero, suc, ◌+◌, ◌-◌, ◌*◌, ◌/◌, ◌≤◌, ◌<◌, ◌≡◌, ◌≢◌, inl, inr, refl, ap, sym, ◌∙◌, Bool, true,
  false, Bytes, List, Option, none, some, length, length-append, min, ltb, ◌==◌, if◌then◌else◌,
  Bool-cases, u8, u32, Outcome, EspErr, done, failed, fault, arith,
}
use miri_tool_v.FwState.{FwStep, set_step, set_progress, text}
use miri_tool_v.Storage.{Cipher, Medium, Writer, writer_open, writer_write, writer_close}
use miri_tool_v.Storage.Blocks.{concat}
use miri_tool_v.Card.{Files, content_of, store, remove}
use miri_tool_v.Card.Laws.{content_of-remove, content_of-remove_ne}
use miri_tool_v.Manager.{UploadSession, session_write, session_finish, written, closed}
use miri_tool_v.Ble.Device.{Pending}
use miri_tool_v.TcpUpload.{
  Upload, receive_loop, after_write, kept, blank, tcp_handle_client, finished, looped, started,
  ended,
}
use miri_tool_v.TcpUpload.Received.{AreSome, recv-IsPart}
use miri_tool_v.TcpUpload.Uploaded.{IsAwaited, begin_lem}

-- The code stayed inside its buffers.
abbrev NoFault : {S : Type 0} → Outcome S → Type 0
NoFault fault = ⊥
NoFault _ = Unit

-- The same, as a record, which inference reads back from the outcome.
record IsSafe {S : Type 0} (o : Outcome S) : Type 0 where
  no_fault : NoFault o

IsSafe-done : {S : Type 0} (s : S) → IsSafe (done s)
IsSafe-done s = record { no_fault = tt }

IsSafe-failed : {S : Type 0} (e : EspErr) (s : S) → IsSafe (failed e s)
IsSafe-failed e s = record { no_fault = tt }

either :
    {S : Type 0} (b : Bool) (x y : Outcome S) → IsSafe x → IsSafe y → IsSafe (if b then x else y)
either true x y h k = h
either false x y h k = k

module _ (cipher : Cipher) (encrypting : Bool) where
  session_write-IsSafe :
      (bytes : Bytes) (s : UploadSession) → IsSafe (session_write cipher encrypting bytes s)
  unfolding session_write writer_write
  session_write-IsSafe bytes s = either (length bytes == 0) _ _ (IsSafe-failed _ _) (
      go (writer_write cipher encrypting bytes s.writer) (
        either _ _ _ (IsSafe-failed _ _) (
          either encrypting _ _ (IsSafe-done _)
            (either _ _ _ (IsSafe-done _) (IsSafe-failed _ _)))))
    where
      go : (o : Outcome Writer) → IsSafe o → IsSafe (written cipher encrypting s (length bytes) o)
      go (done w) h = record { no_fault = tt }
      go (failed e w) h = record { no_fault = tt }
      go fault h = absurd h.no_fault

  session_finish-IsSafe : (s : UploadSession) → IsSafe (session_finish cipher encrypting s)
  unfolding session_finish writer_close
  session_finish-IsSafe s = go (writer_close cipher encrypting s.writer) (
      either _ _ _ (IsSafe-failed _ _) (
        either encrypting _ _ (either _ _ _ (IsSafe-done _) (IsSafe-failed _ _))
          (either _ _ _ (IsSafe-done _) (IsSafe-failed _ _))))
    where
      go : (o : Outcome Writer) → IsSafe o → IsSafe (closed cipher encrypting s o)
      go (done w) h = record { no_fault = tt }
      go (failed e w) h = record { no_fault = tt }
      go fault h = absurd h.no_fault

  -- The loop ends with no more bytes counted than there were and have come.
  abbrev AtMost : ℕ → Option (ℕ × UploadSession) → Type 0
  AtMost n o = (k : ℕ) × (t : UploadSession) × (o ≡ some (k, t)) × (k ≤ n)

  after_write-AtMost :
      (n expected received total : ℕ) (next : UploadSession → Option (ℕ × UploadSession))
      (o : Outcome UploadSession)
      → received ≤ n
      → ((s : UploadSession) → AtMost n (next s))
      → NoFault o
      → AtMost n (kept received o (after_write expected total next o))
  after_write-AtMost n expected received total next (done s) h ih safe =
      ih (record s { fw = set_progress (u8 (u32 (total * 100) / expected)) s.fw })
  after_write-AtMost n expected received total next (failed e s) h ih safe = (received, s, refl, h)
  after_write-AtMost n expected received total next fault h ih safe = absurd safe

  receive_loop-AtMost :
      (fuel expected received n : ℕ) (cs : List Bytes) (s : UploadSession)
      → AreSome cs
      → received + length (concat cs) ≤ n
      → AtMost n (receive_loop cipher encrypting fuel expected received cs s)
  unfolding receive_loop
  receive_loop-AtMost zero expected received n cs s all h = (received, s, refl, omega arith)
  receive_loop-AtMost (suc fuel) expected received n cs s all h =
      elim (Bool-cases (ltb received expected)) [
        | inr full ↦ rw full (received, s, refl, omega arith)
        | inl more ↦
            let lower : received < expected = ground arith in
            let x = recv-IsPart (min (expected - received) 1024) cs (omega arith) all in
            let bytes = x.0 in
            let total = u32 (received + length bytes) in
            let come = ap (λ (xs : Bytes). length xs) x.3.0 in
            let sum = length-append bytes (concat x.1) in
            rw (more, x.2)
              (elim (Bool-cases (length bytes == 0)) [
                | inl over ↦ rw over (received, s, refl, omega arith)
                | inr got ↦ rw got (
                    after_write-AtMost n expected received total
                      (receive_loop cipher encrypting fuel expected total x.1)
                      (session_write cipher encrypting bytes s) (omega arith)
                      (λ t. receive_loop-AtMost fuel expected total n x.1 t x.3.1 (omega arith))
                      (session_write-IsSafe bytes s).no_fault)
              ])
      ]

  -- What an upload leaves that is given up.
  abbrev Aborted : Bytes → Bytes → Option Upload → Type 0
  Aborted path meta_path o =
      (v : Upload) × (o ≡ some v)
      × (content_of path v.files ≡ none)
      × (content_of meta_path v.files ≡ none)
      × (v.fw.step ≡ FwStep.error)

  ended-Aborted :
      (expected k : ℕ) (path meta_path : Bytes) (s : UploadSession) (files : Files)
      → k < expected
      → path ≢ meta_path
      → Aborted path meta_path (some (ended cipher encrypting expected k path meta_path s files))
  unfolding set_step
  ended-Aborted expected k path meta_path s files h differ =
      let e : (k == expected) ≡ false = ground arith in
      rw e (
        _,
        refl,
        content_of-remove_ne meta_path path (remove path files) (λ q. differ (sym q))
            ∙ content_of-remove path files,
        content_of-remove meta_path (remove path files),
        refl,
      )

  finished-Aborted :
      (expected k : ℕ) (path meta_path meta_text : Bytes) (files : Files)
      (o : Outcome UploadSession)
      → NoFault o
      → k < expected
      → path ≢ meta_path
      → Aborted path meta_path
          (finished cipher encrypting expected k path meta_path meta_text files o)
  finished-Aborted expected k path meta_path meta_text files (done s) safe h differ =
      ended-Aborted expected k path meta_path s
        (store meta_path meta_text (store path s.writer.file files)) h differ
  finished-Aborted expected k path meta_path meta_text files (failed e s) safe h differ =
      ended-Aborted expected k path meta_path s (store path s.writer.file files) h differ
  finished-Aborted expected k path meta_path meta_text files fault safe h differ = absurd safe

  looped-Aborted :
      (expected n : ℕ) (path meta_path meta_text : Bytes) (files : Files)
      (o : Option (ℕ × UploadSession))
      → AtMost n o
      → n < expected
      → path ≢ meta_path
      → Aborted path meta_path (looped cipher encrypting expected path meta_path meta_text files o)
  looped-Aborted expected n path meta_path meta_text files o (k, t, e, le) h differ = rw e (
      finished-Aborted expected k path meta_path meta_text files
        (session_finish cipher encrypting t) (session_finish-IsSafe t).no_fault (omega arith)
        differ)

  -- For a file that is awaited with a size below 2 ^ 32, and opens, in a build with encryption or
  -- without, whatever bytes the card takes and whether it keeps the metadata or not: a client that
  -- sends fewer bytes leaves neither the file nor its metadata, and the upload is reported as an
  -- error.
  pub tcp_handle_client-error :
      (medium : Medium) (meta_text : Bytes) (p : Pending) (path meta_path : Bytes) (cs : List Bytes)
      (u : Upload)
      → IsAwaited p path meta_path
      → path ≢ meta_path
      → AreSome cs
      → length (concat cs) < p.expected
      → (v : Upload) × (tcp_handle_client cipher encrypting (some medium) meta_text p cs u ≡ some v)
        × (content_of path v.files ≡ none)
        × (content_of meta_path v.files ≡ none)
        × (v.fw.step ≡ FwStep.error)
  unfolding tcp_handle_client
  tcp_handle_client-error medium meta_text p path meta_path cs u is differ all short =
      let some_name = is.named in
      let some_type = is.typed in
      let some_size = is.sized in
      let e : (length p.name == 0) ≡ false = ground arith in
      let f : (length p.type == 0) ≡ false = ground arith in
      let g : (p.expected == 0) ≡ false = ground arith in
      let loop =
        looped-Aborted p.expected (length (concat cs)) path meta_path meta_text u.files _
          (receive_loop-AtMost p.expected p.expected 0 (length (concat cs)) cs
            (record (blank u.fw) {
              original_size = p.expected;
              writer = writer_open medium;
              fw =
                  set_step FwStep.transfer (text "tcp upload")
                    (set_progress 0 (set_step FwStep.transfer (text "store stream") u.fw));
            })
            all (omega arith))
          short differ in
      (
        loop.0,
        rw (e, f, g, is.at_path, is.at_meta_path)
            (ap (started cipher encrypting p.expected path meta_path meta_text cs u)
                (begin_lem medium p.expected u.fw is.sized)
              ∙ loop.1),
        loop.2,
        loop.3,
        loop.4,
      )
