-- ===== src/TcpUpload/Uploaded.antt =====
-- A client that sends enough bytes leaves the whole file on the card.
use miri_tool_v.Base.{
  ℕ, ◌-◌, ◌^◌, ◌≤◌, ◌<◌, ◌≡◌, ◌≢◌, refl, ap, sym, subst, ◌∙◌, true, false, Bytes, List, [], some,
  length, length-take, take, ◌==◌, done, arith,
}
use miri_tool_v.FwState.{FwState, FwStep, set_step, set_progress, text}
use miri_tool_v.Storage.{Cipher, Medium, IsSound, writer_open}
use miri_tool_v.Storage.Blocks.{concat}
use miri_tool_v.Card.{content_of, store, build_path, build_meta_path}
use miri_tool_v.Card.Laws.{content_of-store, content_of-store_ne}
use miri_tool_v.Manager.{UploadSession, session_begin}
use miri_tool_v.Manager.Uploads.{finish_plain}
use miri_tool_v.Ble.Device.{Pending}
use miri_tool_v.TcpUpload.{
  Upload, receive_loop, blank, tcp_handle_client, finished, looped, started, ended,
}
use miri_tool_v.TcpUpload.Received.{AreSome, Ends, receive_loop-Ends}

-- A file that is awaited, with its paths.
pub record IsAwaited (p : Pending) (path meta_path : Bytes) : Type 0 where
  pub named : 0 < length p.name
  pub typed : 0 < length p.type
  pub sized : 0 < p.expected
  pub small : p.expected < 2 ^ 32
  pub at_path : build_path p.name p.type ≡ some path
  pub at_meta_path : build_meta_path p.name p.type ≡ some meta_path

pub begin_lem :
    (medium : Medium) (size : ℕ) (fw : FwState)
    → 0 < size
    → session_begin (some medium) size (blank fw)
      ≡ done (record (blank fw) {
        original_size = size;
        writer = writer_open medium;
        fw = set_progress 0 (set_step FwStep.transfer (text "store stream") fw);
      })
unfolding session_begin
begin_lem medium size fw h = let g : (size == 0) ≡ false = ground arith in rw g refl

module _ (cipher : Cipher) (medium : Medium) (sound : IsSound medium) (meta_text : Bytes)
    (p : Pending) (path meta_path : Bytes) (is : IsAwaited p path meta_path) (cs : List Bytes)
    (u : Upload) (all : AreSome cs) where
  client_lem :
      (t : UploadSession) × (tcp_handle_client cipher false (some medium) meta_text p cs u
        ≡ some (
            ended cipher false p.expected
              (length (take p.expected (concat cs)))
              path
              meta_path
              t
              (store meta_path meta_text (store path (take p.expected (concat cs)) u.files))))
  unfolding tcp_handle_client session_begin
  client_lem =
      let some_name = is.named in
      let some_type = is.typed in
      let some_size = is.sized in
      let e : (length p.name == 0) ≡ false = ground arith in
      let f : (length p.type == 0) ≡ false = ground arith in
      let g : (p.expected == 0) ≡ false = ground arith in
      let begun : UploadSession = record (blank u.fw) {
        original_size = p.expected;
        received = 0;
        writer = writer_open medium;
        fw =
            set_step FwStep.transfer (text "tcp upload")
              (set_progress 0 (set_step FwStep.transfer (text "store stream") u.fw));
      } in
      let m : p.expected - 0 ≡ p.expected = omega arith in
      let came = take p.expected (concat cs) in
      let x =
        subst
          (λ k.
            Ends cipher p.expected (take k (concat cs))
              (receive_loop cipher false p.expected p.expected 0 cs begun))
          m
          (receive_loop-Ends cipher p.expected p.expected 0 [] cs begun all is.small refl
            (omega arith)
            (record {
              is_active = refl;
              in_file = refl;
              count = refl;
              expected = refl;
              sound = sound;
            })) in
      let y = finish_plain cipher came p.expected x.0 x.2 in
      (
        y.0,
        rw (e, f, g, is.at_path, is.at_meta_path)
            (ap (started cipher false p.expected path meta_path meta_text cs u)
                (begin_lem medium p.expected u.fw is.sized)
              ∙ ap (looped cipher false p.expected path meta_path meta_text u.files) x.1
              ∙ ap (finished cipher false p.expected (length came) path meta_path meta_text u.files)
                  y.1
              ∙ ap
                  (λ file. some (
                    ended cipher false p.expected (length came) path meta_path y.0
                      (store meta_path meta_text (store path file u.files))))
                  y.2),
      )

-- In a build without encryption, on a card that takes all bytes and keeps the metadata, for a file that is awaited with a size below 2 ^ 32, and opens: a
-- client that sends as many bytes or more leaves a file of exactly as many, with its metadata, and
-- the upload is reported as done.
pub tcp_handle_client-done :
    (cipher : Cipher) (medium : Medium) (meta_text : Bytes) (p : Pending) (path meta_path : Bytes)
    (cs : List Bytes) (u : Upload)
    → IsSound medium
    → IsAwaited p path meta_path
    → path ≢ meta_path
    → AreSome cs
    → p.expected ≤ length (concat cs)
    → (v : Upload) × (tcp_handle_client cipher false (some medium) meta_text p cs u ≡ some v)
      × (content_of path v.files ≡ some (take p.expected (concat cs)))
      × (content_of meta_path v.files ≡ some meta_text)
      × (v.fw.step ≡ FwStep.done)
unfolding set_step
tcp_handle_client-done cipher medium meta_text p path meta_path cs u sound is differ all enough =
    let x = client_lem cipher medium sound meta_text p path meta_path is cs u all in
    let came = take p.expected (concat cs) in
    let n = length-take p.expected (concat cs) enough in
    let e : (length came == p.expected) ≡ true = ground arith in
    let stored = store path came u.files in
    (
      record {
        fw = set_step FwStep.done (text "tcp upload done") x.0.fw;
        files = store meta_path meta_text stored;
      },
      x.1 ∙ rw e refl,
      content_of-store_ne meta_path path meta_text stored (λ q. differ (sym q))
          ∙ content_of-store path came u.files,
      content_of-store meta_path meta_text stored,
      refl,
    )
