-- ===== src/TcpUpload.antt =====
-- main/base/net/tcp/tcp_server.c: the upload of a client.
pub mod Received
pub mod Aborted
pub mod Uploaded
use miri_tool_v.Base.{
  ℕ, zero, suc, ◌+◌, ◌-◌, ◌*◌, ◌/◌, Bool, true, false, not, ◌&&◌, ◌||◌, Bytes, List, [], ◌∷◌,
  Option, none, some, length, take, drop, min, ltb, leb, ◌==◌, if◌then◌else◌, u8, u32, Outcome,
  done, failed, fault,
}
use miri_tool_v.FwState.{FwState, FwStep, set_step, set_progress, text}
use miri_tool_v.Storage.{Cipher, Medium, writer_open}
use miri_tool_v.Card.{Files, store, remove, build_path, build_meta_path}
use miri_tool_v.Manager.{UploadSession, session_begin, session_write, session_finish}
use miri_tool_v.Ble.Device.{Pending, has_pending}

-- What an upload changes: the state that is reported, and the card.
pub record Upload : Type 0 where
  pub fw : FwState
  pub files : Files

-- `recv` for at most `n` bytes, from the pieces that arrive; no byte is the end of the connection.
unfoldable pub recv : ℕ → List Bytes → Bytes × List Bytes
recv n [] = ([], [])
recv n (c ∷ cs) = if leb (length c) n then (c, cs) else (take n c, drop n c ∷ cs)

-- The bytes received and the session, or a fault.
abbrev pub Looped : Type 0
Looped = Option (ℕ × UploadSession)

abbrev pub after_write : ℕ → ℕ → (UploadSession → Looped) → Outcome UploadSession → Looped
after_write expected received next (done s) =
    next (record s { fw = set_progress (u8 (u32 (received * 100) / expected)) s.fw })
after_write expected received next (failed e s) = none
after_write expected received next fault = none

-- What a write that fails leaves, with the bytes that were received before.
abbrev pub kept : ℕ → Outcome UploadSession → Looped → Looped
kept received (failed e s) looped = some (received, s)
kept received (done s) looped = looped
kept received fault looped = looped

abbrev no_medium : Medium
no_medium = record { takes = λ file n. 0; keeps_meta = false }

abbrev pub blank : FwState → UploadSession
blank fw = record {
  original_size = 0;
  received = 0;
  writer = record (writer_open no_medium) { active = false };
  fw = fw;
}

module _ (cipher : Cipher) (encrypting : Bool) where
  -- The loop of `tcp_handle_client`, on fuel: each round receives a byte at least.
  unfoldable pub receive_loop : ℕ → ℕ → ℕ → List Bytes → UploadSession → Looped
  receive_loop zero expected received cs s = some (received, s)
  receive_loop (suc fuel) expected received cs s =
      let (bytes, rest) = recv (min (expected - received) 1024) cs in
      let wrote = session_write cipher encrypting bytes s in
      let total = u32 (received + length bytes) in
      let later =
        kept received wrote
          (after_write expected total (receive_loop fuel expected total rest) wrote) in
      if not (ltb received expected) || length bytes == 0 then some (received, s) else later

  -- `tcp_delete_partial`
  abbrev pub delete_partial : Bytes → Bytes → Files → Files
  delete_partial path meta_path files = remove meta_path (remove path files)

  abbrev pub ended : ℕ → ℕ → Bytes → Bytes → UploadSession → Files → Upload
  ended expected received path meta_path s files =
      if received == expected
      then record { fw = set_step FwStep.done (text "tcp upload done") s.fw; files = files }
      else record {
        fw = set_step FwStep.error (text "tcp upload incomplete") s.fw;
        files = delete_partial path meta_path files;
      }

  -- The file is on the card whatever closing it comes to, its metadata if it succeeds.
  abbrev pub finished :
      ℕ → ℕ → Bytes → Bytes → Bytes → Files → Outcome UploadSession → Option Upload
  finished expected received path meta_path meta_text files (done s) = some (
      ended expected received path meta_path s
        (store meta_path meta_text (store path s.writer.file files)))
  finished expected received path meta_path meta_text files (failed e s) =
      some (ended expected received path meta_path s (store path s.writer.file files))
  finished expected received path meta_path meta_text files fault = none

  abbrev pub looped : ℕ → Bytes → Bytes → Bytes → Files → Looped → Option Upload
  looped expected path meta_path meta_text files none = none
  looped expected path meta_path meta_text files (some (received, s)) =
      finished expected received path meta_path meta_text files (session_finish cipher encrypting s)

  abbrev pub started :
      ℕ → Bytes → Bytes → Bytes → List Bytes → Upload → Outcome UploadSession → Option Upload
  started expected path meta_path meta_text cs u (done s) =
      looped expected path meta_path meta_text u.files (
        receive_loop expected expected 0 cs
          (record s { fw = set_step FwStep.transfer (text "tcp upload") s.fw }))
  started expected path meta_path meta_text cs u (failed e s) = some (record u { fw = s.fw })
  started expected path meta_path meta_text cs u fault = none

  abbrev pub at_paths :
      Option Medium → ℕ → Bytes → List Bytes → Upload → Option Bytes → Option Bytes → Option Upload
  at_paths opens expected meta_text cs u (some path) (some meta_path) =
      started expected path meta_path meta_text cs u (session_begin opens expected (blank u.fw))
  at_paths opens expected meta_text cs u none m =
      some (record u { fw = set_progress 0 (set_step FwStep.transfer (text "store stream") u.fw) })
  at_paths opens expected meta_text cs u (some path) none = none

  -- `tcp_handle_client` for the file that is awaited; from the card behind the file if it opens;
  -- the text is the JSON of its metadata. With the name and the type in their buffers both paths fit.
  unfoldable pub tcp_handle_client :
      Option Medium → Bytes → Pending → List Bytes → Upload → Option Upload
  tcp_handle_client opens meta_text p cs u =
      if not (has_pending p) || p.expected == 0
      then some u
      else at_paths opens p.expected meta_text cs u (build_path p.name p.type)
          (build_meta_path p.name p.type)
