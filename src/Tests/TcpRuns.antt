-- ===== src/Tests/TcpRuns.antt =====
-- Clients of the TCP server.
use miri_tool_v.Base.{
  ℕ, true, false, ◌≡◌, ◌≢◌, refl, ap, arith, Bytes, List, [], ◌∷◌, none, some, length,
}
use miri_tool_v.FwState.{FwStep, text}
use miri_tool_v.Storage.{Cipher, Medium, IsSound}
use miri_tool_v.Card.{content_of, build_path, build_meta_path}
use miri_tool_v.Ble.Device.{Pending}
use miri_tool_v.TcpUpload.{Upload, tcp_handle_client}
use miri_tool_v.TcpUpload.Uploaded.{IsAwaited, tcp_handle_client-done}
use miri_tool_v.TcpUpload.Aborted.{tcp_handle_client-error}

abbrev app : Pending
app = record { name = text "app"; type = text "bin"; expected = 3 }

abbrev app_path : Bytes
app_path = text "/sdcard/app.bin"

abbrev meta_path : Bytes
meta_path = text "/sdcard/app.bin.meta"

abbrev cipher : Cipher
cipher = record { encrypt = λ b. b; decrypt = λ b. b }

app-IsAwaited : IsAwaited app app_path meta_path
unfolding build_path build_meta_path
app-IsAwaited = record {
  named = omega arith;
  typed = omega arith;
  sized = omega arith;
  small = omega arith;
  at_path = refl;
  at_meta_path = refl;
}

abbrev pieces : List Bytes
pieces = (1 ∷ 2 ∷ []) ∷ (3 ∷ 4 ∷ []) ∷ []

not_nil : {x : ℕ} → {xs : Bytes} → (x ∷ xs) ≢ []
not_nil {x} {xs} e = absurd (omega (arith, ap (λ (ys : Bytes). length ys) e))

app_path-ne-meta_path : app_path ≢ meta_path
app_path-ne-meta_path e = absurd (omega (arith, ap (λ (ys : Bytes). length ys) e))

abbrev before : Upload
before = record {
  fw = record { step = FwStep.prepare; progress = 0; message = [] };
  files = (app_path, 9 ∷ []) ∷ [];
}

abbrev medium : Medium
medium = record { takes = λ file n. n; keeps_meta = true }

medium-IsSound : IsSound medium
medium-IsSound = record { takes_all = λ file n. omega arith; meta_kept = refl }

tcp_handle_client-done_example :
    (v : Upload) × (tcp_handle_client cipher false (some medium) (text "{}") app pieces before
      ≡ some v)
    × (content_of app_path v.files ≡ some (1 ∷ 2 ∷ 3 ∷ []))
    × (content_of meta_path v.files ≡ some (text "{}"))
    × (v.fw.step ≡ FwStep.done)
tcp_handle_client-done_example =
    tcp_handle_client-done cipher medium (text "{}") app app_path meta_path pieces before
      medium-IsSound app-IsAwaited app_path-ne-meta_path (not_nil, (not_nil, tt)) (omega arith)

-- a card that is full
abbrev full : Medium
full = record { takes = λ file n. 0; keeps_meta = false }

tcp_handle_client-error_example :
    (v : Upload) × (tcp_handle_client cipher false
        (some full)
        (text "{}")
        app
        ((1 ∷ []) ∷ [])
        before
      ≡ some v)
    × (content_of app_path v.files ≡ none)
    × (content_of meta_path v.files ≡ none)
    × (v.fw.step ≡ FwStep.error)
tcp_handle_client-error_example =
    tcp_handle_client-error cipher false full (text "{}") app app_path meta_path ((1 ∷ []) ∷ [])
      before app-IsAwaited app_path-ne-meta_path (not_nil, tt) (omega arith)
