-- ===== src/Ble/Refines.antt =====
-- The commands of the phone as moves of the roles.
use miri_tool_v.Base.{
  ℕ, suc, ◌≡◌, refl, sym, subst, Bool, true, false, Bytes, List, [], ◌∷◌, Option, none, some,
  EspErr, length, leb, ◌==◌, if◌then◌else◌,
}
use miri_tool_v.Role.{Role, ble, fw_upload, storage_upload}
use miri_tool_v.Role.Moves.{Moves, asked, cleared, typed, here, next, Moves-trans}
use miri_tool_v.Hht.{HhtType}
use miri_tool_v.Card.{content_of, mount}
use miri_tool_v.Manager.{trim_whitespace}
use miri_tool_v.Manager.Run.{run_from_sdmmc}
use miri_tool_v.Ble.{Key, normalize_compat, is_name_valid, key_from_code, cmd_to_role}
use miri_tool_v.Ble.Lists.{send_sdmmc_program_list, send_file_list, send_programs, send_files}
use miri_tool_v.Ble.Device.{Device, Env, FatEntry, send_cmd, request_role, clear_role}
use miri_tool_v.Ble.Handler.{
  Named, send_key, key_of, handle_hht_action, handle_stop, handle_start, with_type, renamed,
  handle_rename, handle_enter_wifi, name_pending, expect, set_last_fw_type, name_update, run_answer,
  run_file, start_named, handle_program_start, enter_present, enter_named, handle_program_enter,
  removed_answer, delete_from_card, delete_from_flash, handle_sdmmc_delete, handle_fat_delete,
  handle_sdmmc_format, handle_fat_format, copied, named_in, path_in, length_of,
}
use miri_tool_v.Ble.Commands.{
  handle_info, handle_program, handle_storage, handle_other, dispatch, is_ack, accepted_cmd,
  handle_with_payload,
}

-- The roles of the second device are reached from those of the first.
pub record Reaches (d e : Device) : Type 0 where
  pub moves : Moves d.roles e.roles

same : (d e : Device) → e.roles ≡ d.roles → Reaches d e
same d e h = record { moves = subst (Moves d.roles) (sym h) here }

through : (d e f : Device) → Reaches d e → Reaches e f → Reaches d f
through d e f h k = record { moves = Moves-trans h.moves k.moves }

sent : (cmd : ℕ) (payload : Bytes) (d e : Device) → Reaches d e → Reaches d (send_cmd cmd payload e)
unfolding send_cmd
sent cmd payload d e h = record { moves = h.moves }

ask : (env : Env) (role : Role) (d e : Device) → Reaches d e → Reaches d (request_role env role e)
ask env role d e h = record { moves = next h.moves (asked env.link role ble refl) }

stay : (d : Device) → Reaches d d
stay d = record { moves = here }

-- Whichever branch is taken.
branch : (b : Bool) (d x y : Device) → Reaches d x → Reaches d y → Reaches d (if b then x else y)
branch true d x y h k = h
branch false d x y h k = k

key_of-Reaches : (payload : Bytes) (d : Device) → Reaches d (key_of payload d)
key_of-Reaches [] d = stay d
key_of-Reaches (code ∷ cs) d = go (key_from_code code)
  where
    go : (k : Option Key) → Reaches d (send_key k d)
    go none = stay d
    go (some k) = search (sent, same)

give_up : (d : Device) → Reaches d (clear_role d)
give_up d = record { moves = next here (cleared refl) }

handle_stop-Reaches : (cmd : ℕ) (d : Device) → Reaches d (handle_stop cmd d)
unfolding handle_stop
handle_stop-Reaches cmd d = search (branch, sent, give_up) depth 9

retype : (type : HhtType) (d : Device) → Reaches d (with_type type d)
retype type d = record { moves = next here (typed type refl) }

handle_start-Reaches : (env : Env) (cmd : ℕ) (d : Device) → Reaches d (handle_start env cmd d)
unfolding handle_start
handle_start-Reaches env cmd d = search (branch, sent, ask, retype, stay) depth 9

send_programs-Reaches :
    (ack idx total : ℕ) (es : List Bytes) (d e : Device)
    → Reaches d e
    → Reaches d (send_programs ack idx total es e)
unfolding send_programs
send_programs-Reaches ack idx total [] d e h = h
send_programs-Reaches ack idx total (x ∷ es) d e h =
    send_programs-Reaches ack (suc idx) total es d _ (sent _ _ d e h)

send_files-Reaches :
    (ack idx total : ℕ) (es : List FatEntry) (d e : Device)
    → Reaches d e
    → Reaches d (send_files ack idx total es e)
unfolding send_files
send_files-Reaches ack idx total [] d e h = h
send_files-Reaches ack idx total (x ∷ es) d e h =
    send_files-Reaches ack (suc idx) total es d _ (sent _ _ d e h)

program_list-Reaches :
    (ack : ℕ) (o : Option (List Bytes)) (d : Device) → Reaches d (send_sdmmc_program_list ack o d)
unfolding send_sdmmc_program_list
program_list-Reaches ack none d = search (sent, stay)
program_list-Reaches ack (some es) d = search (branch, sent, stay, send_programs-Reaches)

file_list-Reaches :
    (ack : ℕ) (o : Option (List FatEntry)) (d : Device) → Reaches d (send_file_list ack o d)
unfolding send_file_list
file_list-Reaches ack none d = search (sent, stay)
file_list-Reaches ack (some es) d = search (branch, sent, stay, send_files-Reaches)

handle_rename-Reaches :
    (env : Env) (payload : Bytes) (d : Device) → Reaches d (handle_rename env payload d)
unfolding handle_rename
handle_rename-Reaches env payload d = branch (length payload == 0) d _ _ (search (sent, stay)) (
    branch (is_name_valid (trim_whitespace (copied 31 payload))) d _ _ (go env.rename_error)
      (search (sent, stay)))
  where
    go : (o : Option Bytes) → Reaches d (renamed env (trim_whitespace (copied 31 payload)) o d)
    go none = search (sent, same)
    go (some why) = search (sent, stay)

enter_wifi-Reaches :
    (env : Env) (payload : Bytes) (d : Device) → Reaches d (handle_enter_wifi env payload d)
unfolding handle_enter_wifi
enter_wifi-Reaches env payload d =
    let named : Reaches d (name_pending env (expect (length_of payload) d)) =
      search (branch, same) in
    branch (leb 3 (length payload)) d _ _ (sent _ _ d _ (ask env fw_upload d _ named))
      (search (sent, ask, stay))

update_type-Reaches :
    (env : Env) (payload : Bytes) (d : Device)
    → Reaches d (name_update env (set_last_fw_type payload d))
unfolding set_last_fw_type
update_type-Reaches env payload d =
    let typed : Reaches d (set_last_fw_type payload d) = search (branch, same, stay) in
    through d (set_last_fw_type payload d) _ typed (search (branch, same, stay))

run_file-Reaches :
    (env : Env) (ack : ℕ) (failure : Bytes) (n : Named) (d e : Device)
    → Reaches d e
    → Reaches d (run_file env ack failure n e)
run_file-Reaches env ack failure n d e h =
    go (run_from_sdmmc env.place n.file_name n.file_type e.worker).error
  where
    f : Device
    f = record e { worker = (run_from_sdmmc env.place n.file_name n.file_type e.worker).worker }

    go : (o : Option EspErr) → Reaches d (run_answer ack failure o f)
    go none = sent _ _ d f (record { moves = h.moves })
    go (some x) = sent _ _ d f (record { moves = h.moves })

program_start-Reaches :
    (env : Env) (payload : Bytes) (d : Device) → Reaches d (handle_program_start env payload d)
unfolding handle_program_start
program_start-Reaches env payload d =
    branch (length payload == 0) d _ _ (search (ask, sent, stay)) (go (named_in payload))
  where
    go : (o : Option Named) → Reaches d (start_named env o d)
    go none = search (sent, stay)
    go (some n) = search (run_file-Reaches, stay)

program_enter-Reaches :
    (env : Env) (payload : Bytes) (d : Device) → Reaches d (handle_program_enter env payload d)
unfolding handle_program_enter
program_enter-Reaches env payload d = go (named_in payload)
  where
    e : Device
    e = request_role env storage_upload d

    asked' : Reaches d e
    asked' = ask env storage_upload d d (stay d)

    present : (n : Named) (o : Option Bytes) → Reaches d (enter_present env n o e)
    present n none = search (sent, asked')
    present n (some content) = search (run_file-Reaches, asked')

    go : (o : Option Named) → Reaches d (enter_named env o e)
    go none = search (sent, asked')
    go (some n) = present n (content_of (path_in mount n) e.worker.files)

removed-Reaches :
    (ack : ℕ) (o : Option Bytes) (d e : Device) → Reaches d e → Reaches d (removed_answer ack o e)
removed-Reaches ack none d e h = sent _ _ d e h
removed-Reaches ack (some content) d e h = sent _ _ d e h

sdmmc_delete-Reaches : (payload : Bytes) (d : Device) → Reaches d (handle_sdmmc_delete payload d)
unfolding handle_sdmmc_delete
sdmmc_delete-Reaches payload d = go (named_in payload)
  where
    go : (o : Option Named) → Reaches d (delete_from_card o d)
    go none = search (sent, stay)
    go (some n) = search (branch, removed-Reaches, same, sent, stay)

fat_delete-Reaches : (payload : Bytes) (d : Device) → Reaches d (handle_fat_delete payload d)
unfolding handle_fat_delete
fat_delete-Reaches payload d = go (named_in payload)
  where
    go : (o : Option Named) → Reaches d (delete_from_flash o d)
    go none = search (sent, stay)
    go (some n) = search (removed-Reaches, same)

sdmmc_format-Reaches : (env : Env) (d : Device) → Reaches d (handle_sdmmc_format env d)
unfolding handle_sdmmc_format
sdmmc_format-Reaches env d = search (branch, sent, same, stay)

fat_format-Reaches : (env : Env) (d : Device) → Reaches d (handle_fat_format env d)
unfolding handle_fat_format
fat_format-Reaches env d = search (branch, sent, same, stay)

handle_info-Reaches :
    (env : Env) (cmd : ℕ) (payload : Bytes) (d e : Device)
    → Reaches d e
    → Reaches d (handle_info env cmd payload d e)
unfolding handle_info send_cmd
handle_info-Reaches env cmd payload d e h =
    search (branch, same, stay, handle_rename-Reaches) depth 12

handle_program-Reaches :
    (env : Env) (cmd : ℕ) (payload : Bytes) (d e : Device)
    → Reaches d e
    → Reaches d (handle_program env cmd payload d e)
unfolding handle_program
handle_program-Reaches env cmd payload d e h =
    search (branch, sent, ask, stay, enter_wifi-Reaches, program_start-Reaches, update_type-Reaches)
      depth 14

handle_storage-Reaches :
    (env : Env) (cmd : ℕ) (payload : Bytes) (d e : Device)
    → Reaches d e
    → Reaches d (handle_storage env cmd payload d e)
unfolding handle_storage
handle_storage-Reaches env cmd payload d e h =
    search
      (
        branch, program_enter-Reaches, program_list-Reaches, file_list-Reaches,
        sdmmc_format-Reaches, fat_format-Reaches, sdmmc_delete-Reaches, fat_delete-Reaches,
      )
      depth 12

handle_other-Reaches :
    (env : Env) (cmd : ℕ) (payload : Bytes) (d : Device)
    → Reaches d (handle_other env cmd payload d)
unfolding handle_other
handle_other-Reaches env cmd payload d = handle_info-Reaches env cmd payload d _ (
    handle_program-Reaches env cmd payload d _
      (handle_storage-Reaches env cmd payload d _ (ask env (cmd_to_role cmd) d d (stay d))))

action-Reaches :
    (cmd : ℕ) (payload : Bytes) (d : Device) → Reaches d (handle_hht_action cmd payload d)
unfolding handle_hht_action
action-Reaches cmd payload d = search (branch, key_of-Reaches, stay)

dispatch-Reaches :
    (env : Env) (cmd : ℕ) (payload : Bytes) (d : Device) → Reaches d (dispatch env cmd payload d)
unfolding dispatch
dispatch-Reaches env cmd payload d = branch (is_ack cmd) d _ _ (stay d) (
    search
      (branch, action-Reaches, handle_stop-Reaches, handle_start-Reaches, handle_other-Reaches))

-- Whatever command comes with whatever payload, the role, its source and the terminal only change
-- as when roles are asked for and given up and the type of the terminal is set.
pub handle_with_payload-Moves :
    (env : Env) (cmd : ℕ) (payload : Bytes) (d : Device)
    → Moves d.roles (handle_with_payload env cmd payload d).roles
unfolding handle_with_payload
handle_with_payload-Moves env cmd payload d =
    (dispatch-Reaches env (accepted_cmd (normalize_compat cmd)) payload d).moves

-- A command with what it finds.
pub record Command : Type 0 where
  pub env : Env
  pub cmd : ℕ
  pub payload : Bytes

abbrev pub handle_all : List Command → Device → Device
handle_all [] d = d
handle_all (c ∷ cs) d = handle_all cs (handle_with_payload c.env c.cmd c.payload d)
