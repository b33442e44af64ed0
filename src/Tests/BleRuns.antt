-- ===== src/Tests/BleRuns.antt =====
-- The commands of the phone on a device at rest.
use miri_tool_v.Base.{inl, ◌≡◌, ◌≢◌, refl, arith, true, false, Bytes, [], ◌∷◌, none}
use miri_tool_v.FwState.{FwStep, text}
use miri_tool_v.Hht.{wb100, hht_3000}
use miri_tool_v.Hht.Wb100.{err_timeout}
use miri_tool_v.Hht.Main.{Link}
use miri_tool_v.Role.{no_role, no_source, hht}
use miri_tool_v.Role.Moves.{IsConsistent}
use miri_tool_v.Card.{content_of}
use miri_tool_v.FwTypes.{strncmp_equal}
use miri_tool_v.Storage.Metadata.{Cjson}
use miri_tool_v.Manager.Run.{Place}
use miri_tool_v.Ble.{is_valid_type}
use miri_tool_v.Ble.Codes.{
  cmd_sdmmc_delete_file, ack_sdmmc_delete_file, cmd_start_hht_3000, cmd_stop_hht_100,
}
use miri_tool_v.Ble.Device.{Device, Env}
use miri_tool_v.Ble.Handler.{result_ok}
use miri_tool_v.Ble.Json.Found.{file_object}
use miri_tool_v.Ble.Commands.{handle_with_payload}
use miri_tool_v.Ble.Refines.{Command}
use miri_tool_v.Ble.Sessions.{Starts, Stops, HasStarted, HasStopped, handle_with_payload_start_stop}
use miri_tool_v.Ble.Deletes.{Plain, card_path, handle_with_payload-delete}

abbrev link : Link
link = record { wb100_result = err_timeout; h3000_result = true; makes_task = true }

abbrev no_json : Cjson
no_json = record { print = λ o. []; parse = λ b. none }

abbrev place : Place
place = record {
  cjson = no_json;
  card_ready = true;
  meta_opens = true;
  memory = record { queue_fits = true; task_fits = true };
  entries = none;
}

abbrev pub env : Env
env = record {
  link = link;
  place = place;
  mac = [];
  timestamp = 0;
  bt_mac = [];
  version = text "1";
  gap_name = [];
  flash_name = text "MIRI-0001";
  rename_error = none;
  card_formats = true;
  fat_entries = none;
  fat_ready = true;
  fat_formats = true;
}

abbrev pub device : Device
device = record {
  roles = record {
    active = no_role;
    source = no_source;
    terminal = record { running = false; type = wb100; task = false; calls = [] };
    started = [];
  };
  keys = record {
    hold_ticks = 0;
    hold_key = 0;
    hold_active = false;
    hold_long = false;
    release_pending = false;
    release_log_immediate = false;
    press_log_pending = false;
    written = [];
  };
  last_fw_type = [];
  legacy = record { file_name = []; file_type = []; expected_size = 0 };
  pending = record { name = []; type = []; expected = 0 };
  alias = [];
  worker = record {
    queue = none;
    running = false;
    files = (text "/sdcard/app.A15", 1 ∷ 2 ∷ []) ∷ (text "/sdcard/log.txt", 3 ∷ []) ∷ [];
    started = [];
    fw = record { step = FwStep.prepare; progress = 0; message = [] };
  };
  fat_files = [];
  sent = [];
  restarts = 0;
}

abbrev command : Command
command = record { env = env; cmd = cmd_start_hht_3000; payload = [] }

no_role-ne : no_role ≢ hht
no_role-ne e = cc

device-IsConsistent : IsConsistent device.roles
device-IsConsistent = record {
  tended = record { only_running = λ e. absurd (grind arith); all_the_time = inl refl };
  role_runs = λ e. absurd (no_role-ne e);
}

abbrev begun : Device
begun = handle_with_payload env cmd_start_hht_3000 [] device

handle_with_payload_start_stop_example :
    HasStarted hht_3000 begun.roles
    × HasStopped hht_3000 begun.roles
        (handle_with_payload env cmd_stop_hht_100 (1 ∷ []) begun).roles
handle_with_payload_start_stop_example =
    handle_with_payload_start_stop env env cmd_start_hht_3000 cmd_stop_hht_100 hht_3000 [] (1 ∷ [])
      device Starts.of_3000 Stops.of_100 device-IsConsistent

app-Plain : Plain (text "app")
app-Plain = (((λ e. cc), λ e. cc), (((λ e. cc), λ e. cc), (((λ e. cc), λ e. cc), tt)))

a15-Plain : Plain (text "A15")
a15-Plain = (((λ e. cc), λ e. cc), (((λ e. cc), λ e. cc), (((λ e. cc), λ e. cc), tt)))

abbrev after_delete : Device
after_delete =
    handle_with_payload env cmd_sdmmc_delete_file (file_object (text "app") (text "A15")) device

handle_with_payload-delete_example :
    (content_of (card_path (text "app") (text "A15")) after_delete.worker.files ≡ none)
    × ((other : Bytes)
        → card_path (text "app") (text "A15") ≢ other
        → content_of other after_delete.worker.files ≡ content_of other device.worker.files)
    × (after_delete.sent ≡ record { cmd = ack_sdmmc_delete_file; payload = result_ok } ∷ [])
unfolding content_of is_valid_type strncmp_equal
handle_with_payload-delete_example =
    handle_with_payload-delete env (text "app") (text "A15") (1 ∷ 2 ∷ []) device app-Plain a15-Plain
      (omega arith) (omega arith) refl refl
