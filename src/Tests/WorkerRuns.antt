-- ===== src/Tests/WorkerRuns.antt =====
-- The updates on concrete files and jobs.
use miri_tool_v.Base.{
  ◌≡◌, ◌≢◌, refl, arith, true, Bytes, List, [], ◌∷◌, ◌++◌, none, some, inl, esp_fail, done,
}
use miri_tool_v.FwState.{FwStep, text}
use miri_tool_v.Packaging.{ihex}
use miri_tool_v.FwTypes.{swd, esp32_ota, route, registry_lookup, strncmp_equal}
use miri_tool_v.Meta.{FwMeta, zeroed, meta_init_defaults}
use miri_tool_v.Meta.Defaults.{Follows, meta_init_defaults-registry_lookup}
use miri_tool_v.Card.{Files, content_of, build_meta_path}
use miri_tool_v.Storage.Metadata.{Cjson, object_of, meta_write, meta_read}
use miri_tool_v.Storage.Metadata.Kept.{remembered, meta_read-meta_write}
use miri_tool_v.Manager.{
  split_name_type, trim_whitespace, cut_spaces, skip_spaces, last_dot, filename_ext,
  filename_without_extension,
}
use miri_tool_v.Manager.Run.{Place, run_from_sdmmc, clean}
use miri_tool_v.Manager.Run.Started.{OneJobOrError, run_from_sdmmc-OneJobOrError}
use miri_tool_v.Manager.Run.Jobs.{IsJobFor, run_from_sdmmc-IsJobFor}
use miri_tool_v.Worker.{Job, Station, prepare_exec_file, Worker, Site, task_round}
use miri_tool_v.Worker.Prepare.{path_of, files_of, prepare_exec_file_overwrites}
use miri_tool_v.Worker.Jobs.{
  Event, submit, round, Log, InOrder, happen_all, waiting, happen_all-InOrder,
}
use miri_tool_v.Worker.Rounds.{AfterRound, task_round-AfterRound}

abbrev station : Station
station = record { can_write = λ path. true; convert = λ b. some (1 ∷ b); no_convert = esp_fail }

abbrev a15_job : Job
a15_job = record {
  meta = record zeroed { format = ihex; exec = swd };
  file_name = text "app";
  file_type = text "A15";
}

abbrev card : Files
card = (text "/sdcard/app.A15", text ":00000001FF") ∷ []

abbrev worker : Worker
worker = record {
  queue = some (a15_job ∷ []);
  running = true;
  files = card;
  started = [];
  fw = record { step = FwStep.prepare; progress = 0; message = [] };
}

abbrev site : Site
site = record {
  station = station;
  card_ready = true;
  opens = λ name type. true;
  ota_accepts = λ name type. true;
  isp_accepts = λ meta name type. true;
  stm32_accepts = λ meta name type. true;
  processes = λ job. true;
}

task_round-AfterRound_example :
    AfterRound site (prepare_exec_file station a15_job card) worker (task_round site worker)
task_round-AfterRound_example = task_round-AfterRound site a15_job [] worker refl

abbrev events : List Event
events =
    submit zeroed (text "a") (text "S00")
    ∷ submit zeroed (text "b") (text "S00")
    ∷ round
    ∷ submit zeroed (text "c") (text "S00")
    ∷ []

abbrev log : Log
log = record { worker = worker; accepted = a15_job ∷ []; taken = [] }

happen_all-InOrder_example : InOrder site (happen_all site events log)
happen_all-InOrder_example =
    happen_all-InOrder site events log (record { order = refl; room = omega arith })

meta_init_defaults-registry_lookup_example :
    Follows
      (route (text "A15") ihex swd)
      (meta_init_defaults true (record zeroed { file_type = text "A15" }))
unfolding registry_lookup strncmp_equal
meta_init_defaults-registry_lookup_example =
    meta_init_defaults-registry_lookup true (record zeroed { file_type = text "A15" })
      (route (text "A15") ihex swd) refl

abbrev stored_meta : FwMeta
stored_meta = record zeroed {
  file_name = text "app";
  file_type = text "A15";
  format = ihex;
  exec = swd;
  uart_baud = 57600;
}

-- A JSON library that knows one object.
abbrev one_object : Cjson
one_object = record { print = λ o. text "{}"; parse = λ b. some (object_of stored_meta) }

meta_read-meta_write_example :
    (after : Files) × (meta_write one_object true true stored_meta [] ≡ done after)
    × (meta_read one_object (text "app") (text "A15") after ≡ some (remembered stored_meta))
meta_read-meta_write_example =
    meta_read-meta_write stored_meta one_object []
      (record {
        name_fits = omega arith;
        type_fits = omega arith;
        board_fits = omega arith;
        id_fits = omega arith;
        json_fits = omega arith;
      })
      refl (omega arith) (omega arith)

abbrev place : Place
place = record {
  cjson = one_object;
  card_ready = true;
  meta_opens = true;
  memory = record { queue_fits = true; task_fits = true };
  entries = some (text "app.A15" ∷ []);
}

run_from_sdmmc-OneJobOrError_example :
    OneJobOrError worker (run_from_sdmmc place (text "app") (text "A15") worker)
run_from_sdmmc-OneJobOrError_example =
    run_from_sdmmc-OneJobOrError place (text "app") (text "A15") worker

swd-ne : swd ≢ esp32_ota
swd-ne e = cc

run_from_sdmmc-IsJobFor_example :
    let nt = clean (split_name_type (text "app") (some (text "A15")) 64 8) in
    let stored = meta_read one_object nt.name nt.type card in
    (job : Job) × IsJobFor nt (route (text "A15") ihex swd) stored (text "app.A15" ∷ []) job
    × ((run_from_sdmmc place (text "app") (text "A15") worker).error ≡ none)
    × (waiting (run_from_sdmmc place (text "app") (text "A15") worker).worker.queue
        ≡ a15_job ∷ job ∷ [])
unfolding registry_lookup strncmp_equal meta_read content_of split_name_type trim_whitespace
    cut_spaces skip_spaces filename_ext filename_without_extension last_dot build_meta_path
run_from_sdmmc-IsJobFor_example =
    run_from_sdmmc-IsJobFor place (text "app") (text "A15") worker (route (text "A15") ihex swd)
      (text "app.A15" ∷ [])
      (record {
        has_route = refl;
        not_ota = swd-ne;
        is_ready = refl;
        queue_fits = refl;
        task_fits = refl;
        is_dir = refl;
        has_file = inl (refl, refl, refl);
      })
      (omega arith)

-- A name of 63 characters.
abbrev full_name : Bytes
full_name =
    text "123456789012345678901234567890" ++ (text "123456789012345678901234567890" ++ text "123")

abbrev full_job : Job
full_job = record a15_job { file_name = full_name }

abbrev full_card : Files
full_card = (path_of full_name (text "A15"), text ":00000001FF") ∷ []

prepare_exec_file_overwrites_example :
    content_of
      (path_of full_name (text "A15"))
      (files_of (prepare_exec_file station full_job full_card))
    ≡ some (1 ∷ [])
unfolding content_of
prepare_exec_file_overwrites_example =
    prepare_exec_file_overwrites station full_job full_card (text ":00000001FF")
      (record { from_ihex = refl; to_bin = refl; type_fits = omega arith }) refl (λ path. refl) refl
