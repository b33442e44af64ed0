-- ===== src/Worker.antt =====
-- main/core/firmware_upload/fw_update_worker.c: the queue of updates and the task that takes them
-- off it, one job at a time.
pub mod Prepare
pub mod Converted
pub mod Jobs
pub mod Rounds
use miri_tool_v.Base.{
  ℕ, zero, suc, ◌+◌, Bool, true, false, not, ◌&&◌, ◌||◌, Bytes, List, [], ◌∷◌, ◌++◌, Option, none,
  some, length, take, ltb, leb, ◌==◌, if◌then◌else◌, EspErr, invalid_arg, esp_fail, not_supported,
}
use miri_tool_v.FwState.{FwState, FwStep, set_step, text}
use miri_tool_v.FwTypes.{Exec, esp32_ota, uart_isp, can, swd, jtag, bootloader, stm32_uart, no_exec}
use miri_tool_v.Packaging.{Format, bin, ihex, coff, elf, unknown}
use miri_tool_v.Meta.{FwMeta}
use miri_tool_v.Card.{Files, content_of, store, remove, build_path}

-- fw_update_job_t
pub record Job : Type 0 where
  pub meta : FwMeta
  pub file_name : Bytes
  pub file_type : Bytes

-- What the card and `ihex2bin_file_to_file` do: a path can be opened for writing; a text that is
-- converted becomes a content or is refused.
pub record Station : Type 0 where
  pub can_write : Bytes → Bool
  pub convert : Bytes → Option Bytes
  pub no_convert : EspErr

-- A job that is ready, or the error that it is given up with, and the files on the card.
pub data Prepared : Type 0 where
  ready : Job → Files → Prepared
  given_up : EspErr → Files → Prepared

abbrev pub same_format : Format → Format → Bool
same_format bin bin = true
same_format ihex ihex = true
same_format coff coff = true
same_format elf elf = true
same_format unknown unknown = true
same_format _ _ = false

-- `snprintf` of the name with "_bin" into 64 bytes.
abbrev pub exec_name : Job → Bytes
exec_name job = take 63 (job.file_name ++ text "_bin")

-- The job for the converted file.
abbrev pub converted_job : Job → Job
converted_job job = record job {
  meta = record job.meta { format = job.meta.exec_format };
  file_name = exec_name job;
  file_type = take 7 job.file_type;
}

module _ (station : Station) where
  -- The conversion of what the source holds after both files are opened.
  abbrev pub finish_conversion : Job → Bytes → Files → Option Bytes → Prepared
  finish_conversion job out_path files (some content) =
      ready (converted_job job) (store out_path content files)
  finish_conversion job out_path files none = given_up station.no_convert (remove out_path files)

  abbrev pub convert_opened : Job → Bytes → Files → Option Bytes → Prepared
  convert_opened job out_path files none = given_up esp_fail files
  convert_opened job out_path files (some source) =
      finish_conversion job out_path files (station.convert source)

  -- Both files are opened, the second one for writing, which empties it: what is read is what the
  -- first one holds then.
  abbrev pub open_both : Job → Bytes → Bytes → Files → Option Bytes → Prepared
  open_both job in_path out_path files none =
      given_up esp_fail (if station.can_write out_path then store out_path [] files else files)
  open_both job in_path out_path files (some source) =
      if station.can_write out_path
      then convert_opened job out_path (store out_path [] files)
          (content_of in_path (store out_path [] files))
      else given_up esp_fail files

  abbrev pub convert_between : Job → Files → Option Bytes → Option Bytes → Prepared
  convert_between job files (some in_path) (some out_path) =
      open_both job in_path out_path files (content_of in_path files)
  convert_between job files _ _ = given_up invalid_arg files

  unfoldable pub prepare_exec_file : Job → Files → Prepared
  prepare_exec_file job files =
      if same_format job.meta.format job.meta.exec_format
      then ready job files
      else if same_format job.meta.format ihex && same_format job.meta.exec_format bin
      then convert_between job files (build_path job.file_name job.file_type)
          (build_path (exec_name job) (take 7 job.file_type))
      else ready job files

-- What the task does with a prepared job: the updates that it starts, of which each is given the job.
pub data Started : Type 0 where
  ota isp stm32 probe can_bus packaged : Job → Started

-- The state of the module and of the update: `none` is a queue that is not created.
pub record Worker : Type 0 where
  pub queue : Option (List Job)
  pub running : Bool
  pub files : Files
  pub started : List Started
  pub fw : FwState

abbrev pub report_error : Bytes → Worker → Worker
report_error message w = record w { fw = set_step FwStep.error message w.fw }

abbrev pub start_update : Started → Worker → Worker
start_update update w = record w { started = w.started ++ update ∷ [] }

-- FW_UPDATE_QUEUE_LEN
abbrev pub queue_len : ℕ
queue_len = 2

-- Whether there is memory for the queue and for the task.
pub record Memory : Type 0 where
  pub queue_fits : Bool
  pub task_fits : Bool

-- A worker, and whether it has started.
pub record WorkerStart : Type 0 where
  pub worker : Worker
  pub is_ok : Bool

abbrev pub start_task : Memory → Worker → WorkerStart
start_task memory w =
    if w.running || memory.task_fits
    then record { worker = record w { running = true }; is_ok = true }
    else record { worker = w; is_ok = false }

-- The queue, then the task, if they are not there.
abbrev pub start_with : Memory → Worker → Option (List Job) → WorkerStart
start_with memory w (some jobs) = start_task memory w
start_with memory w none =
    if memory.queue_fits
    then start_task memory (record w { queue = some [] })
    else record { worker = w; is_ok = false }

unfoldable pub worker_start : Memory → Worker → WorkerStart
worker_start memory w = start_with memory w w.queue

-- A worker and the error that is returned.
pub record Answer : Type 0 where
  pub worker : Worker
  pub error : Option EspErr

abbrev pub new_job : FwMeta → Bytes → Bytes → Job
new_job meta name type = record { meta = meta; file_name = take 63 name; file_type = take 7 type }

abbrev pub enqueue_to : Job → Worker → Option (List Job) → Answer
enqueue_to job w none = record {
  worker = report_error (text "invalid job") w;
  error = some invalid_arg;
}
enqueue_to job w (some jobs) =
    if ltb (length jobs) queue_len
    then record { worker = record w { queue = some (jobs ++ job ∷ []) }; error = none }
    else record { worker = report_error (text "update queue full") w; error = some esp_fail }

unfoldable pub enqueue_job : FwMeta → Bytes → Bytes → Worker → Answer
enqueue_job meta name type w = enqueue_to (new_job meta name type) w w.queue

-- What the updates find: the card, a reader of a stored file, the files that the other updates
-- accept, and the jobs of which `fw_packaging_process` returns no error.
pub record Site : Type 0 where
  pub station : Station
  pub card_ready : Bool
  pub opens : Bytes → Bytes → Bool
  pub ota_accepts : Bytes → Bytes → Bool
  pub isp_accepts : FwMeta → Bytes → Bytes → Bool
  pub stm32_accepts : FwMeta → Bytes → Bytes → Bool
  pub processes : Job → Bool

module _ (site : Site) where
  -- The updates that read the file from the card: what is done with the reader.
  abbrev pub with_reader : (Job → Worker → Worker) → Job → Worker → Worker
  with_reader update job w =
      if not site.card_ready
      then report_error (text "SDMMC not ready") w
      else if not (site.opens job.file_name job.file_type)
      then report_error (text "file open fail") w
      else update job w

  abbrev pub exec_can : Job → Worker → Worker
  exec_can job w = with_reader (λ j. start_update (can_bus j)) job w

  abbrev pub exec_swd : Job → Worker → Worker
  exec_swd job w = with_reader (λ j. start_update (probe j)) job w

  -- A process that fails is reported.
  abbrev pub process_package : Job → Worker → Worker
  process_package job w =
      if site.processes job
      then start_update (packaged job) w
      else report_error (text "process fail") (start_update (packaged job) w)

  abbrev pub exec_packaged : Job → Worker → Worker
  exec_packaged job w = with_reader process_package job w

  -- The `switch` of the task.
  unfoldable pub execute : Exec → Job → Worker → Worker
  execute esp32_ota job w =
      if site.ota_accepts job.file_name job.file_type
      then start_update (ota job) w
      else report_error (text "OTA file invalid") w
  execute can job w = exec_can job w
  execute uart_isp job w =
      if site.isp_accepts job.meta job.file_name job.file_type
      then start_update (isp job) w
      else report_error (text "UART ISP file invalid") w
  execute stm32_uart job w =
      if site.stm32_accepts job.meta job.file_name job.file_type
      then start_update (stm32 job) w
      else report_error (text "STM32 file invalid") w
  execute swd job w = exec_swd job w
  execute jtag job w = exec_swd job w
  execute bootloader job w = exec_packaged job w
  execute no_exec job w = report_error (text "unknown exec") w

  abbrev pub run_prepared : Worker → Prepared → Worker
  run_prepared w (ready job files) = execute job.meta.exec job (record w { files = files })
  run_prepared w (given_up e files) =
      report_error (text "prepare exec file fail") (record w { files = files })

  abbrev pub take_job : Worker → Option (List Job) → Worker
  take_job w none = w
  take_job w (some []) = w
  take_job w (some (job ∷ jobs)) =
      run_prepared (record w { queue = some jobs }) (prepare_exec_file site.station job w.files)

  -- One round of the task; with nothing in the queue it waits.
  unfoldable pub task_round : Worker → Worker
  task_round w = take_job w w.queue
