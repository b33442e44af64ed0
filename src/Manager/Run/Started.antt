-- ===== src/Manager/Run/Started.antt =====
-- The update that is started from a file on the card.
use miri_tool_v.Base.{
  ◌≡◌, refl, ap, sym, ◌⊎◌, inl, inr, Bool, true, false, not, ◌||◌, Bytes, List, [], ◌∷◌, ◌++◌,
  Option, none, some, length, ltb, if◌then◌else◌, EspErr, esp_fail, Bool-cases,
}
use miri_tool_v.FwState.{FwStep, set_step, text}
use miri_tool_v.FwTypes.{esp32_ota, registry_lookup}
use miri_tool_v.Meta.{FwMeta}
use miri_tool_v.Storage.Metadata.{meta_read}
use miri_tool_v.Worker.{
  Job, Worker, Memory, start_task, Answer, worker_start, new_job, enqueue_to, enqueue_job,
  report_error, queue_len,
}
use miri_tool_v.Worker.Jobs.{waiting}
use miri_tool_v.Manager.{NameType, split_name_type}
use miri_tool_v.Manager.Run.{
  Place, Chosen, choose_meta, kept_meta, clean, found_in, enqueue_started, hand_over, run_chosen,
  run_from_sdmmc, same_exec,
}

-- A worker with one more job waiting and no error, or one with the same jobs and an error reported.
abbrev pub OneJobOrError : Worker → Answer → Type 0
OneJobOrError w a =
    ((a.error ≡ none) × ((job : Job) × (waiting a.worker.queue ≡ waiting w.queue ++ job ∷ [])))
    ⊎ (((e : EspErr) × (a.error ≡ some e))
        × (waiting a.worker.queue ≡ waiting w.queue)
        × (a.worker.fw.step ≡ FwStep.error))

-- The queue with a job more, or the queue as it is when it is full.
enqueue-OneJobOrError :
    (job : Job) (w v : Worker) (jobs : List Job)
    → waiting w.queue ≡ jobs
    → OneJobOrError w (enqueue_to job (record v { queue = some jobs }) (some jobs))
unfolding set_step
enqueue-OneJobOrError job w v jobs e = elim (Bool-cases (ltb (length jobs) queue_len)) [
  | inl fits ↦ rw fits (inl (refl, (job, ap (λ js. js ++ job ∷ []) (sym e))))
  | inr full ↦ rw full (inr ((esp_fail, refl), sym e, refl))
]

-- A worker with its queue, once its task is there or cannot be made.
start_task-OneJobOrError :
    (memory : Memory) (meta : FwMeta) (nt : NameType) (w v : Worker) (jobs : List Job)
    → waiting w.queue ≡ jobs
    → OneJobOrError w (enqueue_started meta nt (start_task memory (record v { queue = some jobs })))
unfolding set_step enqueue_job
start_task-OneJobOrError memory meta nt w v jobs e = go (v.running || memory.task_fits)
  where
    go :
        (b : Bool)
        → OneJobOrError w (
            enqueue_started meta nt (
              if b
              then record { worker = record v { queue = some jobs; running = true }; is_ok = true }
              else record { worker = record v { queue = some jobs }; is_ok = false }))
    go true =
        enqueue-OneJobOrError (new_job meta nt.name nt.type) w (record v { running = true }) jobs e
    go false = inr ((esp_fail, refl), sym e, refl)

-- The worker that an update is handed to differs from `w` in its files.
hand_over-OneJobOrError :
    (memory : Memory) (meta : FwMeta) (w v : Worker) (q : Option (List Job)) (nt : Option NameType)
    → w.queue ≡ q
    → OneJobOrError w (hand_over memory meta (record v { queue = q }) nt)
unfolding set_step worker_start
hand_over-OneJobOrError memory meta w v q none e = inr ((esp_fail, refl), ap waiting (sym e), refl)
hand_over-OneJobOrError memory meta w v none (some nt) e = go memory.queue_fits
  where
    go :
        (b : Bool)
        → OneJobOrError w (
            enqueue_started meta nt (
              if b
              then start_task memory (record v { queue = some [] })
              else record { worker = record v { queue = none }; is_ok = false }))
    go true = start_task-OneJobOrError memory meta nt w v [] (ap waiting e)
    go false = inr ((esp_fail, refl), ap waiting (sym e), refl)
hand_over-OneJobOrError memory meta w v (some jobs) (some nt) e =
    start_task-OneJobOrError memory meta nt w v jobs (ap waiting e)

run_chosen-OneJobOrError :
    (place : Place) (nt : NameType) (c : Chosen) (w v : Worker)
    → OneJobOrError w (run_chosen place nt c (record v { queue = w.queue }))
unfolding set_step
run_chosen-OneJobOrError place nt c w v = go (same_exec c.meta.exec esp32_ota) place.card_ready
  where
    u : Worker
    u = record v { queue = w.queue }

    go :
        (a b : Bool)
        → OneJobOrError w (
            if a
            then hand_over place.memory c.meta u (some nt)
            else if not b
            then record { worker = report_error (text "SDMMC not ready") u; error = some esp_fail }
            else hand_over place.memory c.meta u (found_in place.entries nt))
    go true b = hand_over-OneJobOrError place.memory c.meta w v w.queue (some nt) refl
    go false false = inr ((esp_fail, refl), refl, refl)
    go false true =
        hand_over-OneJobOrError place.memory c.meta w v w.queue (found_in place.entries nt) refl

-- Starting an update from the card either puts exactly one job behind those that wait and returns
-- no error, or leaves the jobs that wait as they are, returns an error and reports one.
pub run_from_sdmmc-OneJobOrError :
    (place : Place) (name type : Bytes) (w : Worker)
    → OneJobOrError w (run_from_sdmmc place name type w)
unfolding run_from_sdmmc
run_from_sdmmc-OneJobOrError place name type w =
    let nt = clean (split_name_type name (some type) 64 8) in
    let c =
      choose_meta w.files name type nt (registry_lookup (some nt.type))
        (meta_read place.cjson nt.name nt.type w.files) in
    run_chosen-OneJobOrError place nt c w (record w { files = kept_meta place c w.files })
