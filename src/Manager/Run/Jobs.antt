-- ===== src/Manager/Run/Jobs.antt =====
-- The job that an update from the card makes.
use miri_tool_v.Base.{
  ℕ, ◌<◌, ◌≡◌, ◌≢◌, refl, ap, sym, ◌∙◌, inl, inr, Bool, true, false, not, ◌&&◌, ◌||◌, Bytes, List,
  [], ◌∷◌, ◌++◌, Option, none, some, length, take, lt→ltb, if◌then◌else◌, Bool-cases, ==_iff, ◌==◌,
}
use miri_tool_v.FwTypes.{
  Exec, esp32_ota, uart_isp, can, swd, jtag, bootloader, stm32_uart, no_exec, Route,
  registry_lookup, strcasecmp_equal,
}
use miri_tool_v.Packaging.{Format, bin, ihex, coff, elf, unknown}
use miri_tool_v.Meta.{FwMeta}
use miri_tool_v.Card.{Files}
use miri_tool_v.Storage.Metadata.{meta_read}
use miri_tool_v.Worker.{
  Job, Worker, Memory, WorkerStart, start_task, start_with, worker_start, new_job, enqueue_job,
  queue_len, same_format,
}
use miri_tool_v.Worker.Jobs.{waiting}
use miri_tool_v.Manager.{NameType, split_name_type, find_sdmmc_file}
use miri_tool_v.Manager.Search.{HasExact, FoundIn, find_sdmmc_file-HasExact}
use miri_tool_v.Manager.Run.{
  Place, Chosen, choose_meta, kept_meta, rerouted, clean, enqueue_started, hand_over, run_chosen,
  run_from_sdmmc, same_exec, exec_value,
}

-- The executor of an update: that of the metadata if they say so, else that of the route.
abbrev pub chosen_exec : Option FwMeta → Route → Exec
chosen_exec none r = r.exec
chosen_exec (some meta) r = if meta.exec_override then meta.exec else r.exec

-- Likewise its format: that of the metadata if they know it.
abbrev pub chosen_format : Option FwMeta → Route → Format
chosen_format none r = r.format
chosen_format (some meta) r = if same_format meta.format unknown then r.format else meta.format

-- the executor of a value
exec_of : ℕ → Exec
exec_of n =
    if n == 0
    then esp32_ota
    else if n == 1
    then uart_isp
    else if n == 2
    then can
    else if n == 3
    then swd
    else if n == 4
    then jtag
    else if n == 5
    then bootloader
    else if n == 6
    then stm32_uart
    else no_exec

exec_of-value : (e : Exec) → exec_of (exec_value e) ≡ e
unfolding exec_of
exec_of-value esp32_ota = refl
exec_of-value uart_isp = refl
exec_of-value can = refl
exec_of-value swd = refl
exec_of-value jtag = refl
exec_of-value bootloader = refl
exec_of-value stm32_uart = refl
exec_of-value no_exec = refl

same_exec→eq : (a b : Exec) → same_exec a b ≡ true → a ≡ b
same_exec→eq a b h =
    sym (exec_of-value a)
    ∙ ap exec_of ((==_iff (exec_value a) (exec_value b)).0 h)
    ∙ exec_of-value b

ne→same_exec : (a b : Exec) → a ≢ b → same_exec a b ≡ false
ne→same_exec a b h = elim (Bool-cases (same_exec a b)) [
  | inl same ↦ absurd (h (same_exec→eq a b same))
  | inr other ↦ other
]

rerouted-exec : (m : FwMeta) (r : Route) → (rerouted r m).exec ≡ chosen_exec (some m) r
rerouted-exec m r = go m.exec_override (same_exec m.exec r.exec) (same_exec→eq m.exec r.exec)
  where
    go :
        (o s : Bool)
        → (s ≡ true → m.exec ≡ r.exec)
        → (if not o && not s then r.exec else m.exec) ≡ (if o then m.exec else r.exec)
    go true s h = refl
    go false true h = h refl
    go false false h = refl

rerouted-format : (m : FwMeta) (r : Route) → (rerouted r m).format ≡ chosen_format (some m) r
rerouted-format m r = go m.format r.format
  where
    go :
        (f g : Format)
        → (if same_format f unknown && not (same_format g unknown) then g else f)
          ≡ (if same_format f unknown then g else f)
    go bin g = refl
    go ihex g = refl
    go coff g = refl
    go elf g = refl
    go unknown bin = refl
    go unknown ihex = refl
    go unknown coff = refl
    go unknown elf = refl
    go unknown unknown = refl

module _ (files : Files) (name type : Bytes) (nt : NameType) (r : Route) where
  choose_meta-exec :
      (stored : Option FwMeta)
      → (choose_meta files name type nt (some r) stored).meta.exec ≡ chosen_exec stored r
  choose_meta-exec none = refl
  choose_meta-exec (some m) = rerouted-exec m r

  choose_meta-format :
      (stored : Option FwMeta)
      → (choose_meta files name type nt (some r) stored).meta.format ≡ chosen_format stored r
  choose_meta-format none = refl
  choose_meta-format (some m) = rerouted-format m r

abbrev running_with : Worker → WorkerStart
running_with v = record { worker = record v { running = true }; is_ok = true }

abbrev not_started : Worker → WorkerStart
not_started v = record { worker = v; is_ok = false }

start_task-fits :
    (memory : Memory) (v : Worker) → memory.task_fits ≡ true → start_task memory v ≡ running_with v
start_task-fits memory v b = go v.running memory.task_fits b
  where
    go :
        (r t : Bool)
        → t ≡ true
        → (if r || t then running_with v else not_started v) ≡ running_with v
    go true t e = refl
    go false t e = rw e refl

-- With memory the worker starts, with the jobs that wait.
start_with-waiting :
    (memory : Memory) (v : Worker) (q : Option (List Job))
    → memory.queue_fits ≡ true
    → memory.task_fits ≡ true
    → start_with memory (record v { queue = q }) q
      ≡ running_with (record v { queue = some (waiting q) })
start_with-waiting memory v none a b =
    rw a (start_task-fits memory (record v { queue = some [] }) b)
start_with-waiting memory v (some jobs) a b =
    start_task-fits memory (record v { queue = some jobs }) b

-- A queue with room takes the job.
accepted :
    (meta : FwMeta) (nt : NameType) (memory : Memory) (v : Worker) (q : Option (List Job))
    → memory.queue_fits ≡ true
    → memory.task_fits ≡ true
    → length (waiting q) < queue_len
    → let a = enqueue_started meta nt (start_with memory (record v { queue = q }) q) in
      (a.error ≡ none) × (waiting a.worker.queue ≡ waiting q ++ new_job meta nt.name nt.type ∷ [])
unfolding enqueue_job
accepted meta nt memory v q a b h =
    let fits = lt→ltb _ _ h in rw (start_with-waiting memory v q a b) (rw fits (refl, refl))

-- The conditions for an update from the card: the type has a route, the update is not one of this
-- device itself, the card has the file, and there is memory for the worker.
pub record IsOnCard (place : Place) (nt : NameType) (r : Route) (stored : Option FwMeta)
    (entries : List Bytes) : Type 0 where
  pub has_route : registry_lookup (some nt.type) ≡ some r
  pub not_ota : chosen_exec stored r ≢ esp32_ota
  pub is_ready : place.card_ready ≡ true
  pub queue_fits : place.memory.queue_fits ≡ true
  pub task_fits : place.memory.task_fits ≡ true
  pub is_dir : place.entries ≡ some entries
  pub has_file : HasExact nt.name nt.type entries

-- What is put into the queue: a job for a file of the directory that has the name and the type
-- that were asked for, but for the case of letters, with the executor and the format that the
-- stored metadata or the route choose.
pub record IsJobFor (nt : NameType) (r : Route) (stored : Option FwMeta) (entries : List Bytes)
    (job : Job) : Type 0 where
  pub entry : NameType
  pub among : FoundIn entry entries
  pub named : strcasecmp_equal entry.name nt.name ≡ true
  pub typed : strcasecmp_equal entry.type nt.type ≡ true
  pub same_name : job.file_name ≡ take 63 entry.name
  pub same_type : job.file_type ≡ take 7 entry.type
  pub executor : job.meta.exec ≡ chosen_exec stored r
  pub format : job.meta.format ≡ chosen_format stored r

run_chosen-found :
    (place : Place) (nt f : NameType) (c : Chosen) (v : Worker) (entries : List Bytes)
    → c.meta.exec ≢ esp32_ota
    → place.card_ready ≡ true
    → place.entries ≡ some entries
    → find_sdmmc_file entries nt.name nt.type ≡ some f
    → run_chosen place nt c v ≡ hand_over place.memory c.meta v (some f)
run_chosen-found place nt f c v entries n is_ready is_dir found =
    rw (ne→same_exec c.meta.exec esp32_ota n, is_ready, is_dir, found)

-- For an update that is not one of this device itself: with a route for the type, the file in the
-- directory of the card, memory for the worker and room in the queue, starting an update from the
-- card puts a job for this file behind those that wait and returns no error. The name and the type are what is left of
-- those that are given when they are split and trimmed.
pub run_from_sdmmc-IsJobFor :
    (place : Place) (name type : Bytes) (w : Worker) (r : Route) (entries : List Bytes)
    → let nt = clean (split_name_type name (some type) 64 8) in
      let stored = meta_read place.cjson nt.name nt.type w.files in
      IsOnCard place nt r stored entries
      → length (waiting w.queue) < queue_len
      → (job : Job) × IsJobFor nt r stored entries job
        × ((run_from_sdmmc place name type w).error ≡ none)
        × (waiting (run_from_sdmmc place name type w).worker.queue ≡ waiting w.queue ++ job ∷ [])
unfolding run_from_sdmmc worker_start
run_from_sdmmc-IsJobFor place name type w r entries c room =
    let nt = clean (split_name_type name (some type) 64 8) in
    let stored = meta_read place.cjson nt.name nt.type w.files in
    let chosen = choose_meta w.files name type nt (some r) stored in
    let v = record w { files = kept_meta place chosen w.files } in
    let exec = choose_meta-exec w.files name type nt r stored in
    let (f, found, among, named, typed) =
      find_sdmmc_file-HasExact entries nt.name nt.type c.has_file in
    let job = new_job chosen.meta f.name f.type in
    let goes =
      run_chosen-found place nt f chosen v entries (λ e. c.not_ota (sym exec ∙ e)) c.is_ready
        c.is_dir found in
    let done = accepted chosen.meta f place.memory v w.queue c.queue_fits c.task_fits room in
    (
      job,
      record {
        entry = f;
        among = among;
        named = named;
        typed = typed;
        same_name = refl;
        same_type = refl;
        executor = exec;
        format = choose_meta-format w.files name type nt r stored;
      },
      rw (c.has_route, goes) done.0,
      rw (c.has_route, goes) done.1,
    )
