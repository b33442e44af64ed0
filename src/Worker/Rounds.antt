-- ===== src/Worker/Rounds.antt =====
-- What one round of the task comes to.
use miri_tool_v.Base.{
  ◌≡◌, refl, sym, subst, ◌⊎◌, inl, inr, Bool, true, false, not, Bytes, List, [], ◌∷◌, ◌++◌, Option,
  none, some, if◌then◌else◌, Bool-cases,
}
use miri_tool_v.FwState.{FwStep, set_step, text}
use miri_tool_v.FwTypes.{Exec, esp32_ota, uart_isp, can, swd, jtag, bootloader, stm32_uart, no_exec}
use miri_tool_v.Worker.{
  Job, Started, ota, isp, stm32, probe, can_bus, packaged, Prepared, ready, given_up, Worker, Site,
  with_reader, process_package, run_prepared, execute, task_round, take_job, start_update,
  report_error, prepare_exec_file,
}

-- The update that an executor names.
abbrev pub update_of : Exec → Job → Option Started
update_of esp32_ota job = some (ota job)
update_of uart_isp job = some (isp job)
update_of can job = some (can_bus job)
update_of swd job = some (probe job)
update_of jtag job = some (probe job)
update_of bootloader job = some (packaged job)
update_of stm32_uart job = some (stm32 job)
update_of no_exec job = none

-- Whether an update that is started ends without an error that the worker reports itself: one whose
-- file is processed by `fw_packaging_process` does if that returns no error, the others report
-- their errors themselves.
abbrev pub finishes : Site → Exec → Job → Bool
finishes site bootloader job = site.processes job
finishes site exec job = true

-- What a round may come to, from the updates and the state before it.
abbrev pub Handled : Site → Exec → Job → Worker → Worker → Type 0
Handled site exec job w v =
    ((u : Started) × (update_of exec job ≡ some u)
      × (v.started ≡ w.started ++ u ∷ [])
      × (((finishes site exec job ≡ true) × (v.fw ≡ w.fw))
          ⊎ ((finishes site exec job ≡ false)
              × (v.fw ≡ set_step FwStep.error (text "process fail") w.fw))))
    ⊎ ((v.started ≡ w.started) × (v.fw.step ≡ FwStep.error))

module _ (site : Site) (job : Job) (w : Worker) where
  started_or :
      (b : Bool) (message : Bytes) (exec : Exec) (u : Started)
      → update_of exec job ≡ some u
      → finishes site exec job ≡ true
      → Handled site exec job w (if b then start_update u w else report_error message w)
  unfolding set_step
  started_or true message exec u e f = inl (u, e, refl, inl (f, refl))
  started_or false message exec u e f = inr (refl, refl)

  with_reader-Handled :
      (exec : Exec) (u : Job → Worker → Worker)
      → Handled site exec job w (u job w)
      → Handled site exec job w (with_reader site u job w)
  unfolding set_step
  with_reader-Handled exec u h = go site.card_ready (site.opens job.file_name job.file_type)
    where
      go :
          (b c : Bool)
          → Handled site exec job w (
              if not b
              then report_error (text "SDMMC not ready") w
              else if not c
              then report_error (text "file open fail") w
              else u job w)
      go false c = inr (refl, refl)
      go true false = inr (refl, refl)
      go true true = h

  process_package-Handled : Handled site bootloader job w (process_package site job w)
  process_package-Handled = elim (Bool-cases (site.processes job)) [
    | inl well ↦ rw well (inl (packaged job, refl, refl, inl (refl, refl)))
    | inr badly ↦ rw badly (inl (packaged job, refl, refl, inr (refl, refl)))
  ]

  execute-Handled : (exec : Exec) → Handled site exec job w (execute site exec job w)
  unfolding execute set_step
  execute-Handled esp32_ota = started_or _ (text "OTA file invalid") esp32_ota (ota job) refl refl
  execute-Handled uart_isp =
      started_or _ (text "UART ISP file invalid") uart_isp (isp job) refl refl
  execute-Handled can =
      with_reader-Handled can (λ j. start_update (can_bus j))
        (inl (can_bus job, refl, refl, inl (refl, refl)))
  execute-Handled swd =
      with_reader-Handled swd (λ j. start_update (probe j))
        (inl (probe job, refl, refl, inl (refl, refl)))
  execute-Handled jtag =
      with_reader-Handled jtag (λ j. start_update (probe j))
        (inl (probe job, refl, refl, inl (refl, refl)))
  execute-Handled bootloader =
      with_reader-Handled bootloader (process_package site) process_package-Handled
  execute-Handled stm32_uart =
      started_or _ (text "STM32 file invalid") stm32_uart (stm32 job) refl refl
  execute-Handled no_exec = inr (refl, refl)

-- What a round comes to, from how its job is prepared.
abbrev pub AfterRound : Site → Prepared → Worker → Worker → Type 0
AfterRound site (ready job files) w v = Handled site job.meta.exec job w v
AfterRound site (given_up e files) w v = (v.started ≡ w.started) × (v.fw.step ≡ FwStep.error)

run_prepared-AfterRound :
    (site : Site) (w : Worker) (q : Option (List Job)) (p : Prepared)
    → AfterRound site p w (run_prepared site (record w { queue = q }) p)
unfolding set_step
run_prepared-AfterRound site w q (ready job files) =
    execute-Handled site job (record w { queue = q; files = files }) job.meta.exec
run_prepared-AfterRound site w q (given_up e files) = (refl, refl)

-- A round with a job in the queue starts exactly the update that the executor of the prepared job
-- names, and reports "process fail" if the packaged file of a bootloader is processed with an error,
-- and nothing else; or it starts nothing and reports an error. A job that cannot be prepared is
-- reported.
pub task_round-AfterRound :
    (site : Site) (job : Job) (jobs : List Job) (w : Worker)
    → w.queue ≡ some (job ∷ jobs)
    → AfterRound site (prepare_exec_file site.station job w.files) w (task_round site w)
unfolding task_round
task_round-AfterRound site job jobs w q =
    subst
      (λ (o : Option (List Job)).
        AfterRound site (prepare_exec_file site.station job w.files) w (take_job site w o))
      (sym q)
      (run_prepared-AfterRound site w (some jobs) (prepare_exec_file site.station job w.files))
