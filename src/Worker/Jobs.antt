-- ===== src/Worker/Jobs.antt =====
-- The queue of updates: what is accepted is taken in order, and what is taken is started or reported.
use miri_tool_v.Base.{
  ◌≤◌, ◌≡◌, refl, ap, sym, subst, ◌∙◌, inl, inr, Bytes, List, [], ◌∷◌, ◌++◌, append-nil,
  append_assoc, Option, none, some, length, length-append, ltb, EspErr, Bool-cases, arith,
}
use miri_tool_v.FwTypes.{Exec, esp32_ota, uart_isp, can, swd, jtag, bootloader, stm32_uart, no_exec}
use miri_tool_v.Meta.{FwMeta}
use miri_tool_v.Worker.{
  Job, probe, can_bus, start_update, process_package, Prepared, ready, given_up, Worker, Site,
  with_reader, run_prepared, new_job, enqueue_job, execute, task_round, prepare_exec_file,
  queue_len,
}

-- What happens to the worker: a job is put into its queue, or its task goes round.
pub data Event : Type 0 where
  submit : FwMeta → Bytes → Bytes → Event
  round : Event

-- The worker with the jobs that were accepted and those that were taken off the queue.
pub record Log : Type 0 where
  pub worker : Worker
  pub accepted : List Job
  pub taken : List Job

abbrev pub waiting : Option (List Job) → List Job
waiting none = []
waiting (some jobs) = jobs

abbrev pub first_of : List Job → List Job
first_of [] = []
first_of (job ∷ jobs) = job ∷ []

abbrev job_if_ok : Option EspErr → Job → List Job
job_if_ok none job = job ∷ []
job_if_ok (some e) job = []

module _ (site : Site) where
  abbrev pub happen : Event → Log → Log
  happen (submit meta name type) l =
      let answer = enqueue_job meta name type l.worker in
      record l {
        worker = answer.worker;
        accepted = l.accepted ++ job_if_ok answer.error (new_job meta name type);
      }
  happen round l = record l {
    worker = task_round site l.worker;
    taken = l.taken ++ first_of (waiting l.worker.queue);
  }

  abbrev pub happen_all : List Event → Log → Log
  happen_all [] l = l
  happen_all (e ∷ es) l = happen_all es (happen e l)

  -- The queue holds what was accepted and not yet taken, and no more than it has room for.
  pub record InOrder (l : Log) : Type 0 where
    pub order : l.taken ++ waiting l.worker.queue ≡ l.accepted
    pub room : length (waiting l.worker.queue) ≤ queue_len

  module _ (job : Job) (w : Worker) where
    with_reader-queue :
        (u : Job → Worker → Worker)
        → (u job w).queue ≡ w.queue
        → (with_reader site u job w).queue ≡ w.queue
    with_reader-queue u e = ground arith

    process_package-queue : (process_package site job w).queue ≡ w.queue
    process_package-queue = ground arith

    execute-queue : (exec : Exec) → (execute site exec job w).queue ≡ w.queue
    unfolding execute
    execute-queue esp32_ota = ground arith
    execute-queue uart_isp = ground arith
    execute-queue can = with_reader-queue (λ j. start_update (can_bus j)) refl
    execute-queue swd = with_reader-queue (λ j. start_update (probe j)) refl
    execute-queue jtag = with_reader-queue (λ j. start_update (probe j)) refl
    execute-queue bootloader = with_reader-queue (process_package site) process_package-queue
    execute-queue stm32_uart = ground arith
    execute-queue no_exec = refl

  run_prepared-queue : (w : Worker) (p : Prepared) → (run_prepared site w p).queue ≡ w.queue
  run_prepared-queue w (ready job files) =
      execute-queue job (record w { files = files }) job.meta.exec
  run_prepared-queue w (given_up e files) = refl

  -- A round takes the first job off the queue, if there is one.
  round-InOrder :
      (l : Log) (q : Option (List Job)) → l.worker.queue ≡ q → InOrder l → InOrder (happen round l)
  unfolding task_round
  round-InOrder l none e k =
      let o = ap (λ q. l.taken ++ waiting q) (sym e) ∙ k.order in
      rw e (record { order = rw append-nil o; room = omega arith })
  round-InOrder l (some []) e k =
      let o = ap (λ q. l.taken ++ waiting q) (sym e) ∙ k.order in
      rw e (record { order = rw append-nil o; room = omega arith })
  round-InOrder l (some (job ∷ jobs)) e k =
      let o = ap (λ q. l.taken ++ waiting q) (sym e) ∙ k.order in
      let r = ap (λ q. length (waiting q)) e in
      let q =
        run_prepared-queue (record l.worker { queue = some jobs })
          (prepare_exec_file site.station job l.worker.files) in
      rw e (record {
        order =
            ap (λ q. (l.taken ++ job ∷ []) ++ waiting q) q
            ∙ append_assoc l.taken (job ∷ []) jobs
            ∙ o;
        room = rw q (omega (arith, r, k.room));
      })

  -- A job that is submitted stands last in the queue, or is refused.
  submit-InOrder :
      (meta : FwMeta) (name type : Bytes) (l : Log) (q : Option (List Job))
      → l.worker.queue ≡ q
      → InOrder l
      → InOrder (happen (submit meta name type) l)
  unfolding enqueue_job
  submit-InOrder meta name type l none e k =
      let o = ap (λ q. l.taken ++ waiting q) (sym e) ∙ k.order in
      rw e (record { order = o ∙ sym (append-nil l.accepted); room = omega arith })
  submit-InOrder meta name type l (some jobs) e k =
      let job = new_job meta name type in
      let o : l.taken ++ jobs ≡ l.accepted = ap (λ q. l.taken ++ waiting q) (sym e) ∙ k.order in
      let r : length jobs ≤ queue_len = subst (λ q. length (waiting q) ≤ queue_len) e k.room in
      elim (Bool-cases (ltb (length jobs) queue_len)) [
        | inl fits ↦
            let n = length-append jobs (job ∷ []) in
            rw (e, fits)
              (record {
                order = sym (append_assoc l.taken jobs (job ∷ [])) ∙ ap (λ xs. xs ++ job ∷ []) o;
                room = ground (arith, n);
              })
        | inr full ↦ rw (e, full) (record { order = o ∙ sym (append-nil l.accepted); room = r })
      ]

  happen-InOrder : (e : Event) (l : Log) → InOrder l → InOrder (happen e l)
  happen-InOrder (submit meta name type) l k = submit-InOrder meta name type l l.worker.queue refl k
  happen-InOrder round l k = round-InOrder l l.worker.queue refl k

  -- Whatever is submitted and however often the task goes round, the jobs are taken in the order in
  -- which they were accepted, none is lost or taken twice, and no more than two wait.
  pub happen_all-InOrder : (es : List Event) (l : Log) → InOrder l → InOrder (happen_all es l)
  happen_all-InOrder [] l k = k
  happen_all-InOrder (e ∷ es) l k = happen_all-InOrder es (happen e l) (happen-InOrder e l k)
