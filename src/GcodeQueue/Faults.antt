-- ===== src/GcodeQueue/Faults.antt =====
-- What src/gcode_queue.cpp does where its job array and its ids wrap around, and how a failed job
-- is ended.
use bisso_e350_controller.Base.{
  ℕ, ◌<◌, ◌≡◌, ◌≢◌, refl, sym, ap, ◌∙◌, inl, inr, Bool, Bool-cases, true, false, leb, ◌==◌, some,
  List, [], ◌∷◌, arith, length, get_or, set, length-set, get_or-set_self,
}
use bisso_e350_controller.GcodeQueue.Jobs.{
  max_jobs, no_job, Status, job_completed, job_failed, job_skipped, ◌has◌, Job, Queue, zero_job,
  new_job, add, find_id, get_job,
}
use bisso_e350_controller.GcodeQueue.Running.{
  end_job, mark_completed, has_no_current, current_status, retry, end_failed, resume, skip,
}
use bisso_e350_controller.GcodeQueue.History.{IsValid, add-history}

same_id : (n : ℕ) → (n == n) ≡ true
same_id n = ground arith

has_not_failed : (s : Status) → s ≢ job_failed → (s has job_failed) ≡ false
has_not_failed job_failed h = absurd (h refl)
has_not_failed _ h = refl

module _ {P : Type 0} where
  mark_completed_current :
      (now : ℕ) (q : Queue P)
      → q.current_job_idx < length q.jobs
      → q.current_job_idx < max_jobs
      → get_or (mark_completed now q).jobs q.current_job_idx zero_job
        ≡ end_job job_completed now (get_or q.jobs q.current_job_idx zero_job)
  unfolding mark_completed
  mark_completed_current now q l b =
      let r : leb max_jobs q.current_job_idx ≡ false = ground arith in
      rw r (
        get_or-set_self q.jobs q.current_job_idx
          (end_job job_completed now (get_or q.jobs q.current_job_idx zero_job)) zero_job l)

  -- After a command that is not empty is added to a well-formed queue, a lookup of the id that was
  -- next finds the new job.
  pub get_job-add :
      (now : ℕ) (position : List P) (c : ℕ) (command : List ℕ) (q : Queue P)
      → IsValid q
      → let (q', id) = add now position (c ∷ command) q in
        get_job id q' ≡ some (new_job now position (c ∷ command) q)
  unfolding get_job find_id add
  get_job-add now position c command q v =
      let (v', e, h) = add-history now position c command q v in
      ap (find_id q.next_job_id) h ∙ rw (same_id q.next_job_id) refl

  -- When the current job is the one in the place that is written next, adding a command to a
  -- well-formed queue and then marking the current job completed marks the job just added, which
  -- never ran, as completed.
  pub mark_completed-add :
      (now later : ℕ) (position : List P) (c : ℕ) (command : List ℕ) (q : Queue P)
      → IsValid q
      → q.current_job_idx ≡ q.job_head
      → let (q', id) = add now position (c ∷ command) q in
        get_or (mark_completed later q').jobs q.job_head zero_job
        ≡ end_job job_completed later (new_job now position (c ∷ command) q)
  unfolding mark_completed add
  mark_completed-add now later position c command q v e =
      let q' : Queue P = (add now position (c ∷ command) q).0 in
      let x : Job P = new_job now position (c ∷ command) q in
      let size : length (set q.jobs q.job_head x) ≡ length q.jobs =
        length-set q.jobs q.job_head x in
      ap (λ i. get_or (mark_completed later q').jobs i zero_job) (sym e)
      ∙ mark_completed_current later q' (omega arith) (omega arith)
      ∙ ap (end_job job_completed later) (
          ap (λ i. get_or (set q.jobs q.job_head x) i zero_job) e
          ∙ get_or-set_self q.jobs q.job_head x zero_job (omega arith))

  -- The 65536th job gets the id 0, which is also what `gcodeQueueAdd` returns when it refuses a
  -- command: with 0 as the next id, a command that is not empty is stored in the place at the head
  -- of a well-formed queue and 0 is returned.
  pub add_zero :
      (now : ℕ) (position : List P) (c : ℕ) (command : List ℕ) (q : Queue P)
      → IsValid q
      → q.next_job_id ≡ 0
      → let (q', id) = add now position (c ∷ command) q in
        let (q'', refused) = add now position [] q in
        (id ≡ refused)
        × (get_or q'.jobs q.job_head zero_job ≡ new_job now position (c ∷ command) q)
        × (q''.jobs ≡ q.jobs)
  unfolding add
  add_zero now position c command q v e = (
    e,
    get_or-set_self q.jobs q.job_head (new_job now position (c ∷ command) q) zero_job (omega arith),
    refl,
  )

  -- Only a failed current job can be retried, resumed or skipped: otherwise all three return false
  -- and change nothing.
  pub recovery_refused :
      (now : ℕ) (moved : Bool) (q : Queue P)
      → current_status q ≢ job_failed
      → (retry moved q ≡ (q, false)) × (resume now q ≡ (q, false)) × (skip now q ≡ (q, false))
  unfolding retry resume skip end_failed
  recovery_refused now moved q h = elim (Bool-cases (has_no_current q)) [
    | inl e ↦ rw e (refl, refl, refl)
    | inr e ↦ rw e (rw (has_not_failed (current_status q) h) (refl, refl, refl))
  ]

  -- Resuming and skipping a failed current job lift the pause, leave no job current, and end the
  -- job as completed and as skipped, with the time.
  pub end_failed_lem :
      (now : ℕ) (q : Queue P)
      → q.current_job_idx < length q.jobs
      → q.current_job_idx < max_jobs
      → current_status q ≡ job_failed
      → let (r, resumed) = resume now q in
        let (s, skipped) = skip now q in
        let job = get_or q.jobs q.current_job_idx zero_job in
        ((resumed ≡ true)
          × (r.queue_paused ≡ false)
          × (r.current_job_idx ≡ no_job)
          × (get_or r.jobs q.current_job_idx zero_job ≡ end_job job_completed now job))
        × ((skipped ≡ true)
            × (s.queue_paused ≡ false)
            × (s.current_job_idx ≡ no_job)
            × (get_or s.jobs q.current_job_idx zero_job ≡ end_job job_skipped now job))
  unfolding resume skip end_failed
  end_failed_lem now q l b e =
      let r : leb max_jobs q.current_job_idx ≡ false = ground arith in
      let f : (current_status q has job_failed) ≡ true = ap (λ s. s has job_failed) e in
      let job : Job P = get_or q.jobs q.current_job_idx zero_job in
      rw r (
        rw f (
          (
            refl,
            refl,
            refl,
            get_or-set_self q.jobs q.current_job_idx (end_job job_completed now job) zero_job l,
          ),
          (
            refl,
            refl,
            refl,
            get_or-set_self q.jobs q.current_job_idx (end_job job_skipped now job) zero_job l,
          ),
        ))
