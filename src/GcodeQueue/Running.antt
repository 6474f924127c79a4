-- ===== src/GcodeQueue/Running.antt =====
-- The functions of src/gcode_queue.cpp that run the jobs, end and retry them, and count them.
use bisso_e350_controller.Base.{
  ℕ, zero, suc, ◌+◌, ◌-◌, Bool, true, false, not, ◌&&◌, if◌then◌else◌, leb, Option, none, some,
  List, [], ◌∷◌, get_or, set, take, replicate,
}
use bisso_e350_controller.GcodeQueue.Jobs.{
  max_jobs, no_job, err_max_len, Status, job_pending, job_running, job_completed, job_failed,
  job_skipped, ◌has◌, Job, Queue, oldest_index, zero_job, newest_from,
}

module _ {P : Type 0} where
  -- The index of the oldest pending job among `n` from the `i`-th oldest on.
  unfoldable pub find_pending : Queue P → ℕ → ℕ → Option ℕ
  find_pending q i zero = none
  find_pending q i (suc n) =
      let idx = oldest_index q.job_head q.job_count i in
      if (get_or q.jobs idx zero_job).status has job_pending
      then some idx
      else find_pending q (suc i) n

  abbrev pub start_job : ℕ → Job P → Job P
  start_job now j = record j { status = job_running; start_time_ms = now }

  abbrev pub run_found : ℕ → Option ℕ → Queue P → Queue P
  run_found now none q = record q { current_job_idx = no_job }
  run_found now (some idx) q = record q {
    jobs = set q.jobs idx (start_job now (get_or q.jobs idx zero_job));
    current_job_idx = idx;
  }

  unfoldable pub mark_running : ℕ → Queue P → Queue P
  unfolding find_pending
  mark_running now q = run_found now (find_pending q 0 q.job_count) q

  -- The current job changed, where `current_job_idx` was found to be in range.
  abbrev pub set_current : (Job P → Job P) → Queue P → Queue P
  set_current f q = record q {
    jobs = set q.jobs q.current_job_idx (f (get_or q.jobs q.current_job_idx zero_job));
  }

  abbrev pub has_no_current : Queue P → Bool
  has_no_current q = leb max_jobs q.current_job_idx

  abbrev pub current_status : Queue P → Status
  current_status q = (get_or q.jobs q.current_job_idx zero_job).status

  abbrev pub end_job : Status → ℕ → Job P → Job P
  end_job s now j = record j { status = s; end_time_ms = now }

  unfoldable pub mark_completed : ℕ → Queue P → Queue P
  mark_completed now q =
      if has_no_current q
      then q
      else record (set_current (end_job job_completed now) q) { current_job_idx = no_job }

  abbrev pub with_error : Option (List ℕ) → Job P → Job P
  with_error none j = j
  with_error (some text) j = record j { error = take (err_max_len - 1) text }

  unfoldable pub mark_failed : ℕ → Option (List ℕ) → Queue P → Queue P
  mark_failed now text q =
      if has_no_current q
      then q
      else record (set_current (λ j. with_error text (end_job job_failed now j)) q) {
        queue_paused = true;
      }

  -- `moved` is what `motionMoveAbsolute` returns for the way back to the start position.
  unfoldable pub retry : Bool → Queue P → Queue P × Bool
  retry moved q =
      if has_no_current q
      then (q, false)
      else if not (current_status q has job_failed)
      then (q, false)
      else if not moved
      then (q, false)
      else (
        record (set_current (λ j. record j { status = job_pending; error = [] }) q) {
          queue_paused = false;
        },
        true,
      )

  -- `gcodeQueueResume` and `gcodeQueueSkip` end a failed job as completed and as skipped.
  unfoldable pub end_failed : Status → ℕ → Queue P → Queue P × Bool
  end_failed s now q =
      if has_no_current q
      then (q, false)
      else if not (current_status q has job_failed)
      then (q, false)
      else (
        record (set_current (end_job s now) q) { queue_paused = false; current_job_idx = no_job },
        true,
      )

  unfoldable pub resume : ℕ → Queue P → Queue P × Bool
  unfolding end_failed
  resume now q = end_failed job_completed now q

  unfoldable pub skip : ℕ → Queue P → Queue P × Bool
  unfolding end_failed
  skip now q = end_failed job_skipped now q

  unfoldable pub clear : Queue P → Queue P
  clear q = record q {
    jobs = replicate max_jobs zero_job;
    job_head = 0;
    job_count = 0;
    current_job_idx = no_job;
    queue_paused = false;
  }

  unfoldable pub start : Queue P → Queue P
  start q = record q { queue_running = true; queue_paused = false }

  unfoldable pub pause : Queue P → Queue P
  pause q = record q { queue_paused = true }

  unfoldable pub is_running : Queue P → Bool
  is_running q = q.queue_running && not q.queue_paused

  unfoldable pub is_paused : Queue P → Bool
  is_paused q = q.queue_paused

-- `gcode_queue_state_t`
pub record QueueState : Type 0 where
  pub total_jobs : ℕ
  pub pending_count : ℕ
  pub completed_count : ℕ
  pub failed_count : ℕ
  pub current_job_id : ℕ
  pub paused : Bool

module _ {P : Type 0} where
  unfoldable pub tally_job : Job P → QueueState → QueueState
  tally_job j s = elim j.status [
    | job_pending ↦ record s { pending_count = s.pending_count + 1 }
    | job_running ↦ record s { current_job_id = j.id }
    | job_completed ↦ record s { completed_count = s.completed_count + 1 }
    | job_failed ↦ record s { failed_count = s.failed_count + 1 }
    | job_skipped ↦ s
  ]

  unfoldable pub tally : List (Job P) → QueueState → QueueState
  unfolding tally_job
  tally [] s = s
  tally (j ∷ jobs) s = tally jobs (tally_job j s)

  unfoldable pub get_state : Queue P → QueueState
  unfolding tally newest_from
  get_state q = tally (newest_from q.jobs q.job_head 0 q.job_count) (record {
    total_jobs = q.job_count;
    pending_count = 0;
    completed_count = 0;
    failed_count = 0;
    current_job_id = 0;
    paused = q.queue_paused;
  })
