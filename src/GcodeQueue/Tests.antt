-- ===== src/GcodeQueue/Tests.antt =====
-- The theorems on the job queue at a queue that holds 200 jobs, and runs of the queue. A position
-- is a number.
use bisso_e350_controller.Base.{
  ℕ, ◌≡◌, refl, true, none, [], ◌∷◌, arith, replicate, length-replicate, take,
}
use bisso_e350_controller.GcodeQueue.Jobs.{
  max_jobs, Status, job_failed, Job, Queue, zero_job, new_job, init, add,
}
use bisso_e350_controller.GcodeQueue.Running.{mark_running, mark_failed, retry, get_state}
use bisso_e350_controller.GcodeQueue.History.{IsValid, history, add-history}

-- 200 jobs with a status, that at index 0 being current and the oldest.
abbrev done_job : Status → Job ℕ
done_job s = record zero_job { status = s }

abbrev full : Status → ℕ → Queue ℕ
full s next = record {
  jobs = replicate 200 (done_job s);
  job_head = 0;
  job_count = 200;
  next_job_id = next;
  current_job_idx = 0;
  queue_running = true;
  queue_paused = true;
}

full-IsValid : (s : Status) (next : ℕ) → IsValid (full s next)
full-IsValid s next = record {
  size = length-replicate 200 (done_job s);
  head_in = omega arith;
  count_in = omega arith;
}

add-history_example :
    let (q', id) = add 5 (1 ∷ []) (71 ∷ 49 ∷ []) (full job_failed 9) in
    IsValid q'
    × (id ≡ 9)
    × (history q'
        ≡ take max_jobs
            (new_job 5 (1 ∷ []) (71 ∷ 49 ∷ []) (full job_failed 9) ∷ history (full job_failed 9)))
add-history_example =
    add-history 5 (1 ∷ []) 71 (49 ∷ []) (full job_failed 9) (full-IsValid job_failed 9)

-- A failed job that is retried runs again, and the jobs behind it stay pending.
failed_again :
    let one = (add {P = ℕ} 1 (7 ∷ []) (71 ∷ []) init).0 in
    let two = (add 2 (7 ∷ []) (77 ∷ []) one).0 in
    let failed = mark_failed 9 none (mark_running 3 two) in
    let again = mark_running 12 (retry true failed).0 in
    (failed.queue_paused ≡ true)
    × (again.current_job_idx ≡ 0)
    × ((get_state again).pending_count ≡ 1)
unfolding add init mark_failed mark_running retry get_state
failed_again = (refl, refl, refl)
