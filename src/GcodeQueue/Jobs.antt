-- ===== src/GcodeQueue/Jobs.antt =====
-- The state and the functions of src/gcode_queue.cpp. `P` is the type of a position in mm, a
-- float. `now` is what `millis()` gives. The job array was allocated by `gcodeQueueInit`, which
-- halts the system otherwise. A job's texts are the lists of their characters before the NUL.
use bisso_e350_controller.Base.{
  ℕ, zero, suc, ◌+◌, ◌-◌, ◌%◌, Bool, false, if◌then◌else◌, ltb, leb, ◌==◌, u16, Option, none, some,
  List, [], ◌∷◌, get_or, set, take, replicate,
}

abbrev pub max_jobs : ℕ
max_jobs = 200

abbrev pub cmd_max_len : ℕ
cmd_max_len = 64

abbrev pub err_max_len : ℕ
err_max_len = 32

-- `UINT16_MAX`: no job is current.
abbrev pub no_job : ℕ
no_job = 65535

-- `gcode_job_status_t`
pub data Status : Type 0 where
  job_pending job_running job_completed job_failed job_skipped : Status

abbrev pub status_number : Status → ℕ
status_number job_pending = 0
status_number job_running = 1
status_number job_completed = 2
status_number job_failed = 3
status_number job_skipped = 4

infix 50 ◌has◌
abbrev pub ◌has◌ : Status → Status → Bool
s has t = status_number s == status_number t

-- `gcode_job_t`
pub record Job (P : Type 0) : Type 0 where
  pub id : ℕ
  pub command : List ℕ
  pub start_pos : List P
  pub queued_time_ms : ℕ
  pub start_time_ms : ℕ
  pub end_time_ms : ℕ
  pub status : Status
  pub error : List ℕ

-- The static variables.
pub record Queue (P : Type 0) : Type 0 where
  pub jobs : List (Job P)
  pub job_head : ℕ
  pub job_count : ℕ
  pub next_job_id : ℕ
  pub current_job_idx : ℕ
  pub queue_running : Bool
  pub queue_paused : Bool

-- `(job_head - 1 - i + MAX) % MAX`, computed in `int`: it is not negative for i < MAX.
abbrev pub newest_index : ℕ → ℕ → ℕ
newest_index head i = (head + max_jobs - 1 - i) % max_jobs

-- `(job_head - job_count + i + MAX) % MAX`
abbrev pub oldest_index : ℕ → ℕ → ℕ → ℕ
oldest_index head count i = (head + max_jobs - count + i) % max_jobs

module _ {P : Type 0} where
  -- A job of zero bytes.
  abbrev pub zero_job : Job P
  zero_job = record {
    id = 0;
    command = [];
    start_pos = [];
    queued_time_ms = 0;
    start_time_ms = 0;
    end_time_ms = 0;
    status = job_pending;
    error = [];
  }

  unfoldable pub init : Queue P
  init = record {
    jobs = replicate max_jobs zero_job;
    job_head = 0;
    job_count = 0;
    next_job_id = 1;
    current_job_idx = no_job;
    queue_running = false;
    queue_paused = false;
  }

  -- The job that `gcodeQueueAdd` writes; `position` are the four axis positions.
  abbrev pub new_job : ℕ → List P → List ℕ → Queue P → Job P
  new_job now position command q = record {
    id = q.next_job_id;
    command = take (cmd_max_len - 1) command;
    start_pos = position;
    queued_time_ms = now;
    start_time_ms = 0;
    end_time_ms = 0;
    status = job_pending;
    error = [];
  }

  unfoldable pub add : ℕ → List P → List ℕ → Queue P → Queue P × ℕ
  add now position [] q = (q, 0)
  add now position (c ∷ command) q = (
    record q {
      jobs = set q.jobs q.job_head (new_job now position (c ∷ command) q);
      job_head = (q.job_head + 1) % max_jobs;
      job_count = if ltb q.job_count max_jobs then q.job_count + 1 else q.job_count;
      next_job_id = u16 (q.next_job_id + 1);
    },
    q.next_job_id,
  )

  unfoldable pub get_current : Queue P → Option (Job P)
  get_current q =
      if leb max_jobs q.current_job_idx
      then none
      else some (get_or q.jobs q.current_job_idx zero_job)

  -- The jobs from the `i`-th newest on, `n` of them, the newest first.
  unfoldable pub newest_from : List (Job P) → ℕ → ℕ → ℕ → List (Job P)
  newest_from jobs head i zero = []
  newest_from jobs head i (suc n) =
      get_or jobs (newest_index head i) zero_job ∷ newest_from jobs head (suc i) n

  -- `gcodeQueueGetAll`
  unfoldable pub get_all : ℕ → Queue P → List (Job P)
  unfolding newest_from
  get_all max_count q =
      newest_from q.jobs q.job_head 0 (if ltb q.job_count max_count then q.job_count else max_count)

  -- The loop of `gcodeQueueGetJob`.
  unfoldable pub find_id : ℕ → List (Job P) → Option (Job P)
  find_id id [] = none
  find_id id (j ∷ jobs) = if j.id == id then some j else find_id id jobs

  unfoldable pub get_job : ℕ → Queue P → Option (Job P)
  unfolding find_id newest_from
  get_job id q = find_id id (newest_from q.jobs q.job_head 0 q.job_count)
