-- ===== src/JobManager/Streaming.antt =====
-- The class `JobManager` of src/job_manager.cpp. The files of LittleFS and the strings of Arduino
-- are parameters, as are the operations of other parts of the program that the class calls; the
-- motion buffer is the one of src/motion_buffer.cpp. The inputs of an operation are the clock and
-- what each attempt to take the buffer's mutex meets.
use bisso_e350_controller.Base.{
  ℕ, zero, suc, ◌+◌, ◌-◌, Bool, true, false, not, ◌||◌, if◌then◌else◌, ltb, leb, ◌==◌, u32, elapsed,
  List, [], ◌∷◌, ◌++◌, take,
}
use bisso_e350_controller.MotionBuffer.Ring.{
  motion_buffer_size, MotionBuffer, Lock, is_full, clear, available,
}

-- `job_state_t`
pub data JobState : Type 0 where
  job_idle job_running job_paused job_completed job_error : JobState

-- `job_status_t`; the file's name as its characters.
pub record JobStatus : Type 0 where
  pub filename : List ℕ
  pub total_lines : ℕ
  pub current_line : ℕ
  pub start_time : ℕ
  pub duration_ms : ℕ
  pub state : JobState

-- The fields of the class that its code reads. `handed` lists the lines that were given to
-- `gcodeParser.processCommand`, the first one first.
pub record JobManager (File Line : Type 0) : Type 0 where
  pub job_file : File
  pub status : JobStatus
  pub file_open : Bool
  pub handed : List Line

-- The operations of `File` and `String`: the bytes left, the test of an open file, the line up to
-- the next `'\n'`, the next byte, and the trimming and the length of a line.
pub record Files (File Line : Type 0) : Type 0 where
  pub bytes_left : File → ℕ
  pub is_open : File → Bool
  pub read_string_until : File → Line × File
  pub read : File → ℕ × File
  pub trim : Line → Line
  pub line_length : Line → ℕ

-- The rest of the program, as far as a job changes it: the motion buffer, and what is not followed.
pub record Machine (F M : Type 0) : Type 0 where
  pub buffer : MotionBuffer F
  pub other : M

-- What the job manager asks of the rest of the program.
pub record Services (Line F M : Type 0) : Type 0 where
  pub process_command : Line → Machine F M → Machine F M × Bool
  pub enable_buffer : Machine F M → Machine F M
  pub end_session : Machine F M → Machine F M
  pub alert_job_complete : Machine F M → Machine F M
  pub motion_pause : Machine F M → Machine F M
  pub motion_resume : Machine F M → Machine F M
  pub motion_stop : Machine F M → Machine F M

abbrev pub is_running : JobState → Bool
is_running job_running = true
is_running _ = false

abbrev pub is_paused : JobState → Bool
is_paused job_paused = true
is_paused _ = false

module _ {File Line : Type 0} (files : Files File Line) where
  -- The loop that counts the lines, and the file that it leaves; the fuel is the bytes left.
  unfoldable pub count_newlines : ℕ → ℕ → File → ℕ × File
  count_newlines zero count f = (count, f)
  count_newlines (suc n) count f =
      let (byte, rest) = files.read f in
      let counted = count_newlines n (if byte == 10 then u32 (count + 1) else count) rest in
      if ltb 0 (files.bytes_left f) then counted else (count, f)

module _ {File Line F M : Type 0} (files : Files File Line) (services : Services Line F M) where
  -- The next line of the file; a command that the parser refuses is only logged.
  unfoldable pub read_line : JobManager File Line → Machine F M → JobManager File Line × Machine F M
  read_line j m =
      let (raw, rest) = files.read_string_until j.job_file in
      let line = files.trim raw in
      let next : JobManager File Line = record j {
        job_file = rest;
        status = record j.status { current_line = u32 (j.status.current_line + 1) };
      } in
      if ltb 0 (files.line_length line)
      then (record next { handed = j.handed ++ (line ∷ []) }, (services.process_command line m).0)
      else (next, m)

  -- What `update` does at the end of the file. The closed file is not used again.
  unfoldable pub complete_job :
      ℕ → JobManager File Line → Machine F M → JobManager File Line × Machine F M
  complete_job now j m = (
    record j {
      file_open = false;
      status = record j.status {
        state = job_completed;
        duration_ms = elapsed now j.status.start_time;
      };
    },
    services.alert_job_complete (services.end_session m),
  )

  -- The loop of `update`, with the rounds left; `locks n` is for the `isFull` with `n` rounds left
  -- after it.
  unfoldable pub read_lines :
      ℕ → (ℕ → Lock) → ℕ → JobManager File Line → Machine F M → JobManager File Line × Machine F M
  unfolding read_line complete_job
  read_lines zero locks now j m = (j, m)
  read_lines (suc n) locks now j m =
      let (j', m') = read_line j m in
      let rest = read_lines n locks now j' m' in
      if is_full (locks n) m.buffer
      then (j, m)
      else if ltb 0 (files.bytes_left j.job_file)
      then rest
      else complete_job now j m

  unfoldable pub update :
      (ℕ → Lock) → ℕ → JobManager File Line → Machine F M → JobManager File Line × Machine F M
  unfolding read_lines
  update locks now j m =
      if not (is_running j.status.state) || not j.file_open
      then (j, m)
      else if leb (motion_buffer_size - 1) (available (locks 5) m.buffer)
      then (j, m)
      else read_lines 5 locks now j m

  -- `exists` is the answer of `LittleFS.exists`; the two files are those that it opens, of which
  -- `is_open` tells the failure.
  unfoldable pub start_job :
      Lock
      → ℕ
      → List ℕ
      → Bool
      → File
      → File
      → JobManager File Line
      → Machine F M
      → JobManager File Line × Machine F M × Bool
  unfolding count_newlines
  start_job lock now filename exists count_file opened j m =
      let enabled = services.enable_buffer m in
      let counted : JobStatus =
        if files.is_open count_file
        then record j.status {
          total_lines = (count_newlines files (files.bytes_left count_file) 0 count_file).0;
        }
        else j.status in
      let started : JobStatus = record counted {
        filename = take 63 filename;
        current_line = 0;
        start_time = now;
        state = job_running;
      } in
      if is_running j.status.state || is_paused j.status.state
      then (j, m, false)
      else if not exists
      then (j, enabled, false)
      else if not (files.is_open opened)
      then (record j { job_file = opened; status = counted }, enabled, false)
      else (
        record j { job_file = opened; status = started; file_open = true },
        record enabled { buffer = clear lock enabled.buffer },
        true,
      )

  unfoldable pub pause_job : JobManager File Line → Machine F M → JobManager File Line × Machine F M
  pause_job j m =
      if is_running j.status.state
      then (record j { status = record j.status { state = job_paused } }, services.motion_pause m)
      else (j, m)

  unfoldable pub resume_job :
      JobManager File Line → Machine F M → JobManager File Line × Machine F M
  resume_job j m =
      if is_paused j.status.state
      then (record j { status = record j.status { state = job_running } }, services.motion_resume m)
      else (j, m)

  unfoldable pub abort_job :
      Lock → JobManager File Line → Machine F M → JobManager File Line × Machine F M
  abort_job lock j m = (
    record j { file_open = false; status = record j.status { state = job_idle } },
    services.motion_stop (record m { buffer = clear lock m.buffer }),
  )
