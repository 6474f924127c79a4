-- ===== src/JobManager/Soundness.antt =====
-- The states of the jobs of src/job_manager.cpp, over every sequence of its operations.
use bisso_e350_controller.Base.{
  branch, branches, ℕ, zero, suc, ◌-◌, ap, ◌≡◌, ◌≢◌, refl, ◌∙◌, sym, Bool, false, not, ◌||◌, ltb,
  leb, List, [], ◌∷◌, arith,
}
use bisso_e350_controller.MotionBuffer.Ring.{motion_buffer_size, Lock, is_full, available}
use bisso_e350_controller.JobManager.Streaming.{
  JobStatus, job_running, job_completed, job_error, JobManager, Files, Machine, Services,
  is_running, is_paused, read_line, complete_job, read_lines, update, start_job, pause_job,
  resume_job, abort_job,
}
use bisso_e350_controller.JobManager.Commands.{IsRead}
use bisso_e350_controller.JobManager.Lines.{
  Event, tick, pause, resume, abort, elsewhere, happen, happen-Step,
}

-- An operation on the jobs: the start of one, or what happens to it.
pub data Operation (File F M : Type 0) : Type 0 where
  start : Lock → ℕ → List ℕ → Bool → File → File → Operation File F M
  event : Event F M → Operation File F M

module _ {File Line F M : Type 0} (files : Files File Line) (services : Services Line F M) where
  -- The file is open while the job runs or is paused, and only then; a completed job has read its
  -- file to the end; no job is in the error state.
  pub record IsSound (j : JobManager File Line) : Type 0 where
    pub open_iff : j.file_open ≡ (is_running j.status.state || is_paused j.status.state)
    pub read : IsRead files j
    pub no_error : j.status.state ≢ job_error

  abbrev Opens : JobManager File Line → Type 0
  Opens j =
      (j.file_open ≡ (is_running j.status.state || is_paused j.status.state))
      × (j.status.state ≢ job_error)

  abbrev OpensAfter : JobManager File Line × Machine F M → Type 0
  OpensAfter r = Opens r.0

  read_line-Opens :
      (j : JobManager File Line) (m : Machine F M)
      → Opens j
      → OpensAfter (read_line files services j m)
  unfolding read_line
  read_line-Opens j m h =
      branches OpensAfter
        (ltb 0 (files.line_length (files.trim (files.read_string_until j.job_file).0))) _ _ h h

  completed≢error : job_completed ≢ job_error
  completed≢error e = ground arith

  running≢completed : job_running ≢ job_completed
  running≢completed e = ground arith

  running≢error : job_running ≢ job_error
  running≢error e = ground arith

  read_lines-Opens :
      (n : ℕ) (locks : ℕ → Lock) (now : ℕ) (j : JobManager File Line) (m : Machine F M)
      → Opens j
      → OpensAfter (read_lines files services n locks now j m)
  unfolding read_lines complete_job
  read_lines-Opens zero locks now j m h = h
  read_lines-Opens (suc n) locks now j m h =
      let (j', m') = read_line files services j m in
      branches OpensAfter (is_full (locks n) m.buffer) _ _ h (
        branches OpensAfter (ltb 0 (files.bytes_left j.job_file)) _ _
          (read_lines-Opens n locks now j' m' (read_line-Opens j m h)) (refl, completed≢error))

  happen-Opens :
      (e : Event F M) (j : JobManager File Line) (m : Machine F M)
      → Opens j
      → OpensAfter (happen files services e (j, m))
  unfolding happen update pause_job resume_job abort_job
  happen-Opens (tick locks now) j m h =
      branches OpensAfter (not (is_running j.status.state) || not j.file_open) _ _ h (
        branches OpensAfter (leb (motion_buffer_size - 1) (available (locks 5) m.buffer)) _ _ h
          (read_lines-Opens 5 locks now j m h))
  happen-Opens pause j m h = ground arith
  happen-Opens resume j m h = ground arith
  happen-Opens (abort lock) j m h = ground arith
  happen-Opens (elsewhere f) j m h = h

  unfoldable pub operate :
      Operation File F M → JobManager File Line × Machine F M → JobManager File Line × Machine F M
  unfolding start_job happen
  operate (start lock now name exists count_file opened) (j, m) =
      let (j', m', ok) = start_job files services lock now name exists count_file opened j m in
      (j', m')
  operate (event e) s = happen files services e s

  unfoldable pub operate_all :
      List (Operation File F M)
      → JobManager File Line × Machine F M
      → JobManager File Line × Machine F M
  unfolding operate
  operate_all [] s = s
  operate_all (o ∷ os) s = operate_all os (operate o s)

  happen-IsSound :
      (e : Event F M) (j : JobManager File Line) (m : Machine F M)
      → IsSound j
      → IsSound (happen files services e (j, m)).0
  happen-IsSound e j m s =
      let (o, n) = happen-Opens e j m (s.open_iff, s.no_error) in
      record { open_iff = o; read = (happen-Step files services e j m).1 s.read; no_error = n }

  -- A file that is not open has no bytes left.
  abbrev pub ClosedIsEmpty : Type 0
  ClosedIsEmpty = (f : File) → files.is_open f ≡ false → files.bytes_left f ≡ 0

  -- A job whose file could not be opened, in whatever state it was.
  unopened-IsSound :
      (j : JobManager File Line) (counted : JobStatus) (opened : File)
      → ClosedIsEmpty
      → files.is_open opened ≡ false
      → counted.state ≡ j.status.state
      → IsSound j
      → IsSound (record j { job_file = opened; status = counted })
  unopened-IsSound j counted opened c e same s = record {
    open_iff = s.open_iff ∙ sym (ap (λ t. is_running t || is_paused t) same);
    read = λ _. c opened e;
    no_error = λ f. s.no_error (sym same ∙ f);
  }

  start-IsSound :
      (lock : Lock) (now : ℕ) (name : List ℕ) (exists : Bool) (count_file opened : File)
      (j : JobManager File Line) (m : Machine F M)
      → ClosedIsEmpty
      → IsSound j
      → IsSound (start_job files services lock now name exists count_file opened j m).0
  unfolding start_job
  start-IsSound lock now name exists count_file opened j m c s =
      let P : JobManager File Line × Machine F M × Bool → Type 0 = λ r. IsSound r.0 in
      branches P (is_running j.status.state || is_paused j.status.state) _ _ s (
        branches P (not exists) _ _ s (
          branch P (not (files.is_open opened)) _ _
            (λ e.
              unopened-IsSound j _ opened c (ground arith)
                (branches (λ (t : JobStatus). t.state ≡ j.status.state) (files.is_open count_file) _
                  _ refl refl)
                s)
            (λ _. record {
              open_iff = refl;
              read = λ f. absurd (running≢completed f);
              no_error = running≢error;
            })))

  -- From a state in which it holds, such as the one that the constructor makes, every sequence of
  -- starts, rounds of the main loop, commands of the operator and steps of the rest of the program
  -- keeps it that the file is open exactly while the job runs or is paused, that a completed job
  -- has read its file to the end, and that no job is in the error state, when a file that is not
  -- open has no bytes left.
  pub operate_all-IsSound :
      (operations : List (Operation File F M)) (j : JobManager File Line) (m : Machine F M)
      → ClosedIsEmpty
      → IsSound j
      → IsSound (operate_all operations (j, m)).0
  unfolding operate_all
  operate_all-IsSound [] j m c s = s
  operate_all-IsSound (start lock now name exists count_file opened ∷ os) j m c s =
      operate_all-IsSound os _ _ c (start-IsSound lock now name exists count_file opened j m c s)
  operate_all-IsSound (event e ∷ os) j m c s = operate_all-IsSound os _ _ c (happen-IsSound e j m s)
