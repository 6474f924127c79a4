-- ===== src/JobManager/Lines.antt =====
-- Which lines of its file a job of src/job_manager.cpp hands to the parser.
use bisso_e350_controller.Base.{
  branch, branches, ℕ, zero, suc, ◌-◌, ◌≡◌, ◌≢◌, refl, sym, ◌∙◌, Bool, false, not, ◌||◌, ltb, leb,
  List, [], ◌∷◌, arith,
}
use mathlib.Core.List.{append-nil}
use bisso_e350_controller.MotionBuffer.Ring.{motion_buffer_size, Lock, is_full, available}
use bisso_e350_controller.JobManager.Streaming.{
  JobState, job_idle, job_running, job_paused, job_completed, JobManager, Files, Machine, Services,
  is_running, is_paused, read_line, complete_job, read_lines, update, pause_job, resume_job,
  abort_job,
}
use bisso_e350_controller.JobManager.Commands.{
  command_of, command_of-some, command_of-none, commands_in, file_after, Progress, IsRead,
  unmoved-Progress, chain-Progress, next-handed,
}

paused≢completed : job_paused ≢ job_completed
paused≢completed e = ground arith

idle≢completed : job_idle ≢ job_completed
idle≢completed e = ground arith

running≢completed : job_running ≢ job_completed
running≢completed e = ground arith

running-state : (s : JobState) (o : Bool) → (not (is_running s) || not o) ≡ false → s ≡ job_running
running-state s o e = ground arith

-- What happens while a job is there: a call of `update`, the operator's commands, and any step of
-- the rest of the program.
pub data Event (F M : Type 0) : Type 0 where
  tick : (ℕ → Lock) → ℕ → Event F M
  pause : Event F M
  resume : Event F M
  abort : Lock → Event F M
  elsewhere : (Machine F M → Machine F M) → Event F M

module _ {File Line F M : Type 0} (files : Files File Line) (services : Services Line F M) where
  -- The jobs that a job and a machine are about.
  abbrev pub Step : JobManager File Line → JobManager File Line × Machine F M → Type 0
  Step j r = Progress files j r.0 × (IsRead files j → IsRead files r.0)

  read_line-Progress :
      (j : JobManager File Line) (m : Machine F M)
      → Progress files j (read_line files services j m).0
  unfolding read_line commands_in command_of file_after
  read_line-Progress j m =
      let raw = (files.read_string_until j.job_file).0 in
      branch {A = JobManager File Line × Machine F M} (λ r. Progress files j r.0)
        (ltb 0 (files.line_length (files.trim raw))) _ _
        (λ e. record {
          count = 1;
          handed = next-handed files j _ (command_of-some files raw e);
          file = refl;
          line = omega arith;
        })
        (λ e. record {
          count = 1;
          handed = sym (append-nil j.handed) ∙ next-handed files j _ (command_of-none files raw e);
          file = refl;
          line = omega arith;
        })

  read_line-running :
      (j : JobManager File Line) (m : Machine F M)
      → j.status.state ≡ job_running
      → (read_line files services j m).0.status.state ≡ job_running
  unfolding read_line
  read_line-running j m h = ground arith

  read_lines-Step :
      (n : ℕ) (locks : ℕ → Lock) (now : ℕ) (j : JobManager File Line) (m : Machine F M)
      → j.status.state ≡ job_running
      → Step j (read_lines files services n locks now j m)
  unfolding read_lines complete_job
  read_lines-Step zero locks now j m h = (unmoved-Progress files j j refl refl refl, λ r. r)
  read_lines-Step (suc n) locks now j m h =
      let (j', m') = read_line files services j m in
      branches (Step j) (is_full (locks n) m.buffer) _ _
        (unmoved-Progress files j j refl refl refl, λ r. r)
        (branch (Step j) (ltb 0 (files.bytes_left j.job_file)) _ _
          (λ e.
            let (p, r) = read_lines-Step n locks now j' m' (read_line-running j m h) in
            (
              chain-Progress files _ _ _ (read_line-Progress j m) p,
              λ _. r (λ c. absurd (running≢completed (sym (read_line-running j m h) ∙ c))),
            ))
          (λ e. (unmoved-Progress files _ _ refl refl refl, λ _ _. ground arith)))

  update-Step :
      (locks : ℕ → Lock) (now : ℕ) (j : JobManager File Line) (m : Machine F M)
      → Step j (update files services locks now j m)
  unfolding update
  update-Step locks now j m =
      let same : Step j (j, m) = (unmoved-Progress files j j refl refl refl, λ r. r) in
      branch (Step j) (not (is_running j.status.state) || not j.file_open) _ _ (λ _. same)
        (λ e.
          branches (Step j) (leb (motion_buffer_size - 1) (available (locks 5) m.buffer)) _ _ same
            (read_lines-Step 5 locks now j m (running-state j.status.state j.file_open e)))

  unfoldable pub happen :
      Event F M → JobManager File Line × Machine F M → JobManager File Line × Machine F M
  happen (tick locks now) (j, m) = update files services locks now j m
  happen pause (j, m) = pause_job files services j m
  happen resume (j, m) = resume_job files services j m
  happen (abort lock) (j, m) = abort_job files services lock j m
  happen (elsewhere f) (j, m) = (j, f m)

  unfoldable pub happen_all :
      List (Event F M) → JobManager File Line × Machine F M → JobManager File Line × Machine F M
  unfolding happen
  happen_all [] s = s
  happen_all (e ∷ es) s = happen_all es (happen e s)

  pub happen-Step :
      (e : Event F M) (j : JobManager File Line) (m : Machine F M) → Step j (happen e (j, m))
  unfolding happen pause_job resume_job abort_job
  happen-Step (tick locks now) j m = update-Step locks now j m
  happen-Step pause j m =
      branches (Step j) (is_running j.status.state) _ _
        (unmoved-Progress files _ _ refl refl refl, λ _ c. absurd (paused≢completed c))
        (unmoved-Progress files j j refl refl refl, λ r. r)
  happen-Step resume j m =
      branches (Step j) (is_paused j.status.state) _ _
        (unmoved-Progress files _ _ refl refl refl, λ _ c. absurd (running≢completed c))
        (unmoved-Progress files j j refl refl refl, λ r. r)
  happen-Step (abort lock) j m =
      (unmoved-Progress files _ _ refl refl refl, λ _ c. absurd (idle≢completed c))
  happen-Step (elsewhere f) j m = (unmoved-Progress files j j refl refl refl, λ r. r)

  -- Whatever happens to a job until the next one is started, and whatever the rest of the program
  -- does meanwhile, the lines that it has handed to the parser are the commands in the first lines
  -- of what was left of its file, each one once and in the order of the file, with the empty lines
  -- left out; these lines are counted; and a job is completed only with its file read to the end.
  pub happen_all-Progress :
      (events : List (Event F M)) (j : JobManager File Line) (m : Machine F M)
      → IsRead files j
      → let (j', m') = happen_all events (j, m) in Progress files j j' × IsRead files j'
  unfolding happen_all
  happen_all-Progress [] j m r = (unmoved-Progress files j j refl refl refl, r)
  happen_all-Progress (e ∷ es) j m r =
      let (j', m') = happen e (j, m) in
      let (p, q) = happen-Step e j m in
      let (p', r') = happen_all-Progress es j' m' (q r) in (chain-Progress files j j' _ p p', r')
