-- ===== src/JobManager/Finish.antt =====
-- That a job of src/job_manager.cpp comes to the end of its file, and how a job is started.
use bisso_e350_controller.Base.{
  branch, ℕ, zero, suc, ◌+◌, ◌*◌, ◌≤◌, ◌<◌, ◌≡◌, ◌≢◌, ◌-◌, refl, ◌∙◌, ap, ltb→lt, Bool, true, not,
  ◌||◌, ltb, leb, List, [], ◌∷◌, arith, length, All,
}
use bisso_e350_controller.MotionBuffer.Ring.{motion_buffer_size, granted, is_full, available}
use bisso_e350_controller.JobManager.Streaming.{
  JobState, job_running, job_completed, JobManager, Files, Machine, Services, is_running, read_line,
  complete_job, read_lines, update, count_newlines,
}

not-idle :
    (s : JobState) (o : Bool) → s ≡ job_running → o ≡ true → (not (is_running s) || not o) ≢ true
not-idle s o e f g = ground arith

module _ {File Line : Type 0} (files : Files File Line) where
  -- To read a line takes at least a byte, if there is one.
  abbrev pub TakesLine : Type 0
  TakesLine =
      (f : File)
      → 0 < files.bytes_left f
      → files.bytes_left (files.read_string_until f).1 < files.bytes_left f

  -- To read a byte takes it.
  abbrev pub TakesByte : Type 0
  TakesByte =
      (f : File) → 0 < files.bytes_left f → files.bytes_left (files.read f).1 < files.bytes_left f

  -- The count of the lines has the fuel to come to the end of the file.
  pub count_newlines-ends :
      (n count : ℕ) (f : File)
      → TakesByte
      → files.bytes_left f ≤ n
      → files.bytes_left (count_newlines files n count f).1 ≡ 0
  unfolding count_newlines
  count_newlines-ends zero count f t h = omega arith
  count_newlines-ends (suc n) count f t h =
      branch {A = ℕ × File} (λ r. files.bytes_left r.1 ≡ 0) (ltb 0 (files.bytes_left f)) _ _
        (λ e.
          let less = t f (ltb→lt 0 (files.bytes_left f) e) in
          count_newlines-ends n _ (files.read f).1 t (omega arith))
        (λ e. ground arith)

module _ {File Line F M : Type 0} (files : Files File Line) (services : Services Line F M) where
  -- A line brings at most one command into the motion buffer.
  abbrev pub AddsOne : Type 0
  AddsOne =
      (line : Line) (m : Machine F M)
      → (services.process_command line m).0.buffer.count ≤ m.buffer.count + 1

  -- A job that goes on, with `n` bytes of its file read at least, or one that is completed.
  data Outcome (n : ℕ) (j : JobManager File Line) (j' : JobManager File Line) : Type 0 where
    done : j'.status.state ≡ job_completed → Outcome n j j'
    goes_on :
        j'.status.state ≡ job_running
        → j'.file_open ≡ true
        → files.bytes_left j'.job_file + n ≤ files.bytes_left j.job_file
        → Outcome n j j'

  later :
      (n : ℕ) (i j k : JobManager File Line)
      → files.bytes_left j.job_file < files.bytes_left i.job_file
      → Outcome n j k
      → Outcome (suc n) i k
  later n i j k h (done e) = done e
  later n i j k h (goes_on e o l) = goes_on e o (omega arith)

  record Read (j : JobManager File Line) (m : Machine F M) (r : JobManager File Line × Machine F M)
      : Type 0 where
    state : r.0.status.state ≡ j.status.state
    file_open : r.0.file_open ≡ j.file_open
    job_file : r.0.job_file ≡ (files.read_string_until j.job_file).1
    count : r.1.buffer.count ≤ m.buffer.count + 1

  read_line-Read :
      (j : JobManager File Line) (m : Machine F M)
      → AddsOne
      → Read j m (read_line files services j m)
  unfolding read_line
  read_line-Read j m a =
      branch (Read j m)
        (ltb 0 (files.line_length (files.trim (files.read_string_until j.job_file).0))) _ _
        (λ _. record { state = refl; file_open = refl; job_file = refl; count = a _ m })
        (λ _. record { state = refl; file_open = refl; job_file = refl; count = omega arith })

  read_lines-Outcome :
      (n now : ℕ) (j : JobManager File Line) (m : Machine F M)
      → TakesLine files
      → AddsOne
      → m.buffer.count + n ≤ motion_buffer_size
      → j.status.state ≡ job_running
      → j.file_open ≡ true
      → Outcome n j (read_lines files services n (λ _. granted) now j m).0
  unfolding read_lines complete_job is_full
  read_lines-Outcome zero now j m t a c s o = goes_on s o (omega arith)
  read_lines-Outcome (suc n) now j m t a c s o =
      let r = read_line-Read j m a in
      let (j', m') = read_line files services j m in
      branch {A = JobManager File Line × Machine F M} (λ r. Outcome (suc n) j r.0)
        (is_full granted m.buffer) _ _ (λ e. absurd (ground arith))
        (λ _.
          branch {A = JobManager File Line × Machine F M} (λ r. Outcome (suc n) j r.0)
            (ltb 0 (files.bytes_left j.job_file)) _ _
            (λ e.
              later n j j' _
                (omega (
                  arith,
                  ap files.bytes_left r.job_file,
                  t j.job_file (ltb→lt 0 (files.bytes_left j.job_file) e),
                ))
                (read_lines-Outcome n now j' m' t a (omega (arith, r.count)) (r.state ∙ s)
                  (r.file_open ∙ o)))
            (λ _. done refl))

  -- There is room for the five lines of a round, and the mutex is free.
  update-Outcome :
      (now : ℕ) (j : JobManager File Line) (m : Machine F M)
      → TakesLine files
      → AddsOne
      → m.buffer.count ≤ 1019
      → j.status.state ≡ job_running
      → j.file_open ≡ true
      → Outcome 5 j (update files services (λ _. granted) now j m).0
  unfolding update available
  update-Outcome now j m t a c s o =
      branch {A = JobManager File Line × Machine F M} (λ r. Outcome 5 j r.0)
        (not (is_running j.status.state) || not j.file_open) _ _
        (λ e. absurd (not-idle j.status.state j.file_open s o e))
        (λ _.
          branch {A = JobManager File Line × Machine F M} (λ r. Outcome 5 j r.0)
            (leb (motion_buffer_size - 1) m.buffer.count) _ _ (λ e. absurd (ground arith))
            (λ _. read_lines-Outcome 5 now j m t a (omega arith) s o))

  update-done :
      (now : ℕ) (j : JobManager File Line) (m : Machine F M)
      → j.status.state ≡ job_completed
      → (update files services (λ _. granted) now j m).0.status.state ≡ job_completed
  unfolding update
  update-done now j m e = ground arith

  -- Rounds of the main loop: first the rest of the program, then `update` at a time.
  unfoldable pub rounds :
      List ((Machine F M → Machine F M) × ℕ)
      → JobManager File Line
      → Machine F M
      → JobManager File Line × Machine F M
  unfolding update
  rounds [] j m = (j, m)
  rounds ((elsewhere, now) ∷ rs) j m =
      let (j', m') = update files services (λ _. granted) now j (elsewhere m) in rounds rs j' m'

  rounds-done :
      (rs : List ((Machine F M → Machine F M) × ℕ)) (j : JobManager File Line) (m : Machine F M)
      → j.status.state ≡ job_completed
      → (rounds rs j m).0.status.state ≡ job_completed
  unfolding rounds
  rounds-done [] j m e = e
  rounds-done ((f, now) ∷ rs) j m e = rounds-done rs _ _ (update-done now j (f m) e)

  -- The rest of the program leaves at most 1019 commands in the motion buffer.
  abbrev pub LeavesRoom : (Machine F M → Machine F M) × ℕ → Type 0
  LeavesRoom (f, now) = (m : Machine F M) → (f m).buffer.count ≤ 1019

  -- A running job with `n` bytes of its file left is completed within `n / 5 + 1` rounds of the
  -- main loop (fewer than 5 bytes for each round), when a line of the file takes at least a byte,
  -- no line brings more than one command into the motion buffer, and the rest of the program leaves
  -- room for five commands between the rounds, with the mutex free.
  pub rounds_complete :
      (rs : List ((Machine F M → Machine F M) × ℕ)) (j : JobManager File Line) (m : Machine F M)
      → TakesLine files
      → AddsOne
      → All LeavesRoom rs
      → j.status.state ≡ job_running
      → j.file_open ≡ true
      → files.bytes_left j.job_file < 5 * length rs
      → (rounds rs j m).0.status.state ≡ job_completed
  unfolding rounds
  rounds_complete [] j m t a l s o b = absurd (omega (arith, b))
  rounds_complete ((f, now) ∷ rs) j m t a (room, l) s o b =
      elim (update-Outcome now j (f m) t a (room m) s o) [
        | done e ↦ rounds-done rs _ _ e
        | goes_on s' o' b' ↦ rounds_complete rs _ _ t a l s' o' (omega arith)
      ]
