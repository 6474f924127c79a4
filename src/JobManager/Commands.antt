-- ===== src/JobManager/Commands.antt =====
-- The commands in the lines of a job file, and the progress of a job of src/job_manager.cpp over them.
use bisso_e350_controller.Base.{
  ℕ, zero, suc, ◌+◌, ◌≡◌, sym, ap, ap₂, ◌∙◌, true, false, if◌then◌else◌, ltb, u32, List, [], ◌∷◌,
  ◌++◌, arith,
}
use mathlib.Core.List.{append_assoc, append-nil}
use bisso_e350_controller.JobManager.Streaming.{job_completed, JobManager, Files}

zero_add : (l : ℕ) → 0 + l ≡ l
zero_add l = omega arith

suc_add : (k l : ℕ) → suc k + l ≡ suc (k + l)
suc_add k l = omega arith

module _ {File Line : Type 0} (files : Files File Line) where
  -- What is left of a file behind its first lines.
  unfoldable pub file_after : ℕ → File → File
  file_after zero f = f
  file_after (suc k) f = file_after k (files.read_string_until f).1

  -- A trimmed line, unless it is empty.
  unfoldable pub command_of : Line → List Line
  command_of raw = if ltb 0 (files.line_length (files.trim raw)) then files.trim raw ∷ [] else []

  pub command_of-some :
      (raw : Line)
      → ltb 0 (files.line_length (files.trim raw)) ≡ true
      → command_of raw ≡ files.trim raw ∷ []
  unfolding command_of
  command_of-some raw e = ground arith

  pub command_of-none :
      (raw : Line) → ltb 0 (files.line_length (files.trim raw)) ≡ false → command_of raw ≡ []
  unfolding command_of
  command_of-none raw e = ground arith

  -- The commands in the first lines of a file, in their order.
  unfoldable pub commands_in : ℕ → File → List Line
  unfolding command_of
  commands_in zero f = []
  commands_in (suc k) f =
      let (raw, rest) = files.read_string_until f in command_of raw ++ commands_in k rest

  file_after-add : (k l : ℕ) (f : File) → file_after (k + l) f ≡ file_after l (file_after k f)
  unfolding file_after
  file_after-add zero l f = ap (λ n. file_after n f) (zero_add l)
  file_after-add (suc k) l f =
      ap (λ n. file_after n f) (suc_add k l) ∙ file_after-add k l (files.read_string_until f).1

  commands_in-add :
      (k l : ℕ) (f : File)
      → commands_in (k + l) f ≡ commands_in k f ++ commands_in l (file_after k f)
  unfolding commands_in file_after
  commands_in-add zero l f = ap (λ n. commands_in n f) (zero_add l)
  commands_in-add (suc k) l f =
      let (raw, rest) = files.read_string_until f in
      ap (λ n. commands_in n f) (suc_add k l)
      ∙ ap (λ t. command_of raw ++ t) (commands_in-add k l rest)
      ∙ sym (append_assoc (command_of raw) (commands_in k rest) (commands_in l (file_after k rest)))

  -- From `j` to `j'`, the commands in the next `count` lines of the file were handed over, each one
  -- once and in their order, and these lines were counted and left behind.
  pub record Progress (j j' : JobManager File Line) : Type 0 where
    pub count : ℕ
    pub handed : j'.handed ≡ j.handed ++ commands_in count j.job_file
    pub file : j'.job_file ≡ file_after count j.job_file
    pub line : u32 j'.status.current_line ≡ u32 (j.status.current_line + count)

  -- A job that was completed has read its file to the end.
  abbrev pub IsRead : JobManager File Line → Type 0
  IsRead j = j.status.state ≡ job_completed → files.bytes_left j.job_file ≡ 0

  pub unmoved-Progress :
      (j j' : JobManager File Line)
      → j'.handed ≡ j.handed
      → j'.job_file ≡ j.job_file
      → j'.status.current_line ≡ j.status.current_line
      → Progress j j'
  unfolding commands_in file_after
  unmoved-Progress j j' h f l = record {
    count = 0;
    handed = h ∙ sym (append-nil j.handed);
    file = f;
    line = omega (arith, l);
  }

  pub chain-Progress : (i j k : JobManager File Line) → Progress i j → Progress j k → Progress i k
  chain-Progress i j k p q = record {
    count = p.count + q.count;
    handed =
        q.handed
        ∙ ap₂ ◌++◌ p.handed (ap (commands_in q.count) p.file)
        ∙ append_assoc i.handed (commands_in p.count i.job_file)
            (commands_in q.count (file_after p.count i.job_file))
        ∙ ap (λ t. i.handed ++ t) (sym (commands_in-add p.count q.count i.job_file));
    file =
        q.file ∙ ap (file_after q.count) p.file ∙ sym (file_after-add p.count q.count i.job_file);
    line = omega (arith, p.line, q.line);
  }

  pub next-handed :
      (j : JobManager File Line) (xs : List Line)
      → command_of (files.read_string_until j.job_file).0 ≡ xs
      → j.handed ++ xs ≡ j.handed ++ commands_in 1 j.job_file
  unfolding commands_in
  next-handed j xs e = ap (λ t. j.handed ++ t) (sym e ∙ sym (append-nil _))
