-- ===== src/JobManager/Tests.antt =====
-- The theorems on jobs at a file of three lines, with files and lines as lists of bytes, a parser
-- that pushes a move for each line, and a motion buffer that was just made.
use bisso_e350_controller.Base.{
  ℕ, ◌≡◌, ◌≤◌, refl, arith, Bool, true, false, if◌then◌else◌, ◌==◌, Option, none, some, List, [],
  ◌∷◌, length, replicate,
}
use bisso_e350_controller.Base.Int.{pos}
use bisso_e350_controller.MotionBuffer.Ring.{
  MotionCmd, granted, timed_out, push, push_unsafe, clear,
}
use bisso_e350_controller.JobManager.Streaming.{
  job_idle, job_running, job_completed, JobManager, Files, Machine, Services,
}
use bisso_e350_controller.JobManager.Commands.{Progress, IsRead}
use bisso_e350_controller.JobManager.Lines.{
  tick, pause, resume, abort, elsewhere, happen_all, happen_all-Progress,
}
use bisso_e350_controller.JobManager.Finish.{TakesLine, AddsOne, rounds, rounds_complete}
use bisso_e350_controller.JobManager.Soundness.{
  start, event, IsSound, ClosedIsEmpty, operate_all, operate_all-IsSound,
}
mod Gcode

-- A file that is open has its bytes.
abbrev File : Type 0
File = Option (List ℕ)

abbrev split_line : List ℕ → List ℕ × List ℕ
split_line [] = ([], [])
split_line (b ∷ f) =
    let (line, rest) = split_line f in if b == 10 then ([], f) else (b ∷ line, rest)

split_line-le : (f : List ℕ) → length (split_line f).1 ≤ length f
split_line-le [] = omega arith
split_line-le (b ∷ f) = let h = split_line-le f in ground arith

abbrev trim_left : List ℕ → List ℕ
trim_left [] = []
trim_left (b ∷ l) = if b == 32 then trim_left l else b ∷ l

abbrev bytes_left : File → ℕ
bytes_left none = 0
bytes_left (some f) = length f

abbrev is_some : File → Bool
is_some none = false
is_some (some f) = true

abbrev read_string_until : File → List ℕ × File
read_string_until none = ([], none)
read_string_until (some f) = let (line, rest) = split_line f in (line, some rest)

abbrev read_byte : File → ℕ × File
read_byte none = (0, none)
read_byte (some []) = (0, some [])
read_byte (some (b ∷ f)) = (b, some f)

abbrev files : Files File (List ℕ)
files = record {
  bytes_left = bytes_left;
  is_open = is_some;
  read_string_until = read_string_until;
  read = read_byte;
  trim = trim_left;
  line_length = length;
}

takes : TakesLine files
takes none h = absurd (omega arith)
takes (some []) h = absurd (omega arith)
takes (some (b ∷ f)) h = let l = split_line-le f in ground arith

abbrev no_move : MotionCmd ℕ
no_move = record {
  x_counts = pos 0;
  y_counts = pos 0;
  z_counts = pos 0;
  a_counts = pos 0;
  speed_mm_s = 0;
}

abbrev Board : Type 0
Board = Machine ℕ ℕ

abbrev move_once : List ℕ → Board → Board × Bool
move_once line m =
    let (b, done) = push (λ axis p. pos p) granted (length line) 0 0 0 7 m.buffer in
    (record m { buffer = b }, done)

abbrev services : Services (List ℕ) ℕ ℕ
services = record {
  process_command = move_once;
  enable_buffer = λ m. m;
  end_session = λ m. m;
  alert_job_complete = λ m. record m { other = 1 };
  motion_pause = λ m. m;
  motion_resume = λ m. m;
  motion_stop = λ m. m;
}

adds : AddsOne files services
unfolding push push_unsafe
adds line m = ground arith

abbrev board : Board
board = record {
  buffer = record { buffer = replicate 1024 no_move; head = 0; tail = 0; count = 0 };
  other = 0;
}

-- `G0`, an empty line and ` M2`.
abbrev program : File
program = some (71 ∷ 48 ∷ 10 ∷ 10 ∷ 32 ∷ 77 ∷ 50 ∷ 10 ∷ [])

abbrev running : JobManager File (List ℕ)
running = record {
  job_file = program;
  status = record {
    filename = 106 ∷ [];
    total_lines = 3;
    current_line = 0;
    start_time = 100;
    duration_ms = 0;
    state = job_running;
  };
  file_open = true;
  handed = [];
}

-- The job that the constructor makes.
abbrev fresh : JobManager File (List ℕ)
fresh = record {
  job_file = none;
  status = record {
    filename = replicate 64 0;
    total_lines = 0;
    current_line = 0;
    start_time = 0;
    duration_ms = 0;
    state = job_idle;
  };
  file_open = false;
  handed = [];
}

abbrev drain : Board → Board
drain m = record m { buffer = clear granted m.buffer }

drain-le : (m : Board) → (drain m).buffer.count ≤ 1019
unfolding clear
drain-le m = omega arith

closed : ClosedIsEmpty files services
closed none e = refl
closed (some f) e = absurd (ground arith)

fresh-IsSound : IsSound files services fresh
fresh-IsSound = record {
  open_iff = refl;
  read = λ e. absurd (ground arith);
  no_error = λ e. ground arith;
}

rounds_complete_example :
    (rounds files services ((drain, 120) ∷ (drain, 130) ∷ []) running board).0.status.state
    ≡ job_completed
rounds_complete_example =
    rounds_complete files services ((drain, 120) ∷ (drain, 130) ∷ []) running board takes adds
      (drain-le, (drain-le, tt)) refl refl (omega arith)

happen_all-Progress_example :
    let (j', m') =
      happen_all files services
        (tick (λ _. granted) 110
          ∷ pause
          ∷ tick (λ _. granted) 120
          ∷ resume
          ∷ elsewhere drain
          ∷ tick (λ _. timed_out) 130
          ∷ abort timed_out
          ∷ [])
        (running, board) in
    Progress files running j' × IsRead files j'
happen_all-Progress_example =
    happen_all-Progress files services
      (tick (λ _. granted) 110
        ∷ pause
        ∷ tick (λ _. granted) 120
        ∷ resume
        ∷ elsewhere drain
        ∷ tick (λ _. timed_out) 130
        ∷ abort timed_out
        ∷ [])
      running board (λ e. absurd (ground arith))

operate_all-IsSound_example :
    IsSound files services
      (operate_all files services
        (start granted 100 (106 ∷ []) true program program
          ∷ event (tick (λ _. granted) 110)
          ∷ start granted 120 (106 ∷ []) true none none
          ∷ event (abort granted)
          ∷ start timed_out 130 (106 ∷ []) true program none
          ∷ [])
        (fresh, board)).0
operate_all-IsSound_example =
    operate_all-IsSound files services
      (start granted 100 (106 ∷ []) true program program
        ∷ event (tick (λ _. granted) 110)
        ∷ start granted 120 (106 ∷ []) true none none
        ∷ event (abort granted)
        ∷ start timed_out 130 (106 ∷ []) true program none
        ∷ [])
      fresh board closed fresh-IsSound
