-- ===== src/GcodeParser/Behaviour.antt =====
-- What some lines of G-code come to in src/gcode_parser.cpp, with the homing of
-- src/motion_control.cpp.
use bisso_e350_controller.Base.{
  ℕ, ◌≤◌, ◌<◌, ◌≡◌, ◌≢◌, refl, ap, ap₂, ◌∙◌, inl, inr, Bool, true, false, not, ◌&&◌, ◌||◌,
  if◌then◌else◌, ltb, ◌==◌, Option, Option-cases, none, some, ◌∷◌, length, arith,
}
use bisso_e350_controller.Base.Int.{ℤ, pos, negsuc}
use bisso_e350_controller.MotionBuffer.Ring.{Lock}
use bisso_e350_controller.JobManager.Streaming.{Machine}
use bisso_e350_controller.Motion.Types.{Context, no_axis, motion_axes, homing_approach_fast}
use bisso_e350_controller.Motion.Fsm.{transition_to}
use bisso_e350_controller.Motion.Control.{Motion, axis_at, set_active, transition_axis, motion_home}
use bisso_e350_controller.GcodeParser.Text.{
  Bytes, strchr, skip_spaces, signed, unsigned, read_digits,
}
use bisso_e350_controller.GcodeParser.Syntax.{Numbers, SyntaxError, validate_gcode_syntax}
use bisso_e350_controller.GcodeParser.State.{
  GcodeParser, Moment, Surroundings, parse_code, has_code,
}
use bisso_e350_controller.GcodeParser.Moves.{
  on_other, is_move, handle_g0_g1, home_sequence, handle_g28, handle_g53,
}
use bisso_e350_controller.GcodeParser.Commands.{is_remark}
use bisso_e350_controller.GcodeParser.Dispatch.{run_g, run_code, run_valid, is_117, process_command}

home-keeps_active :
    (now : ℕ) (c : Context)
    → (transition_to now homing_approach_fast c).0.shared.active_axis ≡ c.shared.active_axis
unfolding transition_to
home-keeps_active now c = ground arith

home_busy :
    (now profile axis : ℕ) (m : Motion)
    → m.shared.active_axis ≢ no_axis
    → motion_home true now profile axis m ≡ (m, false)
unfolding motion_home
home_busy now profile axis m h = ground arith

home-active :
    (now profile axis : ℕ) (m : Motion)
    → axis < 4
    → m.shared.active_axis ≡ no_axis
    → let (m', done) = motion_home true now profile axis m in
      (done ≡ true) × (m'.shared.active_axis ≡ axis)
unfolding motion_home transition_axis
home-active now profile axis m l h =
    let inside : ltb axis motion_axes ≡ true = ground arith in
    let free : (m.shared.active_axis == no_axis) ≡ true = ground arith in
    rw (inside, free)
      (
        refl,
        home-keeps_active now (record {
          axis = axis_at axis (set_active axis m);
          shared = (set_active axis m).shared;
        }),
      )

-- The lines that name no axis, or the Z axis and another one that has a motor.
abbrev pub wants_more : Bytes → Bool
wants_more line =
    not (has_code line b'X' || has_code line b'Y' || has_code line b'Z' || has_code line b'A')
    || (has_code line b'Z' && (has_code line b'X' || has_code line b'Y'))

module _ {F D : Type 0} (num : Numbers F D) (to_counts : ℕ → F → ℤ) (around : Surroundings F Motion)
    (t : Moment) where
  sequence_stops :
      (x y : Bool) (m : Machine F Motion) (homed : Motion)
      → around.motion_home 2 m.other ≡ (homed, true)
      → ((axis : ℕ) → around.motion_home axis homed ≡ (homed, false))
      → (x || y) ≡ true
      → home_sequence num to_counts around t x y true m ≡ record m { other = homed }
  unfolding home_sequence
  sequence_stops true true m homed z busy w = rw (z, busy 1) refl
  sequence_stops true false m homed z busy w = rw (z, busy 0) refl
  sequence_stops false true m homed z busy w = rw (z, busy 1) refl
  sequence_stops false false m homed z busy w = cc

  wanted-cases :
      (x y z a : Bool) (m : Machine F Motion) (homed : Motion)
      → around.motion_home 2 m.other ≡ (homed, true)
      → ((axis : ℕ) → around.motion_home axis homed ≡ (homed, false))
      → (not (x || y || z || a) || (z && (x || y))) ≡ true
      → let every = not (x || y || z || a) in
        home_sequence num to_counts around t (x || every) (y || every) (z || every) m
        ≡ record m { other = homed }
  wanted-cases true true true a m homed z busy w = sequence_stops true true m homed z busy refl
  wanted-cases true false true a m homed z busy w = sequence_stops true false m homed z busy refl
  wanted-cases false true true a m homed z busy w = sequence_stops false true m homed z busy refl
  wanted-cases false false true a m homed z busy w = cc
  wanted-cases true y false a m homed z busy w = cc
  wanted-cases false true false a m homed z busy w = cc
  wanted-cases false false false true m homed z busy w = cc
  wanted-cases false false false false m homed z busy w =
      sequence_stops true true m homed z busy refl

  -- G28 for all axes, or for Z and another axis with a motor, homes the Z axis only: `motionHome`
  -- comes back while the axis still moves, and refuses the next one because the motor is in use.
  pub handle_g28-one_axis :
      (now profile : ℕ) (line : Bytes) (m : Machine F Motion)
      → ((axis : ℕ) (o : Motion) → around.motion_home axis o ≡ motion_home true now profile axis o)
      → (around.readings m.other).home_enabled ≡ true
      → m.other.shared.active_axis ≡ no_axis
      → wants_more line ≡ true
      → handle_g28 num to_counts around t line m
        ≡ record m { other = (motion_home true now profile 2 m.other).0 }
  unfolding handle_g28
  handle_g28-one_axis now profile line m h e f w =
      let homed = (motion_home true now profile 2 m.other).0 in
      let (done, active) = home-active now profile 2 m.other (omega arith) f in
      let z : around.motion_home 2 m.other ≡ (homed, true) =
        h 2 m.other ∙ ap (λ (b : Bool). (homed, b)) done in
      let busy : (axis : ℕ) → around.motion_home axis homed ≡ (homed, false) =
        λ axis. h axis homed ∙ home_busy now profile axis homed (omega (arith, active)) in
      rw e (
        wanted-cases (has_code line b'X') (has_code line b'Y') (has_code line b'Z')
          (has_code line b'A') m homed z busy w)

module _ {F D M : Type 0} (num : Numbers F D) (to_counts : ℕ → F → ℤ) (around : Surroundings F M)
    (t : Moment) (clear_lock : Lock) where
  process-code :
      (c : ℕ) (s : Bytes) (v : F) (g : GcodeParser F) (m : Machine F M)
      → is_remark (c ∷ s) ≡ false
      → validate_gcode_syntax num (c ∷ s) ≡ none
      → parse_code num (c ∷ s) b'G' ≡ some v
      → process_command num to_counts around t clear_lock (c ∷ s) g m
        ≡ run_code num to_counts around t clear_lock (c ∷ s) (some v) g m
  unfolding process_command
  process-code c s v g m r ok e =
      ap₂
        (λ (b : Bool) (found : Option SyntaxError).
          if b then (g, m, true) else run_valid num to_counts around t clear_lock found (c ∷ s) g m)
        r ok
      ∙ ap (λ (o : Option F). run_code num to_counts around t clear_lock (c ∷ s) o g m) e

  first-number :
      (line : Bytes) (v : F) → parse_code num line b'G' ≡ some v → has_code line b'G' ≡ true
  unfolding parse_code has_code
  first-number line v e = elim (Option-cases (strchr b'G' line)) [
    | inl gone ↦ let h = rw gone at e in cc
    | inr (rest, found) ↦ rw found refl
  ]

  g53-run :
      (line : Bytes) (v : F) (g : GcodeParser F) (m : Machine F M)
      → parse_code num line b'G' ≡ some v
      → num.trunc v ≡ pos 53
      → handle_g53 num to_counts around t line g m
        ≡ (record g { machine_coordinates_mode = false }, m)
  unfolding handle_g53
  g53-run line v g m e k = rw (first-number line v e, e, k) refl

  run_g-move :
      (line : Bytes) (n : ℤ) (g : GcodeParser F) (m : Machine F M)
      → is_move n ≡ true
      → run_g num to_counts around t clear_lock line n g m
        ≡ handle_g0_g1 num to_counts around t line g m
  unfolding run_g
  run_g-move line (pos n) g m h = rw h refl
  run_g-move line (negsuc n) g m h = cc

  move-is_117 : (n : ℤ) → is_move n ≡ true → is_117 num to_counts around t clear_lock n ≡ false
  move-is_117 (pos n) h = ground arith
  move-is_117 (negsuc n) h = refl

  -- A line whose first G is G53 moves nothing, whatever stands behind it: the handler looks for the
  -- G0 or G1 of the line at its first G again. A line that the syntax check lets pass changes the
  -- text of the current command alone, and is answered with true.
  pub g53_moves_nothing :
      (c : ℕ) (s : Bytes) (v : F) (g : GcodeParser F) (m : Machine F M)
      → is_remark (c ∷ s) ≡ false
      → validate_gcode_syntax num (c ∷ s) ≡ none
      → parse_code num (c ∷ s) b'G' ≡ some v
      → num.trunc v ≡ pos 53
      → process_command num to_counts around t clear_lock (c ∷ s) g m ≡ (
        record g { machine_coordinates_mode = false },
        on_other (around.set_current_command (c ∷ s)) m,
        true,
      )
  unfolding run_g
  g53_moves_nothing c s v g m r ok e k =
      process-code c s v g m r ok e
      ∙ rw k (
          ap (λ (r : GcodeParser F × Machine F M). (r.0, r.1, true))
            (g53-run (c ∷ s) v g (on_other (around.set_current_command (c ∷ s)) m) e k))

  message-valid :
      (text : Bytes)
      → length text ≤ 123
      → validate_gcode_syntax num (b'M' ∷ b'1' ∷ b'1' ∷ b'7' ∷ b' ' ∷ text) ≡ none
  unfolding validate_gcode_syntax skip_spaces signed unsigned read_digits
  message-valid text h =
      let short : ltb 128 (length (b'M' ∷ b'1' ∷ b'1' ∷ b'7' ∷ b' ' ∷ text)) ≡ false =
        ground arith in
      rw short refl

  behind_m117 :
      (text : Bytes)
      → parse_code num (b'M' ∷ b'1' ∷ b'1' ∷ b'7' ∷ b' ' ∷ text) b'G' ≡ parse_code num text b'G'
  unfolding parse_code
  behind_m117 text = refl

  -- The text of an M117 message is searched for codes: M117 with a text of at most 123 bytes whose
  -- first G is followed by a number with the integer part 0 or 1 is run as this move, with the whole
  -- line for its codes, and the text is not shown.
  pub message_moves :
      (text : Bytes) (v : F) (g : GcodeParser F) (m : Machine F M)
      → length text ≤ 123
      → parse_code num text b'G' ≡ some v
      → is_move (num.trunc v) ≡ true
      → let line = b'M' ∷ b'1' ∷ b'1' ∷ b'7' ∷ b' ' ∷ text in
        process_command num to_counts around t clear_lock line g m
        ≡ handle_g0_g1 num to_counts around t line g (on_other (around.set_current_command line) m)
  message_moves text v g m l e k =
      let line = b'M' ∷ b'1' ∷ b'1' ∷ b'7' ∷ b' ' ∷ text in
      process-code b'M' (b'1' ∷ b'1' ∷ b'7' ∷ b' ' ∷ text) v g m refl (message-valid text l)
        (behind_m117 text ∙ e)
      ∙ rw (move-is_117 (num.trunc v) k) (run_g-move line (num.trunc v) g _ k)
