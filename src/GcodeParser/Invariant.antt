-- ===== src/GcodeParser/Invariant.antt =====
-- What every command of src/gcode_parser.cpp keeps: the shape of the offsets, and the room in the
-- motion buffer but for one command.
mod Kept
mod Moves
mod Others
use bisso_e350_controller.Base.{
  ℕ, zero, suc, ◌+◌, ◌-◌, ◌≤◌, ◌<◌, ◌≡◌, refl, sym, ap, ◌∙◌, Bool, true, false, not, ◌&&◌, ◌||◌,
  if◌then◌else◌, ltb, leb, ◌==◌, Bool-cases, branch, branches, Option, none, inl, inr, some, List,
  [], ◌∷◌, length, arith, u8,
}
use bisso_e350_controller.Base.Int.{ℤ, pos, negsuc}
use bisso_e350_controller.MotionBuffer.Ring.{
  MotionBuffer, Lock, no_mutex, timed_out, granted, is_full, push, push_unsafe, clear,
}
use bisso_e350_controller.JobManager.Streaming.{Machine}
use bisso_e350_controller.GcodeParser.Text.{Bytes, skip_blanks, strchr}
use bisso_e350_controller.GcodeParser.Syntax.{Numbers, SyntaxError, validate_gcode_syntax}
use bisso_e350_controller.GcodeParser.State.{
  GcodeParser, Moment, Surroundings, parse_code, has_code, is_given, axis_letters, absolute,
  relative,
}
use bisso_e350_controller.GcodeParser.Moves.{
  on_other, ask_other, push_move, with_feed, target_of, handle_g0_g1, home_axis, home_sequence,
  handle_g28, go_to, or_zero, handle_g30, moves_in_g53, handle_g53,
}
use bisso_e350_controller.GcodeParser.Commands.{
  is_remark, system_of, shift_and_save, shift_system, handle_g10, handle_g92, dwell_ms, handle_g4,
  handle_m0_m1, handle_m117, handle_m154, handle_m226, handle_m255, set_seconds, wait_for,
  wait_in_state, wait_on, show_message, is_20, value_or, natural, is_optional, pause_text,
}
use bisso_e350_controller.GcodeParser.Dispatch.{
  with_true, run_g, run_m, run_m_code, run_code, run_valid, is_117, process_command,
}
use bisso_e350_controller.GcodeParser.Offsets.{IsValid, shift_axes-IsValid}
use bisso_e350_controller.GcodeParser.Invariant.Kept.{AddsOne, Keeps, self, keep}
use bisso_e350_controller.GcodeParser.Invariant.Moves.{g0_g1-Keeps, g28-AddsOne, g30-AddsOne}
use bisso_e350_controller.GcodeParser.Invariant.Others.{
  g10-Keeps, g92-Keeps, g4-AddsOne, m0_m1-Keeps, m117-AddsOne, seconds-AddsOne, wait_on-AddsOne,
  clear-count,
}

system-range : (n : ℕ) → (leb 54 n && leb n 59) ≡ true → n - 54 < 6
system-range n h = ground arith

module _ {F D M : Type 0} (num : Numbers F D) (to_counts : ℕ → F → ℤ) (around : Surroundings F M)
    (t : Moment) (clear_lock : Lock) where
  g53-Keeps :
      (line : Bytes) (g : GcodeParser F) (m : Machine F M)
      → Keeps g m
          (with_true num to_counts around t clear_lock (handle_g53 num to_counts around t line g m))
  unfolding handle_g53
  g53-Keeps line g m =
      let entered = record g { machine_coordinates_mode = true } in
      let (w, c) = g0_g1-Keeps num to_counts around t line entered m in
      branches {A = GcodeParser F × Machine F M} (λ r. (IsValid g → IsValid r.0) × AddsOne m r.1)
        (has_code line b'G' && moves_in_g53 num to_counts around t (parse_code num line b'G')) _ _
        (
          (λ v.
              let u =
                w (record { rows = v.rows; width = v.width; system = v.system; safe = v.safe }) in
              record { rows = u.rows; width = u.width; system = u.system; safe = u.safe }),
          c,
        )
        (
          (λ v. record { rows = v.rows; width = v.width; system = v.system; safe = v.safe }),
          omega arith,
        )

  run_g-Keeps :
      (line : Bytes) (n : ℤ) (g : GcodeParser F) (m : Machine F M)
      → Keeps g m (run_g num to_counts around t clear_lock line n g m)
  unfolding run_g
  run_g-Keeps line (negsuc n) g m = (keep g, self m)
  run_g-Keeps line (pos n) g m =
      branches (Keeps g m) (n == 0 || n == 1) _ _ (g0_g1-Keeps num to_counts around t line g m) (
        branches (Keeps g m) (n == 4) _ _ (keep g, g4-AddsOne num around t line m)
          (branches (Keeps g m) (n == 10) _ _ (g10-Keeps num around t line g m) (
            branches (Keeps g m) (n == 28) _ _ (keep g, g28-AddsOne num to_counts around t line m)
              (branches (Keeps g m) (n == 30) _ _
                (keep g, g30-AddsOne num to_counts around t line g m)
                (branches (Keeps g m) (n == 53) _ _ (g53-Keeps line g m) (
                  branch (Keeps g m) (leb 54 n && leb n 59) _ _
                    (λ e. (
                      (λ v. record {
                        rows = v.rows;
                        width = v.width;
                        system = system-range n e;
                        safe = v.safe;
                      }),
                      self m,
                    ))
                    (λ _.
                      branches (Keeps g m) (n == 90) _ _
                        (
                          (λ v. record {
                            rows = v.rows;
                            width = v.width;
                            system = v.system;
                            safe = v.safe;
                          }),
                          self m,
                        )
                        (branches (Keeps g m) (n == 91) _ _
                          (
                            (λ v. record {
                              rows = v.rows;
                              width = v.width;
                              system = v.system;
                              safe = v.safe;
                            }),
                            self m,
                          )
                          (branches (Keeps g m) (n == 92) _ _ (g92-Keeps num around t line g m)
                            (keep g, self m))))))))))

  run_m-Keeps :
      (line : Bytes) (n : ℤ) (g : GcodeParser F) (m : Machine F M)
      → Keeps g m (run_m num to_counts around t clear_lock line n g m)
  unfolding run_m handle_m154 handle_m255 handle_m226
  run_m-Keeps line (negsuc n) g m = (keep g, self m)
  run_m-Keeps line (pos n) g m =
      branches (Keeps g m) (n == 0 || n == 1) _ _ (m0_m1-Keeps num around t line g m) (
        branches (Keeps g m) (n == 2) _ _ (keep g, self m)
          (branches (Keeps g m) (n == 3) _ _ (keep g, self m)
            (branches (Keeps g m) (n == 5) _ _ (keep g, self m)
              (branches (Keeps g m) (n == 8) _ _ (keep g, self m)
                (branches (Keeps g m) (n == 9) _ _ (keep g, self m)
                  (branches (Keeps g m) (n == 10) _ _ (keep g, self m)
                    (branches (Keeps g m) (n == 11) _ _ (keep g, self m)
                      (branches (Keeps g m) (n == 117) _ _
                        (keep g, m117-AddsOne num around t line m)
                        (branches (Keeps g m) (n == 114) _ _ (keep g, self m)
                          (branches (Keeps g m) (n == 115) _ _ (keep g, self m)
                            (branches (Keeps g m) (n == 154) _ _
                              (
                                keep g,
                                seconds-AddsOne num around t around.auto_report_set_interval
                                    (parse_code num line b'S') m,
                              )
                              (branches (Keeps g m) (n == 226) _ _
                                (
                                  keep g,
                                  wait_on-AddsOne num around t line (parse_code num line b'P') m,
                                )
                                (branches (Keeps g m) (n == 255) _ _
                                  (
                                    keep g,
                                    seconds-AddsOne num around t around.lcd_sleep_set_timeout
                                        (parse_code num line b'S') m,
                                  )
                                  (branches (Keeps g m) (n == 112) _ _
                                    (keep g, clear-count num around t clear_lock m)
                                    (keep g, self m)))))))))))))))

  m_code-Keeps :
      (line : Bytes) (v : Option F) (g : GcodeParser F) (m : Machine F M)
      → Keeps g m (run_m_code num to_counts around t clear_lock line v g m)
  m_code-Keeps line none g m = (keep g, self m)
  m_code-Keeps line (some x) g m = run_m-Keeps line (num.trunc x) g m

  code-Keeps :
      (line : Bytes) (v : Option F) (g : GcodeParser F) (m : Machine F M)
      → Keeps g m (run_code num to_counts around t clear_lock line v g m)
  code-Keeps line none g m = m_code-Keeps line (parse_code num line b'M') g m
  code-Keeps line (some x) g m =
      branches (Keeps g m) (is_117 num to_counts around t clear_lock (num.trunc x)) _ _
        (keep g, m117-AddsOne num around t line m)
        (run_g-Keeps line (num.trunc x) g (on_other (around.set_current_command line) m))

  valid-Keeps :
      (e : Option SyntaxError) (line : Bytes) (g : GcodeParser F) (m : Machine F M)
      → Keeps g m (run_valid num to_counts around t clear_lock e line g m)
  valid-Keeps (some e) line g m = (keep g, self m)
  valid-Keeps none line g m = code-Keeps line (parse_code num line b'G') g m

  command-Keeps :
      (line : Bytes) (g : GcodeParser F) (m : Machine F M)
      → Keeps g m (process_command num to_counts around t clear_lock line g m)
  unfolding process_command
  command-Keeps [] g m = (keep g, self m)
  command-Keeps (c ∷ s) g m =
      branches (Keeps g m) (is_remark (c ∷ s)) _ _ (keep g, self m)
        (valid-Keeps (validate_gcode_syntax num (c ∷ s)) (c ∷ s) g m)

  pub process_command-AddsOne :
      (line : Bytes) (g : GcodeParser F) (m : Machine F M)
      → AddsOne m (process_command num to_counts around t clear_lock line g m).1
  process_command-AddsOne line g m = (command-Keeps line g m).1

  -- Every line, whatever it holds and whatever the rest of the program answers, writes offsets only
  -- inside the array of six rows of four, leaves the array with this shape and the number of the
  -- current system below six, and brings at most one command into the motion buffer, when no write
  -- was outside before, the array had its shape and the number was below six.
  pub process_command-Keeps :
      (line : Bytes) (g : GcodeParser F) (m : Machine F M)
      → IsValid g
      → let (g', m', answer) = process_command num to_counts around t clear_lock line g m in
        IsValid g' × (m'.buffer.count ≤ m.buffer.count + 1)
  process_command-Keeps line g m v = let (w, c) = command-Keeps line g m in (w v, c)
