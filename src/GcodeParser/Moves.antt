-- ===== src/GcodeParser/Moves.antt =====
-- The commands of src/gcode_parser.cpp that move the machine: G0, G1, G28, G30 and G53. A handler
-- gives the parser, the machine and, where the code has one, its answer.
use bisso_e350_controller.Base.{
  ℕ, Bool, true, false, not, ◌&&◌, ◌||◌, if◌then◌else◌, ◌==◌, Option, none, some,
}
use bisso_e350_controller.Base.Int.{ℤ, pos, negsuc}
use bisso_e350_controller.MotionBuffer.Ring.{is_full, push}
use bisso_e350_controller.JobManager.Streaming.{Machine}
use bisso_e350_controller.GcodeParser.Text.{Bytes}
use bisso_e350_controller.GcodeParser.Syntax.{Numbers}
use bisso_e350_controller.GcodeParser.State.{
  GcodeParser, Moment, Surroundings, parse_code, has_code, offset, is_absolute, is_given,
}

abbrev pub on_other : {F M : Type 0} → (M → M) → Machine F M → Machine F M
on_other f m = record m { other = f m.other }

-- A call with an answer.
abbrev pub ask_other : {F M : Type 0} → (M → M × Bool) → Machine F M → Machine F M × Bool
ask_other f m = let (o, answer) = f m.other in (record m { other = o }, answer)

-- The number that a value of a G code stands for, if it is one that is not negative.
abbrev pub code_number : ℤ → Option ℕ
code_number (pos n) = some n
code_number (negsuc n) = none

abbrev pub is_move : ℤ → Bool
is_move (pos n) = n == 0 || n == 1
is_move (negsuc n) = false

module _ {F D M : Type 0} (num : Numbers F D) (to_counts : ℕ → F → ℤ) (around : Surroundings F M)
    (t : Moment) where
  unfoldable pub push_move : F → F → F → F → GcodeParser F → Machine F M → Machine F M × Bool
  unfolding is_full push
  push_move x y z a g m =
      if (around.readings m.other).buffer_enabled
      then (if not (is_full t.full_lock m.buffer)
          then (
            record m {
              buffer = (push to_counts t.push_lock x y z a g.current_feed_rate m.buffer).0;
            },
            true,
          )
          else (m, false))
      else ask_other (around.motion_move_absolute x y z a g.current_feed_rate) m

  -- A positive feed rate of the line is kept.
  abbrev pub with_feed : Option F → GcodeParser F → GcodeParser F
  with_feed none g = g
  with_feed (some f) g =
      if num.exceeds f (num.of_int 0) then record g { current_feed_rate = f } else g

  -- The target of an axis on the machine's scale, from the requested value and the position.
  unfoldable pub target_of : GcodeParser F → ℕ → Option F → F → F
  target_of g axis none current = current
  target_of g axis (some v) current =
      if is_absolute g.distance_mode
      then (if g.machine_coordinates_mode then v else num.add v (offset num g.current_wcs axis g))
      else num.add current v

  unfoldable pub handle_g0_g1 :
      Bytes → GcodeParser F → Machine F M → GcodeParser F × Machine F M × Bool
  unfolding parse_code target_of push_move
  handle_g0_g1 line g₀ m =
      let g = with_feed (parse_code num line b'F') g₀ in
      let x = parse_code num line b'X' in
      let y = parse_code num line b'Y' in
      let z = parse_code num line b'Z' in
      let a = parse_code num line b'A' in
      let at = (around.readings m.other).position_mm in
      let tx = target_of g 0 x (at 0) in
      let ty = target_of g 1 y (at 1) in
      let tz = target_of g 2 z (at 2) in
      let ta = target_of g 3 a (at 3) in
      let (m', answer) = push_move tx ty tz ta g m in
      if not (is_given x || is_given y || is_given z || is_given a)
      then (g, m, true)
      else if num.apart tx (at 0)
          || num.apart ty (at 1)
          || num.apart tz (at 2)
          || num.apart ta (at 3)
      then (g, m', answer)
      else (g, m, true)

  -- Home an axis, unless it is not wanted; the answer tells whether the sequence goes on.
  abbrev pub home_axis : Bool → ℕ → Machine F M → Machine F M × Bool
  home_axis true axis m = ask_other (around.motion_home axis) m
  home_axis false axis m = (m, true)

  -- The sequence Z, Y, X. The A axis has no motor and is left out.
  unfoldable pub home_sequence : Bool → Bool → Bool → Machine F M → Machine F M
  home_sequence x y z m =
      let (m₁, z_ok) = home_axis z 2 m in
      let (m₂, y_ok) = home_axis y 1 m₁ in
      if not z_ok then m₁ else if not y_ok then m₂ else (home_axis x 0 m₂).0

  unfoldable pub handle_g28 : Bytes → Machine F M → Machine F M
  unfolding has_code home_sequence
  handle_g28 line m =
      let x = has_code line b'X' in
      let y = has_code line b'Y' in
      let z = has_code line b'Z' in
      let every = not (x || y || z || has_code line b'A') in
      if not (around.readings m.other).home_enabled
      then m
      else home_sequence (x || every) (y || every) (z || every) m

  abbrev pub go_to : ℤ → GcodeParser F → Machine F M → Machine F M
  go_to (pos n) g m =
      let at = (around.readings m.other).preset n in
      if n == 0 || n == 1 then (push_move (at 0) (at 1) (at 2) (at 3) g m).0 else m
  go_to (negsuc n) g m = m

  abbrev pub or_zero : Option F → F
  or_zero none = num.of_int 0
  or_zero (some v) = v

  unfoldable pub handle_g30 : Bytes → GcodeParser F → Machine F M → Machine F M
  unfolding parse_code push_move
  handle_g30 line g m = go_to (num.trunc (or_zero (parse_code num line b'P'))) g m

  abbrev pub moves_in_g53 : Option F → Bool
  moves_in_g53 none = false
  moves_in_g53 (some v) = is_move (num.trunc v)

  unfoldable pub handle_g53 : Bytes → GcodeParser F → Machine F M → GcodeParser F × Machine F M
  unfolding parse_code has_code handle_g0_g1
  handle_g53 line g m =
      let entered = record g { machine_coordinates_mode = true } in
      let (g', m', answer) = handle_g0_g1 line entered m in
      if has_code line b'G' && moves_in_g53 (parse_code num line b'G')
      then (record g' { machine_coordinates_mode = false }, m')
      else (record entered { machine_coordinates_mode = false }, m)
