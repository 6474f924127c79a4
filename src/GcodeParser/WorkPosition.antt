-- ===== src/GcodeParser/WorkPosition.antt =====
-- The work position behind G92 in src/gcode_parser.cpp.
use bisso_e350_controller.Base.{
  ℕ, ◌<◌, ◌≡◌, refl, sym, ap, ◌∙◌, true, false, leb, ◌==◌, Option, none, some, arith,
}
use bisso_e350_controller.GcodeParser.Text.{Bytes}
use bisso_e350_controller.GcodeParser.Syntax.{Numbers}
use bisso_e350_controller.GcodeParser.State.{
  GcodeParser, Surroundings, parse_code, offset, axis_letters, get_work_position,
}
use bisso_e350_controller.JobManager.Streaming.{Machine}
use bisso_e350_controller.GcodeParser.Commands.{shift_axes, handle_g92}
use bisso_e350_controller.GcodeParser.Offsets.{
  IsValid, letter_of, moved, shift_axes-system, shift_axes_lem,
}

module _ {F D : Type 0} (num : Numbers F D) where
  at_work :
      (a : ℕ) (mpos : F) (g : GcodeParser F)
      → a < 4
      → get_work_position num a mpos g ≡ num.sub mpos (offset num g.current_wcs a g)
  unfolding get_work_position
  at_work a mpos g k = let inside : leb 4 a ≡ false = ground arith in rw inside refl

  -- The work position behind a value that a line gives, or the one before.
  abbrev pub shown : F → F → Option F → F
  shown at before none = before
  shown at before (some v) = num.sub at (num.sub at v)

  behind_shift :
      (at old : F) (found : Option F)
      → num.sub at (moved num at found old) ≡ shown at (num.sub at old) found
  behind_shift at old none = refl
  behind_shift at old (some v) = refl

module _ {F D M : Type 0} (num : Numbers F D) (around : Surroundings F M) where
  g92-shift :
      (line : Bytes) (g : GcodeParser F) (m : Machine F M)
      → (handle_g92 num around line g m).0
        ≡ shift_axes num line g.current_wcs (around.readings m.other).position_mm axis_letters g
  unfolding handle_g92
  g92-shift line g m = refl

  -- Behind G92, the work position of an axis that the line gives a value is the machine's position
  -- less the difference of that position and the value, as the source's numbers compute it, and that
  -- of each other axis is what it was; the current system stays, and so do the offsets of each other
  -- system. This holds for each of the four axes, when the array has its shape, the current system is
  -- one of its six and no write was outside.
  pub work-position :
      (line : Bytes) (a other : ℕ) (g : GcodeParser F) (m : Machine F M)
      → IsValid g
      → a < 4
      → (g.current_wcs == other) ≡ false
      → let at = (around.readings m.other).position_mm a in
        let g' = (handle_g92 num around line g m).0 in
        (get_work_position num a at g'
          ≡ shown num at (get_work_position num a at g) (parse_code num line (letter_of a)))
        × (g'.current_wcs ≡ g.current_wcs)
        × (offset num other a g' ≡ offset num other a g)
  work-position line a other g m v k differs =
      let at = (around.readings m.other).position_mm in
      let g' = shift_axes num line g.current_wcs at axis_letters g in
      let found = parse_code num line (letter_of a) in
      let itself : (g.current_wcs == g.current_wcs) ≡ true = ground arith in
      let system = shift_axes-system num line g.current_wcs at axis_letters g in
      let here = shift_axes_lem num line g.current_wcs at g.current_wcs a g v v.system k in
      let there = shift_axes_lem num line g.current_wcs at other a g v v.system k in
      rw (g92-shift line g m) (
        at_work num a (at a) g' k
            ∙ ap (λ (s : ℕ). num.sub (at a) (offset num s a g')) system
            ∙ ap (num.sub (at a)) (rw itself at here)
            ∙ behind_shift num (at a) (offset num g.current_wcs a g) found
            ∙ ap (λ (d : F). shown num (at a) d found) (sym (at_work num a (at a) g k)),
        system,
        rw differs at there,
      )
