-- ===== src/GcodeParser/Invariant/Others.antt =====
-- The other commands of src/gcode_parser.cpp keep the offsets and leave the motion buffer alone.
use bisso_e350_controller.Base.{
  ℕ, zero, suc, ◌+◌, ◌≤◌, ◌<◌, ◌≡◌, refl, Bool, ◌&&◌, ◌||◌, ltb, leb, ◌==◌, branches, Option, none,
  some, [], ◌∷◌, length, arith, u8,
}
use bisso_e350_controller.Base.Int.{ℤ, pos, negsuc}
use bisso_e350_controller.MotionBuffer.Ring.{Lock, no_mutex, timed_out, granted, clear}
use bisso_e350_controller.JobManager.Streaming.{Machine}
use bisso_e350_controller.GcodeParser.Text.{Bytes, strchr}
use bisso_e350_controller.GcodeParser.Syntax.{Numbers}
use bisso_e350_controller.GcodeParser.State.{
  GcodeParser, Moment, Surroundings, parse_code, axis_letters,
}
use bisso_e350_controller.GcodeParser.Commands.{
  system_of, shift_and_save, shift_system, handle_g10, handle_g92, handle_g4, handle_m0_m1,
  handle_m117, set_seconds, wait_for, wait_in_state, wait_on, show_message, is_20, value_or,
  natural, is_optional,
}
use bisso_e350_controller.GcodeParser.Offsets.{IsValid, shift_axes-IsValid, axis_letters-IsOrderly}
use bisso_e350_controller.GcodeParser.Invariant.Kept.{AddsOne, self, keep}

module _ {F D M : Type 0} (num : Numbers F D) (around : Surroundings F M) (t : Moment) where
  shift_and_save-Keeps :
      (line : Bytes) (system : ℕ) (g : GcodeParser F) (m : Machine F M)
      → (IsValid g → system < 6)
      → let (g', m') = shift_and_save num around line system g m in
        (IsValid g → IsValid g') × AddsOne m m'
  unfolding shift_and_save
  shift_and_save-Keeps line s g m l = (
    (λ v.
        shift_axes-IsValid num line s (around.readings m.other).position_mm axis_letters g v (l v)
          (axis_letters-IsOrderly num)),
    branches (AddsOne m) (leb s 5) _ _ (omega arith) (omega arith),
  )

  shift-Keeps :
      (line : Bytes) (system : Option ℕ) (g : GcodeParser F) (m : Machine F M)
      → ((s : ℕ) → system ≡ some s → s < 6)
      → let (g', m') = shift_system num around line system g m in
        (IsValid g → IsValid g') × AddsOne m m'
  shift-Keeps line none g m h = (keep g, omega arith)
  shift-Keeps line (some s) g m h = shift_and_save-Keeps line s g m (λ _. h s refl)

  system_of-lt : (n : ℤ) (s : ℕ) → system_of n ≡ some s → s < 6
  system_of-lt (pos zero) s e = cc
  system_of-lt (pos (suc n)) s e = ground arith
  system_of-lt (negsuc n) s e = cc

  pub g10-Keeps :
      (line : Bytes) (g : GcodeParser F) (m : Machine F M)
      → let (g', m') = handle_g10 num around line g m in (IsValid g → IsValid g') × AddsOne m m'
  unfolding handle_g10
  g10-Keeps line g m =
      let number = num.trunc (value_or num (num.of_int 1) (parse_code num line b'P')) in
      branches {A = GcodeParser F × Machine F M} (λ r. (IsValid g → IsValid r.0) × AddsOne m r.1)
        (is_20 num around (parse_code num line b'L')) _ _
        (shift-Keeps line (system_of number) g m (system_of-lt number)) (keep g, omega arith)

  pub g92-Keeps :
      (line : Bytes) (g : GcodeParser F) (m : Machine F M)
      → let (g', m') = handle_g92 num around line g m in (IsValid g → IsValid g') × AddsOne m m'
  unfolding handle_g92
  g92-Keeps line g m = shift_and_save-Keeps line g.current_wcs g m (λ v. v.system)

  pub g4-AddsOne : (line : Bytes) (m : Machine F M) → AddsOne m (handle_g4 num around line m)
  unfolding handle_g4
  g4-AddsOne line m = branches (AddsOne m) _ _ _ (self m) (self m)

  pub m0_m1-Keeps :
      (line : Bytes) (g : GcodeParser F) (m : Machine F M)
      → let (g', m') = handle_m0_m1 num around t.now line g m in
        (IsValid g → IsValid g') × AddsOne m m'
  unfolding handle_m0_m1
  m0_m1-Keeps line g m =
      branches {A = GcodeParser F × Machine F M} (λ r. (IsValid g → IsValid r.0) × AddsOne m r.1)
        (is_optional (strchr b'M' line) && (around.readings m.other).opt_stop_skip) _ _
        (keep g, self m)
        ((λ v. record { rows = v.rows; width = v.width; system = v.system; safe = v.safe }), self m)

  show-AddsOne : (text : Bytes) (m : Machine F M) → AddsOne m (show_message num around text m)
  show-AddsOne [] m = self m
  show-AddsOne (c ∷ s) m = self m

  pub m117-AddsOne : (line : Bytes) (m : Machine F M) → AddsOne m (handle_m117 num around line m)
  unfolding handle_m117
  m117-AddsOne line m = branches (AddsOne m) (ltb (length line) 4) _ _ (self m) (show-AddsOne _ m)

  pub seconds-AddsOne :
      (call : ℕ → M → M × Bool) (v : Option F) (m : Machine F M)
      → AddsOne m (set_seconds num around call v m)
  seconds-AddsOne call none m = self m
  seconds-AddsOne call (some v) m = branches (AddsOne m) _ _ _ (self m) (self m)

  wait_for-AddsOne :
      (pin type state timeout : ℕ) (m : Machine F M)
      → AddsOne m (wait_for num around pin type state timeout m)
  unfolding wait_for
  wait_for-AddsOne pin type state timeout m = branches (AddsOne m) (ltb 2 type) _ _ (self m) (
      branches (AddsOne m) ((type == 0 || type == 1) && ltb 7 pin) _ _ (self m)
        (branches (AddsOne m) (type == 2 && ltb 39 pin) _ _ (self m) (self m)))

  wait_in_state-AddsOne :
      (line : Bytes) (p : F) (s : Option F) (m : Machine F M)
      → AddsOne m (wait_in_state num around line p s m)
  unfolding wait_in_state
  wait_in_state-AddsOne line p none m = self m
  wait_in_state-AddsOne line p (some s) m =
      branches (AddsOne m) (num.equal s (num.of_int 0) || num.equal s (num.of_int 1)) _ _
        (wait_for-AddsOne (u8 (natural num p))
          (u8 (natural num (value_or num (num.of_int 0) (parse_code num line b'A'))))
          (u8 (natural num s))
          (natural num (value_or num (num.of_int 5) (parse_code num line b'T'))) m)
        (self m)

  pub wait_on-AddsOne :
      (line : Bytes) (p : Option F) (m : Machine F M) → AddsOne m (wait_on num around line p m)
  wait_on-AddsOne line none m = self m
  wait_on-AddsOne line (some p) m =
      branches (AddsOne m) (num.exceeds (num.of_int 0) p) _ _ (self m)
        (wait_in_state-AddsOne line p _ m)

  pub clear-count :
      (lock : Lock) (m : Machine F M) → (clear lock m.buffer).count ≤ m.buffer.count + 1
  unfolding clear
  clear-count granted m = omega arith
  clear-count no_mutex m = omega arith
  clear-count timed_out m = omega arith
