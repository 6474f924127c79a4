-- ===== src/GcodeParser/Invariant/Moves.antt =====
-- The moves of src/gcode_parser.cpp keep the offsets and add one command at most.
use bisso_e350_controller.Base.{
  ℕ, ◌+◌, ◌≤◌, ◌≡◌, refl, ap, ◌∙◌, Bool, true, false, not, ◌||◌, ◌==◌, branches, Option, none, some,
  arith,
}
use bisso_e350_controller.Base.Int.{ℤ, pos, negsuc}
use bisso_e350_controller.MotionBuffer.Ring.{
  MotionBuffer, Lock, no_mutex, timed_out, granted, is_full, push, push_unsafe,
}
use bisso_e350_controller.JobManager.Streaming.{Machine}
use bisso_e350_controller.GcodeParser.Text.{Bytes}
use bisso_e350_controller.GcodeParser.Syntax.{Numbers}
use bisso_e350_controller.GcodeParser.State.{
  GcodeParser, Moment, Surroundings, parse_code, is_given,
}
use bisso_e350_controller.GcodeParser.Moves.{
  push_move, with_feed, handle_g0_g1, home_axis, home_sequence, handle_g28, go_to, or_zero,
  handle_g30,
}
use bisso_e350_controller.GcodeParser.Offsets.{IsValid}
use bisso_e350_controller.GcodeParser.Invariant.Kept.{AddsOne, Keeps}

module _ {F D M : Type 0} (num : Numbers F D) (to_counts : ℕ → F → ℤ) (around : Surroundings F M)
    (t : Moment) where
  push-count :
      (lock : Lock) (x y z a v : F) (m : Machine F M)
      → (push to_counts lock x y z a v m.buffer).0.count ≤ m.buffer.count + 1
  unfolding push push_unsafe
  push-count granted x y z a v m = ground arith
  push-count no_mutex x y z a v m = omega arith
  push-count timed_out x y z a v m = omega arith

  pub push_move-AddsOne :
      (x y z a : F) (g : GcodeParser F) (m : Machine F M)
      → AddsOne m (push_move num to_counts around t x y z a g m).0
  unfolding push_move
  push_move-AddsOne x y z a g m =
      branches {A = Machine F M × Bool} (λ r. AddsOne m r.0)
        (around.readings m.other).buffer_enabled _ _
        (branches {A = Machine F M × Bool} (λ r. AddsOne m r.0) (not (is_full t.full_lock m.buffer))
          _ _ (push-count t.push_lock x y z a g.current_feed_rate m) (omega arith))
        (omega arith)

  with_feed-IsValid :
      (f : Option F) (g : GcodeParser F)
      → IsValid g
      → IsValid (with_feed num to_counts around t f g)
  with_feed-IsValid none g v = v
  with_feed-IsValid (some f) g v =
      branches (λ (g : GcodeParser F). IsValid g) (num.exceeds f (num.of_int 0)) _ _
        (record { rows = v.rows; width = v.width; system = v.system; safe = v.safe }) v

  pub g0_g1-Keeps :
      (line : Bytes) (g : GcodeParser F) (m : Machine F M)
      → Keeps g m (handle_g0_g1 num to_counts around t line g m)
  unfolding handle_g0_g1
  g0_g1-Keeps line g m =
      let f : IsValid g → IsValid (with_feed num to_counts around t (parse_code num line b'F') g) =
        with_feed-IsValid (parse_code num line b'F') g in
      branches (Keeps g m)
        (not (
          is_given (parse_code num line b'X')
          || is_given (parse_code num line b'Y')
          || is_given (parse_code num line b'Z')
          || is_given (parse_code num line b'A')))
        _ _ (f, omega arith)
        (branches (Keeps g m) _ _ _
          (
            f,
            push_move-AddsOne _ _ _ _
                (with_feed num to_counts around t (parse_code num line b'F') g) m,
          )
          (f, omega arith))

  home_axis-count :
      (wanted : Bool) (axis : ℕ) (m : Machine F M)
      → (home_axis num to_counts around t wanted axis m).0.buffer ≡ m.buffer
  home_axis-count true axis m = refl
  home_axis-count false axis m = refl

  home_sequence-count :
      (x y z : Bool) (m : Machine F M)
      → (home_sequence num to_counts around t x y z m).buffer ≡ m.buffer
  unfolding home_sequence
  home_sequence-count x y z m =
      let (m₁, z_ok) = home_axis num to_counts around t z 2 m in
      let (m₂, y_ok) = home_axis num to_counts around t y 1 m₁ in
      let b₁ = home_axis-count z 2 m in
      let b₂ = home_axis-count y 1 m₁ ∙ b₁ in
      branches (λ (r : Machine F M). r.buffer ≡ m.buffer) (not z_ok) _ _ b₁
        (branches (λ (r : Machine F M). r.buffer ≡ m.buffer) (not y_ok) _ _ b₂
          (home_axis-count x 0 m₂ ∙ b₂))

  home_sequence-AddsOne :
      (x y z : Bool) (m : Machine F M) → AddsOne m (home_sequence num to_counts around t x y z m)
  home_sequence-AddsOne x y z m =
      let e = ap (λ (b : MotionBuffer F). b.count) (home_sequence-count x y z m) in omega arith

  pub g28-AddsOne :
      (line : Bytes) (m : Machine F M) → AddsOne m (handle_g28 num to_counts around t line m)
  unfolding handle_g28
  g28-AddsOne line m =
      branches (AddsOne m) (not (around.readings m.other).home_enabled) _ _ (omega arith)
        (home_sequence-AddsOne _ _ _ m)

  go_to-AddsOne :
      (n : ℤ) (g : GcodeParser F) (m : Machine F M) → AddsOne m (go_to num to_counts around t n g m)
  go_to-AddsOne (pos n) g m =
      branches (AddsOne m) (n == 0 || n == 1) _ _ (push_move-AddsOne _ _ _ _ g m) (omega arith)
  go_to-AddsOne (negsuc n) g m = omega arith

  pub g30-AddsOne :
      (line : Bytes) (g : GcodeParser F) (m : Machine F M)
      → AddsOne m (handle_g30 num to_counts around t line g m)
  unfolding handle_g30
  g30-AddsOne line g m =
      go_to-AddsOne (num.trunc (or_zero num to_counts around t (parse_code num line b'P'))) g m
