-- ===== src/Motion/OneActive/Positions.antt =====
-- Reading and setting the positions (src/motion_control.cpp) keeps at most one axis in motion.
use bisso_e350_controller.Base.{
  branch, ap, ◌∙◌, ℕ, suc, ◌≡◌, refl, ◌⊎◌, Bool, not, ◌==◌, List, [], ◌∷◌, arith, length,
}
use bisso_e350_controller.Base.Int.{ℤ}
use bisso_e350_controller.Motion.Types.{Axis, Context, Shared, no_axis}
use bisso_e350_controller.Motion.Control.{Motion}
use bisso_e350_controller.Motion.Limits.{
  check_soft_limits, read_positions, assign_positions, motion_set_position,
}
use bisso_e350_controller.Motion.OneActive.{RestBut, OneActive, AtRest}
use bisso_e350_controller.Motion.OneActive.Guards.{Good}

check-keeps :
    (strict : Bool) (c : Context)
    → let c' = (check_soft_limits strict c).0 in
      (c'.axis.state ≡ c.axis.state) × (c'.shared.active_axis ≡ c.shared.active_axis)
unfolding check_soft_limits
check-keeps strict c = ground arith

read-keeps :
    (strict : Bool) (encoder : ℕ → ℤ) (active i : ℕ) (axes : List Axis) (s : Shared)
    → RestBut active i axes
    → let (axes', s', hit) = read_positions strict encoder i axes s in
      RestBut active i axes' × (length axes' ≡ length axes) × (s'.active_axis ≡ s.active_axis)
unfolding read_positions
read-keeps strict encoder active i [] s r = (tt, refl, refl)
read-keeps strict encoder active i (a ∷ axes) s r =
    let c : Context = record { axis = record a { position = encoder i }; shared = s } in
    let next = check_soft_limits strict c in
    let (e, n) = check-keeps strict c in
    let (r', l, n') = read-keeps strict encoder active (suc i) axes next.0.shared r.1 in
    let first : (i ≡ active) ⊎ AtRest next.0.axis.state = rw e r.0 in
    branch {A = List Axis × Shared × Bool}
      (λ x.
        RestBut active i x.0 × (length x.0 ≡ suc (length axes)) × (x.1.active_axis ≡ s.active_axis))
      next.1 _ _ (λ _. ((first, r.1), refl, n)) (λ _. ((first, r'), ap suc l, n' ∙ n))

pub read-OneActive :
    (strict : Bool) (encoder : ℕ → ℤ) (m : Motion)
    → OneActive m
    → let (axes', s', hit) = read_positions strict encoder 0 m.axes m.shared in
      OneActive (record m { axes = axes'; shared = s' })
read-OneActive strict encoder m h =
    let (r, l, n) =
      read-keeps strict encoder m.shared.active_axis 0 m.axes m.shared h.others_rest in
    record { four = l ∙ h.four; in_range = rw n h.in_range; others_rest = rw n r }

assign-RestBut :
    (new_pos : ℕ → ℤ) (active i : ℕ) (axes : List Axis)
    → RestBut active i axes
    → RestBut active i (assign_positions new_pos i axes)
      × (length (assign_positions new_pos i axes) ≡ length axes)
unfolding assign_positions
assign-RestBut new_pos active i [] r = (tt, refl)
assign-RestBut new_pos active i (a ∷ axes) r =
    let (r', l) = assign-RestBut new_pos active (suc i) axes r.1 in ((r.0, r'), ap suc l)

pub set_position-OneActive :
    (got_mutex : Bool) (new_pos : ℕ → ℤ) (m : Motion)
    → OneActive m
    → OneActive (motion_set_position got_mutex new_pos m).0
unfolding motion_set_position
set_position-OneActive got_mutex new_pos m h =
    let (r, l) = assign-RestBut new_pos m.shared.active_axis 0 m.axes h.others_rest in
    let q : OneActive (record m { axes = assign_positions new_pos 0 m.axes }) = record {
      four = l ∙ h.four;
      in_range = h.in_range;
      others_rest = r;
    } in
    branch Good (not got_mutex) _ _ (λ _. h)
      (λ _. branch Good (not (m.shared.active_axis == no_axis)) _ _ (λ _. h) (λ _. q))
