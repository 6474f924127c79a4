-- ===== src/Motion/Limits.antt =====
-- The positions and the soft limits in src/motion_control.cpp: `Axis::checkSoftLimits`, the loop of
-- `motionUpdate` over the encoders, and the commands that set positions and limits.
use bisso_e350_controller.Base.{
  ℕ, suc, Bool, true, false, not, ◌&&◌, ◌||◌, if◌then◌else◌, ltb, leb, ◌==◌, List, [], ◌∷◌,
}
use bisso_e350_controller.Base.Int.{ℤ, ltb_ℤ}
use bisso_e350_controller.Motion.Types.{
  idle, homing_approach_fast, state_number, ◌is◌, Axis, soft_limit_exceeded, fault, Shared, Context,
  emit, no_axis, motion_axes,
}
use bisso_e350_controller.Motion.Control.{Motion, axis_at, on_axis}

-- Outside the limits that the axis has, in a state that they hold for.
abbrev pub outside_limits : Axis → Bool
outside_limits a =
    (a.enabled && a.soft_limit_enabled)
    && ltb (state_number a.state) (state_number homing_approach_fast)
    && (ltb_ℤ a.position a.soft_limit_min || ltb_ℤ a.soft_limit_max a.position)

-- With the flag that the limit was hit, which is logged once.
unfoldable pub check_soft_limits : Bool → Context → Context × Bool
unfolding emit
check_soft_limits strict_mode c =
    let a = c.axis in
    let outside = ltb_ℤ a.position a.soft_limit_min || ltb_ℤ a.soft_limit_max a.position in
    let logged : Context = record {
      axis = record a { error_logged = true };
      shared = emit (fault soft_limit_exceeded) c.shared;
    } in
    if not a.enabled || not a.soft_limit_enabled
    then (c, false)
    else if leb (state_number homing_approach_fast) (state_number a.state)
    then (c, false)
    else if not outside
    then (record c { axis = record a { error_logged = false } }, false)
    else if not strict_mode
    then (c, false)
    else ((if a.error_logged then c else logged), true)

-- The loop of `motionUpdate` over the axes from number `i` on, with the positions of the encoders:
-- the axes and the shared state after it, and whether a limit was hit, which ends the loop.
unfoldable pub read_positions : Bool → (ℕ → ℤ) → ℕ → List Axis → Shared → List Axis × Shared × Bool
unfolding check_soft_limits
read_positions strict_mode encoder i [] s = ([], s, false)
read_positions strict_mode encoder i (a ∷ axes) s =
    let (c, hit) =
      check_soft_limits strict_mode
        (record { axis = record a { position = encoder i }; shared = s }) in
    let (axes', s', hit') = read_positions strict_mode encoder (suc i) axes c.shared in
    if hit then (c.axis ∷ axes, c.shared, true) else (c.axis ∷ axes', s', hit')

-- The loop of `motionSetPosition`, with the new positions in counts.
unfoldable pub assign_positions : (ℕ → ℤ) → ℕ → List Axis → List Axis
assign_positions new_pos i [] = []
assign_positions new_pos i (a ∷ axes) =
    record a { position = new_pos i; target_position = new_pos i }
    ∷ assign_positions new_pos (suc i) axes

unfoldable pub motion_set_position : Bool → (ℕ → ℤ) → Motion → Motion × Bool
unfolding assign_positions
motion_set_position got_mutex new_pos m =
    if not got_mutex
    then (m, false)
    else if not (m.shared.active_axis == no_axis)
    then (m, false)
    else (record m { axes = assign_positions new_pos 0 m.axes }, true)

abbrev pub with_limits : ℤ → ℤ → Context → Context
with_limits min_pos max_pos c = record c {
  axis = record c.axis { soft_limit_min = min_pos; soft_limit_max = max_pos };
}

unfoldable pub motion_set_soft_limits : ℕ → ℤ → ℤ → Motion → Motion
motion_set_soft_limits axis min_pos max_pos m =
    if ltb axis motion_axes then on_axis axis (with_limits min_pos max_pos) m else m

abbrev pub with_soft_limits : Bool → Context → Context
with_soft_limits enable c = record c { axis = record c.axis { soft_limit_enabled = enable } }

unfoldable pub motion_enable_soft_limits : ℕ → Bool → Motion → Motion
motion_enable_soft_limits axis enable m =
    if not (ltb axis motion_axes)
    then m
    else if not ((axis_at axis m).state is idle)
    then m
    else if m.global_enabled
    then m
    else on_axis axis (with_soft_limits enable) m
