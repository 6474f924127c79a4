-- ===== src/SafetyMonitor/Stalls.antt =====
-- What `safetyUpdate` of src/safety.cpp stops.
use bisso_e350_controller.Base.{
  ap, ◌∙◌, ◌&&◌, ℕ, zero, suc, ◌<◌, ◌≡◌, refl, sym, ◌⊎◌, inl, inr, true, false, if◌then◌else◌, ltb,
  branch, branches, elapsed, List, [], ◌∷◌, arith,
}
use mathlib.Core.Path.{subst}
use bisso_e350_controller.Motion.Types.{executing, ◌is◌}
use bisso_e350_controller.SafetyMonitor.Latch.{MotionSide, Watched, safety_report_stall}
use bisso_e350_controller.SafetyMonitor.Supervision.{
  watchdog_check, Seen, Checks, is_stalled, check_stalls, motion_checks, periodic_checks,
  safety_update,
}
use bisso_e350_controller.SafetyMonitor.Updates.{
  rest-keeps, last-keeps, current-keeps, motion_checks-keeps, stalls-keeps, stall-keeps,
}
use bisso_e350_controller.SafetyMonitor.Stops.{
  IsHalted, Waits, trigger-IsHalted, report-IsHalted, duration-IsHalted, trigger-Waits,
  report-Waits, duration-Waits, stall-halts, once-halts,
}

-- An axis is in a list.
abbrev Has : ℕ → List ℕ → Type 0
Has a [] = ⊥
Has a (x ∷ xs) = (x ≡ a) ⊎ Has a xs

is_one : (a : ℕ) → a < 4 → Has a (0 ∷ 1 ∷ 2 ∷ 3 ∷ [])
is_one zero l = inl refl
is_one (suc zero) l = inr (inl refl)
is_one (suc (suc zero)) l = inr (inr (inl refl))
is_one (suc (suc (suc zero))) l = inr (inr (inr (inl refl)))
is_one (suc (suc (suc (suc a)))) l = absurd (omega arith)

-- An update sees an axis that is executing with an error for longer than the limit.
pub record SeesStall {F M : Type 0} (side : MotionSide M) (o : Seen F) (axis : ℕ) (m : M)
    : Type 0 where
  pub inside : axis < 4
  pub runs : (side.motion_get_state axis m is executing) ≡ true
  pub lags : o.has_error axis ≡ true
  pub overdue : o.stall_timeout_ms < o.error_duration axis

module _ {F M : Type 0} (side : MotionSide M) where
  sees-is_stalled :
      (o : Seen F) (axis : ℕ) (r : Watched M)
      → SeesStall side o axis r.motion
      → is_stalled side o axis r ≡ true
  sees-is_stalled o axis r s =
      let late : ltb o.stall_timeout_ms (o.error_duration axis) ≡ true =
        let l = s.overdue in ground arith in
      rw (s.runs, s.lags, late) refl

  stalled_axis-halts :
      (m : M) (o : Seen F) (axis : ℕ) (r : Watched M)
      → SeesStall side o axis m
      → Waits side m r
      → IsHalted side
          (if is_stalled side o axis r then safety_report_stall side (o.turn axis) axis r else r)
  unfolding Waits
  stalled_axis-halts m o axis r s (inl (off, same)) =
      branch (IsHalted side) (is_stalled side o axis r) _ _
        (λ _. stall-halts side m (o.turn axis) axis r s.inside (inl (off, same)))
        (λ e.
          let seen =
            sees-is_stalled o axis r (subst (λ (n : M). SeesStall side o axis n) (sym same) s) in
          absurd (ground arith))
  stalled_axis-halts m o axis r s (inr h) =
      branches (IsHalted side) (is_stalled side o axis r) _ _
        (stall-halts side m (o.turn axis) axis r s.inside (inr h)) h

  axis-Waits :
      (m : M) (o : Seen F) (axis : ℕ) (r : Watched M)
      → Waits side m r
      → Waits side m
          (if is_stalled side o axis r then safety_report_stall side (o.turn axis) axis r else r)
  axis-Waits m o axis r w =
      branches (Waits side m) (is_stalled side o axis r) _ _
        (stall-keeps side (Waits side m) (trigger-Waits side m) (report-Waits side m)
          (duration-Waits side m) o axis axis r w)
        w

  stalls-halts :
      (m : M) (o : Seen F) (axis : ℕ) (axes : List ℕ) (r : Watched M)
      → SeesStall side o axis m
      → Has axis axes
      → Waits side m r
      → IsHalted side (check_stalls side o axes r)
  unfolding check_stalls
  stalls-halts m o axis [] r s h w = absurd h
  stalls-halts m o axis (x ∷ axes) r s (inl e) w =
      stalls-keeps side (IsHalted side) (trigger-IsHalted side) (report-IsHalted side)
        (duration-IsHalted side) o axes _
        (stalled_axis-halts m o x r (subst (λ (a : ℕ). SeesStall side o a m) (sym e) s) w)
  stalls-halts m o axis (x ∷ axes) r s (inr h) w =
      stalls-halts m o axis axes _ s h (axis-Waits m o x r w)

  check-halts :
      (o : Seen F) (axis : ℕ) (c : Checks F) (r : Watched M)
      → SeesStall side o axis r.motion
      → side.motion_is_moving r.motion ≡ true
      → r.monitor.alarm_active ≡ false
      → IsHalted side (motion_checks side o r)
  unfolding Waits
  check-halts o axis c r s moves off =
      let all : List ℕ = 0 ∷ 1 ∷ 2 ∷ 3 ∷ [] in
      branch (IsHalted side) (side.motion_is_moving r.motion) _ _
        (λ _.
          current-keeps side (IsHalted side) (trigger-IsHalted side) (report-IsHalted side)
            (duration-IsHalted side) o (check_stalls side o all r)
            (stalls-halts r.motion o axis all r s (is_one axis s.inside) (inl (off, refl))))
        (λ e. absurd (ground arith))

  stall_is_stopped :
      (o : Seen F) (axis : ℕ) (c : Checks F) (r : Watched M)
      → SeesStall side o axis r.motion
      → side.motion_is_moving r.motion ≡ true
      → r.monitor.alarm_active ≡ false
      → 500 < elapsed o.now c.last_stall_check
      → IsHalted side (safety_update side o c r).1
  unfolding safety_update
  stall_is_stopped o axis c r s moves off due =
      let is_due : ltb 500 (elapsed o.now c.last_stall_check) ≡ true = ground arith in
      last-keeps side (IsHalted side) (trigger-IsHalted side) (report-IsHalted side)
        (duration-IsHalted side) o
        (if ltb 500 (elapsed o.now c.last_stall_check)
          then periodic_checks side o c r
          else (c, r)).1
        (rw is_due (
          rest-keeps side (IsHalted side) (trigger-IsHalted side) (report-IsHalted side)
            (duration-IsHalted side) o c r (check-halts o axis c r s moves off)))

  silence-halts :
      (m : M) (o : Seen F) (r : Watched M)
      → Waits side m r
      → side.motion_is_moving m ≡ true
      → o.watchdog ≡ true
      → IsHalted side (watchdog_check side o r)
  unfolding Waits
  silence-halts m o r (inl (off, same)) moves silent =
      let still_moves : side.motion_is_moving r.motion ≡ true =
        ap side.motion_is_moving same ∙ moves in
      rw (still_moves, silent)
        (once-halts side m (o.turn 8) r (inl (off, same)) (λ on. absurd (ground arith)))
  silence-halts m o r (inr h) moves silent =
      branches (IsHalted side) (side.motion_is_moving r.motion && o.watchdog) _ _
        (once-halts side m (o.turn 8) r (inr h) (λ _. h)) h

  silence_is_stopped :
      (o : Seen F) (c : Checks F) (r : Watched M)
      → side.motion_is_moving r.motion ≡ true
      → r.monitor.alarm_active ≡ false
      → o.watchdog ≡ true
      → IsHalted side (safety_update side o c r).1
  unfolding safety_update Waits
  silence_is_stopped o c r moves off silent =
      let m = r.motion in
      let P = Waits side m in
      let r₁ =
        (if ltb 500 (elapsed o.now c.last_stall_check)
          then periodic_checks side o c r
          else (c, r)).1 in
      let w : P r₁ =
        branches {A = Checks F × Watched M} (λ q. Waits side m q.1)
          (ltb 500 (elapsed o.now c.last_stall_check)) _ _
          (rest-keeps side P (trigger-Waits side m) (report-Waits side m) (duration-Waits side m) o
            c r
            (motion_checks-keeps side P (trigger-Waits side m) (report-Waits side m)
              (duration-Waits side m) o r (inl (off, refl))))
          (inl (off, refl)) in
      let h = silence-halts m o r₁ w moves silent in
      let r₂ = watchdog_check side o r₁ in
      branches (IsHalted side) r₂.monitor.alarm_active _ _
        (duration-IsHalted side (elapsed o.now r₂.monitor.alarm_trigger_time) r₂ h) h

  -- An update with no alarm active and the machine moving leaves the alarm pin high and the machine
  -- still when the watchdog of the bus has run out, or when its checks are due and it sees an axis
  -- executing with an encoder error for longer than the limit, whatever else it sees and whether or
  -- not it gets the mutex.
  pub update_stops :
      (o : Seen F) (axis : ℕ) (c : Checks F) (r : Watched M)
      → side.motion_is_moving r.motion ≡ true
      → r.monitor.alarm_active ≡ false
      → (o.watchdog ≡ true)
        ⊎ (SeesStall side o axis r.motion × (500 < elapsed o.now c.last_stall_check))
      → IsHalted side (safety_update side o c r).1
  update_stops o axis c r moves off (inl silent) = silence_is_stopped o c r moves off silent
  update_stops o axis c r moves off (inr (s, due)) = stall_is_stopped o axis c r s moves off due
