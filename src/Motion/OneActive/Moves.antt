-- ===== src/Motion/OneActive/Moves.antt =====
-- A move (`motionMoveAbsolute` of src/motion_control.cpp) keeps the other axes at rest.
use bisso_e350_controller.Base.{
  branch, ℕ, suc, ◌+◌, ◌<◌, ◌≤◌, ◌≡◌, refl, inl, Bool, false, not, ◌||◌, ◌==◌, Option, none, some,
  List, [], ◌∷◌, arith, length, length-set, ltb,
}
use bisso_e350_controller.Base.Int.{ℤ}
use bisso_e350_controller.Motion.Types.{wait_consenso, no_axis, motion_axes, distance}
use bisso_e350_controller.Motion.Control.{
  beyond_limits, set_target, Motion, axis_at, on_axis, select_target, aim_axis, try_move,
  move_begin, move_end, motion_move_absolute,
}
use bisso_e350_controller.Motion.OneActive.{OneActive, RestBut-set}
use bisso_e350_controller.Motion.OneActive.Guards.{
  Good, all_rest, start-OneActive, transition-OneActive,
}

-- The axis that a move chooses is one of the requested ones.
abbrev Within : ℕ → ℕ × Option (ℕ × ℤ) → Type 0
Within n found = (j : ℕ) (t : ℤ) → found.1 ≡ some (j, t) → j < n

within_some :
    (n i cnt j : ℕ) (x t : ℤ) → i < n → ◌≡◌ {A = Option (ℕ × ℤ)} (some (i, x)) (some (j, t)) → j < n
within_some n i cnt j x t h e = ground arith

select_target-Within :
    (i : ℕ) (requests : List (ℤ × ℤ)) (found : ℕ × Option (ℕ × ℤ)) (n : ℕ)
    → i + length requests ≤ n
    → Within n found
    → Within n (select_target i requests found)
unfolding select_target
select_target-Within i [] found n h k = k
select_target-Within i ((x, y) ∷ requests) (cnt, chosen) n h k =
    select_target-Within (suc i) requests _ n (omega arith) (
      branch (Within n) (ltb 1 (distance x y)) (cnt + 1, some (i, x)) (cnt, chosen)
        (λ _ j t e. within_some n i cnt j x t (omega arith) e) (λ _. k))

aim-OneActive :
    (now : ℕ) (predicted : ℤ) (profile i : ℕ) (t : ℤ) (m : Motion)
    → i < motion_axes
    → m.shared.active_axis ≡ no_axis
    → OneActive m
    → OneActive (aim_axis now predicted profile i t m)
unfolding aim_axis
aim-OneActive now predicted profile i t m lt n h =
    transition-OneActive now wait_consenso i (on_axis i (set_target t predicted profile i) m) refl
      lt
      (record {
        four = rw (length-set m.axes i _) h.four;
        in_range = inl lt;
        others_rest = RestBut-set i 0 i m.axes _ (omega arith) (all_rest m h n i);
      })

test_accept : (a cnt : ℕ) → (ltb 1 cnt || cnt == 0 || not (a == no_axis)) ≡ false → a ≡ no_axis
test_accept a cnt h = ground arith

try-OneActive :
    (now : ℕ) (predicted : ℤ) (profile : ℕ) (found : ℕ × Option (ℕ × ℤ)) (m : Motion)
    → Within motion_axes found
    → OneActive m
    → OneActive (try_move now predicted profile found m).0
unfolding try_move
try-OneActive now predicted profile (cnt, none) m k h = h
try-OneActive now predicted profile (cnt, some (i, t)) m k h =
    branch (λ (r : Motion × Option (ℕ × Bool)). OneActive r.0)
      (ltb 1 cnt || cnt == 0 || not (m.shared.active_axis == no_axis)) _ _ (λ _. h)
      λ n.
        branch (λ (r : Motion × Option (ℕ × Bool)). OneActive r.0) (beyond_limits (axis_at i m) t) _
          _ (λ _. h)
          λ _.
            aim-OneActive now predicted profile i t m (k i t refl)
              (test_accept m.shared.active_axis cnt n) h

begin-OneActive :
    (g : Bool) (now : ℕ) (predicted : ℤ) (profile : ℕ) (requests : List (ℤ × ℤ)) (m : Motion)
    → length requests ≤ motion_axes
    → OneActive m
    → OneActive (move_begin g now predicted profile requests m).0
unfolding move_begin
begin-OneActive g now predicted profile requests m r h =
    branch (λ (r : Motion × Option (ℕ × Bool)). OneActive r.0) (not m.global_enabled) _ _ (λ _. h)
      λ _.
        branch (λ (r : Motion × Option (ℕ × Bool)). OneActive r.0) (not g) _ _ (λ _. h)
          λ _.
            try-OneActive now predicted profile (select_target 0 requests (0, none)) m
              (select_target-Within 0 requests (0, none) motion_axes (omega arith) (λ j t e. cc)) h

end-OneActive :
    (profile : ℕ) (started : Option (ℕ × Bool)) (m : Motion)
    → OneActive m
    → Good (move_end profile started m)
unfolding move_end
end-OneActive profile none m h = h
end-OneActive profile (some (i, d)) m h = start-OneActive profile i d m h

pub move-OneActive :
    (g : Bool) (now : ℕ) (predicted : ℤ) (profile : ℕ) (requests : List (ℤ × ℤ)) (m : Motion)
    → length requests ≤ motion_axes
    → OneActive m
    → Good (motion_move_absolute g now predicted profile requests m)
unfolding motion_move_absolute
move-OneActive g now predicted profile requests m r h =
    end-OneActive profile _ _ (begin-OneActive g now predicted profile requests m r h)
