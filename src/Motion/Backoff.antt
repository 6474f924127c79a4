-- ===== src/Motion/Backoff.antt =====
-- How `motionUpdate` of src/motion_control.cpp gives way when it does not get the mutex, and when it
-- stops giving way.
use bisso_e350_controller.Base.{
  branch, ◌∙◌, ℕ, suc, ◌+◌, ◌<◌, ◌≡◌, true, false, if◌then◌else◌, leb, List, [], ◌∷◌, length, arith,
  All, u32,
}
use bisso_e350_controller.Base.Int.{ℤ}
use bisso_e350_controller.Motion.Types.{error, no_axis, is_driving}
use bisso_e350_controller.Motion.Control.{Motion}
use bisso_e350_controller.Motion.EmergencyStop.{emergency_stop_halts}
use bisso_e350_controller.Motion.Planner.{System}
use bisso_e350_controller.Motion.Update.{
  Backoff, Tick, timeout_ms, emergency_stop, skip_update, motion_update,
}

-- The level belongs to the number of failures, which is below that of the stop.
pub record IsPaced (b : Backoff) : Type 0 where
  pub bounded : b.consecutive_skips < 20
  pub level_of :
      b.backoff_level
      ≡ (if leb 10 b.consecutive_skips then 2 else if leb 3 b.consecutive_skips then 1 else 0)

-- What an update that does not get the mutex leaves as it was.
pub record IsUntouched {F : Type 0} (s s' : System F) : Type 0 where
  pub same_axes : s'.motion.axes ≡ s.motion.axes
  pub same_active : s'.motion.shared.active_axis ≡ s.motion.shared.active_axis
  pub same_enabled : s'.motion.global_enabled ≡ s.motion.global_enabled
  pub same_buffer : s'.buffer ≡ s.buffer
  pub same_driving : is_driving s'.motion.shared.outputs ≡ is_driving s.motion.shared.outputs

IsUntouched-trans :
    {F : Type 0} {s s' s'' : System F} → IsUntouched s s' → IsUntouched s' s'' → IsUntouched s s''
IsUntouched-trans u v = record {
  same_axes = v.same_axes ∙ u.same_axes;
  same_active = v.same_active ∙ u.same_active;
  same_enabled = v.same_enabled ∙ u.same_enabled;
  same_buffer = v.same_buffer ∙ u.same_buffer;
  same_driving = v.same_driving ∙ u.same_driving;
}

-- All axes in `error`, none active, motion disabled and no movement command in force.
abbrev pub Halted : Motion → Type 0
Halted m =
    All (λ a. a.state ≡ error) m.axes
    × (m.shared.active_axis ≡ no_axis)
    × (m.global_enabled ≡ false)
    × (is_driving m.shared.outputs ≡ false)

module _ {F : Type 0} where
  skip-count :
      (t : Tick) (b : Backoff) (s : System F)
      → b.consecutive_skips < 19
      → (skip_update t (b, s)).0.consecutive_skips ≡ suc b.consecutive_skips
  unfolding skip_update
  skip-count t b s lt = ground arith

  skip-IsPaced :
      (t : Tick) (b : Backoff) (s : System F) → IsPaced b → IsPaced (skip_update t (b, s)).0
  unfolding skip_update
  skip-IsPaced t b s p = ground arith

  skip-IsUntouched :
      (t : Tick) (b : Backoff) (s : System F)
      → b.consecutive_skips < 19
      → IsUntouched s (skip_update t (b, s)).1
  unfolding skip_update
  skip-IsUntouched t b s lt = ground arith

  skip-Halted :
      (t : Tick) (b : Backoff) (s : System F)
      → b.consecutive_skips ≡ 19
      → Halted (skip_update t (b, s)).1.motion
  unfolding skip_update emergency_stop
  skip-Halted t b s e =
      branch {A = Backoff × System F} (λ r. Halted r.1.motion)
        (leb 20 (u32 (b.consecutive_skips + 1))) _ _ (λ _. emergency_stop_halts t.now _)
        (λ f. absurd (ground arith))

abbrev pub NoMutex : List Tick → Type 0
NoMutex [] = Unit {0}
NoMutex (t ∷ ticks) = (t.got_mutex ≡ false) × NoMutex ticks

paced-timeout :
    (b : Backoff)
    → IsPaced b
    → timeout_ms b
      ≡ (if leb 10 b.consecutive_skips then 400 else if leb 3 b.consecutive_skips then 200 else 100)
unfolding timeout_ms
paced-timeout b p = ground arith

module _ {F : Type 0} (profile_of : ℕ → F → ℕ) (recount : ℕ → ℤ → ℤ) where
  -- The updates of a run, one after the other.
  abbrev pub update_all : List Tick → Backoff × System F → Backoff × System F
  update_all [] r = r
  update_all (t ∷ ticks) r = update_all ticks (motion_update profile_of recount t r)

  motion_update-IsPaced :
      (t : Tick) (b : Backoff) (s : System F)
      → IsPaced b
      → IsPaced (motion_update profile_of recount t (b, s)).0
  unfolding motion_update
  motion_update-IsPaced t b s p = ground (arith, skip-IsPaced t b s p)

  -- The number of failures and the level of the backoff belong together in every update: below 3
  -- failures the next wait for the mutex is of 100 ms, below 10 of 200 ms, then of 400 ms, and there
  -- are never 20.
  pub update-IsPaced :
      (t : Tick) (b : Backoff) (s : System F)
      → IsPaced b
      → let b' = (motion_update profile_of recount t (b, s)).0 in
        IsPaced b'
        × (timeout_ms b' ≡ (
            if leb 10 b'.consecutive_skips
            then 400
            else if leb 3 b'.consecutive_skips
            then 200
            else 100))
  update-IsPaced t b s p =
      let q = motion_update-IsPaced t b s p in
      (q, paced-timeout (motion_update profile_of recount t (b, s)).0 q)

  skip-update :
      (t : Tick) (b : Backoff) (s : System F)
      → s.motion.global_enabled ≡ true
      → t.got_mutex ≡ false
      → motion_update profile_of recount t (b, s) ≡ skip_update t (b, s)
  unfolding motion_update
  skip-update t b s en h = ground arith

  -- While the updates of a run do not get the mutex, and fewer than 20 have failed in a row, they
  -- change no axis, neither the active axis nor the motion buffer, and leave motion enabled and
  -- the outputs driving or not as before.
  pub failures_harmless :
      (ticks : List Tick) (b : Backoff) (s : System F)
      → s.motion.global_enabled ≡ true
      → NoMutex ticks
      → b.consecutive_skips + length ticks < 20
      → IsUntouched s (update_all ticks (b, s)).1
  failures_harmless [] b s en h lt = ground arith
  failures_harmless (t ∷ ticks) b s en (h, hs) lt =
      let (b', s') = skip_update t (b, s) in
      let u = skip-IsUntouched t b s (omega arith) in
      let c = skip-count t b s (omega arith) in
      let v = failures_harmless ticks b' s' (u.same_enabled ∙ en) hs (omega arith) in
      rw (skip-update t b s en h, update_all) (IsUntouched-trans u v)

  -- The 20th update in a row that does not get the mutex stops everything: every axis is in
  -- `error`, none is active, motion is disabled and the outputs hold no movement command.
  pub failures_stop :
      (ticks : List Tick) (b : Backoff) (s : System F)
      → s.motion.global_enabled ≡ true
      → NoMutex ticks
      → b.consecutive_skips < 20
      → b.consecutive_skips + length ticks ≡ 20
      → Halted (update_all ticks (b, s)).1.motion
  failures_stop [] b s en h lt e = absurd (omega arith)
  failures_stop (t ∷ []) b s en (h, hs) lt e =
      rw (skip-update t b s en h) (skip-Halted t b s (omega arith))
  failures_stop (t ∷ u ∷ ticks) b s en (h, hs) lt e =
      let (b', s') = skip_update t (b, s) in
      let same = skip-IsUntouched t b s (omega arith) in
      let c = skip-count t b s (omega arith) in
      rw (skip-update t b s en h, update_all)
        (failures_stop (u ∷ ticks) b' s' (same.same_enabled ∙ en) hs (omega arith) (omega arith))
