-- ===== src/Motion/LookAhead.antt =====
-- What the planner of src/motion_planner.cpp does with the moves that wait in the motion buffer, and
-- with the speed of the axis that moves.
use bisso_e350_controller.Base.{
  Bool-cases, inl, inr, ℕ, ◌≤◌, ◌<◌, ◌≡◌, refl, true, false, ◌==◌, List, [], ◌∷◌, arith, Option,
  none, some, length, get_or-set_self,
}
use bisso_e350_controller.Base.Int.{ℤ, ltb_ℤ}
use bisso_e350_controller.Motion.Types.{no_axis, distance}
use bisso_e350_controller.Motion.Control.{axis_at, blank_axis, select_target}
use bisso_e350_controller.Motion.Planner.{
  System, Readings, target_of, take_over, blend, check_look_ahead, motion_start_internal_move,
  start_popped, check_buffer_drain, note_speed, requests_of, switch_profile, refresh_profile,
  apply_dynamic_approach,
}
use bisso_e350_controller.Motion.Planner
use bisso_e350_controller.MotionBuffer.Ring.{MotionCmd, MotionBuffer, granted, pop, peek, is_empty}
use bisso_e350_controller.MotionBuffer.Fifo.{dequeue, front}
use bisso_e350_controller.MotionBuffer.Refinement.{IsValid, contents, pop_refines, cells_from-zero}

-- With the mutex of the buffer granted.
pub record Granted (r : Readings) : Type 0 where
  pub for_empty : r.empty_lock ≡ granted
  pub for_peek : r.peek_lock ≡ granted
  pub for_pop : r.pop_lock ≡ granted

module _ {F : Type 0} where
  -- What blending in a move makes of the active axis: it starts at its target and goes on to the
  -- position of the move, 10 counts or more, in the direction in which it went.
  abbrev pub Extends : MotionCmd F → System F → System F → Type 0
  Extends cmd s s' =
      let active = s.motion.shared.active_axis in
      let t = (axis_at active s.motion).target_position in
      let t' = (axis_at active s'.motion).target_position in
      (s'.motion.shared.active_axis ≡ active)
      × (s'.motion.shared.active_start_position ≡ t)
      × (t' ≡ target_of active cmd)
      × (10 ≤ distance t' t)
      × (ltb_ℤ s.motion.shared.active_start_position t ≡ ltb_ℤ t t')

  blend-take_over :
      (r : Readings) (cmd : MotionCmd F) (s : System F)
      → let active = s.motion.shared.active_axis in
        let t = (axis_at active s.motion).target_position in
        (blend r (some cmd) s).1 ≡ true
        → ((blend r (some cmd) s).0 ≡ take_over r cmd s)
          × (10 ≤ distance (target_of active cmd) t)
          × (ltb_ℤ s.motion.shared.active_start_position t ≡ ltb_ℤ t (target_of active cmd))
  unfolding blend
  blend-take_over r cmd s h = ground arith

  take_over-Extends :
      (r : Readings) (cmd : MotionCmd F) (s : System F)
      → let active = s.motion.shared.active_axis in
        let t = (axis_at active s.motion).target_position in
        s.motion.shared.active_axis < length s.motion.axes
        → 10 ≤ distance (target_of active cmd) t
        → ltb_ℤ s.motion.shared.active_start_position t ≡ ltb_ℤ t (target_of active cmd)
        → Extends cmd s (take_over r cmd s)
  unfolding take_over
  take_over-Extends r cmd s lt far way =
      let i = s.motion.shared.active_axis in
      let e =
        get_or-set_self s.motion.axes i
          (record (axis_at i s.motion) { target_position = target_of i cmd }) blank_axis lt in
      rw e (refl, refl, refl, far, way)

  look_ahead-blend :
      (r : Readings) (s : System F)
      → (check_look_ahead r s).1 ≡ true
      → check_look_ahead r s ≡ blend r (peek r.peek_lock s.buffer) s
  unfolding check_look_ahead
  look_ahead-blend r s h = ground arith

  look_ahead-front :
      (r : Readings) (q : Option (MotionCmd F)) (s : System F)
      → (blend r q s).1 ≡ true
      → (cmd : MotionCmd F) × (q ≡ some cmd)
  unfolding blend
  look_ahead-front r none s h = absurd (ground arith)
  look_ahead-front r (some cmd) s h = (cmd, refl)

  front-dequeue :
      (q q' : List (MotionCmd F)) (c : Option (MotionCmd F)) (cmd : MotionCmd F)
      → (q', c) ≡ dequeue q
      → front q ≡ some cmd
      → dequeue q ≡ (q', some cmd)
  unfolding front dequeue
  front-dequeue [] q' c cmd e f = absurd (ground arith)
  front-dequeue (x ∷ q) q' c cmd e f = ground arith

  take_over-dequeue :
      (r : Readings) (cmd : MotionCmd F) (s : System F) (blank : MotionCmd F)
      → Granted r
      → IsValid s.buffer
      → peek r.peek_lock s.buffer ≡ some cmd
      → let b = (take_over r cmd s).buffer in
        IsValid b × (dequeue (contents blank s.buffer) ≡ (contents blank b, some cmd))
  unfolding take_over
  take_over-dequeue r cmd s blank g v p =
      let (v', d, f, ready) = pop_refines blank s.buffer v in
      let at_front : front (contents blank s.buffer) ≡ some cmd = rw (← f, ← g.for_peek) p in
      rw g.for_pop (v', front-dequeue (contents blank s.buffer) _ _ cmd d at_front)

  -- With the mutex of the buffer granted, a move that is blended into the running one is the first of
  -- the queue and is taken from it; the axis goes on from its old target to the position of that
  -- move, by 10 counts or more, and never turns round.
  pub look_ahead_lem :
      (r : Readings) (s : System F) (blank : MotionCmd F)
      → Granted r
      → IsValid s.buffer
      → s.motion.shared.active_axis < length s.motion.axes
      → (check_look_ahead r s).1 ≡ true
      → let s' = (check_look_ahead r s).0 in
        IsValid s'.buffer
        × (cmd : MotionCmd F) × (dequeue (contents blank s.buffer)
            ≡ (contents blank s'.buffer, some cmd))
        × Extends cmd s s'
  look_ahead_lem r s blank g v lt h =
      let e = look_ahead-blend r s h in
      let (cmd, p) = look_ahead-front r (peek r.peek_lock s.buffer) s (rw (← e) h) in
      let flag : (blend r (some cmd) s).1 ≡ true = rw (← p, ← e) h in
      let (t, far, way) = blend-take_over r cmd s flag in
      let done : (check_look_ahead r s).0 ≡ take_over r cmd s = rw (e, p) t in
      let (v', d) = take_over-dequeue r cmd s blank g v p in
      rw done (v', cmd, d, take_over-Extends r cmd s lt far way)

module _ {F : Type 0} (profile_of : ℕ → F → ℕ) (recount : ℕ → ℤ → ℤ) where
  note-buffer :
      (r : Readings) (v : F) (found : ℕ × Option (ℕ × ℤ)) (s : System F)
      → (note_speed profile_of recount r v found s).buffer ≡ s.buffer
  note-buffer r v (cnt, none) s = refl
  note-buffer r v (cnt, some (i, t)) s = ground arith

  start-buffer :
      (r : Readings) (next : Option (MotionCmd F)) (s : System F)
      → (start_popped profile_of recount r next s).0.buffer ≡ s.buffer
  unfolding start_popped motion_start_internal_move
  start-buffer r none s = refl
  start-buffer r (some cmd) s =
      note-buffer r cmd.speed_mm_s
        (select_target 0 (requests_of profile_of recount r cmd) (0, none)) s

  start-motion :
      (r : Readings) (next : Option (MotionCmd F)) (s : System F) (b : MotionBuffer F)
      → (start_popped profile_of recount r next (record s { buffer = b })).0.motion
        ≡ (start_popped profile_of recount r next s).0.motion
  unfolding start_popped motion_start_internal_move
  start-motion r none s b = refl
  start-motion r (some cmd) s b = refl

  idle-update :
      (r : Readings) (s : System F)
      → s.motion.shared.active_axis ≡ no_axis
      → Planner.update profile_of recount r s ≡ (check_buffer_drain profile_of recount r s).0
  unfolding Planner.update
  idle-update r s n = simp n refl

  drain-nothing :
      (r : Readings) (s : System F)
      → Granted r
      → (s.buffer.count == 0) ≡ true
      → check_buffer_drain profile_of recount r s ≡ (s, false)
  unfolding check_buffer_drain is_empty
  drain-nothing r s g e = rw g.for_empty (simp e refl)

  drain-next :
      (r : Readings) (s : System F)
      → Granted r
      → r.buffer_enabled ≡ true
      → (s.buffer.count == 0) ≡ false
      → let (b, next, ready) = pop granted s.buffer in
        (check_buffer_drain profile_of recount r s)
        ≡ (start_popped profile_of recount r next (record s { buffer = b }))
  unfolding check_buffer_drain is_empty
  drain-next r s g en e = rw (g.for_empty, g.for_pop, en) (simp e refl)

  drain-dequeue :
      (r : Readings) (s : System F) (blank : MotionCmd F)
      → Granted r
      → IsValid s.buffer
      → r.buffer_enabled ≡ true
      → let s' = (check_buffer_drain profile_of recount r s).0 in
        let (rest, next) = dequeue (contents blank s.buffer) in
        IsValid s'.buffer
        × (contents blank s'.buffer ≡ rest)
        × (s'.motion ≡ (start_popped profile_of recount r next s).0.motion)
  unfolding dequeue start_popped
  drain-dequeue r s blank g v en =
      let (v', d, f, room) = pop_refines blank s.buffer v in
      elim (Bool-cases (s.buffer.count == 0)) [
        | inl e ↦
            let z =
              cells_from-zero blank s.buffer.buffer s.buffer.tail s.buffer.count (ground arith) in
            rw (drain-nothing r s g e) (v, rw z refl, rw z refl)
        | inr e ↦
            let (b, next, ready) = pop granted s.buffer in
            rw (drain-next r s g en e, start-buffer r next (record s { buffer = b }), ← d)
              (v', refl, start-motion r next s b)
      ]

  -- With no axis active, the buffer enabled and its mutex granted, an update of the planner takes
  -- the first move from the queue and tries to start it, and does nothing else: on an empty queue
  -- it changes nothing, and a move that is refused is gone.
  pub drain_lem :
      (r : Readings) (s : System F) (blank : MotionCmd F)
      → Granted r
      → IsValid s.buffer
      → r.buffer_enabled ≡ true
      → s.motion.shared.active_axis ≡ no_axis
      → let s' = Planner.update profile_of recount r s in
        let (rest, next) = dequeue (contents blank s.buffer) in
        IsValid s'.buffer
        × (contents blank s'.buffer ≡ rest)
        × (s'.motion ≡ (start_popped profile_of recount r next s).0.motion)
  drain_lem r s blank g v en n = rw (idle-update r s n) (drain-dequeue r s blank g v en)
