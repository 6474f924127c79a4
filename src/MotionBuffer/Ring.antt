-- ===== src/MotionBuffer/Ring.antt =====
-- The class `MotionBuffer` of src/motion_buffer.cpp: the operations under the lock, and the public
-- ones that take it. Positions arrive as floats; `to_counts axis p` is the cast of a position times
-- the scale of its axis to an `int32_t`, and is a parameter. The buffer was allocated by `init`.
use bisso_e350_controller.Base.{
  ℕ, ◌+◌, ◌-◌, ◌%◌, Bool, true, false, not, ◌&&◌, if◌then◌else◌, leb, ◌==◌, Option, none, List,
  get_elem?, set,
}
use bisso_e350_controller.Base.Int.{ℤ}

abbrev pub motion_buffer_size : ℕ
motion_buffer_size = 1024

-- `motion_cmd_t`, the speed being a float.
pub record MotionCmd (F : Type 0) : Type 0 where
  pub x_counts : ℤ
  pub y_counts : ℤ
  pub z_counts : ℤ
  pub a_counts : ℤ
  pub speed_mm_s : F

pub record MotionBuffer (F : Type 0) : Type 0 where
  pub buffer : List (MotionCmd F)
  pub head : ℕ
  pub tail : ℕ
  pub count : ℕ

-- What an attempt to take `buffer_mutex` meets: no mutex, a timeout of 100 ms, or the lock.
pub data Lock : Type 0 where
  no_mutex timed_out granted : Lock

module _ {F : Type 0} (to_counts : ℕ → F → ℤ) where
  unfoldable pub push_unsafe : F → F → F → F → F → MotionBuffer F → MotionBuffer F × Bool
  push_unsafe x y z a speed b =
      let cmd : MotionCmd F = record {
        x_counts = to_counts 0 x;
        y_counts = to_counts 1 y;
        z_counts = to_counts 2 z;
        a_counts = to_counts 3 a;
        speed_mm_s = speed;
      } in
      if leb motion_buffer_size b.count then (b, false) else (
        record b {
          buffer = set b.buffer b.head cmd;
          head = (b.head + 1) % motion_buffer_size;
          count = b.count + 1;
        },
        true,
      )

  unfoldable pub push : Lock → F → F → F → F → F → MotionBuffer F → MotionBuffer F × Bool
  unfolding push_unsafe
  push granted x y z a speed b = push_unsafe x y z a speed b
  push _ x y z a speed b = (b, false)

module _ {F : Type 0} where
  -- The command goes out through `cmd`; it is `none` when the buffer is empty.
  unfoldable pub pop_unsafe : MotionBuffer F → MotionBuffer F × Option (MotionCmd F)
  pop_unsafe b = if b.count == 0 then (b, none) else (
    record b { tail = (b.tail + 1) % motion_buffer_size; count = b.count - 1 },
    get_elem? b.buffer b.tail,
  )

  unfoldable pub peek_unsafe : MotionBuffer F → Option (MotionCmd F)
  peek_unsafe b = if b.count == 0 then none else get_elem? b.buffer b.tail

  abbrev pub is_full_unsafe : MotionBuffer F → Bool
  is_full_unsafe b = leb motion_buffer_size b.count

  abbrev pub is_empty_unsafe : MotionBuffer F → Bool
  is_empty_unsafe b = b.count == 0

  -- With the command comes the flag that `EVENT_MOTION_BUFFER_READY` was set.
  unfoldable pub pop : Lock → MotionBuffer F → MotionBuffer F × Option (MotionCmd F) × Bool
  unfolding pop_unsafe
  pop granted b = let (b', cmd) = pop_unsafe b in (b', cmd, is_full_unsafe b && not (b.count == 0))
  pop _ b = (b, none, false)

  unfoldable pub peek : Lock → MotionBuffer F → Option (MotionCmd F)
  unfolding peek_unsafe
  peek granted b = peek_unsafe b
  peek _ b = none

  unfoldable pub is_full : Lock → MotionBuffer F → Bool
  is_full granted b = is_full_unsafe b
  is_full _ b = true

  unfoldable pub is_empty : Lock → MotionBuffer F → Bool
  is_empty granted b = is_empty_unsafe b
  is_empty _ b = true

  unfoldable pub clear : Lock → MotionBuffer F → MotionBuffer F
  clear granted b = record b { head = 0; tail = 0; count = 0 }
  clear _ b = b

  -- Without the lock the count is read all the same.
  unfoldable pub available : Lock → MotionBuffer F → ℕ
  available lock b = b.count
