-- ===== src/MotionBuffer/Refinement.antt =====
-- A well-formed ring behaves as the queue of its commands, for each operation and for every
-- sequence of calls.
use bisso_e350_controller.Base.{
  ℕ, zero, suc, ◌+◌, ◌-◌, ◌%◌, ◌≤◌, ◌<◌, ◌≡◌, ◌≢◌, refl, ap, ap₂, ◌∙◌, ◌==◌, some, List, [], ◌∷◌,
  ◌++◌, arith, length, get_elem?, get_or, set, length-set, get_or-set_self, get_or-set_ne,
}
use bisso_e350_controller.Base.Int.{ℤ}
use bisso_e350_controller.MotionBuffer.Ring.{
  motion_buffer_size, MotionCmd, MotionBuffer, granted, push, pop, peek, clear,
}
use bisso_e350_controller.MotionBuffer.Fifo.{enqueue, dequeue, front}

module _ {A : Type 0} (blank : A) where
  -- The `n` cells from number `t` on, where the numbers go round at 1024.
  abbrev pub cells_from : List A → ℕ → ℕ → List A
  cells_from cells t zero = []
  cells_from cells t (suc n) =
      get_or cells (t % motion_buffer_size) blank ∷ cells_from cells (suc t) n

  length-cells_from : (cells : List A) (t n : ℕ) → length (cells_from cells t n) ≡ n
  length-cells_from cells t zero = refl
  length-cells_from cells t (suc n) = ap suc (length-cells_from cells (suc t) n)

  -- Numbers that are equal modulo 1024 are the same cell.
  cells_from-mod :
      (cells : List A) (t u n : ℕ)
      → t % motion_buffer_size ≡ u % motion_buffer_size
      → cells_from cells t n ≡ cells_from cells u n
  cells_from-mod cells t u zero e = refl
  cells_from-mod cells t u (suc n) e =
      ap₂ ◌∷◌ (ap (λ (i : ℕ). get_or cells i blank) e)
        (cells_from-mod cells (suc t) (suc u) n (omega arith))

  -- A write behind the cells extends them.
  cells_from-set :
      (cells : List A) (x : A) (t n h : ℕ)
      → length cells ≡ motion_buffer_size
      → n < motion_buffer_size
      → h ≡ (t + n) % motion_buffer_size
      → cells_from (set cells h x) t (suc n) ≡ cells_from cells t n ++ (x ∷ [])
  cells_from-set cells x t zero h l lt e =
      ap (λ y. y ∷ []) (rw (← here) (get_or-set_self cells h x blank (omega arith)))
    where
      here : h ≡ t % motion_buffer_size
      here = omega arith
  cells_from-set cells x t (suc n) h l lt e =
      ap₂ ◌∷◌ (get_or-set_ne cells h (t % motion_buffer_size) x blank (omega arith))
        (cells_from-set cells x (suc t) n h l (omega arith) (omega arith))

  pub cells_from-zero : (cells : List A) (t n : ℕ) → n ≡ 0 → cells_from cells t n ≡ []
  cells_from-zero cells t zero e = refl
  cells_from-zero cells t (suc n) e = absurd (omega arith)

  -- The oldest cell, and the others from the next number on, reduced as the code does it.
  cells_from-pos :
      (cells : List A) (t n : ℕ)
      → n ≢ 0
      → t < motion_buffer_size
      → cells_from cells t n
        ≡ get_or cells t blank ∷ cells_from cells ((t + 1) % motion_buffer_size) (n - 1)
  cells_from-pos cells t zero e h = absurd (e refl)
  cells_from-pos cells t (suc n) e h =
      ap₂ ◌∷◌ (ap (λ (i : ℕ). get_or cells i blank) (omega arith)) (
        cells_from-mod cells (suc t) ((t + 1) % motion_buffer_size) n (omega arith)
        ∙ ap (cells_from cells ((t + 1) % motion_buffer_size)) (less n))
    where
      less : (n : ℕ) → n ≡ suc n - 1
      less n = omega arith

  get_elem?-get_or :
      (cells : List A) (i : ℕ) → i < length cells → get_elem? cells i ≡ some (get_or cells i blank)
  get_elem?-get_or [] i h = absurd (omega arith)
  get_elem?-get_or (x ∷ cells) zero h = refl
  get_elem?-get_or (x ∷ cells) (suc i) h = get_elem?-get_or cells i (omega arith)

module _ {F : Type 0} where
  pub record IsValid (b : MotionBuffer F) : Type 0 where
    pub size : length b.buffer ≡ motion_buffer_size
    pub count_in : b.count ≤ motion_buffer_size
    pub tail_in : b.tail < motion_buffer_size
    pub head_at : b.head ≡ (b.tail + b.count) % motion_buffer_size

module _ {F : Type 0} (blank : MotionCmd F) where
  -- The commands in the buffer, the oldest first.
  abbrev pub contents : MotionBuffer F → List (MotionCmd F)
  contents b = cells_from blank b.buffer b.tail b.count

  pub clear_refines :
      (b : MotionBuffer F)
      → IsValid b
      → IsValid (clear granted b) × (contents (clear granted b) ≡ [])
  unfolding clear
  clear_refines b v = (omega (arith, v.size), refl)

  -- Of a well-formed ring, `pop` gives the command and leaves the queue that the specification
  -- gives and leaves, and signals that there is room exactly when the buffer was full; `peek` gives
  -- the same command; the ring stays well formed.
  pub pop_refines :
      (b : MotionBuffer F)
      → IsValid b
      → let (b', cmd, ready) = pop granted b in
        IsValid b'
        × ((contents b', cmd) ≡ dequeue (contents b))
        × (peek granted b ≡ front (contents b))
        × (ready ≡ (b.count == motion_buffer_size))
  unfolding pop peek dequeue front
  pop_refines b v = ground (
    arith,
    cells_from-zero blank b.buffer b.tail b.count,
    cells_from-pos blank b.buffer b.tail b.count,
    get_elem?-get_or blank b.buffer b.tail,
  )

module _ {F : Type 0} (blank : MotionCmd F) (to_counts : ℕ → F → ℤ) where
  -- The command that a request becomes.
  abbrev pub command : F → F → F → F → F → MotionCmd F
  command x y z a speed = record {
    x_counts = to_counts 0 x;
    y_counts = to_counts 1 y;
    z_counts = to_counts 2 z;
    a_counts = to_counts 3 a;
    speed_mm_s = speed;
  }

  -- On a well-formed ring, `push` answers as the queue does, and leaves the queue with the request
  -- in counts at its end, or, when 1024 commands wait, as it was; the ring stays well formed.
  pub push_refines :
      (x y z a speed : F) (b : MotionBuffer F)
      → IsValid b
      → let (b', done) = push to_counts granted x y z a speed b in
        IsValid b'
        × ((contents blank b', done) ≡ enqueue (command x y z a speed) (contents blank b))
  unfolding push enqueue
  push_refines x y z a speed b v = ground (
    arith,
    length-cells_from blank b.buffer b.tail b.count,
    cells_from-set blank b.buffer (command x y z a speed) b.tail b.count b.head,
    length-set b.buffer b.head (command x y z a speed),
  )
